-- ===== src/RemoteCache/ReadAll.antt =====
-- The loops that read items off the front of some bytes until none are left: `fields` and
-- `unpack_varints` of remote_cache/wire.py, `unpack` of remote_cache/bundle.py. Each round takes a
-- byte at least, so the length is fuel enough.
use tine.Base.{
  ℕ, zero, suc, ◌≤◌, ◌<◌, ◌≡◌, ◌≢◌, refl, ◌∙◌, subst, List, [], ◌∷◌, Bytes, length, inl, inr, arith,
}
use tine.RemoteCache.Outcome.{Result, ok, err, ◌>>=◌, no_fuel, Result-cases, >>=-eq-ok}

module _ {A : Type 0} (read : Bytes → Result (A × Bytes)) where
  unfoldable pub read_all_in : ℕ → Bytes → Result (List A)
  read_all_in fuel [] = ok []
  read_all_in zero (b ∷ bs) = err no_fuel
  read_all_in (suc fuel) (b ∷ bs) = do
    one ← read (b ∷ bs)
    others ← read_all_in fuel one.1
    ok (one.0 ∷ others)

  unfoldable pub read_all : Bytes → Result (List A)
  unfolding read_all_in
  read_all bytes = read_all_in (length bytes) bytes

-- A reader that takes a byte at least.
abbrev pub Takes : {A : Type 0} → (Bytes → Result (A × Bytes)) → Type 0
Takes {A} read = (bs : Bytes) (one : A × Bytes) → read bs ≡ ok one → length one.1 < length bs

module _ {A : Type 0} (read : Bytes → Result (A × Bytes)) (takes : Takes read) where
  -- Rounds beyond the input's length change nothing.
  read_all_in_rounds :
      (r s : ℕ) (bs : Bytes)
      → length bs ≤ r
      → length bs ≤ s
      → read_all_in read r bs ≡ read_all_in read s bs
  unfolding read_all_in
  read_all_in_rounds zero zero [] p q = refl
  read_all_in_rounds zero (suc s) [] p q = refl
  read_all_in_rounds (suc r) zero [] p q = refl
  read_all_in_rounds (suc r) (suc s) [] p q = refl
  read_all_in_rounds zero s (b ∷ bs) p q = absurd (omega arith)
  read_all_in_rounds (suc r) zero (b ∷ bs) p q = absurd (omega arith)
  read_all_in_rounds (suc r) (suc s) (b ∷ bs) p q = elim (Result-cases (read (b ∷ bs))) [
    | inl (one, e) ↦
        let less = takes (b ∷ bs) one e in
        rw (e, read_all_in_rounds r s one.1 (omega arith) (omega arith))
    | inr (why, e) ↦ rw e
  ]

  -- What is read off some bytes is the first item and what is read behind it.
  pub read_all-cons :
      (b : ℕ) (bs : Bytes)
      → read_all read (b ∷ bs)
        ≡ (do one ← read (b ∷ bs); others ← read_all read one.1; ok (one.0 ∷ others))
  unfolding read_all read_all_in
  read_all-cons b bs = elim (Result-cases (read (b ∷ bs))) [
    | inl (one, e) ↦
        let less = takes (b ∷ bs) one e in
        rw (e, read_all_in_rounds (length bs) (length one.1) one.1 (omega arith) (omega arith))
    | inr (why, e) ↦ rw e
  ]

  module _ (fine : (bs : Bytes) → read bs ≢ err no_fuel) where
    read_all_in-ne-no_fuel :
        (r : ℕ) (bs : Bytes) → length bs ≤ r → read_all_in read r bs ≢ err no_fuel
    unfolding read_all_in
    read_all_in-ne-no_fuel zero [] p h = cc
    read_all_in-ne-no_fuel (suc r) [] p h = cc
    read_all_in-ne-no_fuel zero (b ∷ bs) p h = absurd (omega arith)
    read_all_in-ne-no_fuel (suc r) (b ∷ bs) p h = elim (Result-cases (read (b ∷ bs))) [
      | inl (one, e) ↦
          let less = takes (b ∷ bs) one e in
          let p' : length one.1 ≤ r = omega arith in
          ground (arith, e, read_all_in-ne-no_fuel r one.1 p')
      | inr (why, e) ↦ fine (b ∷ bs) (cc)
    ]

    -- The loop never runs out of rounds.
    pub read_all-ne-no_fuel : (bs : Bytes) → read_all read bs ≢ err no_fuel
    unfolding read_all
    read_all-ne-no_fuel bs = read_all_in-ne-no_fuel (length bs) bs (omega arith)

  pub read_all-step :
      (bs : Bytes) (one : A × Bytes) {others : List A}
      → read bs ≡ ok one
      → read_all read one.1 ≡ ok others
      → read_all read bs ≡ ok (one.0 ∷ others)
  read_all-step [] one h k = let less = takes [] one h in absurd (omega arith)
  read_all-step (b ∷ bs) one h k = read_all-cons b bs ∙ rw (h, k)

-- What holds of nothing, and of an item and what follows if of what follows, holds of all.
module _ {A : Type 0} (read : Bytes → Result (A × Bytes)) (P : Bytes → List A → Type 0)
    (none_left : P [] [])
    (more : (bs : Bytes) (one : A × Bytes) (others : List A)
      → read bs ≡ ok one
      → P one.1 others
      → P bs (one.0 ∷ others)) where
  read_all_in_induction :
      (r : ℕ) (bs : Bytes) (xs : List A) → read_all_in read r bs ≡ ok xs → P bs xs
  unfolding read_all_in
  read_all_in_induction r [] [] h = none_left
  read_all_in_induction r [] (x ∷ xs) h = absurd (cc)
  read_all_in_induction zero (b ∷ bs) xs h = absurd (cc)
  read_all_in_induction (suc r) (b ∷ bs) xs h =
      let (one, e, k) = >>=-eq-ok (read (b ∷ bs)) _ h in
      let (others, o, j) = >>=-eq-ok (read_all_in read r one.1) _ k in
      let same : one.0 ∷ others ≡ xs = cc in
      subst (P (b ∷ bs)) same (more (b ∷ bs) one others e (read_all_in_induction r one.1 others o))

  pub read_all_induction : (bs : Bytes) (xs : List A) → read_all read bs ≡ ok xs → P bs xs
  unfolding read_all
  read_all_induction bs xs h = read_all_in_induction (length bs) bs xs h
