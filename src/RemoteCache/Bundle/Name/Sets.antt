-- ===== src/RemoteCache/Bundle/Name/Sets.antt =====
-- A bundle's name is a name of the set: neither the order of the digests nor their repetition counts.
use tine.Base.{
  ◌≡◌, refl, sym, ap, ◌∙◌, Bool, true, false, ◌||◌, List, [], ◌∷◌, Bytes, All, inl, inr, Bool-cases,
  All-imp,
}
use tine.Base.Text.{Text}
use tine.RemoteCache.Reapi.Digest.{Digest}
use tine.RemoteCache.Bundle.Name.{
  same_digest, digest_lt, insert_digest, sorted_set, member_lines, bundle_name,
}
use tine.RemoteCache.Bundle.Name.Order.{
  same_digest→eq, same_digest_refl, digest_lt_irrefl, digest_lt_trans, digest_lt_connex,
  digest_lt_flip,
}

abbrev pub has : Digest → List Digest → Bool
has d [] = false
has d (a ∷ others) = same_digest a d || has d others

abbrev IsAbove : Digest → List Digest → Type 0
IsAbove a = All (λ (b : Digest). digest_lt a b ≡ true)

abbrev IsSorted : List Digest → Type 0
IsSorted [] = Unit
IsSorted (a ∷ others) = IsAbove a others × IsSorted others

IsAbove-trans : (a b : Digest) (l : List Digest) → digest_lt a b ≡ true → IsAbove b l → IsAbove a l
IsAbove-trans a b l h = All-imp _ _ l (λ d. digest_lt_trans a b d h)

IsAbove-insert_digest :
    (x a : Digest) (l : List Digest)
    → digest_lt x a ≡ true
    → IsAbove x l
    → IsAbove x (insert_digest a l)
unfolding insert_digest
IsAbove-insert_digest x a [] h k = (h, tt)
IsAbove-insert_digest x a (b ∷ bs) h k = elim (Bool-cases (digest_lt a b)) [
  | inl e ↦ rw e (h, k)
  | inr e ↦ elim (Bool-cases (same_digest a b)) [
    | inl f ↦ rw (e, f) k
    | inr f ↦ rw (e, f) (k.0, IsAbove-insert_digest x a bs h k.1)
  ]
]

insert_digest-IsSorted : (a : Digest) (l : List Digest) → IsSorted l → IsSorted (insert_digest a l)
unfolding insert_digest
insert_digest-IsSorted a [] h = (tt, tt)
insert_digest-IsSorted a (b ∷ bs) h = elim (Bool-cases (digest_lt a b)) [
  | inl e ↦ rw e ((e, IsAbove-trans a b bs e h.0), h)
  | inr e ↦ elim (Bool-cases (same_digest a b)) [
    | inl f ↦ rw (e, f) h
    | inr f ↦
        rw (e, f)
          (
            IsAbove-insert_digest b a bs (digest_lt_flip a b e f) h.0,
            insert_digest-IsSorted a bs h.1,
          )
  ]
]

sorted_set-IsSorted : (l : List Digest) → IsSorted (sorted_set l)
unfolding sorted_set
sorted_set-IsSorted [] = tt
sorted_set-IsSorted (a ∷ l) = insert_digest-IsSorted a (sorted_set l) (sorted_set-IsSorted l)

has-insert_digest :
    (d a : Digest) (l : List Digest) → has d (insert_digest a l) ≡ (same_digest a d || has d l)
unfolding insert_digest
has-insert_digest d a [] = refl
has-insert_digest d a (b ∷ bs) = elim (Bool-cases (digest_lt a b)) [
  | inl e ↦ rw e refl
  | inr e ↦ elim (Bool-cases (same_digest a b)) [
    | inl f ↦
        let same = same_digest→eq a b f in
        let both : same_digest a d ≡ same_digest b d = ap (λ (x : Digest). same_digest x d) same in
        rw (e, f, both) (or_idem (same_digest b d) (has d bs))
    | inr f ↦
        rw (e, f, has-insert_digest d a bs) (or_swap (same_digest b d) (same_digest a d) (has d bs))
  ]
]
  where
    or_idem : (p q : Bool) → (p || q) ≡ (p || (p || q))
    or_idem true q = refl
    or_idem false q = refl

    or_swap : (p q r : Bool) → (p || (q || r)) ≡ (q || (p || r))
    or_swap true true r = refl
    or_swap true false r = refl
    or_swap false true r = refl
    or_swap false false r = refl

has-sorted_set : (d : Digest) (l : List Digest) → has d (sorted_set l) ≡ has d l
unfolding sorted_set
has-sorted_set d [] = refl
has-sorted_set d (a ∷ l) =
    has-insert_digest d a (sorted_set l) ∙ ap (λ b. same_digest a d || b) (has-sorted_set d l)

has_above : (a : Digest) (l : List Digest) → IsAbove a l → has a l ≡ false
has_above a [] h = refl
has_above a (b ∷ bs) h = elim (Bool-cases (same_digest b a)) [
  | inl e ↦
      let same = same_digest→eq b a e in
      absurd (
        let clash : false ≡ true = sym (digest_lt_irrefl a) ∙ ap (digest_lt a) (sym same) ∙ h.0 in
        cc)
  | inr e ↦ rw e (has_above a bs h.1)
]

abbrev pub SameMembers : List Digest → List Digest → Type 0
SameMembers xs ys = (d : Digest) → has d xs ≡ has d ys

tails :
    (x : Digest) (xs ys : List Digest)
    → IsAbove x xs
    → IsAbove x ys
    → SameMembers (x ∷ xs) (x ∷ ys)
    → SameMembers xs ys
tails x xs ys h k same d = elim (Bool-cases (same_digest x d)) [
  | inl e ↦
      let at = same_digest→eq x d e in
      ap (λ (z : Digest). has z xs) (sym at)
      ∙ has_above x xs h
      ∙ sym (has_above x ys k)
      ∙ ap (λ (z : Digest). has z ys) at
  | inr e ↦ rw e at (same d)
]

-- Of two heads with the same members behind them, none is below the other.
not_below :
    (x y : Digest) (xs ys : List Digest)
    → IsAbove y ys
    → SameMembers (x ∷ xs) (y ∷ ys)
    → digest_lt x y ≡ false
not_below x y xs ys k same = elim (Bool-cases (digest_lt x y)) [
  | inl e ↦
      let gone = has_above x (y ∷ ys) (e, IsAbove-trans x y ys e k) in
      let here : has x (x ∷ xs) ≡ true = rw (same_digest_refl x) in
      absurd (let clash : false ≡ true = sym gone ∙ sym (same x) ∙ here in cc)
  | inr e ↦ e
]

sorted_unique : (xs ys : List Digest) → IsSorted xs → IsSorted ys → SameMembers xs ys → xs ≡ ys
sorted_unique [] [] h k same = refl
sorted_unique [] (y ∷ ys) h k same =
    absurd (let at = same y in let here = rw (same_digest_refl y) at at in cc)
sorted_unique (x ∷ xs) [] h k same =
    absurd (let at = same x in let here = rw (same_digest_refl x) at at in cc)
sorted_unique (x ∷ xs) (y ∷ ys) h k same =
    let heads : x ≡ y =
      digest_lt_connex x y (not_below x y xs ys k.0 same)
        (not_below y x ys xs h.0 (λ d. sym (same d))) in
    let k' : IsAbove x ys = rw (← heads) at (k.0) in
    let same' : SameMembers (x ∷ xs) (x ∷ ys) = rw (← heads) at same in
    ap (λ (z : Digest). z ∷ xs) heads
    ∙ ap (◌∷◌ y) (sorted_unique xs ys h.1 k.1 (tails x xs ys h.0 k' same'))

-- Digests with the same members name one bundle.
pub bundle_name-SameMembers :
    (sha256 : Bytes → Text) (xs ys : List Digest)
    → SameMembers xs ys
    → bundle_name sha256 xs ≡ bundle_name sha256 ys
unfolding bundle_name
bundle_name-SameMembers sha256 xs ys same =
    ap (λ (l : List Digest). sha256 (member_lines l))
      (sorted_unique (sorted_set xs) (sorted_set ys) (sorted_set-IsSorted xs)
        (sorted_set-IsSorted ys) (λ d. has-sorted_set d xs ∙ same d ∙ sym (has-sorted_set d ys)))
