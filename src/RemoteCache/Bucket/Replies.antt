-- ===== src/RemoteCache/Bucket/Replies.antt =====
-- What an object read from the bucket is: whole, within the limit, or plainly not there.
use tine.Base.{
  ℕ, ◌+◌, ◌≤◌, ◌≡◌, refl, sym, ap, subst, ◌∙◌, ==_iff, true, Option, none, some, [], ◌∷◌, Bytes,
  zero, suc, length, take, ltb, leb, ◌==◌, arith, inl, inr, Bool-cases,
}
use tine.Base.Text.{Text}
use tine.RemoteCache.Outcome.{ok}
use tine.RemoteCache.Bucket.{
  Reply, answered, http_error, os_error, World, Net, url_of, received, get,
}

-- A cut that stays below its bound cut nothing off.
take_whole : (n : ℕ) (bs : Bytes) → length (take (suc n) bs) ≤ n → take (suc n) bs ≡ bs
take_whole n [] h = refl
take_whole zero (b ∷ bs) h = absurd (omega (arith, h))
take_whole (suc n) (b ∷ bs) h = ap (◌∷◌ b) (take_whole n bs (omega (arith, h)))

take_within : (n m : ℕ) (bs : Bytes) → m ≡ suc n → length (take m bs) ≤ n → take m bs ≡ bs
take_within n zero bs e h = absurd (omega (arith, e))
take_within n (suc m) bs e h =
    let same : m ≡ n = omega (arith, e) in take_whole m bs (omega (arith, same, h))

-- The reply behind what was read: no object is a 404, and bytes are a whole body within the limit.
abbrev pub Received : ℕ → Option Bytes → Reply → Type 0
Received limit none reply = reply ≡ http_error 404
Received limit (some bytes) reply =
    (declared : ℕ) × (reply ≡ answered declared bytes) × (length bytes ≤ limit)

module _ {Time : Type 0} (w : World Time) (base_url : Text) (cooldown : ℕ) where
  open w use {State}

  received-Received :
      (limit : ℕ) (reply : Reply) (s : Net State) {found : Option Bytes}
      → (received w base_url cooldown limit reply s).0 ≡ ok found
      → Received limit found reply
  received-Received limit (answered declared body) s {found} h =
      elim (Bool-cases (ltb limit declared)) [
        | inl e ↦ absurd (let h' = rw e at h in cc)
        | inr e ↦
            let within : leb declared limit ≡ true = ground (arith, e) in
            elim (Bool-cases (ltb limit (length (take (limit + 1) body)))) [
              | inl f ↦ absurd (let h' = rw (e, within, f) at h in cc)
              | inr f ↦
                  let h' = rw (e, within, f) at h in
                  let small : length (take (limit + 1) body) ≤ limit = ground (arith, f) in
                  let whole : take (limit + 1) body ≡ body =
                    take_within limit (limit + 1) body (omega arith) small in
                  let same : some (take (limit + 1) body) ≡ found = cc in
                  let same' : some body ≡ found = ap (λ (b : Bytes). some b) (sym whole) ∙ same in
                  subst (λ (o : Option Bytes). Received limit o (answered declared body)) same'
                    (declared, refl, rw whole at small)
            ]
      ]
  received-Received limit (http_error code) s {found} h = elim (Bool-cases (code == 404)) [
    | inl e ↦
        let h' = rw e at h in
        let same : none ≡ found = cc in
        subst (λ (o : Option Bytes). Received limit o (http_error code)) same
          (ap http_error ((==_iff code 404).0 e))
    | inr e ↦ absurd (let h' = rw e at h in cc)
  ]
  received-Received limit os_error s {found} h = absurd (cc)

  -- Where a read returns, the endpoint was asked and answered: with the whole object, which is within
  -- the limit, or with a 404. Nothing else passes for an object that is not there.
  pub get-Received :
      (key : Text) (limit : ℕ) (s : Net State) {found : Option Bytes}
      → (get w base_url cooldown key limit s).0 ≡ ok found
      → Received limit found (w.open_url (url_of w base_url cooldown key) (w.monotonic s.world).1).0
  unfolding get
  get-Received key limit s {found} h =
      let (now, world) = w.monotonic s.world in
      elim (Bool-cases (ltb (w.monotonic s.world).0 s.resting_until)) [
        | inl e ↦ absurd (let h' = rw e at h in cc)
        | inr e ↦ let h' = rw e at h in received-Received limit _ _ h'
      ]
