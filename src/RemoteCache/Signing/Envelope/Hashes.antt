-- ===== src/RemoteCache/Signing/Envelope/Hashes.antt =====
-- What the hash test lets through, and that a signature's bytes name one action and one payload.
use tine.Base.{
  ℕ, ◌≡◌, refl, sym, ap, ◌∙◌, ◌↔◌, true, false, not, ◌&&◌, [], ◌∷◌, ◌++◌, Bytes, All, All-imp, ◌<◌,
  length, take, drop, is_nil, ◌==◌, take-append_of, drop-append_of, arith, inl, inr, Bool-cases,
}
use mathlib.Core.Bool.{false≢true}
use tine.Base.Text.{Text, encode, encode-ascii}
use tine.RemoteCache.Outcome.{ok, then_raise-eq-ok}
use tine.RemoteCache.Signing.Envelope.{
  among, left_strip, right_strip, strip, is_sha256_hex, hex_characters, hash_length, signed, domain,
}

abbrev pub IsHex : ℕ → Type 0
IsHex c = among hex_characters c ≡ true

pub record IsSha256Hex (t : Text) : Type 0 where
  pub width : length t ≡ hash_length
  pub digits : All IsHex t

module _ (cs : Text) where
  abbrev Goes : ℕ → Type 0
  Goes c = among cs c ≡ true

  kept-ne-nil : (c : ℕ) (t : Text) → among cs c ≡ false → is_nil (right_strip cs (c ∷ t)) ≡ false
  unfolding right_strip
  kept-ne-nil c t e = rw e (ground arith)

  -- Nothing is left of a text exactly when every character of it may go.
  strip-nil→All : (t : Text) → is_nil (strip cs t) ≡ true → All Goes t
  unfolding strip left_strip
  strip-nil→All [] h = tt
  strip-nil→All (c ∷ t) h = elim (Bool-cases (among cs c)) [
    | inl e ↦ (e, strip-nil→All t (rw e at h))
    | inr e ↦ absurd (false≢true (sym (kept-ne-nil c t e) ∙ (rw e at h)))
  ]

  All→strip-nil : (t : Text) → All Goes t → is_nil (strip cs t) ≡ true
  unfolding strip left_strip right_strip
  All→strip-nil [] h = refl
  All→strip-nil (c ∷ t) h = rw h.0 (All→strip-nil t h.1)

-- The test accepts exactly the texts of 64 lower-case hex digits.
pub is_sha256_hex_iff : (t : Text) → (is_sha256_hex t ≡ true) ↔ IsSha256Hex t
unfolding is_sha256_hex
is_sha256_hex_iff t = (to, from)
  where
    to : (length t == hash_length && is_nil (strip hex_characters t)) ≡ true → IsSha256Hex t
    to h = record { width = ground arith; digits = strip-nil→All hex_characters t (ground arith) }

    from : IsSha256Hex t → (length t == hash_length && is_nil (strip hex_characters t)) ≡ true
    from h = rw (All→strip-nil hex_characters t h.digits, h.width)

IsHex-ascii : (c : ℕ) → IsHex c → c < 128
unfolding among
IsHex-ascii c h = ground arith

pub encode-hex : (t : Text) → IsSha256Hex t → encode t ≡ t
encode-hex t h = encode-ascii t (All-imp IsHex (λ (c : ℕ). c < 128) t IsHex-ascii h.digits)

signed-eq-ok :
    (action payload : Bytes) {m : Bytes}
    → signed action payload ≡ ok m
    → IsSha256Hex action × (m ≡ domain ++ (action ++ payload))
unfolding signed
signed-eq-ok action payload {m} h =
    let (bad, h') = then_raise-eq-ok _ (not (is_sha256_hex action)) _ h in
    let hex : IsSha256Hex action = (is_sha256_hex_iff action).0 (ground arith) in
    let same : domain ++ (encode action ++ payload) ≡ m = cc in
    (hex, sym same ∙ rw (encode-hex action hex))

-- One signature covers one action and one payload: the hash's fixed width tells them apart.
pub signed_injective :
    (a b : Text) (p q : Bytes) {m : Bytes}
    → signed a p ≡ ok m
    → signed b q ≡ ok m
    → (a ≡ b) × (p ≡ q)
signed_injective a b p q h k =
    let (x, e) = signed-eq-ok a p h in
    let (y, f) = signed-eq-ok b q k in
    let same : a ++ p ≡ b ++ q =
      sym (drop-append_of 17 domain (a ++ p) refl)
      ∙ ap (drop 17) (sym e ∙ f)
      ∙ drop-append_of 17 domain (b ++ q) refl in
    (
      sym (take-append_of hash_length a p x.width)
          ∙ ap (take hash_length) same
          ∙ take-append_of hash_length b q y.width,
      sym (drop-append_of hash_length a p x.width)
          ∙ ap (drop hash_length) same
          ∙ drop-append_of hash_length b q y.width,
    )
