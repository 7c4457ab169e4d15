-- ===== src/RemoteCache/Signing/Envelope/RoundTrip.antt =====
-- Envelopes split into what was wrapped, and whatever splits was wrapped so.
use tine.Base.{
  ℕ, ◌^◌, ◌≤◌, ◌<◌, ◌≡◌, refl, sym, ap, subst, ◌∙◌, true, ◌∷◌, ◌++◌, append_assoc, Bytes, length,
  take, drop, length-append, drop-drop, take-append_of, drop-append_of, take-append, drop-append,
  le→ltb_false, ◌==◌, arith,
}
use tine.Base.Struct.{
  big_endian, from_big_endian, fixed_width, fixed_width-length, length-big_endian,
  from_big_endian-big_endian,
}
use tine.RemoteCache.Outcome.{ok}
use tine.RemoteCache.Signing.Envelope.{
  magic, version, ed25519, key_id_length, header_size, envelope, split, take_signature, byte_at,
}

take_signature_written :
    (named signature payload : Bytes)
    → take_signature named (length signature) (signature ++ payload)
      ≡ ok (record { named = named; algorithm = ed25519; signature = signature; payload = payload })
take_signature_written named signature payload =
    let same : (length signature == length signature) ≡ true = ground arith in
    rw (take-append signature payload, drop-append signature payload) (rw same)

-- The tests of the header passed, from the fields that they read.
split_fields :
    (blob named size after : Bytes)
    → header_size ≤ length blob
    → take 4 blob ≡ magic
    → byte_at 4 blob ≡ version
    → byte_at 5 blob ≡ ed25519
    → take key_id_length (drop 6 blob) ≡ named
    → take 2 (drop 14 blob) ≡ size
    → drop header_size blob ≡ after
    → split blob ≡ take_signature named (from_big_endian 0 size) after
unfolding split
split_fields blob named size after l m v a n s d =
    rw (le→ltb_false (length blob) header_size l, m, v, a, n, s, d)

-- What was wrapped splits into its parts.
pub split-envelope :
    (named signature payload : Bytes)
    → length named ≡ key_id_length
    → length signature < 2 ^ 16
    → split (envelope named signature payload)
      ≡ ok (record { named = named; algorithm = ed25519; signature = signature; payload = payload })
unfolding envelope
split-envelope named signature payload n s =
    let size = big_endian 2 (length signature) in
    let after = signature ++ payload in
    let field : fixed_width key_id_length named ≡ named =
      subst (λ (k : ℕ). fixed_width k named ≡ named) n (fixed_width-length named) in
    let behind : fixed_width key_id_length named ++ size ++ after ≡ named ++ (size ++ after) =
      ap (λ (bs : Bytes). bs ++ size ++ after) field ∙ append_assoc named size after in
    let blob = magic ++ (version ∷ ed25519 ∷ (named ++ (size ++ after))) in
    let z = length-big_endian 2 (length signature) in
    let back : from_big_endian 0 size ≡ length signature =
      from_big_endian-big_endian 2 (length signature) s in
    let ninth : drop key_id_length (named ++ (size ++ after)) ≡ size ++ after =
      drop-append_of key_id_length named _ n in
    ap (λ (bs : Bytes). split (magic ++ (version ∷ ed25519 ∷ bs))) behind
    ∙ split_fields blob named size after
        (omega (arith, length-append named (size ++ after), length-append size after)) refl refl
        refl (take-append_of key_id_length named _ n)
        (ap (take 2) ninth ∙ take-append_of 2 size after z)
        (sym (drop-drop 2 key_id_length (named ++ (size ++ after)))
          ∙ ap (drop 2) ninth
          ∙ drop-append_of 2 size after z)
    ∙ ap (λ (k : ℕ). take_signature named k after) back
    ∙ take_signature_written named signature payload
