-- ===== src/RemoteCache/Shim/Stream/Resource.antt =====
-- A resource name that is written as Buck2 writes it reads back as its digest.
use tine.Base.{
  ℕ, ◌≡◌, refl, ap, ◌∙◌, true, false, List, [], ◌∷◌, ◌++◌, All, All-imp, arith, same_bytes, ◌==◌,
}
use tine.Base.Decimal.{decimal, int_text-decimal, decimal-AreDigits}
use tine.Base.Text.{Text, text_of}
use tine.RemoteCache.Outcome.{ok}
use tine.RemoteCache.Reapi.Digest.{Digest}
use tine.RemoteCache.Signing.Envelope.{among, is_sha256_hex}
use tine.RemoteCache.Signing.Envelope.Hashes.{IsHex, IsSha256Hex, is_sha256_hex_iff}
use tine.RemoteCache.Shim.Stream.{push, split_path, behind_blobs, resource_digest}

-- A part of a path.
abbrev pub IsPart : Text → Type 0
IsPart = All (λ (c : ℕ). (c == b'/') ≡ false)

split_path-IsPart : (p : Text) → IsPart p → split_path p ≡ p ∷ []
unfolding split_path
split_path-IsPart [] h = refl
split_path-IsPart (c ∷ p) h = rw h.0 (ap (push c) (split_path-IsPart p h.1))

split_path-slash :
    (p rest : Text) → IsPart p → split_path (p ++ (b'/' ∷ rest)) ≡ p ∷ split_path rest
unfolding split_path
split_path-slash [] rest h = refl
split_path-slash (c ∷ p) rest h = rw h.0 (ap (push c) (split_path-slash p rest h.1))

-- The parts, each behind the next's slash.
unfoldable pub under : List Text → Text → Text
under [] rest = rest
under (part ∷ parts) rest = part ++ (b'/' ∷ under parts rest)

split_path-under :
    (parts : List Text) (rest : Text)
    → All IsPart parts
    → split_path (under parts rest) ≡ parts ++ split_path rest
unfolding under
split_path-under [] rest h = refl
split_path-under (p ∷ parts) rest h =
    split_path-slash p (under parts rest) h.0 ∙ ap (◌∷◌ p) (split_path-under parts rest h.1)

behind_blobs-append :
    (before rest : List Text)
    → All (λ part. same_bytes part (text_of "blobs") ≡ false) before
    → behind_blobs (before ++ rest) ≡ behind_blobs rest
unfolding behind_blobs
behind_blobs-append [] rest h = refl
behind_blobs-append (p ∷ before) rest h = rw h.0 (behind_blobs-append before rest h.1)

IsPart-digits : (n : ℕ) → IsPart (decimal n)
IsPart-digits n = All-imp _ _ (decimal n) (λ c h. ground (arith, h)) (decimal-AreDigits n)

IsHex-part : (c : ℕ) → IsHex c → (c == b'/') ≡ false
unfolding among
IsHex-part c h = ground arith

-- Whatever instance, upload or other parts come before, none of them "blobs": the name of a digest is
-- read as that digest.
pub resource_digest-ReadsBack :
    (before : List Text) (digest : Digest)
    → All IsPart before
    → All (λ part. same_bytes part (text_of "blobs") ≡ false) before
    → is_sha256_hex digest.hash ≡ true
    → resource_digest
        (under before (text_of "blobs/" ++ (digest.hash ++ (b'/' ∷ decimal digest.size_bytes))))
      ≡ ok digest
unfolding resource_digest behind_blobs
resource_digest-ReadsBack before digest parts plain hex =
    let size = decimal digest.size_bytes in
    let tail = digest.hash ++ (b'/' ∷ size) in
    let digits = (IsSha256Hex.digits ((is_sha256_hex_iff digest.hash).0 hex)) in
    let hash_part : IsPart digest.hash = All-imp _ _ digest.hash IsHex-part digits in
    let blobs_part : IsPart (text_of "blobs") = (refl, (refl, (refl, (refl, (refl, tt))))) in
    let split : split_path (under before (text_of "blobs/" ++ tail))
        ≡ before ++ (text_of "blobs" ∷ digest.hash ∷ size ∷ []) =
      split_path-under before (text_of "blobs/" ++ tail) parts
      ∙ ap (λ (l : List Text). before ++ l)
          (split_path-slash (text_of "blobs") tail blobs_part
            ∙ ap (◌∷◌ (text_of "blobs")) (
                split_path-slash digest.hash size hash_part
                ∙ ap (◌∷◌ digest.hash)
                    (split_path-IsPart size (IsPart-digits digest.size_bytes)))) in
    rw
      (
        split,
        behind_blobs-append before (text_of "blobs" ∷ digest.hash ∷ size ∷ []) plain,
        hex,
        int_text-decimal digest.size_bytes,
      )
      refl
