-- ===== src/RemoteCache/Shim/Pointer/RoundTrip.antt =====
-- A pointer reads back as it was packed.
use tine.Base.{ℕ, ◌^◌, ◌<◌, ◌≡◌, true, List, [], ◌++◌, Bytes, length, last_or, arith, All-imp, inl}
use tine.Base.Text.{Text, encode, IsScalar}
use tine.RemoteCache.Outcome.{ok}
use tine.RemoteCache.Wire.Fields.{Field}
use tine.RemoteCache.Wire.Message.{blobs_of}
use tine.RemoteCache.Wire.Message.Lookup.{under}
use tine.RemoteCache.Wire.ReadBack.{
  message-Writes, last_blob-holding, text-holding, text_found-encode, IsWritable, Writes-text,
}
use tine.RemoteCache.Wire.RoundTrip.{Writes-append, Writes-blob, blob_fields}
use tine.RemoteCache.Signing.Envelope.{is_sha256_hex, among}
use tine.RemoteCache.Signing.Envelope.Hashes.{IsHex, IsSha256Hex, is_sha256_hex_iff, encode-hex}
use tine.RemoteCache.Shim.Pointer.{Pointer, ac_pack, ac_unpack}

pointer_fields : Bytes → Bytes → List Field
pointer_fields name result = blob_fields 1 name ++ blob_fields 2 result

name_at_one :
    (name result : Bytes) → last_or [] (blobs_of (under 1 (pointer_fields name result))) ≡ name
unfolding blobs_of pointer_fields
name_at_one name result = ground arith

result_at_two :
    (name result : Bytes) → last_or [] (blobs_of (under 2 (pointer_fields name result))) ≡ result
unfolding blobs_of pointer_fields
result_at_two name result = ground arith

IsHex-IsScalar : (c : ℕ) → IsHex c → IsScalar c
unfolding among
IsHex-IsScalar c h = inl (ground arith)

hash-IsWritable : (t : Text) → IsSha256Hex t → IsWritable t
hash-IsWritable t h = record {
  scalars = All-imp IsHex IsScalar t IsHex-IsScalar h.digits;
  short = rw (encode-hex t h, h.width) (omega arith);
}

-- A pointer that names a bundle by a hash is read back.
pub ac_unpack-ac_pack :
    (p : Pointer)
    → is_sha256_hex p.bundle ≡ true
    → length p.result < 2 ^ 70
    → ac_unpack (ac_pack p) ≡ ok p
unfolding ac_unpack ac_pack
ac_unpack-ac_pack p h short =
    let writable = hash-IsWritable p.bundle ((is_sha256_hex_iff p.bundle).0 h) in
    let fs = pointer_fields (encode p.bundle) p.result in
    let w =
      Writes-append (Writes-text 1 p.bundle (omega arith) writable)
        (Writes-blob 2 p.result (omega arith) short) in
    rw (message-Writes w) (
      unfold pointer_fields in
      rw (
        text-holding (ac_pack p) fs 1,
        name_at_one (encode p.bundle) p.result,
        text_found-encode p.bundle writable.scalars,
        last_blob-holding (ac_pack p) fs 2,
        result_at_two (encode p.bundle) p.result,
        h,
      ))
