-- ===== src/RemoteCache/Reapi/Stream/RoundTrip.antt =====
-- The ByteStream messages read back as they were written.
use tine.Base.{
  ℕ, ◌^◌, ◌<◌, ◌≡◌, Bool, true, false, not, List, [], ◌++◌, Bytes, length, last_or, ◌==◌, arith,
}
use tine.Base.Text.{encode}
use tine.RemoteCache.Outcome.{ok}
use tine.RemoteCache.Wire.Fields.{Field}
use tine.RemoteCache.Wire.Message.{ints_of, blobs_of}
use tine.RemoteCache.Wire.Message.Lookup.{under}
use tine.RemoteCache.Wire.ReadBack.{
  message-Writes, integer-holding, flag-holding, last_blob-holding, text-holding, text_found-encode,
  IsWritable, Writes-text,
}
use tine.RemoteCache.Wire.RoundTrip.{
  Writes, Writes-append, Writes-varint, Writes-blob, varint_fields, blob_fields,
}
use tine.RemoteCache.Wire.Writer
use tine.RemoteCache.Reapi.Stream.{
  ReadRequest, parse_read_request, read_request_to_bytes, WriteRequest, parse_write_request,
  write_request_to_bytes,
}

abbrev read_fields : Bytes → ℕ → ℕ → List Field
read_fields name offset limit =
    blob_fields 1 name ++ (varint_fields 2 offset ++ varint_fields 3 limit)

read_name : (e : Bytes) (a b : ℕ) → last_or [] (blobs_of (under 1 (read_fields e a b))) ≡ e
unfolding blobs_of
read_name e a b = ground arith

read_offset : (e : Bytes) (a b : ℕ) → last_or 0 (ints_of (under 2 (read_fields e a b))) ≡ a
unfolding ints_of
read_offset e a b = ground arith

read_limit : (e : Bytes) (a b : ℕ) → last_or 0 (ints_of (under 3 (read_fields e a b))) ≡ b
unfolding ints_of
read_limit e a b = ground arith

pub record IsReadable (r : ReadRequest) : Type 0 where
  pub name : IsWritable r.resource_name
  pub offset : r.read_offset < 2 ^ 70
  pub limit : r.read_limit < 2 ^ 70

-- A read request parses back from its bytes.
pub parse_read_request-to_bytes :
    (r : ReadRequest) → IsReadable r → parse_read_request (read_request_to_bytes r) ≡ ok r
unfolding parse_read_request read_request_to_bytes
parse_read_request-to_bytes r h =
    let fs = read_fields (encode r.resource_name) r.read_offset r.read_limit in
    let w = Writes-append (Writes-text 1 r.resource_name (omega arith) h.name) (
      Writes-append (Writes-varint 2 r.read_offset (omega arith) h.offset)
        (Writes-varint 3 r.read_limit (omega arith) h.limit)) in
    rw (
      message-Writes w,
      text-holding _ fs 1,
      read_name (encode r.resource_name) r.read_offset r.read_limit,
      text_found-encode r.resource_name h.name.scalars,
      integer-holding _ fs 2,
      read_offset (encode r.resource_name) r.read_offset r.read_limit,
      integer-holding _ fs 3,
      read_limit (encode r.resource_name) r.read_offset r.read_limit,
    )

abbrev int_of : Bool → ℕ
int_of true = 1
int_of false = 0

abbrev write_fields : Bytes → ℕ → Bool → Bytes → List Field
write_fields name offset finish content =
    blob_fields 1 name
    ++ (varint_fields 2 offset ++ (varint_fields 3 (int_of finish) ++ blob_fields 10 content))

write_name :
    (e : Bytes) (a : ℕ) (f : Bool) (c : Bytes)
    → last_or [] (blobs_of (under 1 (write_fields e a f c))) ≡ e
unfolding blobs_of
write_name e a f c = ground arith

write_offset :
    (e : Bytes) (a : ℕ) (f : Bool) (c : Bytes)
    → last_or 0 (ints_of (under 2 (write_fields e a f c))) ≡ a
unfolding ints_of
write_offset e a f c = ground arith

write_finish :
    (e : Bytes) (a : ℕ) (f : Bool) (c : Bytes)
    → not (last_or 0 (ints_of (under 3 (write_fields e a f c))) == 0) ≡ f
unfolding ints_of
write_finish e a true c = ground arith
write_finish e a false c = ground arith

write_content :
    (e : Bytes) (a : ℕ) (f : Bool) (c : Bytes)
    → last_or [] (blobs_of (under 10 (write_fields e a f c))) ≡ c
unfolding blobs_of
write_content e a f c = ground arith

pub record IsWriteable (r : WriteRequest) : Type 0 where
  pub name : IsWritable r.resource_name
  pub offset : r.write_offset < 2 ^ 70
  pub content_short : length r.content < 2 ^ 70

Writes-flag : (b : Bool) → Writes (Writer.flag 3 b) (varint_fields 3 (int_of b))
unfolding Writer.flag
Writes-flag true = Writes-varint 3 1 (omega arith) (omega arith)
Writes-flag false = Writes-varint 3 0 (omega arith) (omega arith)

-- A write request parses back from its bytes.
pub parse_write_request-to_bytes :
    (r : WriteRequest) → IsWriteable r → parse_write_request (write_request_to_bytes r) ≡ ok r
unfolding parse_write_request write_request_to_bytes
parse_write_request-to_bytes r h =
    let e = encode r.resource_name in
    let fs = write_fields e r.write_offset r.finish_write r.content in
    let w = Writes-append (Writes-text 1 r.resource_name (omega arith) h.name) (
      Writes-append (Writes-varint 2 r.write_offset (omega arith) h.offset) (
        Writes-append (Writes-flag r.finish_write)
          (Writes-blob 10 r.content (omega arith) h.content_short))) in
    rw (
      message-Writes w,
      text-holding _ fs 1,
      write_name e r.write_offset r.finish_write r.content,
      text_found-encode r.resource_name h.name.scalars,
      integer-holding _ fs 2,
      write_offset e r.write_offset r.finish_write r.content,
      flag-holding _ fs 3,
      write_finish e r.write_offset r.finish_write r.content,
      last_blob-holding _ fs 10,
      write_content e r.write_offset r.finish_write r.content,
    )
