-- ===== src/RemoteCache/Reapi/Stream.antt =====
-- The ByteStream messages and the capabilities of remote_cache/reapi.py.
pub mod RoundTrip
use tine.Base.{ℕ, Bool, true, Option, none, some, List, [], ◌++◌, Bytes}
use tine.Base.Text.{Text}
use tine.RemoteCache.Outcome.{Result, ok, ◌>>=◌}
use tine.RemoteCache.Wire.Message
use tine.RemoteCache.Wire.Message.{Message, message}
use tine.RemoteCache.Wire.Writer

pub record ReadRequest : Type 0 where
  pub resource_name : Text
  pub read_offset : ℕ
  pub read_limit : ℕ

unfoldable pub parse_read_request : Bytes → Result ReadRequest
parse_read_request bytes = do
  one ← message bytes
  ok (record {
    resource_name = Message.text one 1;
    read_offset = Message.integer one 2;
    read_limit = Message.integer one 3;
  })

unfoldable pub read_request_to_bytes : ReadRequest → Bytes
read_request_to_bytes r =
    Writer.text 1 r.resource_name ++ (Writer.varint 2 r.read_offset ++ Writer.varint 3 r.read_limit)

pub record ReadResponse : Type 0 where
  pub content : Bytes

unfoldable pub parse_read_response : Bytes → Result ReadResponse
parse_read_response bytes = do
  one ← message bytes
  ok (record { content = Message.last_blob one 10 })

unfoldable pub read_response_to_bytes : ReadResponse → Bytes
read_response_to_bytes r = Writer.blob 10 r.content

pub record WriteRequest : Type 0 where
  pub resource_name : Text
  pub write_offset : ℕ
  pub finish_write : Bool
  pub content : Bytes

unfoldable pub parse_write_request : Bytes → Result WriteRequest
parse_write_request bytes = do
  one ← message bytes
  ok (record {
    resource_name = Message.text one 1;
    write_offset = Message.integer one 2;
    finish_write = Message.flag one 3;
    content = Message.last_blob one 10;
  })

unfoldable pub write_request_to_bytes : WriteRequest → Bytes
write_request_to_bytes r =
    Writer.text 1 r.resource_name
    ++ (Writer.varint 2 r.write_offset
        ++ (Writer.flag 3 r.finish_write ++ Writer.blob 10 r.content))

pub record WriteResponse : Type 0 where
  pub committed_size : ℕ

unfoldable pub parse_write_response : Bytes → Result WriteResponse
parse_write_response bytes = do
  one ← message bytes
  ok (record { committed_size = Message.integer one 1 })

unfoldable pub write_response_to_bytes : WriteResponse → Bytes
write_response_to_bytes r = Writer.varint 1 r.committed_size

abbrev pub sha256_function : ℕ
sha256_function = 1

abbrev pub symlinks_allowed : ℕ
symlinks_allowed = 2

pub record ServerCapabilities : Type 0 where
  pub max_batch_total_size_bytes : ℕ
  pub digest_functions : List ℕ

unfoldable pub semver : ℕ → ℕ → Bytes
semver major minor = Writer.varint 1 major ++ Writer.varint 2 minor

-- The body of the `cache` field.
unfoldable pub cache_body : ServerCapabilities → Bytes
cache_body c =
    Writer.packed 1 c.digest_functions
    ++ (Writer.submessage 2 (Writer.flag 1 true)
        ++ (Writer.varint 4 c.max_batch_total_size_bytes ++ Writer.varint 5 symlinks_allowed))

unfoldable pub capabilities_to_bytes : ServerCapabilities → Bytes
capabilities_to_bytes c =
    Writer.submessage 1 (cache_body c)
    ++ (Writer.submessage 4 (semver 2 0) ++ Writer.submessage 5 (semver 2 3))

-- wire.Message(data).child(1) or wire.Message(b"")
abbrev cache_or_empty : Option Message → Result Message
cache_or_empty none = message []
cache_or_empty (some cache) = ok cache

unfoldable pub parse_capabilities : Bytes → Result ServerCapabilities
parse_capabilities bytes = do
  one ← message bytes
  part ← Message.child one 1
  cache ← cache_or_empty part
  functions ← Message.numbers cache 1
  ok (record { max_batch_total_size_bytes = Message.integer cache 4; digest_functions = functions })
