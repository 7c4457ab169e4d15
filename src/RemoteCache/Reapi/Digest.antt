-- ===== src/RemoteCache/Reapi/Digest.antt =====
-- `Digest` and `Status` of remote_cache/reapi.py, and the optional and repeated digests of others.
pub mod RoundTrip
use tine.Base.{ℕ, Option, none, some, List, [], ◌∷◌, ◌++◌, Bytes, length}
use tine.Base.Text.{Text}
use tine.RemoteCache.Outcome.{Result, ok, ◌>>=◌, each}
use tine.RemoteCache.Wire.Message
use tine.RemoteCache.Wire.Message.{Message, message}
use tine.RemoteCache.Wire.Writer

pub record Digest : Type 0 where
  pub hash : Text
  pub size_bytes : ℕ

abbrev pub digest_in : Message → Digest
digest_in one = record { hash = Message.text one 1; size_bytes = Message.integer one 2 }

-- `Digest.parse`
unfoldable pub parse : Bytes → Result Digest
parse bytes = do one ← message bytes; ok (digest_in one)

-- `Digest.of`
unfoldable pub of : Option Message → Option Digest
of none = none
of (some one) = some (digest_in one)

-- `Digest.for_bytes`, over hashlib's sha256.
unfoldable pub for_bytes : (Bytes → Text) → Bytes → Digest
for_bytes sha256 bytes = record { hash = sha256 bytes; size_bytes = length bytes }

unfoldable pub to_bytes : Digest → Bytes
to_bytes d = Writer.text 1 d.hash ++ Writer.varint 2 d.size_bytes

pub record Status : Type 0 where
  pub code : ℕ
  pub reason : Text

-- `Status(OK)`
abbrev pub status_ok : Status
status_ok = record { code = 0; reason = [] }

unfoldable pub status_to_bytes : Status → Bytes
status_to_bytes s = Writer.varint 1 s.code ++ Writer.text 2 s.reason

unfoldable pub parse_status : Bytes → Result Status
parse_status bytes = do
  one ← message bytes
  ok (record { code = Message.integer one 1; reason = Message.text one 2 })

-- wire.submessage(number, digest.to_bytes()) if digest else b""
unfoldable pub optional_to_bytes : ℕ → Option Digest → Bytes
optional_to_bytes number none = []
optional_to_bytes number (some d) = Writer.submessage number (to_bytes d)

-- b"".join(wire.submessage(number, one.to_bytes()) for one in digests)
unfoldable pub repeated_to_bytes : ℕ → List Digest → Bytes
repeated_to_bytes number [] = []
repeated_to_bytes number (d ∷ ds) =
    Writer.submessage number (to_bytes d) ++ repeated_to_bytes number ds

-- [Digest.parse(one.data) for one in wire.Message(data).children(number)]
unfoldable pub parse_repeated : ℕ → Bytes → Result (List Digest)
parse_repeated number bytes = do
  whole ← message bytes
  parts ← Message.children whole number
  each (λ (one : Message). parse one.bytes) parts
