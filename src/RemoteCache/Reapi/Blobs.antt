-- ===== src/RemoteCache/Reapi/Blobs.antt =====
-- The messages about sets of blobs of remote_cache/reapi.py: which are missing, and batches.
pub mod RoundTrip
use tine.Base.{ℕ, Option, none, some, List, [], ◌∷◌, ◌++◌, Bytes}
use tine.RemoteCache.Outcome.{Result, ok, ◌>>=◌, each}
use tine.RemoteCache.Wire.Message
use tine.RemoteCache.Wire.Message.{Message, message}
use tine.RemoteCache.Wire.Writer
use tine.RemoteCache.Reapi.Digest
use tine.RemoteCache.Reapi.Digest.{Digest, Status, status_ok, status_to_bytes, parse_status}

pub record FindMissingBlobsRequest : Type 0 where
  pub blob_digests : List Digest

unfoldable pub parse_find_request : Bytes → Result FindMissingBlobsRequest
parse_find_request bytes = do
  found ← Digest.parse_repeated 2 bytes
  ok (record { blob_digests = found })

unfoldable pub find_request_to_bytes : FindMissingBlobsRequest → Bytes
find_request_to_bytes r = Digest.repeated_to_bytes 2 r.blob_digests

pub record FindMissingBlobsResponse : Type 0 where
  pub missing_blob_digests : List Digest

unfoldable pub parse_find_response : Bytes → Result FindMissingBlobsResponse
parse_find_response bytes = do
  found ← Digest.parse_repeated 2 bytes
  ok (record { missing_blob_digests = found })

unfoldable pub find_response_to_bytes : FindMissingBlobsResponse → Bytes
find_response_to_bytes r = Digest.repeated_to_bytes 2 r.missing_blob_digests

-- One blob in a batch, on the way in or out.
pub record Blob : Type 0 where
  pub digest : Option Digest
  pub content : Bytes
  pub status : Option Status

-- one.status or Status(OK)
abbrev pub status_or_ok : Option Status → Status
status_or_ok none = status_ok
status_or_ok (some s) = s

-- The body of one blob in each of the three batch messages.
unfoldable pub update_body : Blob → Bytes
update_body one = Digest.optional_to_bytes 1 one.digest ++ Writer.blob 2 one.content

unfoldable pub updated_body : Blob → Bytes
updated_body one =
    Digest.optional_to_bytes 1 one.digest
    ++ Writer.submessage 2 (status_to_bytes (status_or_ok one.status))

unfoldable pub read_body : Blob → Bytes
read_body one =
    Digest.optional_to_bytes 1 one.digest
    ++ (Writer.blob 2 one.content
        ++ Writer.submessage 3 (status_to_bytes (status_or_ok one.status)))

-- b"".join(wire.submessage(number, body(one)) for one in self.blobs)
unfoldable pub batch_to_bytes : ℕ → (Blob → Bytes) → List Blob → Bytes
batch_to_bytes number body [] = []
batch_to_bytes number body (one ∷ blobs) =
    Writer.submessage number (body one) ++ batch_to_bytes number body blobs

unfoldable pub parse_update_body : Message → Result Blob
parse_update_body one = do
  digest ← Message.child one 1
  ok (record { digest = Digest.of digest; content = Message.last_blob one 2; status = none })

unfoldable pub parse_updated_body : Message → Result Blob
parse_updated_body one = do
  digest ← Message.child one 1
  status ← parse_status (Message.last_blob one 2)
  ok (record { digest = Digest.of digest; content = []; status = some status })

unfoldable pub parse_read_body : Message → Result Blob
parse_read_body one = do
  digest ← Message.child one 1
  status ← parse_status (Message.last_blob one 3)
  ok (record { digest = Digest.of digest; content = Message.last_blob one 2; status = some status })

-- [Blob(...) for one in wire.Message(data).children(number)]
unfoldable pub parse_batch : ℕ → (Message → Result Blob) → Bytes → Result (List Blob)
parse_batch number body bytes = do
  whole ← message bytes
  parts ← Message.children whole number
  each body parts

pub record BatchUpdateBlobsRequest : Type 0 where
  pub blobs : List Blob

unfoldable pub parse_batch_update : Bytes → Result BatchUpdateBlobsRequest
parse_batch_update bytes = do
  blobs ← parse_batch 2 parse_update_body bytes
  ok (record { blobs = blobs })

unfoldable pub batch_update_to_bytes : BatchUpdateBlobsRequest → Bytes
batch_update_to_bytes r = batch_to_bytes 2 update_body r.blobs

pub record BatchUpdateBlobsResponse : Type 0 where
  pub blobs : List Blob

unfoldable pub parse_batch_updated : Bytes → Result BatchUpdateBlobsResponse
parse_batch_updated bytes = do
  blobs ← parse_batch 1 parse_updated_body bytes
  ok (record { blobs = blobs })

unfoldable pub batch_updated_to_bytes : BatchUpdateBlobsResponse → Bytes
batch_updated_to_bytes r = batch_to_bytes 1 updated_body r.blobs

pub record BatchReadBlobsRequest : Type 0 where
  pub digests : List Digest

unfoldable pub parse_batch_read_request : Bytes → Result BatchReadBlobsRequest
parse_batch_read_request bytes = do
  digests ← Digest.parse_repeated 2 bytes
  ok (record { digests = digests })

unfoldable pub batch_read_request_to_bytes : BatchReadBlobsRequest → Bytes
batch_read_request_to_bytes r = Digest.repeated_to_bytes 2 r.digests

pub record BatchReadBlobsResponse : Type 0 where
  pub blobs : List Blob

unfoldable pub parse_batch_read : Bytes → Result BatchReadBlobsResponse
parse_batch_read bytes = do
  blobs ← parse_batch 1 parse_read_body bytes
  ok (record { blobs = blobs })

unfoldable pub batch_read_to_bytes : BatchReadBlobsResponse → Bytes
batch_read_to_bytes r = batch_to_bytes 1 read_body r.blobs
