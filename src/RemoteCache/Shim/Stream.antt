-- ===== src/RemoteCache/Shim/Stream.antt =====
-- `resource_digest` and `ByteStream` of remote_cache/shim.py. A stream of messages is their list.
pub mod Chunks
pub mod Window
pub mod Upload
pub mod Carried
pub mod Returned
pub mod Resource
use tine.Base.{
  ℕ, zero, suc, ◌+◌, ◌-◌, ◌*◌, ◌^◌, Bool, true, false, not, Option, none, some, List, [], ◌∷◌, ◌++◌,
  Bytes, length, take, drop, map, ltb, ◌==◌, same_bytes, if◌then◌else◌,
}
use tine.Base.Decimal.{int_text}
use tine.Base.Text.{Text, text_of}
use tine.RemoteCache.Outcome.{
  Raised, Result, ok, err, is_value_error, aborted, bad_resource, bad_number, invalid_argument,
  not_found, permission_denied, unimplemented,
}
use tine.RemoteCache.Exec.{pure, raise, lift, handle, ◌>>=◌, ◌>>◌}
use tine.RemoteCache.Reapi.Digest.{Digest}
use tine.RemoteCache.Reapi.Stream.{ReadRequest, ReadResponse, WriteRequest, WriteResponse}
use tine.RemoteCache.Signing.Envelope.{is_sha256_hex}
use tine.RemoteCache.Store.Blobs.{put_blob}
use tine.RemoteCache.Shim.State.{Setup, Shim, Call, on_store, count, accepts_uploads}
use tine.RemoteCache.Shim.Local.{blob}

abbrev pub push : ℕ → List Text → List Text
push c [] = (c ∷ []) ∷ []
push c (part ∷ parts) = (c ∷ part) ∷ parts

-- text.split("/")
unfoldable pub split_path : Text → List Text
split_path [] = [] ∷ []
split_path (c ∷ cs) = let parts = split_path cs in if c == b'/' then [] ∷ parts else push c parts

-- The parts behind the first that is "blobs".
unfoldable pub behind_blobs : List Text → Option (List Text)
behind_blobs [] = none
behind_blobs (part ∷ parts) =
    let rest = behind_blobs parts in if same_bytes part (text_of "blobs") then some parts else rest

abbrev pub sized : Text → Option ℕ → Result Digest
sized hash none = err bad_number
sized hash (some size) = ok (record { hash = hash; size_bytes = size })

abbrev pub digest_in : Option (List Text) → Result Digest
digest_in none = err bad_resource
digest_in (some []) = err bad_resource
digest_in (some (hash ∷ [])) = err bad_resource
digest_in (some (hash ∷ size ∷ parts)) =
    if not (is_sha256_hex hash) then err bad_resource else sized hash (int_text size)

unfoldable pub resource_digest : Text → Result Digest
resource_digest resource = digest_in (behind_blobs (split_path resource))

-- CHUNK_SIZE
abbrev pub chunk_size : ℕ
chunk_size = 2 ^ 20

-- range(start, stop, step), with a round for each number: the length of what is cut is enough.
unfoldable pub range_from : ℕ → ℕ → ℕ → ℕ → List ℕ
range_from step zero start stop = []
range_from step (suc rounds) start stop =
    let rest = range_from step rounds (start + step) stop in
    if ltb start stop then start ∷ rest else []

-- `or [0]`
abbrev pub or_zero : List ℕ → List ℕ
or_zero [] = 0 ∷ []
or_zero (n ∷ ns) = n ∷ ns

-- window[start : start + step]
abbrev pub chunk : ℕ → Bytes → ℕ → ReadResponse
chunk step window start = record { content = take step (drop start window) }

unfoldable pub chunks : ℕ → Bytes → List ReadResponse
chunks step window =
    map (chunk step window) (or_zero (range_from step (length window) 0 (length window)))

-- data[offset:end], where `end` is the whole length without a limit.
unfoldable pub window_of : ReadRequest → Bytes → Bytes
window_of request content =
    let end =
      if request.read_limit == 0
      then length content
      else request.read_offset + request.read_limit in
    take (end - request.read_offset) (drop request.read_offset content)

-- What a first message opens an upload of.
abbrev pub begin_with : WriteRequest → Result Digest → Result Digest
begin_with request (err e) = if is_value_error e then err (aborted invalid_argument) else err e
begin_with request (ok digest) =
    if not (request.write_offset == 0) then err (aborted unimplemented) else ok digest

abbrev pub opened : WriteRequest → Option Digest → Result Digest
opened request none = begin_with request (resource_digest request.resource_name)
opened request (some digest) = ok digest

abbrev pub written :
    Bytes → Bool → Result Digest → Result (Option Digest × Bytes) → Result (Option Digest × Bytes)
written all finished (err e) rest = err e
written all finished (ok digest) rest = if finished then ok (some digest, all) else rest

abbrev pub opened_as : Result Digest → Option Digest
opened_as (ok digest) = some digest
opened_as (err e) = none

-- The loop of `write`, with the digest and the bytes so far.
unfoldable pub write_all :
    Option Digest → Bytes → List WriteRequest → Result (Option Digest × Bytes)
write_all digest all [] = ok (digest, all)
write_all digest all (request ∷ requests) =
    let open_for = opened request digest in
    let more = all ++ request.content in
    let rest = write_all (opened_as open_for) more requests in
    written more request.finish_write open_for rest

module _ (u : Setup) where
  abbrev pub invalid : {A : Type 0} → Raised → Call u A
  invalid e = if is_value_error e then raise (aborted invalid_argument) else raise e

  abbrev pub sent : ReadRequest → Option Bytes → Call u (List ReadResponse)
  sent request none = raise (aborted not_found)
  sent request (some content) = pure (chunks chunk_size (window_of request content))

  -- `ByteStream.read`
  unfoldable pub read_stream : ReadRequest → Call u (List ReadResponse)
  read_stream request = do
    digest ← handle (lift (resource_digest request.resource_name)) invalid
    content ← blob u digest
    sent request content

  abbrev pub commit : Option Digest × Bytes → Call u WriteResponse
  commit (none, all) = raise (aborted invalid_argument)
  commit (some digest, all) = do
    handle (on_store u (put_blob u.platform digest all none)) invalid
    pure (record { committed_size = length all })

  abbrev pub write_accepted : Bool → List WriteRequest → Call u WriteResponse
  write_accepted false requests = do
    count u (text_of "uploads refused")
    raise (aborted permission_denied)
  write_accepted true requests = do got ← lift (write_all none [] requests); commit got

  -- `ByteStream.write`
  unfoldable pub write_stream : List WriteRequest → Call u WriteResponse
  write_stream requests = write_accepted (accepts_uploads u) requests

  -- `query_write_status`
  unfoldable pub query_write_status : Call u (Unit {0})
  query_write_status = raise (aborted unimplemented)
