-- ===== src/RemoteCache/Shim/Storage.antt =====
-- `ContentAddressableStorage` of remote_cache/shim.py, and its `capabilities`. `say` is the `str` of
-- an error, in the answers about single blobs.
pub mod Answers
pub mod Updates
use tine.Base.{
  Bool, true, false, not, Option, none, some, List, [], ◌∷◌, ◌++◌, Bytes, if◌then◌else◌,
}
use tine.Base.Text.{Text, text_of}
use tine.RemoteCache.Outcome.{
  Raised, Result, ok, err, is_value_error, aborted, invalid_argument, permission_denied,
}
use tine.RemoteCache.Exec.{pure, raise, handle, ◌>>=◌, ◌>>◌}
use tine.RemoteCache.Bundle.Name.{same_digest}
use tine.RemoteCache.Reapi.Digest.{Digest, Status, status_ok}
use tine.RemoteCache.Reapi.Blobs.{
  Blob, FindMissingBlobsRequest, FindMissingBlobsResponse, BatchUpdateBlobsRequest,
  BatchUpdateBlobsResponse, BatchReadBlobsRequest, BatchReadBlobsResponse,
}
use tine.RemoteCache.Reapi.Stream.{ServerCapabilities, sha256_function}
use tine.RemoteCache.Store.Filed.{Filed, check_blob}
use tine.RemoteCache.Store.Blobs.{put_blobs}
use tine.RemoteCache.Shim.State.{Setup, Shim, Call, on_store, count, accepts_uploads}
use tine.RemoteCache.Shim.Local.{missing_of, here, blob}

-- INVALID_ARGUMENT and NOT_FOUND of a status
abbrev pub status_invalid : Text → Status
status_invalid reason = record { code = 3; reason = reason }

abbrev pub status_missing : Status
status_missing = record { code = 5; reason = [] }

abbrev pub capabilities : ServerCapabilities
capabilities = record {
  max_batch_total_size_bytes = 4000000;
  digest_functions = sha256_function ∷ [];
}

-- good[digest] = content
unfoldable pub keep_good : Digest → Bytes → Filed → Filed
keep_good digest content [] = (digest, content) ∷ []
keep_good digest content ((one, old) ∷ good) =
    if same_digest one digest
    then (one, content) ∷ good
    else (one, old) ∷ keep_good digest content good

module _ (u : Setup) where
  abbrev not_asked : {A : Type 0} → Raised → Call u A
  not_asked e = if is_value_error e then raise (aborted invalid_argument) else raise e

  -- `find_missing`
  unfoldable pub find_missing : FindMissingBlobsRequest → Call u FindMissingBlobsResponse
  find_missing request = do
    present ← handle (here u request.blob_digests) not_asked
    pure (record { missing_blob_digests = missing_of request.blob_digests present })

  -- What is answered for one blob of an update, and what is kept of it. `check_blob` raises a
  -- `ValueError` and no other.
  abbrev pub checked_as : Digest → Bytes → Result (Unit {0}) → Filed → Blob × Filed
  checked_as digest content (ok checked) good = (
    record { digest = some digest; content = []; status = some status_ok },
    keep_good digest content good,
  )
  checked_as digest content (err e) good = (
    record { digest = some digest; content = []; status = some (status_invalid (u.say e)) },
    good,
  )

  abbrev pub check_entry : Option Digest → Bytes → Filed → Blob × Filed
  check_entry none content good = (
    record { digest = none; content = []; status = some (status_invalid (text_of "no digest")) },
    good,
  )
  check_entry (some digest) content good =
      checked_as digest content (check_blob u.platform digest content) good

  -- The loop of `batch_update`.
  unfoldable pub check_each : List Blob → Filed → List Blob × Filed
  check_each [] good = ([], good)
  check_each (entry ∷ entries) good =
      let (answer, more) = check_entry entry.digest entry.content good in
      let (answers, all) = check_each entries more in (answer ∷ answers, all)

  abbrev update_accepted : Bool → List Blob → Call u BatchUpdateBlobsResponse
  update_accepted false blobs = do
    count u (text_of "uploads refused")
    raise (aborted permission_denied)
  update_accepted true blobs =
      let (answers, good) = check_each blobs [] in
      (do on_store u (put_blobs u.platform good none); pure (record { blobs = answers }))

  -- `batch_update`
  unfoldable batch_update : BatchUpdateBlobsRequest → Call u BatchUpdateBlobsResponse
  batch_update request = update_accepted (accepts_uploads u) request.blobs

  abbrev pub read_as : Digest → Option Bytes → Blob
  read_as digest none = record { digest = some digest; content = []; status = some status_missing }
  read_as digest (some content) = record {
    digest = some digest;
    content = content;
    status = some status_ok;
  }

  abbrev pub unread : Digest → Raised → Call u Blob
  unread digest e =
      if is_value_error e
      then pure
          (record { digest = some digest; content = []; status = some (status_invalid (u.say e)) })
      else raise e

  abbrev pub read_one : Digest → Call u Blob
  read_one digest =
      handle (do content ← blob u digest; pure (read_as digest content)) (unread digest)

  unfoldable pub read_each : List Digest → Call u (List Blob)
  read_each [] = pure []
  read_each (digest ∷ digests) = do
    answer ← read_one digest
    answers ← read_each digests
    pure (answer ∷ answers)

  -- `batch_read`
  unfoldable pub batch_read : BatchReadBlobsRequest → Call u BatchReadBlobsResponse
  batch_read request = do answers ← read_each request.digests; pure (record { blobs = answers })
