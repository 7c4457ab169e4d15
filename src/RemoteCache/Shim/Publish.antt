-- ===== src/RemoteCache/Shim/Publish.antt =====
-- `ActionCache.update` of remote_cache/shim.py, with `_prepare` and `_publish`. The lock on a bundle's
-- name is not modelled: this is one caller, with what others did in between left out.
pub mod Order
pub mod Agreement
pub mod Admitted
pub mod Fetched
use tine.Base.{
  ℕ, Bool, true, false, not, ◌&&◌, Option, none, some, List, [], ◌∷◌, ◌++◌, Bytes, if◌then◌else◌,
}
use tine.Base.Text.{Text, text_of}
use tine.RemoteCache.Outcome.{
  Raised, Result, ok, err, is_value_error, aborted, invalid_argument, permission_denied, blob_gone,
}
use tine.RemoteCache.Exec.{pure, raise, handle, ◌>>=◌, ◌>>◌}
use tine.RemoteCache.Bucket
use tine.RemoteCache.Bundle.{pack}
use tine.RemoteCache.Bundle.Name.{bundle_name}
use tine.RemoteCache.Reapi.Digest.{Digest}
use tine.RemoteCache.Reapi.Result.{ActionResult, UpdateActionResultRequest}
use tine.RemoteCache.Signing.Envelope.{is_sha256_hex}
use tine.RemoteCache.Signing.Signer.{Signer, wrap}
use tine.RemoteCache.Store.Table.{Table, upsert}
use tine.RemoteCache.Store.Choose.{among_texts}
use tine.RemoteCache.Store.Blobs
use tine.RemoteCache.Store.Blobs.{remember_all}
use tine.RemoteCache.Store.Results.{put_result}
use tine.RemoteCache.Shim.Pointer.{Pointer, ac_pack}
use tine.RemoteCache.Shim.State.{Setup, Shim, Call, on_store, on_net, count, host, accepts_uploads}
use tine.RemoteCache.Shim.Lookup.{held_by_store}

-- What `_prepare` returns.
pub record Prepared : Type 0 where
  pub payload : Bytes
  pub bundle : Text
  pub blobs : List Digest

-- set.discard
unfoldable pub discard : Text → List Text → List Text
discard name [] = []
discard name (t ∷ ts) =
    let rest = discard name ts in if among_texts name (t ∷ []) then rest else t ∷ rest

module _ (u : Setup) where
  abbrev unwrapped : Raised → Call u (Option Bytes)
  unwrapped e = if is_value_error e then pure none else raise e

  -- The payload, signed if this shim signs.
  abbrev pub signed_by : Option (Signer u.crypto u.keys) → Text → Bytes → Call u (Option Bytes)
  signed_by none action_hash payload = pure (some payload)
  signed_by (some signer) action_hash payload =
      handle (do blob ← wrap u.crypto u.keys (host u) signer action_hash payload; pure (some blob))
        unwrapped

  abbrev pub prepared : Text → List Digest → Option Bytes → Call u (Option Prepared)
  prepared bundle blobs none = pure none
  prepared bundle blobs (some payload) =
      pure (some (record { payload = payload; bundle = bundle; blobs = blobs }))

  abbrev pub prepare_for : Digest → ActionResult → Option (List Digest) → Call u (Option Prepared)
  prepare_for action result none = pure none
  prepare_for action result (some blobs) =
      let bundle = bundle_name u.platform.sha256 blobs in
      (do
        payload ←
            signed_by u.signer action.hash
              (ac_pack (record { bundle = bundle; result = result.raw }))
        prepared bundle blobs payload)

  -- `_prepare`
  unfoldable pub prepare : Digest → ActionResult → Call u (Option Prepared)
  prepare action result = do blobs ← held_by_store u result; prepare_for action result blobs

  abbrev pub filed_as : Text → Table Bytes → Option Bytes → Call u (Table Bytes)
  filed_as hash members none = raise blob_gone
  filed_as hash members (some blob) = pure (upsert hash blob (λ _. blob) members)

  -- The loop that reads a bundle's members.
  unfoldable pub gather : List Digest → Table Bytes → Call u (Table Bytes)
  gather [] members = pure members
  gather (digest ∷ blobs) members = do
    found ← on_store u (Blobs.blob u.platform digest)
    more ← filed_as digest.hash members found
    gather blobs more

  abbrev pub send : Text → Bytes → Call u (Unit {0})
  send key content = on_net u (Bucket.put u.world key content)

  abbrev pub refreshed : Bool → Text → Call u Bool
  refreshed true key = pure false
  refreshed false key = on_net u (Bucket.refresh u.world key)

  abbrev forgive : Text → Call u (Unit {0})
  forgive name s = (ok tt, record s { tainted = discard name s.tainted })

  abbrev pub upload_unless : Bool → Text → List Digest → Call u (Unit {0})
  upload_unless true name blobs = pure tt
  upload_unless false name blobs = do
    members ← gather blobs []
    send (text_of "bundle/" ++ name) (pack members)
    forgive name

  -- What is done under the lock: whether the bundle was there, once it is.
  unfoldable pub publish_bundle : Prepared → Call u Bool
  publish_bundle p s =
      (do
        shared ← refreshed (among_texts p.bundle s.tainted) (text_of "bundle/" ++ p.bundle)
        upload_unless shared p.bundle p.blobs
        pure shared)
        s

  abbrev counted_unless : Bool → Call u (Unit {0})
  counted_unless true = pure tt
  counted_unless false = count u (text_of "bundles uploaded")

  abbrev pub point_from : Digest → Prepared → Bool → Call u (Unit {0})
  point_from action p shared = do
    send (text_of "ac/" ++ action.hash) p.payload
    on_store u (remember_all u.platform p.blobs p.bundle)
    count u (text_of "published")
    counted_unless shared

  -- `_publish`
  unfoldable pub publish : Digest → Prepared → Call u (Unit {0})
  publish action p = do shared ← publish_bundle p; point_from action p shared

  abbrev published_if : Bool → Digest → Prepared → Call u (Unit {0})
  published_if false action p = pure tt
  published_if true action p =
      handle (publish action p) (λ e. (do count u (text_of "publish failures"); raise e))

  abbrev pub stored : Digest → ActionResult → Option Prepared → Call u ActionResult
  stored action result none = pure result
  stored action result (some p) = do
    on_store u (put_result u.platform action p.payload)
    published_if (u.has_bucket && u.has_writer) action p
    pure result

  abbrev refused_prepare : Raised → Call u (Option Prepared)
  refused_prepare e = if is_value_error e then raise (aborted invalid_argument) else raise e

  abbrev accepted : Bool → Digest → ActionResult → Call u ActionResult
  accepted false action result = do
    count u (text_of "uploads refused")
    raise (aborted permission_denied)
  accepted true action result = do
    p ← handle (prepare action result) refused_prepare
    stored action result p

  abbrev update_for : Option Digest → Option ActionResult → Call u ActionResult
  update_for (some action) (some result) =
      if not (is_sha256_hex action.hash)
      then raise (aborted invalid_argument)
      else accepted (accepts_uploads u) action result
  update_for action result = raise (aborted invalid_argument)

  -- `ActionCache.update`
  unfoldable update_result : UpdateActionResultRequest → Call u ActionResult
  update_result request = update_for request.action_digest request.action_result
