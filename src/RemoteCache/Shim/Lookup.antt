-- ===== src/RemoteCache/Shim/Lookup.antt =====
-- `ActionCache.get` of remote_cache/shim.py, with `_trusted`, `_kept` and `_fetch`.
pub mod Same
pub mod Trusted
pub mod Served
use tine.Base.{
  ℕ, Bool, true, false, not, ◌&&◌, Option, none, some, List, [], ◌∷◌, ◌++◌, Bytes, length, take,
  same_bytes, if◌then◌else◌,
}
use tine.Base.Text.{Text, text_of}
use tine.RemoteCache.Outcome.{
  Raised, Result, ok, err, is_value_error, is_url_error, aborted, invalid_argument, not_found,
  keyless_signed, foreign_members, wrong_members, wrong_bundle,
}
use tine.RemoteCache.Exec.{Exec, pure, raise, lift, handle, ◌>>=◌, ◌>>◌}
use tine.RemoteCache.Bucket.{small_object}
use tine.RemoteCache.Bundle.Name.{bundle_name}
use tine.RemoteCache.Reapi.Digest.{Digest}
use tine.RemoteCache.Reapi.Result.{ActionResult, GetActionResultRequest}
use tine.RemoteCache.Signing.Authority.{unwrap}
use tine.RemoteCache.Signing.Envelope.{magic, is_sha256_hex}
use tine.RemoteCache.Store.Table.{Table, find}
use tine.RemoteCache.Store.State.{Store}
use tine.RemoteCache.Store.Choose.{among_texts}
use tine.RemoteCache.Store.Blobs
use tine.RemoteCache.Store.Blobs.{remember_all}
use tine.RemoteCache.Store.Results
use tine.RemoteCache.Store.Results.{put_result, drop_result}
use tine.RemoteCache.Shim.Pointer.{Pointer, read_pointer}
use tine.RemoteCache.Shim.Proven.{proven}
use tine.RemoteCache.Shim.State.{Setup, Shim, Call, on_store, of_store, count, get, host}
use tine.RemoteCache.Shim.Local.{
  referenced, all_here, here, ensure, blob, fetch_bundle, admit, refuse, none_counted,
}

-- A pointer that is trusted, with the result that it points from.
abbrev pub Found : Type 0
Found = Pointer × ActionResult

module _ (u : Setup) where
  -- Under an authority, or without one.
  abbrev pub verified : Bool → Digest → Bytes → Call u Bytes
  verified true action stored = unwrap u.crypto (host u) action.hash stored
  verified false action stored =
      if same_bytes (take (length magic) stored) magic then raise keyless_signed else pure stored

  -- `_trusted`
  unfoldable pub trusted : Digest → Bytes → Call u Found
  trusted action stored = do
    payload ← verified u.has_authority action stored
    lift (read_pointer payload)

  abbrev drop : Digest → Call u (Unit {0})
  drop action s = (ok tt, record s { store = drop_result action s.store })

  abbrev pub kept_refused : Digest → Raised → Call u (Option Found)
  kept_refused action e =
      if is_url_error e
      then none_counted u (text_of "bucket errors")
      else if is_value_error e
      then (do count u (text_of "pointers refused"); drop action; pure none)
      else raise e

  abbrev pub trusted_found : Digest → Bytes → Call u (Option Found)
  trusted_found action stored = do found ← trusted action stored; pure (some found)

  abbrev pub kept_of : Digest → Option Bytes → Call u (Option Found)
  kept_of action none = pure none
  kept_of action (some stored) = handle (trusted_found action stored) (kept_refused action)

  -- `_kept`
  unfoldable pub kept : Digest → Call u (Option Found)
  kept action = do stored ← of_store u (Results.result action); kept_of action stored

  abbrev pub fetch_refused : Raised → Call u (Option (Bytes × Found))
  fetch_refused e =
      if is_url_error e
      then none_counted u (text_of "bucket errors")
      else if is_value_error e
      then none_counted u (text_of "pointers refused")
      else raise e

  abbrev pub trusted_with : Digest → Option Bytes → Call u (Option (Bytes × Found))
  trusted_with action none = none_counted u (text_of "misses")
  trusted_with action (some stored) = do found ← trusted action stored; pure (some (stored, found))

  -- The first `try` of `_fetch`.
  unfoldable pub fetch_pointer : Digest → Call u (Option (Bytes × Found))
  fetch_pointer action =
      handle
        (do stored ← get u (text_of "ac/" ++ action.hash) small_object; trusted_with action stored)
        fetch_refused

  abbrev pub all_of : Option (List Digest) → Call u (Option (List Digest))
  all_of none = pure none
  all_of (some blobs) = do
    answers ← here u blobs
    pure (if all_here answers then some blobs else none)

  -- The blobs of a result that the store alone resolves and holds.
  unfoldable pub held_by_store : ActionResult → Call u (Option (List Digest))
  held_by_store result = do
    blobs ← on_store u (referenced (Blobs.blob u.platform) result)
    all_of blobs

  abbrev pub admit_proven :
      Digest → Bytes → Found → Table Bytes → Result (List Digest) → Call u (Option Found)
  admit_proven action stored (pointer, result) members (err e) =
      if is_value_error e then (do refuse u pointer.bundle; pure none) else raise e
  admit_proven action stored (pointer, result) members (ok blobs) = do
    admit u members pointer.bundle
    on_store u (put_result u.platform action stored)
    pure (some (pointer, result))

  abbrev pub from_bundle : Digest → Bytes → Found → Option (Table Bytes) → Call u (Option Found)
  from_bundle action stored found none = pure none
  from_bundle action stored (pointer, result) (some members) =
      admit_proven action stored (pointer, result) members
        (proven u.platform.sha256 pointer result members)

  abbrev pub taken : Digest → Bytes → Found → Option (List Digest) → Call u (Option Found)
  taken action stored (pointer, result) (some local) = do
    on_store u (put_result u.platform action stored)
    on_store u (remember_all u.platform local pointer.bundle)
    pure (some (pointer, result))
  taken action stored (pointer, result) none = do
    members ← fetch_bundle u pointer.bundle
    from_bundle action stored (pointer, result) members

  abbrev pub fetch_rest : Digest → Option (Bytes × Found) → Call u (Option Found)
  fetch_rest action none = pure none
  fetch_rest action (some (stored, (pointer, result))) = do
    local ← held_by_store result
    taken action stored (pointer, result) local

  -- `_fetch`
  unfoldable pub fetch : Digest → Call u (Option Found)
  fetch action = do got ← fetch_pointer action; fetch_rest action got

  abbrev pub or_fetched : Bool → Digest → Option Found → Call u (Option Found)
  or_fetched bucket action (some found) = pure (some found)
  or_fetched false action none = pure none
  or_fetched true action none = fetch action

  abbrev pub backed : Option (List Digest) → Call u Bool
  backed none = pure false
  backed (some blobs) = ensure u blobs

  abbrev pub hit : ActionResult → Bool → Call u ActionResult
  hit result true = do count u (text_of "hits"); pure result
  hit result false = do count u (text_of "incomplete"); raise (aborted not_found)

  abbrev pub served : Option Found → Call u ActionResult
  served none = raise (aborted not_found)
  served (some (pointer, result)) = do
    blobs ← referenced (blob u) result
    complete ← backed blobs
    hit result complete

  abbrev pub get_for : Option Digest → Call u ActionResult
  get_for none = raise (aborted invalid_argument)
  get_for (some action) =
      if not (is_sha256_hex action.hash) then raise (aborted invalid_argument) else (do
        count u (text_of "lookups")
        held ← kept action
        found ← or_fetched u.has_bucket action held
        served found)

  -- `ActionCache.get`
  unfoldable pub get_result : GetActionResultRequest → Call u ActionResult
  get_result request = get_for request.action_digest
