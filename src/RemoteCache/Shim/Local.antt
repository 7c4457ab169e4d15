-- ===== src/RemoteCache/Shim/Local.antt =====
-- `Local` of remote_cache/shim.py: the store, and filling it from the bucket; and `referenced`.
pub mod Presence
pub mod Dict
use tine.Base.{
  ℕ, Bool, true, false, not, ◌&&◌, Option, none, some, List, [], ◌∷◌, ◌++◌, Bytes, length,
  if◌then◌else◌,
}
use tine.Base.Text.{Text, text_of}
use tine.RemoteCache.Outcome.{Result, ok, err, is_value_error, is_url_error}
use tine.RemoteCache.Exec.{Exec, pure, raise, lift, ◌>>=◌, ◌>>◌}
use tine.RemoteCache.Bundle.{unpack}
use tine.RemoteCache.Reapi.Digest.{Digest}
use tine.RemoteCache.Reapi.Result.{ActionResult, named, tree_files}
use tine.RemoteCache.Store.Table.{Table, upsert}
use tine.RemoteCache.Store.State.{Store}
use tine.RemoteCache.Store.Choose.{among_texts}
use tine.RemoteCache.Store.Filed.{Filed}
use tine.RemoteCache.Store.Blobs
use tine.RemoteCache.Store.Blobs.{bundle_of, members_of, put_blobs, has_blobs}
use tine.RemoteCache.Shim.State.{Setup, Shim, Call, on_store, of_store, count, get}

-- The rest of a result's digests, once a Tree was looked up.
abbrev pub with_files :
    {S : Type 0}
    → Option Bytes
    → List Digest
    → (List Digest → Exec S (Option (List Digest)))
    → Exec S (Option (List Digest))
with_files none digests next = pure none
with_files (some bytes) digests next = do files ← lift (tree_files bytes); next (digests ++ files)

-- The loop of `referenced`, with the digests named so far.
unfoldable pub files_of :
    {S : Type 0}
    → (Digest → Exec S (Option Bytes))
    → List Digest
    → List Digest
    → Exec S (Option (List Digest))
files_of lookup [] digests = pure (some digests)
files_of lookup (tree ∷ trees) digests = do
  found ← lookup tree
  with_files found digests (files_of lookup trees)

-- `referenced`
unfoldable pub referenced :
    {S : Type 0} → (Digest → Exec S (Option Bytes)) → ActionResult → Exec S (Option (List Digest))
unfolding files_of
referenced lookup result = files_of lookup result.tree_digests (named result)

-- The members of a bundle as `dict` makes them.
unfoldable pub dict_from : List (Text × Bytes) → Table Bytes → Table Bytes
dict_from [] t = t
dict_from ((name, blob) ∷ members) t = dict_from members (upsert name blob (λ _. blob) t)

-- {Digest(hash=member, size_bytes=len(blob)): blob ...}
unfoldable pub filed_of : Table Bytes → Filed
filed_of [] = []
filed_of ((member, blob) ∷ members) =
    (record { hash = member; size_bytes = length blob }, blob) ∷ filed_of members

-- {member: blob ... if member in known}
unfoldable pub only_known : List Text → Table Bytes → Table Bytes
only_known known [] = []
only_known known ((member, blob) ∷ members) =
    let rest = only_known known members in
    if among_texts member known then (member, blob) ∷ rest else rest

-- Those of the digests that are not here.
unfoldable pub missing_of : List Digest → List Bool → List Digest
missing_of (one ∷ digests) (here ∷ answers) =
    let rest = missing_of digests answers in if here then rest else one ∷ rest
missing_of digests answers = []

abbrev want : Digest → Option Text → Table (List Digest) → Table (List Digest)
want one none t = t
want one (some name) t = upsert name (one ∷ []) (λ (l : List Digest). l ++ one ∷ []) t

-- The missing digests by the bundle that is known to carry them.
unfoldable pub wanted_from : List Digest → Store → Table (List Digest) → Table (List Digest)
wanted_from [] s t = t
wanted_from (one ∷ missing) s t = wanted_from missing s (want one (bundle_of one s) t)

unfoldable pub all_here : List Bool → Bool
all_here [] = true
all_here (here ∷ answers) = here && all_here answers

module _ (u : Setup) where
  -- `Local.refuse`
  unfoldable pub refuse : Text → Call u (Unit {0})
  unfolding count
  refuse name s =
      let tainted = if among_texts name s.tainted then s.tainted else name ∷ s.tainted in
      count u (text_of "bundles refused") (record s { tainted = tainted })

  abbrev pub none_counted : {A : Type 0} → Text → Call u (Option A)
  none_counted what = do count u what; pure none

  abbrev pub unpacked : Text → Result (List (Text × Bytes)) → Call u (Option (Table Bytes))
  unpacked name (ok members) = pure (some (dict_from members []))
  unpacked name (err e) = if is_value_error e then (do refuse name; pure none) else raise e

  abbrev pub fetched : Text → Result (Option Bytes) → Call u (Option (Table Bytes))
  fetched name (ok none) = none_counted (text_of "bundles gone")
  fetched name (ok (some packed)) = unpacked name (unpack u.platform.sha256 packed)
  fetched name (err e) =
      if is_url_error e
      then none_counted (text_of "bucket errors")
      else if is_value_error e
      then none_counted (text_of "bundles too large")
      else raise e

  -- `Local.fetch_bundle`
  unfoldable pub fetch_bundle : Text → Call u (Option (Table Bytes))
  fetch_bundle name s =
      let (got, s') = get u (text_of "bundle/" ++ name) s.store.max_bytes s in fetched name got s'

  -- `Local.admit`
  unfoldable pub admit : Table Bytes → Text → Call u (Unit {0})
  admit members name = on_store u (put_blobs u.platform (filed_of members) (some name))

  abbrev pub here : List Digest → Call u (List Bool)
  here digests = on_store u (has_blobs u.platform digests)

  abbrev refilled : Text → Option (Table Bytes) → Call u (Unit {0})
  refilled name none = pure tt
  refilled name (some members) = do
    known ← of_store u (members_of name)
    admit (only_known known members) name
    count u (text_of "bundles refilled")

  abbrev refill_unless : Bool → Text → Call u (Unit {0})
  refill_unless true name = pure tt
  refill_unless false name = do members ← fetch_bundle name; refilled name members

  -- The loop of `ensure` over the bundles wanted.
  unfoldable pub refill_each : Table (List Digest) → Call u (Unit {0})
  refill_each [] = pure tt
  refill_each ((name, needed) ∷ wanted) = do
    answers ← here needed
    refill_unless (all_here answers) name
    refill_each wanted

  -- With a bucket or without one.
  abbrev pub refill_if : Bool → List Digest → List Digest → Call u Bool
  refill_if false digests missing = pure false
  refill_if true digests missing = do
    wanted ← of_store u (λ s. wanted_from missing s [])
    refill_each wanted
    answers ← here digests
    pure (all_here answers)

  abbrev pub ensure_missing : List Digest → List Digest → Call u Bool
  ensure_missing digests [] = pure true
  ensure_missing digests (one ∷ missing) = refill_if u.has_bucket digests (one ∷ missing)

  -- `Local.ensure`
  unfoldable pub ensure : List Digest → Call u Bool
  ensure digests = do answers ← here digests; ensure_missing digests (missing_of digests answers)

  abbrev pub read_if : Digest → Bool → Call u (Option Bytes)
  read_if digest false = pure none
  read_if digest true = on_store u (Blobs.blob u.platform digest)

  abbrev pub read_again : Digest → Option Bytes → Call u (Option Bytes)
  read_again digest (some found) = pure (some found)
  read_again digest none = do again ← ensure (digest ∷ []); read_if digest again

  abbrev pub read_first : Digest → Bool → Call u (Option Bytes)
  read_first digest false = pure none
  read_first digest true = do
    found ← on_store u (Blobs.blob u.platform digest)
    read_again digest found

  -- `Local.blob`
  unfoldable pub blob : Digest → Call u (Option Bytes)
  blob digest = do first ← ensure (digest ∷ []); read_first digest first
