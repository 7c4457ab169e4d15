-- ===== src/RemoteCache/Store/Blobs.antt =====
-- The blobs of remote_cache/store.py: storing, reading and remembering them.
use tine.Base.{
  ◌+◌, Bool, true, false, not, Option, none, some, List, [], ◌∷◌, Bytes, length, ◌==◌, same_bytes,
  if◌then◌else◌,
}
use tine.Base.Text.{Text}
use tine.RemoteCache.Outcome.{ok}
use tine.RemoteCache.Exec.{Exec, pure, lift, ◌>>=◌, ◌>>◌}
use tine.RemoteCache.Reapi.Digest.{Digest}
use tine.RemoteCache.Store.Filed.{
  Filed, hashes, arriving_bytes, store_rows, remember_rows, check_blobs,
}
use tine.RemoteCache.Store.Table.{Table, find, upsert, change}
use tine.RemoteCache.Store.State.{Platform, BlobRow, File, Store, now, path}
use tine.RemoteCache.Store.Evict.{forget, evict}
use tine.RemoteCache.Store.Rows.{evict_rows}

module _ (p : Platform) where
  -- `write_atomically`, which dates the file.
  abbrev write_file : Text → Bytes → Exec Store (Unit {0})
  write_file file content = do
    used ← now p
    let new : File = record { content = content; used = used }
    λ s. (ok tt, record s { files = upsert file new (λ _. new) s.files })

  unfoldable pub write_files : Filed → Exec Store (Unit {0})
  write_files [] = pure tt
  write_files ((digest, content) ∷ blobs) = do
    file ← lift (path digest.hash)
    write_file file content
    write_files blobs

  -- The last transaction of `put_blobs`.
  unfoldable pub file_rows : Filed → Option Text → Exec Store (Unit {0})
  file_rows blobs bundle s =
      let s' = record s { held = s.held + arriving_bytes blobs s } in
      (do seen ← now p; λ s. (ok tt, record s { blobs = store_rows blobs bundle seen s.blobs })) s'

  abbrev make_room : Filed → Exec Store (Unit {0})
  make_room blobs s = evict p (arriving_bytes blobs s) (hashes blobs) s

  unfoldable pub put_blobs : Filed → Option Text → Exec Store (Unit {0})
  put_blobs blobs bundle = do
    lift (check_blobs p blobs)
    make_room blobs
    write_files blobs
    file_rows blobs bundle
    evict p 0 []
    λ s. (ok tt, evict_rows s)

  unfoldable pub put_blob : Digest → Bytes → Option Text → Exec Store (Unit {0})
  put_blob digest content bundle = put_blobs ((digest, content) ∷ []) bundle

  -- os.utime(path)
  abbrev pub use_file : Text → Exec Store (Unit {0})
  use_file file = do
    used ← now p
    λ s. (ok tt, record s { files = change file (λ f. record f { used = used }) s.files })

  abbrev pub serve : Digest → Text → Option File → Exec Store (Option Bytes)
  serve digest file none = pure none
  serve digest file (some f) =
      if not (same_bytes (p.sha256 f.content) digest.hash)
      then (do forget p (digest.hash ∷ []); pure none)
      else (do use_file file; pure (some f.content))

  unfoldable pub blob : Digest → Exec Store (Option Bytes)
  blob digest = do file ← lift (path digest.hash); λ s. serve digest file (find file s.files) s

  abbrev pub used_if : Digest → Text → Option File → Exec Store Bool
  used_if digest file none = pure false
  used_if digest file (some f) =
      if not (length f.content == digest.size_bytes)
      then pure false
      else (do use_file file; pure true)

  -- `_use`
  unfoldable pub use_blob : Digest → Exec Store Bool
  use_blob digest = do
    file ← lift (path digest.hash)
    λ s. used_if digest file (find file s.files) s

  unfoldable pub has_blobs : List Digest → Exec Store (List Bool)
  has_blobs [] = pure []
  has_blobs (one ∷ digests) = do
    here ← use_blob one
    others ← has_blobs digests
    pure (here ∷ others)

  unfoldable pub drop_blob : Digest → Exec Store (Unit {0})
  drop_blob digest = forget p (digest.hash ∷ [])

  unfoldable pub remember_all : List Digest → Text → Exec Store (Unit {0})
  remember_all digests bundle = do
    seen ← now p
    λ s. (ok tt, evict_rows (record s { blobs = remember_rows digests bundle seen s.blobs }))

abbrev pub bundle_in : Option BlobRow → Option Text
bundle_in none = none
bundle_in (some row) = row.bundle

unfoldable pub bundle_of : Digest → Store → Option Text
bundle_of digest s = bundle_in (find digest.hash s.blobs)

abbrev carried_by : Text → Option Text → Bool
carried_by bundle none = false
carried_by bundle (some b) = same_bytes b bundle

unfoldable pub members_in : Text → Table BlobRow → List Text
members_in bundle [] = []
members_in bundle ((one, row) ∷ rows) =
    let rest = members_in bundle rows in if carried_by bundle row.bundle then one ∷ rest else rest

unfoldable pub members_of : Text → Store → List Text
members_of bundle s = members_in bundle s.blobs

unfoldable pub digests_in : Table BlobRow → List Digest
digests_in [] = []
digests_in ((one, row) ∷ rows) =
    let rest = digests_in rows in
    if row.present then record { hash = one; size_bytes = row.size } ∷ rest else rest

unfoldable pub digests : Store → List Digest
digests s = digests_in s.blobs
