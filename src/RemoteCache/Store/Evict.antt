-- ===== src/RemoteCache/Store/Evict.antt =====
-- `_forget` and `_evict` of remote_cache/store.py.
use tine.Base.{ℕ, ◌+◌, ◌-◌, false, Option, none, some, List, [], ◌∷◌, leb, if◌then◌else◌}
use tine.Base.Text.{Text}
use tine.RemoteCache.Outcome.{ok}
use tine.RemoteCache.Exec.{Exec, pure, lift, ◌>>=◌, ◌>>◌}
use tine.RemoteCache.Store.Choose.{candidates, choose, sort_aged, hashes_of, Candidate}
use tine.RemoteCache.Store.Table.{find, change, remove}
use tine.RemoteCache.Store.State.{Platform, BlobRow, Store, now, path}

module _ (p : Platform) where
  -- UPDATE blob SET present = 0, seen = ? WHERE hash = ?
  unfoldable pub drop_row : Text → BlobRow → ℕ → Exec Store ℕ
  drop_row one row freed = do
    seen ← now p
    λ s. (
      ok (freed + row.size),
      record s {
        blobs = change one (λ (r : BlobRow). record r { present = false; seen = seen }) s.blobs;
      },
    )

  abbrev pub drop_found : Text → ℕ → Option BlobRow → Exec Store ℕ
  drop_found one freed none = pure freed
  drop_found one freed (some row) = if row.present then drop_row one row freed else pure freed

  abbrev unlink : Text → Exec Store (Unit {0})
  unlink file s = (ok tt, record s { files = remove file s.files })

  -- One round of the loop of `_forget`, with the bytes freed before it.
  unfoldable pub forget_one : Text → ℕ → Exec Store ℕ
  forget_one one freed = do
    file ← lift (path one)
    unlink file
    λ s. drop_found one freed (find one s.blobs) s

  unfoldable pub forget_each : List Text → ℕ → Exec Store ℕ
  forget_each [] freed = pure freed
  forget_each (one ∷ hashes) freed = do freed' ← forget_one one freed; forget_each hashes freed'

  unfoldable pub forget : List Text → Exec Store (Unit {0})
  forget hashes = do freed ← forget_each hashes 0; λ s. (ok tt, record s { held = s.held - freed })

  abbrev pub forget_chosen : List Candidate → Exec Store (Unit {0})
  forget_chosen [] = pure tt
  forget_chosen (a ∷ going) = forget (hashes_of (a ∷ going))

  -- `_evict`
  unfoldable pub evict : ℕ → List Text → Exec Store (Unit {0})
  evict arriving keeping s =
      if leb (s.held + arriving) s.max_bytes
      then (ok tt, s)
      else (do
        ages ← lift (candidates keeping s.files s.blobs)
        let over = s.held + arriving - p.ninety_percent s.max_bytes
        forget_chosen (choose over 0 (sort_aged ages)))
          s
