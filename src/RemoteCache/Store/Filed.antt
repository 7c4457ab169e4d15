-- ===== src/RemoteCache/Store/Filed.antt =====
-- What `put_blobs` and `remember_all` of remote_cache/store.py are given: its checks and its rows.
use tine.Base.{
  ℕ, ◌+◌, true, false, not, ◌||◌, Option, none, some, List, [], ◌∷◌, Bytes, length, ◌==◌,
  same_bytes, if◌then◌else◌,
}
use tine.Base.Text.{Text}
use tine.RemoteCache.Outcome.{◌>>=◌, Result, ok, err, blob_mismatch}
use tine.RemoteCache.Reapi.Digest.{Digest}
use tine.RemoteCache.Store.Table.{Table, upsert}
use tine.RemoteCache.Store.State.{Platform, BlobRow, Store, present}

-- A `Mapping[reapi.Digest, bytes]`, as the list of its items.
abbrev pub Filed : Type 0
Filed = List (Digest × Bytes)

unfoldable pub hashes : Filed → List Text
hashes [] = []
hashes ((digest, content) ∷ blobs) = digest.hash ∷ hashes blobs

-- sum(one.size_bytes for one in blobs if not self._present(one.hash))
unfoldable pub arriving_bytes : Filed → Store → ℕ
arriving_bytes [] s = 0
arriving_bytes ((digest, content) ∷ blobs) s =
    (if present digest.hash s then 0 else digest.size_bytes) + arriving_bytes blobs s

-- COALESCE(new, old)
abbrev pub coalesce : Option Text → Option Text → Option Text
coalesce none old = old
coalesce (some new) old = some new

-- The statement of `put_blobs`, for each blob.
unfoldable pub store_rows : Filed → Option Text → ℕ → Table BlobRow → Table BlobRow
store_rows [] bundle seen rows = rows
store_rows ((digest, content) ∷ blobs) bundle seen rows = store_rows blobs bundle seen (
    upsert digest.hash
      (record { size = digest.size_bytes; bundle = bundle; present = true; seen = seen })
      (λ row. record row { present = true; bundle = coalesce bundle row.bundle; seen = seen }) rows)

-- The statement of `remember_all`, for each digest.
unfoldable pub remember_rows : List Digest → Text → ℕ → Table BlobRow → Table BlobRow
remember_rows [] bundle seen rows = rows
remember_rows (digest ∷ digests) bundle seen rows = remember_rows digests bundle seen (
    upsert digest.hash
      (record { size = digest.size_bytes; bundle = some bundle; present = false; seen = seen })
      (λ row. record row { bundle = some bundle; seen = seen }) rows)

module _ (p : Platform) where
  unfoldable pub check_blob : Digest → Bytes → Result (Unit {0})
  check_blob digest content =
      if not (same_bytes (p.sha256 content) digest.hash)
        || not (length content == digest.size_bytes)
      then err blob_mismatch
      else ok tt

  unfoldable pub check_blobs : Filed → Result (Unit {0})
  check_blobs [] = ok tt
  check_blobs ((digest, content) ∷ blobs) = do
    checked ← check_blob digest content
    check_blobs blobs
