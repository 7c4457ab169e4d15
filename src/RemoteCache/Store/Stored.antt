-- ===== src/RemoteCache/Store/Stored.antt =====
-- What `put_blob` stores within the limit is what `has_blobs` and `blob` find then.
use tine.Base.{
  ◌+◌, ◌≤◌, ◌≡◌, refl, ap, ◌∙◌, true, Option, none, some, List, [], ◌∷◌, Bytes, length, ◌==◌,
  same_bytes, same_bytes_refl, arith, inl, inr, Bool-cases, leb, ℕ, suc,
}
use tine.Base.Text.{Text}
use tine.RemoteCache.Outcome.{Result, ok}
use tine.RemoteCache.Exec.{continue}
use tine.RemoteCache.Reapi.Digest.{Digest}
use tine.RemoteCache.Signing.Envelope.{is_sha256_hex}
use tine.RemoteCache.Store.Table.{find, upsert, find-upsert_here}
use tine.RemoteCache.Store.State.{Platform, File, Store, now, path, present}
use tine.RemoteCache.Store.Filed.{
  Filed, hashes, store_rows, arriving_bytes, check_blob, check_blobs,
}
use tine.RemoteCache.Store.Evict.{evict}
use tine.RemoteCache.Store.Rows.{Which, blob_row, result_row, delete_row, delete_rows, evict_rows}
use tine.RemoteCache.Store.Blobs.{
  write_files, file_rows, put_blobs, put_blob, use_blob, has_blobs, blob, used_if, serve,
}
use tine.RemoteCache.Store.Presence.{content_of, content_at}

delete_rows-files : (going : List Which) (s : Store) → (delete_rows going s).files ≡ s.files
unfolding delete_rows delete_row
delete_rows-files [] s = refl
delete_rows-files (blob_row seen one ∷ going) s =
    delete_rows-files going (delete_row (blob_row seen one) s)
delete_rows-files (result_row seen one ∷ going) s =
    delete_rows-files going (delete_row (result_row seen one) s)

evict_rows-files : (s : Store) → (evict_rows s).files ≡ s.files
unfolding evict_rows
evict_rows-files s = elim (Bool-cases (leb (length s.blobs + length s.results) s.max_rows)) [
  | inl e ↦ rw e refl
  | inr e ↦ rw e (delete_rows-files _ s)
]

module _ (p : Platform) where
  evict-same :
      (arriving : ℕ) (keeping : List Text) (s : Store)
      → s.held + arriving ≤ s.max_bytes
      → evict p arriving keeping s ≡ (ok tt, s)
  unfolding evict
  evict-same arriving keeping s h =
      let fits : leb (s.held + arriving) s.max_bytes ≡ true = ground (arith, h) in rw fits refl

  path_of : (hash : Text) → is_sha256_hex hash ≡ true → path hash ≡ ok hash
  unfolding path
  path_of hash h = rw h refl

  -- The store once one blob is written and its row is filed, before rows are evicted.
  abbrev filed : Digest → Bytes → Option Text → Store → Store
  filed digest content bundle s =
      let new : File = record { content = content; used = p.time s.readings } in
      record s {
        held = s.held + arriving_bytes ((digest, content) ∷ []) s;
        readings = suc (suc s.readings);
        files = upsert digest.hash new (λ _. new) s.files;
        blobs = store_rows ((digest, content) ∷ []) bundle (p.time (suc s.readings)) s.blobs;
      }

  arriving-bound :
      (digest : Digest) (content : Bytes) (s : Store)
      → arriving_bytes ((digest, content) ∷ []) s ≤ digest.size_bytes
  unfolding arriving_bytes
  arriving-bound digest content s = elim (Bool-cases (present digest.hash s)) [
    | inl e ↦ rw e (omega arith)
    | inr e ↦ rw e (omega arith)
  ]

  put_blob-filed :
      (digest : Digest) (content : Bytes) (bundle : Option Text) (s : Store)
      → is_sha256_hex digest.hash ≡ true
      → p.sha256 content ≡ digest.hash
      → length content ≡ digest.size_bytes
      → s.held + digest.size_bytes ≤ s.max_bytes
      → put_blob p digest content bundle s ≡ (ok tt, evict_rows (filed digest content bundle s))
  unfolding put_blob put_blobs check_blobs check_blob write_files file_rows now arriving_bytes
      present
  put_blob-filed digest content bundle s hex right sized room =
      let one : Filed = (digest, content) ∷ [] in
      let same : same_bytes (p.sha256 content) digest.hash ≡ true =
        rw right (same_bytes_refl digest.hash) in
      let long : (length content == digest.size_bytes) ≡ true = ground (arith, sized) in
      let bound = arriving-bound digest content s in
      let before : evict p (arriving_bytes one s) (hashes one) s ≡ (ok tt, s) =
        evict-same (arriving_bytes one s) (hashes one) s (omega (arith, bound, room)) in
      let left = filed digest content bundle s in
      let after : evict p 0 [] left ≡ (ok tt, left) =
        evict-same 0 [] left (omega (arith, bound, room)) in
      rw (same, long, before, path_of digest.hash hex)
        (ap
          (λ (r : Result (Unit {0}) × Store).
            continue r.0 (λ nothing left. (ok tt, evict_rows left)) r.1)
          after)

  -- A blob that is what its digest says, where there is room for it, is stored.
  pub put_blob-stores :
      (digest : Digest) (content : Bytes) (bundle : Option Text) (s : Store)
      → is_sha256_hex digest.hash ≡ true
      → p.sha256 content ≡ digest.hash
      → length content ≡ digest.size_bytes
      → s.held + digest.size_bytes ≤ s.max_bytes
      → (left : Store) × (put_blob p digest content bundle s ≡ (ok tt, left))
        × (content_at digest.hash left ≡ some content)
  put_blob-stores digest content bundle s hex hashes sized room =
      let new : File = record { content = content; used = p.time s.readings } in
      (
        evict_rows (filed digest content bundle s),
        put_blob-filed digest content bundle s hex hashes sized room,
        ap (λ f. content_of (find digest.hash f)) (evict_rows-files (filed digest content bundle s))
            ∙ ap content_of (find-upsert_here digest.hash new s.files),
      )

  told :
      (d : Digest) (content : Bytes) (s : Store) (f : Option File)
      → content_of f ≡ some content
      → length content ≡ d.size_bytes
      → (used_if p d d.hash f s).0 ≡ ok true
  unfolding now
  told d content s none at sized = absurd (cc)
  told d content s (some f) at sized =
      let same : f.content ≡ content = cc in
      let long : (length f.content == d.size_bytes) ≡ true = rw same (ground (arith, sized)) in
      rw long refl

  served :
      (d : Digest) (content : Bytes) (s : Store) (f : Option File)
      → content_of f ≡ some content
      → p.sha256 content ≡ d.hash
      → (serve p d d.hash f s).0 ≡ ok (some content)
  unfolding now
  served d content s none at hashes = absurd (cc)
  served d content s (some f) at hashes =
      let same : f.content ≡ content = cc in
      let right : same_bytes (p.sha256 f.content) d.hash ≡ true =
        rw (same, hashes) (same_bytes_refl d.hash) in
      rw (right, same) refl

  -- What stands under the hash at the size of its digest is told to be here, and is served.
  pub has_blobs-stored :
      (d : Digest) (content : Bytes) (s : Store)
      → is_sha256_hex d.hash ≡ true
      → content_at d.hash s ≡ some content
      → length content ≡ d.size_bytes
      → (has_blobs p (d ∷ []) s).0 ≡ ok (true ∷ [])
  unfolding has_blobs use_blob now
  has_blobs-stored d content s hex at sized =
      rw (path_of d.hash hex, told d content s (find d.hash s.files) at sized) refl

  pub blob-stored :
      (d : Digest) (content : Bytes) (s : Store)
      → is_sha256_hex d.hash ≡ true
      → content_at d.hash s ≡ some content
      → p.sha256 content ≡ d.hash
      → (blob p d s).0 ≡ ok (some content)
  unfolding blob
  blob-stored d content s hex at hashes =
      rw (path_of d.hash hex) (served d content s (find d.hash s.files) at hashes)
