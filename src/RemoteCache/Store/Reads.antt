-- ===== src/RemoteCache/Store/Reads.antt =====
-- What the store serves and takes: bytes that hash to their digest, and no other.
use tine.Base.{
  ◌≡◌, refl, sym, ap, ◌∙◌, true, not, ◌||◌, Option, none, some, [], ◌∷◌, Bytes, length, All, ◌==◌,
  same_bytes, same_bytes→eq, arith, inl, inr, Bool-cases,
}
use tine.Base.Text.{Text}
use tine.RemoteCache.Outcome.{ok, Result-cases, >>=-eq-ok, then_raise-eq-ok}
use tine.RemoteCache.Exec.{continue-eq-ok}
use tine.RemoteCache.Reapi.Digest.{Digest}
use tine.RemoteCache.Store.Table.{find}
use tine.RemoteCache.Store.State.{Platform, File, Store, now, path}
use tine.RemoteCache.Store.Evict.{forget}
use tine.RemoteCache.Store.Filed.{Filed, check_blob, check_blobs}
use tine.RemoteCache.Store.Blobs.{blob, serve, put_blobs}

module _ (p : Platform) where
  serve-eq-ok :
      (digest : Digest) (file : Text) (f : Option File) (s : Store) {content : Bytes}
      → (serve p digest file f s).0 ≡ ok (some content)
      → p.sha256 content ≡ digest.hash
  unfolding now
  serve-eq-ok digest file none s h = absurd (cc)
  serve-eq-ok digest file (some f) s {content} h =
      elim (Bool-cases (same_bytes (p.sha256 f.content) digest.hash)) [
        | inl e ↦
            let h' = rw e at h in
            let same : f.content ≡ content = cc in ap p.sha256 (sym same) ∙ same_bytes→eq _ _ e
        | inr e ↦
            let h' = rw e at h in
            let gone = forget p (digest.hash ∷ []) s in
            let (nothing, e', k) = continue-eq-ok gone.0 _ gone.1 h' in absurd (cc)
      ]

  -- Whatever a file holds: `blob` returns only bytes that hash to the digest asked for.
  pub blob-eq-ok :
      (digest : Digest) (s : Store) {content : Bytes}
      → (blob p digest s).0 ≡ ok (some content)
      → p.sha256 content ≡ digest.hash
  unfolding blob
  blob-eq-ok digest s h =
      let (file, e, k) = continue-eq-ok (path digest.hash) _ s h in
      serve-eq-ok digest file (find file s.files) s k

  abbrev pub IsFiled : Digest × Bytes → Type 0
  IsFiled one = (p.sha256 one.1 ≡ one.0.hash) × (length one.1 ≡ one.0.size_bytes)

  check_blobs-eq-ok : (blobs : Filed) → check_blobs p blobs ≡ ok tt → All IsFiled blobs
  unfolding check_blobs check_blob
  check_blobs-eq-ok [] h = tt
  check_blobs-eq-ok ((digest, content) ∷ blobs) h =
      let (checked, e, k) = >>=-eq-ok (check_blob p digest content) _ h in
      let hash = same_bytes (p.sha256 content) digest.hash in
      let (fine, done) =
        then_raise-eq-ok _ (not hash || not (length content == digest.size_bytes)) _ e in
      let same : hash ≡ true = ground arith in
      ((same_bytes→eq _ _ same, ground arith), check_blobs-eq-ok blobs k)

  -- Blobs are stored only if each of them is what its digest says.
  pub put_blobs-eq-ok :
      (blobs : Filed) (bundle : Option Text) (s : Store)
      → (put_blobs p blobs bundle s).0 ≡ ok tt
      → All IsFiled blobs
  unfolding put_blobs
  put_blobs-eq-ok blobs bundle s h =
      let (checked, e, k) = continue-eq-ok (check_blobs p blobs) _ s h in check_blobs-eq-ok blobs e

  -- Where one blob is not what its digest says, nothing of the store changes.
  pub put_blobs-refused :
      (blobs : Filed) (bundle : Option Text) (s : Store)
      → ¬ All IsFiled blobs
      → (put_blobs p blobs bundle s).1 ≡ s
  unfolding put_blobs
  put_blobs-refused blobs bundle s h = elim (Result-cases (check_blobs p blobs)) [
    | inl (nothing, e) ↦ absurd (h (check_blobs-eq-ok blobs e))
    | inr (why, e) ↦ rw e refl
  ]
