-- ===== src/RemoteCache/Store/Provenance.antt =====
-- What the store knows of where a blob came from outlives the blob's bytes.
use tine.Base.{
  ℕ, ◌+◌, ◌≡◌, refl, ◌∙◌, false, Option, none, some, List, [], ◌∷◌, same_bytes, leb, inl, inr,
  Bool-cases,
}
use tine.Base.Text.{Text}
use tine.RemoteCache.Outcome.{Result, ok, err}
use tine.RemoteCache.Exec.{Exec, continue}
use tine.RemoteCache.Reapi.Digest.{Digest}
use tine.RemoteCache.Store.Table.{Table, find, change}
use tine.RemoteCache.Store.State.{Platform, BlobRow, File, Store, now, path}
use tine.RemoteCache.Store.Choose.{candidates, hashes_of, Candidate}
use tine.RemoteCache.Store.Evict.{
  drop_row, drop_found, forget_one, forget_each, forget, forget_chosen, evict,
}
use tine.RemoteCache.Store.Blobs.{bundle_in, bundle_of, blob, serve, drop_blob}

continue-keeps :
    {A B : Type 0} (get : Store → Option Text) (r : Result A) (f : A → Exec Store B) (s : Store)
    → ((a : A) → get (f a s).1 ≡ get s)
    → get (continue r f s).1 ≡ get s
continue-keeps get (ok a) f s keeps = keeps a
continue-keeps get (err e) f s keeps = refl

module _ (p : Platform) (digest : Digest) where
  abbrev known : Store → Option Text
  known s = bundle_in (find digest.hash s.blobs)

  bundle_in-change :
      (one : Text) (seen : ℕ) (t : Table BlobRow)
      → bundle_in (
          find digest.hash
            (change one (λ (r : BlobRow). record r { present = false; seen = seen }) t))
        ≡ bundle_in (find digest.hash t)
  unfolding find change
  bundle_in-change one seen [] = refl
  bundle_in-change one seen ((k, row) ∷ t) = elim (Bool-cases (same_bytes k one)) [
    | inl e ↦ elim (Bool-cases (same_bytes k digest.hash)) [
      | inl f ↦ rw (e, f) refl
      | inr f ↦ rw (e, f) refl
    ]
    | inr e ↦ elim (Bool-cases (same_bytes k digest.hash)) [
      | inl f ↦ rw (e, f) refl
      | inr f ↦ rw (e, f) (bundle_in-change one seen t)
    ]
  ]

  drop_found-known :
      (one : Text) (freed : ℕ) (row : Option BlobRow) (s : Store)
      → known (drop_found p one freed row s).1 ≡ known s
  unfolding drop_row now
  drop_found-known one freed none s = refl
  drop_found-known one freed (some row) s = elim (Bool-cases row.present) [
    | inl e ↦ rw e (bundle_in-change one (p.time s.readings) s.blobs)
    | inr e ↦ rw e refl
  ]

  forget_one-known :
      (one : Text) (freed : ℕ) (s : Store) → known (forget_one p one freed s).1 ≡ known s
  unfolding forget_one
  forget_one-known one freed s =
      continue-keeps known (path one) _ s (λ file. drop_found-known one freed (find one s.blobs) _)

  forget_each-known :
      (hashes : List Text) (freed : ℕ) (s : Store)
      → known (forget_each p hashes freed s).1 ≡ known s
  unfolding forget_each
  forget_each-known [] freed s = refl
  forget_each-known (one ∷ hashes) freed s =
      let step = forget_one p one freed s in
      continue-keeps known step.0 (λ more. forget_each p hashes more) step.1
        (λ more. forget_each-known hashes more step.1)
      ∙ forget_one-known one freed s

  forget-known : (hashes : List Text) (s : Store) → known (forget p hashes s).1 ≡ known s
  unfolding forget
  forget-known hashes s =
      let all = forget_each p hashes 0 s in
      continue-keeps known all.0 _ all.1 (λ freed. refl) ∙ forget_each-known hashes 0 s

  forget_chosen-known :
      (going : List Candidate) (s : Store) → known (forget_chosen p going s).1 ≡ known s
  forget_chosen-known [] s = refl
  forget_chosen-known (a ∷ going) s = forget-known (hashes_of (a ∷ going)) s

  evict-known :
      (arriving : ℕ) (keeping : List Text) (s : Store)
      → known (evict p arriving keeping s).1 ≡ known s
  unfolding evict
  evict-known arriving keeping s = elim (Bool-cases (leb (s.held + arriving) s.max_bytes)) [
    | inl e ↦ rw e refl
    | inr e ↦ rw e (
        continue-keeps known (candidates keeping s.files s.blobs) _ s
          (λ ages. forget_chosen-known _ s))
  ]

  serve-known :
      (asked : Digest) (file : Text) (f : Option File) (s : Store)
      → known (serve p asked file f s).1 ≡ known s
  unfolding now
  serve-known asked file none s = refl
  serve-known asked file (some f) s =
      elim (Bool-cases (same_bytes (p.sha256 f.content) asked.hash)) [
        | inl e ↦ rw e refl
        | inr e ↦
            let gone = forget p (asked.hash ∷ []) s in
            rw e (
              continue-keeps known gone.0 _ gone.1 (λ nothing. refl)
              ∙ forget-known (asked.hash ∷ []) s)
      ]

  -- Whether they return or raise, `_evict`, `drop_blob` and `blob` leave the bundle that any blob is
  -- known to have come from, the blobs that they drop included.
  pub bundle_of-kept :
      (arriving : ℕ) (keeping : List Text) (asked : Digest) (s : Store)
      → (bundle_of digest (evict p arriving keeping s).1 ≡ bundle_of digest s)
        × (bundle_of digest (drop_blob p asked s).1 ≡ bundle_of digest s)
        × (bundle_of digest (blob p asked s).1 ≡ bundle_of digest s)
  unfolding bundle_of drop_blob blob
  bundle_of-kept arriving keeping asked s = (
    evict-known arriving keeping s,
    forget-known (asked.hash ∷ []) s,
    continue-keeps known (path asked.hash) _ s
        (λ file. serve-known asked file (find file s.files) s),
  )
