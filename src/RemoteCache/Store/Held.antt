-- ===== src/RemoteCache/Store/Held.antt =====
-- `held` is the sum of the sizes of the blobs that are here, and evictions keep it so.
use tine.Base.{
  ℕ, ◌+◌, ◌-◌, ◌≡◌, refl, sym, ap, ◌∙◌, true, false, Option, none, some, List, [], ◌∷◌, leb,
  same_bytes, arith, inl, inr, Bool-cases,
}
use tine.Base.Text.{Text}
use tine.RemoteCache.Outcome.{ok}
use tine.RemoteCache.Exec.{continue-eq-ok}
use tine.RemoteCache.Store.Table.{Table, find, change, remove}
use tine.RemoteCache.Store.State.{Platform, BlobRow, Store, now, path, total}
use tine.RemoteCache.Store.Choose.{candidates, choose, sort_aged, hashes_of, Candidate}
use tine.RemoteCache.Store.Evict.{
  drop_row, drop_found, forget_one, forget_each, forget, forget_chosen, evict,
}

total-change :
    (one : Text) (seen : ℕ) (row : BlobRow) (t : Table BlobRow)
    → find one t ≡ some row
    → row.present ≡ true
    → total (change one (λ (r : BlobRow). record r { present = false; seen = seen }) t) + row.size
      ≡ total t
unfolding total change find
total-change one seen row [] h here = absurd (cc)
total-change one seen row ((k, r) ∷ t) h here = elim (Bool-cases (same_bytes k one)) [
  | inl e ↦
      let h' = rw e at h in
      let same : r ≡ row = cc in
      let size : row.size ≡ r.size = ap (λ (x : BlobRow). x.size) (sym same) in
      let is_here : r.present ≡ true = ap (λ (x : BlobRow). x.present) same ∙ here in
      rw (e, is_here, size) (omega arith)
  | inr e ↦
      let h' = rw e at h in rw e (let ih = total-change one seen row t h' here in omega (arith, ih))
]

abbrev pub IsCounted : Store → Type 0
IsCounted s = s.held ≡ total s.blobs

-- What is freed between two states of the loop is what the rows lose.
record Frees (s : Store) (freed : ℕ) (s' : Store) (freed' : ℕ) : Type 0 where
  sum : total s'.blobs + freed' ≡ total s.blobs + freed
  held : s'.held ≡ s.held

module _ (p : Platform) where
  drop_found-Frees :
      (one : Text) (freed : ℕ) (s : Store) {freed' : ℕ} (row : Option BlobRow)
      → find one s.blobs ≡ row
      → (drop_found p one freed row s).0 ≡ ok freed'
      → Frees s freed (drop_found p one freed row s).1 freed'
  unfolding drop_row now
  drop_found-Frees one freed s {freed'} none f h =
      let same : freed ≡ freed' = cc in record { sum = omega (arith, same); held = refl }
  drop_found-Frees one freed s {freed'} (some row) f h = elim (Bool-cases row.present) [
    | inl e ↦
        let h' = rw e at h in
        let same : freed + row.size ≡ freed' = cc in
        let lost = total-change one (p.time s.readings) row s.blobs f e in
        rw e (record { sum = omega (arith, same, lost); held = refl })
    | inr e ↦
        let h' = rw e at h in
        let same : freed ≡ freed' = cc in rw e (record { sum = omega (arith, same); held = refl })
  ]

  forget_one-Frees :
      (one : Text) (freed : ℕ) (s : Store) {freed' : ℕ}
      → (forget_one p one freed s).0 ≡ ok freed'
      → Frees s freed (forget_one p one freed s).1 freed'
  unfolding forget_one
  forget_one-Frees one freed s h =
      let (file, e, k) = continue-eq-ok (path one) _ s h in
      rw e (
        let unlinked = record s { files = remove file s.files } in
        let found = drop_found-Frees one freed unlinked (find one s.blobs) refl k in
        record { sum = found.sum; held = found.held })

  forget_each-Frees :
      (hashes : List Text) (freed : ℕ) (s : Store) {freed' : ℕ}
      → (forget_each p hashes freed s).0 ≡ ok freed'
      → Frees s freed (forget_each p hashes freed s).1 freed'
  unfolding forget_each
  forget_each-Frees [] freed s {freed'} h =
      let same : freed ≡ freed' = cc in record { sum = omega (arith, same); held = refl }
  forget_each-Frees (one ∷ hashes) freed s h =
      let step = forget_one p one freed s in
      let (more, e, k) = continue-eq-ok step.0 (λ more. forget_each p hashes more) step.1 h in
      let first = forget_one-Frees one freed s e in
      let later = forget_each-Frees hashes more step.1 k in
      rw e (record { sum = omega (arith, first.sum, later.sum); held = later.held ∙ first.held })

  -- Forgetting blobs takes off `held` what they took up.
  pub forget-IsCounted :
      (hashes : List Text) (s : Store)
      → IsCounted s
      → (forget p hashes s).0 ≡ ok tt
      → IsCounted (forget p hashes s).1
  unfolding forget
  forget-IsCounted hashes s c h =
      let all = forget_each p hashes 0 s in
      let (freed, e, k) =
        continue-eq-ok all.0 (λ freed s. (ok tt, record s { held = s.held - freed })) all.1 h in
      let done = forget_each-Frees hashes 0 s e in rw e (omega (arith, done.sum, done.held, c))

  -- An eviction that returns keeps the count.
  pub evict-IsCounted :
      (arriving : ℕ) (keeping : List Text) (s : Store)
      → IsCounted s
      → (evict p arriving keeping s).0 ≡ ok tt
      → IsCounted (evict p arriving keeping s).1
  unfolding evict
  evict-IsCounted arriving keeping s c h = elim (Bool-cases (leb (s.held + arriving) s.max_bytes)) [
    | inl e ↦ rw e c
    | inr e ↦
        let h' = rw e at h in
        let (ages, f, k) = continue-eq-ok (candidates keeping s.files s.blobs) _ s h' in
        rw (e, f)
          (chosen (choose (s.held + arriving - p.ninety_percent s.max_bytes) 0 (sort_aged ages)) k)
  ]
    where
      chosen :
          (going : List Candidate)
          → (forget_chosen p going s).0 ≡ ok tt
          → IsCounted (forget_chosen p going s).1
      chosen [] h = c
      chosen (a ∷ going) h = forget-IsCounted (hashes_of (a ∷ going)) s c h
