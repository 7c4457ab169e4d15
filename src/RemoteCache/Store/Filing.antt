-- ===== src/RemoteCache/Store/Filing.antt =====
-- `held` after `put_blobs` files its rows.
use tine.Base.{
  ℕ, ◌+◌, ◌≡◌, refl, ap, ◌∙◌, true, false, Option, none, some, [], ◌∷◌, Bytes, All, same_bytes,
  same_bytes→eq, if◌then◌else◌, arith, inl, inr, Bool-cases,
}
use tine.Base.Text.{Text}
use tine.RemoteCache.Outcome.{ok}
use tine.RemoteCache.Reapi.Digest.{Digest}
use tine.RemoteCache.Store.Table.{Table, find, upsert}
use tine.RemoteCache.Store.State.{Platform, BlobRow, Store, now, present, is_here, total}
use tine.RemoteCache.Store.Filed.{Filed, arriving_bytes, store_rows, coalesce}
use tine.RemoteCache.Store.Blobs.{file_rows}
use tine.RemoteCache.Store.Held.{IsCounted}

-- A row that is there has the digest's size.
abbrev Agrees : Digest → Option BlobRow → Type 0
Agrees d none = Unit
Agrees d (some row) = row.size ≡ d.size_bytes

abbrev Differs : Text → Digest × Bytes → Type 0
Differs hash one = same_bytes hash one.0.hash ≡ false

-- The keys of the mapping differ in their hashes, and the rows that are there have their sizes.
abbrev pub IsFileable : Table BlobRow → Filed → Type 0
IsFileable t [] = Unit
IsFileable t (one ∷ blobs) =
    Agrees one.0 (find one.0.hash t) × All (Differs one.0.hash) blobs × IsFileable t blobs

abbrev new_bytes : Digest → Option BlobRow → ℕ
new_bytes d row = if is_here row then 0 else d.size_bytes

abbrev filed : Digest → Option Text → ℕ → Table BlobRow → Table BlobRow
filed d bundle seen =
    upsert d.hash (record { size = d.size_bytes; bundle = bundle; present = true; seen = seen })
      (λ (row : BlobRow). record row {
        present = true;
        bundle = coalesce bundle row.bundle;
        seen = seen;
      })

total-filed :
    (d : Digest) (bundle : Option Text) (seen : ℕ) (t : Table BlobRow)
    → Agrees d (find d.hash t)
    → total (filed d bundle seen t) ≡ new_bytes d (find d.hash t) + total t
unfolding total upsert find
total-filed d bundle seen [] a = omega arith
total-filed d bundle seen ((k, row) ∷ t) a = elim (Bool-cases (same_bytes k d.hash)) [
  | inl e ↦
      let a' : row.size ≡ d.size_bytes = rw e at a in
      elim (Bool-cases row.present) [
        | inl f ↦ rw (e, f) (omega arith)
        | inr f ↦ rw (e, f) (omega (arith, a'))
      ]
  | inr e ↦
      let a' = rw e at a in let ih = total-filed d bundle seen t a' in rw e (omega (arith, ih))
]

find-filed_other :
    (d : Digest) (bundle : Option Text) (seen : ℕ) (key : Text) (t : Table BlobRow)
    → same_bytes d.hash key ≡ false
    → find key (filed d bundle seen t) ≡ find key t
unfolding find upsert
find-filed_other d bundle seen key [] h = rw h refl
find-filed_other d bundle seen key ((k, row) ∷ t) h = elim (Bool-cases (same_bytes k d.hash)) [
  | inl e ↦
      let same = same_bytes→eq k d.hash e in
      let other : same_bytes k key ≡ false = ap (λ (x : Text). same_bytes x key) same ∙ h in
      rw (e, other) refl
  | inr e ↦ elim (Bool-cases (same_bytes k key)) [
    | inl f ↦ rw (e, f) refl
    | inr f ↦ rw (e, f) (find-filed_other d bundle seen key t h)
  ]
]

abbrev sum_new : Table BlobRow → Filed → ℕ
sum_new t [] = 0
sum_new t (one ∷ blobs) = new_bytes one.0 (find one.0.hash t) + sum_new t blobs

-- Filing one blob changes nothing for the others.
filed-IsFileable :
    (d : Digest) (bundle : Option Text) (seen : ℕ) (t : Table BlobRow) (blobs : Filed)
    → All (Differs d.hash) blobs
    → IsFileable t blobs
    → IsFileable (filed d bundle seen t) blobs
      × (sum_new (filed d bundle seen t) blobs ≡ sum_new t blobs)
filed-IsFileable d bundle seen t [] h f = (tt, refl)
filed-IsFileable d bundle seen t (one ∷ blobs) h f =
    let (later, sum) = filed-IsFileable d bundle seen t blobs h.1 f.2 in
    let same = find-filed_other d bundle seen one.0.hash t h.0 in
    ((rw same f.0, f.1, later), rw (same, sum) refl)

total-store_rows :
    (blobs : Filed) (bundle : Option Text) (seen : ℕ) (t : Table BlobRow)
    → IsFileable t blobs
    → total (store_rows blobs bundle seen t) ≡ sum_new t blobs + total t
unfolding store_rows
total-store_rows [] bundle seen t f = omega arith
total-store_rows ((d, content) ∷ blobs) bundle seen t f =
    let (later, sum) = filed-IsFileable d bundle seen t blobs f.1 f.2 in
    let one = total-filed d bundle seen t f.0 in
    let ih = total-store_rows blobs bundle seen (filed d bundle seen t) later in
    omega (arith, one, ih, sum)

arriving-sum_new : (blobs : Filed) (s : Store) → arriving_bytes blobs s ≡ sum_new s.blobs blobs
unfolding arriving_bytes present
arriving-sum_new [] s = refl
arriving-sum_new ((d, content) ∷ blobs) s =
    ap (λ rest. new_bytes d (find d.hash s.blobs) + rest) (arriving-sum_new blobs s)

-- The last transaction of `put_blobs` keeps the count, where the rows that it finds have the sizes of
-- their digests: on a conflict it keeps the size that the row has.
pub file_rows-IsCounted :
    (p : Platform) (blobs : Filed) (bundle : Option Text) (s : Store)
    → IsFileable s.blobs blobs
    → IsCounted s
    → ((file_rows p blobs bundle s).0 ≡ ok tt) × IsCounted (file_rows p blobs bundle s).1
unfolding file_rows now
file_rows-IsCounted p blobs bundle s f c =
    let rows = total-store_rows blobs bundle (p.time s.readings) s.blobs f in
    let sum = arriving-sum_new blobs s in (refl, omega (arith, rows, sum, c))
