-- ===== src/RemoteCache/Store/RowBound.antt =====
-- What `_evict_rows` of remote_cache/store.py keeps: every row whose blob is here.
use tine.Base.{
  ◌-◌, ◌+◌, ◌≡◌, refl, sym, ap, ◌∙◌, true, false, none, List, [], ◌∷◌, ◌++◌, All, All-take,
  All-append, length, leb, same_bytes, same_bytes→eq, arith, inl, inr, Bool-cases,
}
use tine.Base.Text.{Text}
use tine.RemoteCache.Store.Table.{IsKeyed, Table, find, remove}
use tine.RemoteCache.Store.State.{BlobRow, ResultRow, Store, is_here}
use tine.RemoteCache.Store.Rows.{
  Which, blob_row, result_row, absent_rows, result_rows, insert_seen, sort_seen, seen_at,
  delete_row, delete_rows, evict_rows,
}

-- Deleting this row leaves the blob's row alone.
abbrev Spares : Text → Which → Type 0
Spares key (blob_row seen one) = same_bytes one key ≡ false
Spares key (result_row seen one) = Unit

find-remove_other :
    (key one : Text) (t : Table BlobRow)
    → same_bytes one key ≡ false
    → find key (remove one t) ≡ find key t
unfolding find remove
find-remove_other key one [] h = refl
find-remove_other key one ((k, row) ∷ t) h = elim (Bool-cases (same_bytes k one)) [
  | inl e ↦
      let same = same_bytes→eq k one e in
      let other : same_bytes k key ≡ false = ap (λ (x : Text). same_bytes x key) same ∙ h in
      rw (e, other) (find-remove_other key one t h)
  | inr e ↦ rw e (ground (arith, find-remove_other key one t h))
]

delete_row-Spares :
    (key : Text) (w : Which) (s : Store)
    → Spares key w
    → find key (delete_row w s).blobs ≡ find key s.blobs
unfolding delete_row
delete_row-Spares key (blob_row seen one) s h = find-remove_other key one s.blobs h
delete_row-Spares key (result_row seen one) s h = refl

delete_rows-Spares :
    (key : Text) (going : List Which) (s : Store)
    → All (Spares key) going
    → find key (delete_rows going s).blobs ≡ find key s.blobs
unfolding delete_rows
delete_rows-Spares key [] s h = refl
delete_rows-Spares key (w ∷ going) s h =
    delete_rows-Spares key going (delete_row w s) h.1 ∙ delete_row-Spares key w s h.0

All-insert_seen :
    (key : Text) (w : Which) (ws : List Which)
    → Spares key w
    → All (Spares key) ws
    → All (Spares key) (insert_seen w ws)
unfolding insert_seen
All-insert_seen key w [] h hs = (h, tt)
All-insert_seen key w (v ∷ vs) h hs = elim (Bool-cases (leb (seen_at w) (seen_at v))) [
  | inl e ↦ rw e (h, hs)
  | inr e ↦ rw e (hs.0, All-insert_seen key w vs h hs.1)
]

All-sort_seen :
    (key : Text) (ws : List Which) → All (Spares key) ws → All (Spares key) (sort_seen ws)
unfolding sort_seen
All-sort_seen key [] h = tt
All-sort_seen key (w ∷ ws) h = All-insert_seen key w (sort_seen ws) h.0 (All-sort_seen key ws h.1)

-- Where the key is not there, every absent row has another key.
absent_rows-Spares-none :
    (key : Text) (t : Table BlobRow) → find key t ≡ none → All (Spares key) (absent_rows t)
unfolding absent_rows find
absent_rows-Spares-none key [] h = tt
absent_rows-Spares-none key ((k, row) ∷ t) h = elim (Bool-cases (same_bytes k key)) [
  | inl e ↦ absurd (let h' = rw e at h in cc)
  | inr e ↦
      let h' = rw e at h in
      let rest = absent_rows-Spares-none key t h' in
      elim (Bool-cases row.present) [ inl f ↦ rw f rest | inr f ↦ rw f (e, rest) ]
]

absent_rows-Spares :
    (key : Text) (t : Table BlobRow)
    → IsKeyed t
    → is_here (find key t) ≡ true
    → All (Spares key) (absent_rows t)
unfolding absent_rows find
absent_rows-Spares key [] keyed h = tt
absent_rows-Spares key ((k, row) ∷ t) keyed h = elim (Bool-cases (same_bytes k key)) [
  | inl e ↦
      let f : row.present ≡ true = rw e at h in
      let same = same_bytes→eq k key e in
      let gone : find key t ≡ none = ap (λ (x : Text). find x t) (sym same) ∙ keyed.0 in
      rw f (absent_rows-Spares-none key t gone)
  | inr e ↦
      let h' = rw e at h in
      let rest = absent_rows-Spares key t keyed.1 h' in
      elim (Bool-cases row.present) [ inl f ↦ rw f rest | inr f ↦ rw f (e, rest) ]
]

result_rows-Spares : (key : Text) (t : Table ResultRow) → All (Spares key) (result_rows t)
unfolding result_rows
result_rows-Spares key [] = tt
result_rows-Spares key ((one, row) ∷ t) = (tt, result_rows-Spares key t)

-- A blob that is here keeps its row, and with it what is known of where it came from.
pub evict_rows-find :
    (s : Store) (key : Text)
    → IsKeyed s.blobs
    → is_here (find key s.blobs) ≡ true
    → find key (evict_rows s).blobs ≡ find key s.blobs
unfolding evict_rows
evict_rows-find s key keyed h =
    let rows = length s.blobs + length s.results in
    let old = absent_rows s.blobs ++ result_rows s.results in
    let spared : All (Spares key) old =
      All-append (Spares key) (absent_rows s.blobs) (result_rows s.results)
        (absent_rows-Spares key s.blobs keyed h) (result_rows-Spares key s.results) in
    elim (Bool-cases (leb rows s.max_rows)) [
      | inl e ↦ rw e refl
      | inr e ↦ rw e (
          delete_rows-Spares key _ s (
            All-take (Spares key) (rows - s.max_rows) (sort_seen old)
              (All-sort_seen key old spared)))
    ]
