-- ===== src/RemoteCache/Store/Rows.antt =====
-- `_evict_rows` of remote_cache/store.py.
use tine.Base.{ℕ, ◌+◌, ◌-◌, List, [], ◌∷◌, ◌++◌, length, take, leb, if◌then◌else◌}
use tine.Base.Text.{Text}
use tine.RemoteCache.Store.Table.{Table, remove}
use tine.RemoteCache.Store.State.{BlobRow, ResultRow, Store}

-- A row that can go, of either table, and when it was last seen.
pub data Which : Type 0 where
  blob_row result_row : ℕ → Text → Which

abbrev pub seen_at : Which → ℕ
seen_at (blob_row seen one) = seen
seen_at (result_row seen one) = seen

unfoldable pub absent_rows : Table BlobRow → List Which
absent_rows [] = []
absent_rows ((one, row) ∷ rows) =
    let rest = absent_rows rows in if row.present then rest else blob_row row.seen one ∷ rest

unfoldable pub result_rows : Table ResultRow → List Which
result_rows [] = []
result_rows ((one, row) ∷ rows) = result_row row.seen one ∷ result_rows rows

unfoldable pub insert_seen : Which → List Which → List Which
insert_seen a [] = a ∷ []
insert_seen a (b ∷ bs) = if leb (seen_at a) (seen_at b) then a ∷ b ∷ bs else b ∷ insert_seen a bs

-- ORDER BY seen; where sqlite may choose, the rows keep their order.
unfoldable pub sort_seen : List Which → List Which
sort_seen [] = []
sort_seen (a ∷ bs) = insert_seen a (sort_seen bs)

unfoldable pub delete_row : Which → Store → Store
delete_row (blob_row seen one) s = record s { blobs = remove one s.blobs }
delete_row (result_row seen one) s = record s { results = remove one s.results }

unfoldable pub delete_rows : List Which → Store → Store
delete_rows [] s = s
delete_rows (one ∷ going) s = delete_rows going (delete_row one s)

-- `_evict_rows`
unfoldable pub evict_rows : Store → Store
evict_rows s =
    let rows = length s.blobs + length s.results in
    if leb rows s.max_rows
    then s
    else delete_rows
        (take (rows - s.max_rows) (sort_seen (absent_rows s.blobs ++ result_rows s.results))) s
