-- ===== src/RemoteCache/Store/Choose.antt =====
-- Which blobs `_evict` of remote_cache/store.py drops.
use tine.Base.{
  ℕ, ◌+◌, Bool, false, not, ◌&&◌, ◌||◌, Option, none, some, List, [], ◌∷◌, ltb, leb, ◌==◌,
  same_bytes, if◌then◌else◌,
}
use tine.Base.Order.{text_lt}
use tine.Base.Text.{Text}
use tine.RemoteCache.Outcome.{Result, ok, ◌>>=◌}
use tine.RemoteCache.Store.Table.{Table, find}
use tine.RemoteCache.Store.State.{BlobRow, File, path}

-- A blob that may go: when it was used, its hash and its size, compared in this order.
pub record Candidate : Type 0 where
  pub used : ℕ
  pub hash : Text
  pub size : ℕ

unfoldable pub among_texts : Text → List Text → Bool
among_texts one [] = false
among_texts one (t ∷ ts) = same_bytes t one || among_texts one ts

abbrev before : Candidate → Candidate → Bool
before a b =
    ltb a.used b.used
    || (a.used == b.used
        && (text_lt a.hash b.hash || (same_bytes a.hash b.hash && leb a.size b.size)))

unfoldable pub insert_aged : Candidate → List Candidate → List Candidate
insert_aged a [] = a ∷ []
insert_aged a (b ∷ bs) = if before a b then a ∷ b ∷ bs else b ∷ insert_aged a bs

unfoldable pub sort_aged : List Candidate → List Candidate
sort_aged [] = []
sort_aged (a ∷ bs) = insert_aged a (sort_aged bs)

abbrev aged : Text → ℕ → Option File → List Candidate → List Candidate
aged one size none ages = ages
aged one size (some file) ages = record { used = file.used; hash = one; size = size } ∷ ages

-- The rows of the query, less those to keep and those whose file is gone.
unfoldable pub candidates : List Text → Table File → Table BlobRow → Result (List Candidate)
candidates keeping files [] = ok []
candidates keeping files ((one, row) ∷ rows) =
    let rest = candidates keeping files rows in
    if not (row.present && ltb 0 row.size) || among_texts one keeping
    then rest
    else do file ← path one; ages ← rest; ok (aged one row.size (find file files) ages)

-- The loop that picks what goes, with the bytes freed before it.
unfoldable pub choose : ℕ → ℕ → List Candidate → List Candidate
choose over freed [] = []
choose over freed (a ∷ ages) =
    let rest = choose over (freed + a.size) ages in if leb over freed then [] else a ∷ rest

unfoldable pub hashes_of : List Candidate → List Text
hashes_of [] = []
hashes_of (a ∷ ages) = a.hash ∷ hashes_of ages
