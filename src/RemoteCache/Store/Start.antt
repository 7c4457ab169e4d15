-- ===== src/RemoteCache/Store/Start.antt =====
-- `_reconcile` of remote_cache/store.py: a start agrees with the filesystem about what is here.
use tine.Base.{
  ℕ, ◌+◌, ◌≡◌, refl, ap, Bool, true, false, ◌&&◌, Option, none, some, [], ◌∷◌, same_bytes,
  same_bytes→eq, if◌then◌else◌, arith, inl, inr, Bool-cases,
}
use tine.Base.Text.{Text}
use tine.RemoteCache.Store.Table.{Table, find}
use tine.RemoteCache.Store.State.{BlobRow, File, Store, is_here, total}

abbrev pub is_there : Option File → Bool
is_there none = false
is_there (some file) = true

-- UPDATE blob SET present = 0, for each row that is present without a file.
unfoldable pub mark_missing : Table File → Table BlobRow → Table BlobRow
mark_missing files [] = []
mark_missing files ((one, row) ∷ rows) =
    (one, record row { present = row.present && is_there (find one files) })
    ∷ mark_missing files rows

-- The files less the orphans, which no present row names.
unfoldable pub less_orphans : Table BlobRow → Table File → Table File
less_orphans rows [] = []
less_orphans rows ((name, file) ∷ files) =
    let rest = less_orphans rows files in
    if is_here (find name rows) then (name, file) ∷ rest else rest

unfoldable pub held_of : Table File → Table BlobRow → ℕ
held_of files [] = 0
held_of files ((one, row) ∷ rows) =
    (if row.present && is_there (find one files) then row.size else 0) + held_of files rows

unfoldable pub reconcile : Store → Store
reconcile s = record s {
  blobs = mark_missing s.files s.blobs;
  files = less_orphans s.blobs s.files;
  held = held_of s.files s.blobs;
}

held_of-total :
    (files : Table File) (rows : Table BlobRow)
    → held_of files rows ≡ total (mark_missing files rows)
unfolding held_of mark_missing total
held_of-total files [] = refl
held_of-total files ((one, row) ∷ rows) =
    ap (λ rest. (if row.present && is_there (find one files) then row.size else 0) + rest)
      (held_of-total files rows)

here-mark_missing :
    (key : Text) (files : Table File) (rows : Table BlobRow)
    → is_here (find key (mark_missing files rows))
      ≡ (is_here (find key rows) && is_there (find key files))
unfolding mark_missing find
here-mark_missing key files [] = refl
here-mark_missing key files ((one, row) ∷ rows) = elim (Bool-cases (same_bytes one key)) [
  | inl e ↦
      let same = same_bytes→eq one key e in
      rw e (ap (λ (k : Text). row.present && is_there (find k files)) same)
  | inr e ↦ rw e (here-mark_missing key files rows)
]

there-less_orphans :
    (key : Text) (rows : Table BlobRow) (files : Table File)
    → is_there (find key (less_orphans rows files))
      ≡ (is_here (find key rows) && is_there (find key files))
unfolding less_orphans find
there-less_orphans key rows [] = ground arith
there-less_orphans key rows ((name, file) ∷ files) = elim (Bool-cases (same_bytes name key)) [
  | inl e ↦
      let same = same_bytes→eq name key e in
      ground
        (arith, e, ap (λ (k : Text). is_here (find k rows)) same, there-less_orphans key rows files)
  | inr e ↦ ground (arith, e, there-less_orphans key rows files)
]

-- After a start the index and the files agree, blob by blob, and `held` is the sum of the sizes of
-- the blobs that are here.
pub reconcile_lem :
    (s : Store)
    → ((key : Text)
        → is_here (find key (reconcile s).blobs) ≡ is_there (find key (reconcile s).files))
      × ((reconcile s).held ≡ total (reconcile s).blobs)
unfolding reconcile
reconcile_lem s = (
  λ key. cc (here-mark_missing key s.files s.blobs, there-less_orphans key s.blobs s.files),
  held_of-total s.files s.blobs,
)
