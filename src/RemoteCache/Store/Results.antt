-- ===== src/RemoteCache/Store/Results.antt =====
-- The results and certificates that remote_cache/store.py keeps, and its counts.
use tine.Base.{ℕ, suc, Option, none, some, [], ◌∷◌, Bytes, length, if◌then◌else◌}
use tine.Base.Text.{Text}
use tine.RemoteCache.Outcome.{ok}
use tine.RemoteCache.Exec.{Exec, ◌>>=◌}
use tine.RemoteCache.Reapi.Digest.{Digest}
use tine.RemoteCache.Signing.Authority.{hex}
use tine.RemoteCache.Store.Table.{Table, find, upsert, remove}
use tine.RemoteCache.Store.State.{Platform, BlobRow, ResultRow, CertificateRow, Store, now}
use tine.RemoteCache.Store.Rows.{evict_rows}

abbrev pub pointer_of : Option ResultRow → Option Bytes
pointer_of none = none
pointer_of (some row) = some row.pointer

abbrev pem_of : Option CertificateRow → Option Text
pem_of none = none
pem_of (some row) = some row.pem

module _ (p : Platform) where
  -- The clock is read twice: for a new row, and for one that is there.
  unfoldable pub put_result : Digest → Bytes → Exec Store (Unit {0})
  put_result action pointer = do
    inserted ← now p
    updated ← now p
    λ s. (
      ok tt,
      evict_rows (record s {
        results =
            upsert action.hash (record { pointer = pointer; seen = inserted })
              (λ row. record { pointer = pointer; seen = updated }) s.results;
      }),
    )

  unfoldable pub put_certificate : Bytes → Text → Exec Store (Unit {0})
  put_certificate named pem = do
    inserted ← now p
    updated ← now p
    λ s. (
      ok tt,
      record s {
        certificates =
            upsert (hex named) (record { pem = pem; seen = inserted })
              (λ row. record { pem = pem; seen = updated }) s.certificates;
      },
    )

unfoldable pub result : Digest → Store → Option Bytes
result action s = pointer_of (find action.hash s.results)

unfoldable pub drop_result : Digest → Store → Store
drop_result action s = record s { results = remove action.hash s.results }

unfoldable pub certificate : Bytes → Store → Option Text
certificate named s = pem_of (find (hex named) s.certificates)

unfoldable pub present_count : Table BlobRow → ℕ
present_count [] = 0
present_count ((one, row) ∷ rows) =
    let rest = present_count rows in if row.present then suc rest else rest

unfoldable pub counts : Store → ℕ × ℕ
counts s = (present_count s.blobs, length s.results)
