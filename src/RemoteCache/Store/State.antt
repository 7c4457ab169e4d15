-- ===== src/RemoteCache/Store/State.antt =====
-- What a `Store` keeps: the tables of its index, its files, and `held`. `time_ns`, sha256 and the
-- product with EVICTED_DOWN_TO are parameters; `readings` counts the reads of the clock. The clock
-- also dates the files, by `os.utime` and by a write.
use tine.Base.{ℕ, suc, ◌+◌, Bool, false, not, Option, none, some, [], ◌∷◌, Bytes, if◌then◌else◌}
use tine.Base.Text.{Text}
use tine.RemoteCache.Outcome.{Result, ok, err, not_a_hash}
use tine.RemoteCache.Exec.{Exec}
use tine.RemoteCache.Signing.Envelope.{is_sha256_hex}
use tine.RemoteCache.Store.Table.{Table, find}

pub record Platform : Type 0 where
  pub sha256 : Bytes → Text
  -- int(max_bytes * EVICTED_DOWN_TO)
  pub ninety_percent : ℕ → ℕ
  pub time : ℕ → ℕ

pub record BlobRow : Type 0 where
  pub size : ℕ
  pub bundle : Option Text
  pub present : Bool
  pub seen : ℕ

pub record ResultRow : Type 0 where
  pub pointer : Bytes
  pub seen : ℕ

pub record CertificateRow : Type 0 where
  pub pem : Text
  pub seen : ℕ

pub record File : Type 0 where
  pub content : Bytes
  pub used : ℕ

pub record Store : Type 0 where
  pub max_bytes : ℕ
  pub max_rows : ℕ
  pub held : ℕ
  pub readings : ℕ
  pub blobs : Table BlobRow
  pub results : Table ResultRow
  pub certificates : Table CertificateRow
  pub files : Table File

-- `_now`
unfoldable pub now : Platform → Exec Store ℕ
now p s = (ok (p.time s.readings), record s { readings = suc s.readings })

-- `_path`, which names the file of a hash, or raises. A file is under its hash here.
unfoldable pub path : Text → Result Text
path hash = if not (is_sha256_hex hash) then err not_a_hash else ok hash

abbrev pub is_here : Option BlobRow → Bool
is_here none = false
is_here (some row) = row.present

-- `_present`
unfoldable pub present : Text → Store → Bool
present hash s = is_here (find hash s.blobs)

-- The bytes of the rows whose blobs are here.
unfoldable pub total : Table BlobRow → ℕ
total [] = 0
total ((hash, row) ∷ t) = (if row.present then row.size else 0) + total t
