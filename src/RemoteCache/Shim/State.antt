-- ===== src/RemoteCache/Shim/State.antt =====
-- What a shim is set up with, and what it keeps: its store, its counts, the bundles that it refused
-- and its side of the bucket. `KeyedLocks` and the other threads that they keep out are not modelled.
use tine.Base.{ℕ, ◌+◌, Bool, true, false, Option, none, some, List, Bytes, if◌then◌else◌}
use tine.Base.Text.{Text}
use tine.RemoteCache.Outcome.{Raised, ok}
use tine.RemoteCache.Exec.{Exec}
use tine.RemoteCache.Bucket
use tine.RemoteCache.Bucket.{World, Net, small_object}
use tine.RemoteCache.Signing.Authority.{Crypto, Host}
use tine.RemoteCache.Signing.Signer.{Keys, Signer}
use tine.RemoteCache.Store.Table.{Table, upsert}
use tine.RemoteCache.Store.State.{Platform, Store}
use tine.RemoteCache.Store.Results

pub record Setup : Type 1 where
  pub crypto : Crypto
  pub keys : Keys crypto
  pub world : World crypto.Time
  pub platform : Platform
  -- `Reader(base_url, cooldown)`
  pub base_url : Text
  pub cooldown : ℕ
  -- whether there is a bucket, a writer of it, and an authority
  pub has_bucket : Bool
  pub has_writer : Bool
  pub has_authority : Bool
  pub signer : Option (Signer crypto keys)
  -- str(error)
  pub say : Raised → Text

pub record Shim (State : Type 0) : Type 0 where
  pub store : Store
  pub net : Net State
  pub counts : Table ℕ
  pub tainted : List Text

module _ (u : Setup) where
  abbrev pub Call : Type 0 → Type 0
  Call A = Exec (Shim u.world.State) A

  abbrev pub on_store : {A : Type 0} → Exec Store A → Call A
  on_store call s = let (r, store) = call s.store in (r, record s { store = store })

  abbrev pub on_net : {A : Type 0} → Exec (Net u.world.State) A → Call A
  on_net call s = let (r, net) = call s.net in (r, record s { net = net })

  -- What the store answers without changing.
  abbrev pub of_store : {A : Type 0} → (Store → A) → Call A
  of_store look s = (ok (look s.store), s)

  -- `Counts.add`
  unfoldable pub count : Text → Call (Unit {0})
  count what s = (ok tt, record s { counts = upsert what 1 (λ (n : ℕ). n + 1) s.counts })

  abbrev pub get : Text → ℕ → Call (Option Bytes)
  get key limit = on_net (Bucket.get u.world u.base_url u.cooldown key limit)

  -- The authority's certificates are the store's, and it fetches with the shim's reader.
  abbrev pub host : Host u.crypto.Time (Shim u.world.State)
  host = record {
    certificate = λ s named. Results.certificate named s.store;
    put_certificate = λ s named pem. record s {
      store = (Results.put_certificate u.platform named pem s.store).1;
    };
    fetch = λ name. get name small_object;
    now = λ s.
        let (now, world) = u.world.now s.net.world in
        (now, record s { net = record s.net { world = world } });
  }

abbrev is_given : {A : Type 0} → Option A → Bool
is_given none = false
is_given (some a) = true

abbrev pub is_none : {A : Type 0} → Option A → Bool
is_none none = true
is_none (some a) = false

-- `accepts_uploads`, and `accepting` of the services
unfoldable pub accepts_uploads : Setup → Bool
accepts_uploads u = if u.has_authority then is_given u.signer else true
