-- ===== src/RemoteCache/Signing/Signer.antt =====
-- `Signer` of remote_cache/signing.py, and `Authority.admit`. What the `cryptography` package does
-- with a private key and with a certificate's dates is the parameter `Keys`.
pub mod Admitted
use tine.Base.{ℕ, Bool, true, false, not, Option, none, some, Bytes, same_bytes, if◌then◌else◌}
use tine.Base.Text.{Text}
use tine.RemoteCache.Outcome.{
  Result, ok, err, wrong_key_name, not_yet_valid, expired, expires_early, no_certificate,
}
use tine.RemoteCache.Exec.{Exec, pure, raise, lift, ◌>>=◌, ◌>>◌}
use tine.RemoteCache.Signing.Envelope.{signed, envelope}
use tine.RemoteCache.Signing.Authority.{Crypto, Host, key_id, load_certificate, check}

pub record Keys (c : Crypto) : Type 1 where
  pub PrivateKey : Type 0
  pub Lifetime : Type 0
  pub public : PrivateKey → c.Key
  pub sign : PrivateKey → Bytes → Bytes
  pub not_before : c.Certificate → c.Time
  pub not_after : c.Certificate → c.Time
  pub plus : c.Time → Lifetime → c.Time
  -- an earlier time, and a later one
  pub is_before : c.Time → c.Time → Bool

pub record Signer (c : Crypto) (k : Keys c) : Type 0 where
  pub object_lifetime : k.Lifetime
  pub key : k.PrivateKey
  pub certificate_pem : Option Text
  pub certificate : Option c.Certificate

module _ (c : Crypto) (k : Keys c) {S : Type 0} (host : Host c.Time S) where
  open c use {Certificate}

  -- `Signer.id`
  unfoldable pub id : Signer c k → Bytes
  unfolding key_id
  id signer = key_id c host (k.public signer.key)

  abbrev certified : k.Lifetime → k.PrivateKey → Text → Result Certificate → Result (Signer c k)
  certified lifetime key pem (err e) = err e
  certified lifetime key pem (ok leaf) =
      if not (same_bytes (key_id c host (c.public_key leaf)) (key_id c host (k.public key)))
      then err wrong_key_name
      else ok (record {
        object_lifetime = lifetime;
        key = key;
        certificate_pem = some pem;
        certificate = some leaf;
      })

  -- `Signer(...)`, of the key and the certificate that its files hold.
  unfoldable pub signer_of : k.Lifetime → k.PrivateKey → Option Text → Result (Signer c k)
  unfolding load_certificate
  signer_of lifetime key none =
      ok (record {
        object_lifetime = lifetime;
        key = key;
        certificate_pem = none;
        certificate = none;
      })
  signer_of lifetime key (some pem) = certified lifetime key pem (load_certificate c host pem)

  -- `check_window`
  unfoldable pub check_window : Certificate → c.Time → Result (Unit {0})
  check_window leaf now =
      if k.is_before now (k.not_before leaf)
      then err not_yet_valid
      else if k.is_before (k.not_after leaf) now
      then err expired
      else ok tt

  abbrev outlived : Signer c k → Certificate → c.Time → Exec S (Unit {0})
  outlived signer leaf now =
      if k.is_before (k.not_after leaf) (k.plus now signer.object_lifetime)
      then raise expires_early
      else pure tt

  abbrev clock : Exec S c.Time
  clock s = let (now, s') = host.now s in (ok now, s')

  abbrev check_leaf : Signer c k → Option Certificate → Exec S (Unit {0})
  check_leaf signer none = pure tt
  check_leaf signer (some leaf) = do
    now ← clock
    lift (check_window leaf now)
    outlived signer leaf now

  unfoldable pub check_current : Signer c k → Exec S (Unit {0})
  check_current signer = check_leaf signer signer.certificate

  -- `Signer.wrap`
  unfoldable pub wrap : Signer c k → Text → Bytes → Exec S Bytes
  wrap signer action_hash payload = do
    check_current signer
    message ← lift (signed action_hash payload)
    pure (envelope (id signer) (k.sign signer.key message) payload)

  abbrev admitted : Signer c k → Option Certificate → Option Text → Exec S (Unit {0})
  admitted signer (some leaf) (some pem) = do
    key ← check c host leaf (id signer)
    λ s. (ok tt, host.put_certificate s (id signer) pem)
  admitted signer (some leaf) none = raise no_certificate
  admitted signer none pem = raise no_certificate

  -- `Authority.admit`
  unfoldable pub admit : Signer c k → Exec S (Unit {0})
  admit signer = admitted signer signer.certificate signer.certificate_pem
