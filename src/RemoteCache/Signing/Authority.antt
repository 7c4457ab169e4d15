-- ===== src/RemoteCache/Signing/Authority.antt =====
-- `Authority` of remote_cache/signing.py: which key is acted on, and what its signature covers.
-- The `cryptography` package is the parameter `Crypto`; the certificates remembered (the protocol
-- `Certificates`), the bucket behind `fetch` and the clock are the parameter `Host`, over the state
-- that they keep. Every read of the clock is a call of `Host.now`.
pub mod Trust
use tine.Base.{
  ℕ, Bool, true, false, not, ◌&&◌, ◌||◌, Option, none, some, List, [], ◌∷◌, ◌++◌, Bytes, ◌/◌, ◌%◌,
  ltb, ◌+◌, take, same_bytes, ◌==◌, if◌then◌else◌,
}
use tine.Base.Text.{Text, decode, text_of}
use tine.RemoteCache.Outcome.{
  Raised, is_value_error, Result, ok, err, bad_certificate, chain_refused, wrong_key_kind,
  wrong_key_name, untrusted, bad_signature, url_error,
}
use tine.RemoteCache.Exec.{Exec, pure, raise, lift, ◌>>=◌}
use tine.RemoteCache.Signing.Envelope.{Parts, split, signed, ed25519, key_id_length}

pub record Crypto : Type 1 where
  pub Key : Type 0
  pub Certificate : Type 0
  pub Time : Type 0
  -- isinstance(key, Ed25519PublicKey)
  pub is_ed25519 : Key → Bool
  -- key.verify(signature, message) returns
  pub verifies : Key → Bytes → Bytes → Bool
  -- hashlib.sha256 of the key's DER SubjectPublicKeyInfo
  pub key_digest : Key → Bytes
  -- x509.load_pem_x509_certificate(pem.strip().encode()); `none` where it raises
  pub load_pem : Text → Option Certificate
  pub public_key : Certificate → Key
  -- the chain to the authorities, the validity windows and the extension policies, at a time
  pub chain_accepts : Certificate → Time → Bool

pub record Host (Time S : Type 0) : Type 0 where
  pub certificate : S → Bytes → Option Text
  pub put_certificate : S → Bytes → Text → S
  pub fetch : Text → Exec S (Option Bytes)
  pub now : S → Time × S

abbrev hex_digit : ℕ → ℕ
hex_digit n = if ltb n 10 then b'0' + n else 87 + n

-- `bytes.hex()`
unfoldable pub hex : Bytes → Text
hex [] = []
hex (b ∷ bs) = hex_digit (b / 16) ∷ hex_digit (b % 16) ∷ hex bs

unfoldable pub certificate_key : Bytes → Text
unfolding hex
certificate_key named = text_of "keys/" ++ hex named

module _ (c : Crypto) {S : Type 0} (host : Host c.Time S) where
  open c use {Key, Certificate}

  unfoldable pub key_id : Key → Bytes
  key_id key = take key_id_length (c.key_digest key)

  -- `verify`, which raises `InvalidSignature` where this is false.
  unfoldable pub verify : Key → ℕ → Bytes → Bytes → Bool
  verify key algorithm signature message =
      if not (algorithm == ed25519) || not (c.is_ed25519 key)
      then false
      else c.verifies key signature message

  abbrev loaded : Option Certificate → Result Certificate
  loaded none = err bad_certificate
  loaded (some leaf) = ok leaf

  unfoldable pub load_certificate : Text → Result Certificate
  load_certificate pem = loaded (c.load_pem pem)

  -- What `check` finds of a leaf at one reading of the clock.
  unfoldable pub check_at : Certificate → Bytes → c.Time → Result Key
  unfolding key_id
  check_at leaf named now =
      let key = c.public_key leaf in
      if not (c.chain_accepts leaf now)
      then err chain_refused
      else if not (c.is_ed25519 key)
      then err wrong_key_kind
      else if not (same_bytes (key_id key) named)
      then err wrong_key_name
      else ok key

  unfoldable pub check : Certificate → Bytes → Exec S Key
  check leaf named s = let (now, s') = host.now s in (check_at leaf named now, s')

  -- check(load_certificate(pem), named)
  unfoldable pub check_pem : Text → Bytes → Exec S Key
  check_pem pem named = do leaf ← lift (load_certificate pem); check leaf named

  abbrev fetched : Bytes → Option Bytes → Exec S (Option Key)
  fetched named none = pure none
  fetched named (some material) = do
    let pem = decode material
    key ← check_pem pem named
    λ s. (ok (some key), host.put_certificate s named pem)

  unfoldable pub key_from_bucket : Bytes → Exec S (Option Key)
  key_from_bucket named = do material ← host.fetch (certificate_key named); fetched named material

  -- Behind the first `try`: its key, or the bucket's after a `ValueError`.
  abbrev or_newer : Bytes → Result Key → Exec S (Option Key)
  or_newer named (ok key) = pure (some key)
  or_newer named (err e) = if is_value_error e then key_from_bucket named else raise e

  abbrev key_from : Bytes → Option Text → Exec S (Option Key)
  key_from named none = key_from_bucket named
  key_from named (some pem) =
      λ s. let (found, s') = check_pem pem named s in or_newer named found s'

  unfoldable pub key_for : Bytes → Exec S (Option Key)
  key_for named s = key_from named (host.certificate s named) s

  abbrev payload_if : Key → Parts → Result Bytes → Result Bytes
  payload_if key parts (err e) = err e
  payload_if key parts (ok message) =
      if not (verify key parts.algorithm parts.signature message)
      then err bad_signature
      else ok parts.payload

  abbrev payload_under : Text → Parts → Option Key → Result Bytes
  payload_under action_hash parts none = err untrusted
  payload_under action_hash parts (some key) =
      payload_if key parts (signed action_hash parts.payload)

  -- The payload, if a key we trust signed exactly these bytes under this action.
  unfoldable pub unwrap : Text → Bytes → Exec S Bytes
  unwrap action_hash blob = do
    parts ← lift (split blob)
    key ← key_for parts.named
    lift (payload_under action_hash parts key)
