-- ===== src/RemoteCache/Signing/Authority/Trust.antt =====
-- What `unwrap` vouches for: a payload comes back only under a signature of a key that a certificate
-- accepted at this clock names.
use tine.Base.{
  ◌≡◌, refl, sym, ap, ◌∙◌, true, not, Option, none, some, Bytes, same_bytes, same_bytes→eq, arith,
  inl, inr, Bool-cases,
}
use tine.Base.Text.{Text, decode}
use tine.RemoteCache.Outcome.{is_value_error, Result, ok, err, then_raise-eq-ok}
use tine.RemoteCache.Exec.{continue-eq-ok, lift}
use tine.RemoteCache.Signing.Envelope.{Parts, split, signed}
use tine.RemoteCache.Signing.Authority.{
  Crypto, Host, key_id, verify, load_certificate, check_at, check, check_pem, key_from_bucket,
  key_from, key_for, unwrap, fetched, or_newer, payload_under, payload_if, certificate_key,
}

module _ (c : Crypto) {S : Type 0} (host : Host c.Time S) where
  open c use {Key, Certificate}

  -- A key that a leaf names, at a reading of the clock at which the whole chain is acted on.
  pub record IsApproved (named : Bytes) (key : Key) : Type 0 where
    pub leaf : Certificate
    pub read_in : S
    pub chain : c.chain_accepts leaf (host.now read_in).0 ≡ true
    pub holds : key ≡ c.public_key leaf
    pub kind : c.is_ed25519 key ≡ true
    pub name : key_id c host key ≡ named

  check_at-eq-ok :
      (leaf : Certificate) (named : Bytes) (s : S) {key : Key}
      → check_at c host leaf named (host.now s).0 ≡ ok key
      → IsApproved named key
  unfolding check_at
  check_at-eq-ok leaf named s {key} h =
      let now = (host.now s).0 in
      let k = c.public_key leaf in
      let (a, h1) = then_raise-eq-ok _ (not (c.chain_accepts leaf now)) _ h in
      let (b, h2) = then_raise-eq-ok _ (not (c.is_ed25519 k)) _ h1 in
      let (n, h3) = then_raise-eq-ok _ (not (same_bytes (key_id c host k) named)) _ h2 in
      let e : key ≡ k = cc in
      record {
        leaf = leaf;
        read_in = s;
        chain = ground arith;
        holds = e;
        kind = rw e (ground arith);
        name = rw e (same_bytes→eq _ _ (ground arith));
      }

  check_pem-eq-ok :
      (pem : Text) (named : Bytes) (s : S) {key : Key}
      → (check_pem c host pem named s).0 ≡ ok key
      → IsApproved named key
  unfolding check_pem check
  check_pem-eq-ok pem named s h =
      let (leaf, e, k) =
        continue-eq-ok (load_certificate c host pem) (λ leaf. check c host leaf named) s h in
      check_at-eq-ok leaf named s k

  fetched-eq-ok :
      (named : Bytes) (material : Option Bytes) (s : S) {key : Key}
      → (fetched c host named material s).0 ≡ ok (some key)
      → IsApproved named key
  fetched-eq-ok named none s h = absurd (cc)
  fetched-eq-ok named (some material) s {key} h =
      let pem = decode material in
      let (k, e, j) =
        continue-eq-ok (check_pem c host pem named s).0
          (λ k s. (ok (some k), host.put_certificate s named pem)) (check_pem c host pem named s).1
          h in
      let same : ◌≡◌ {A = Result Key} (ok k) (ok key) = cc in check_pem-eq-ok pem named s (e ∙ same)

  key_from_bucket-eq-ok :
      (named : Bytes) (s : S) {key : Key}
      → (key_from_bucket c host named s).0 ≡ ok (some key)
      → IsApproved named key
  unfolding key_from_bucket
  key_from_bucket-eq-ok named s h =
      let got = host.fetch (certificate_key named) s in
      let (material, e, k) = continue-eq-ok got.0 (fetched c host named) got.1 h in
      fetched-eq-ok named material got.1 k

  or_newer-eq-ok :
      (named : Bytes) (found : Result Key) (s : S) {key : Key}
      → ((k : Key) → found ≡ ok k → IsApproved named k)
      → (or_newer c host named found s).0 ≡ ok (some key)
      → IsApproved named key
  or_newer-eq-ok named (ok k) s {key} approved h =
      let same : k ≡ key = cc in approved key (ap (λ (x : Key). ok x) same)
  or_newer-eq-ok named (err e) s approved h = elim (Bool-cases (is_value_error e)) [
    | inl v ↦ key_from_bucket-eq-ok named s (rw v at h)
    | inr v ↦ absurd (let h' = rw v at h in cc)
  ]

  -- A key that `key_for` returns is approved, whether it was remembered or fetched: the Ed25519 key of
  -- that id, of a leaf whose chain is accepted at a reading of the clock.
  pub key_for-eq-ok :
      (named : Bytes) (s : S) {key : Key}
      → (key_for c host named s).0 ≡ ok (some key)
      → IsApproved named key
  unfolding key_for
  key_for-eq-ok named s h = from_kept (host.certificate s named) h
    where
      from_kept :
          (kept : Option Text) {key : Key}
          → (key_from c host named kept s).0 ≡ ok (some key)
          → IsApproved named key
      from_kept none h = key_from_bucket-eq-ok named s h
      from_kept (some pem) h =
          or_newer-eq-ok named (check_pem c host pem named s).0 (check_pem c host pem named s).1
            (λ k e. check_pem-eq-ok pem named s e) h

  -- The stored bytes split into a payload and a signature over this action and it, by an approved key.
  pub record IsVouchedFor (action : Text) (blob payload : Bytes) : Type 0 where
    pub parts : Parts
    pub splits : split blob ≡ ok parts
    pub carried : parts.payload ≡ payload
    pub key : Key
    pub approved : IsApproved parts.named key
    pub message : Bytes
    pub covers : signed action payload ≡ ok message
    pub made : c.verifies key parts.signature message ≡ true

  payload_if-eq-ok :
      (key : Key) (parts : Parts) (m : Result Bytes) {payload : Bytes}
      → payload_if c host key parts m ≡ ok payload
      → (message : Bytes) × (m ≡ ok message)
        × (parts.payload ≡ payload)
        × (c.verifies key parts.signature message ≡ true)
  unfolding verify
  payload_if-eq-ok key parts (err e) h = absurd (cc)
  payload_if-eq-ok key parts (ok message) h = (message, refl, ground arith, ground arith)

  -- Whatever is remembered, fetched or read off the clock: `unwrap` returns a payload only if it is
  -- vouched for.
  pub unwrap-IsVouchedFor :
      (action : Text) (blob : Bytes) (s : S) {payload : Bytes}
      → (unwrap c host action blob s).0 ≡ ok payload
      → IsVouchedFor action blob payload
  unfolding unwrap
  unwrap-IsVouchedFor action blob s {payload} h =
      let (parts, e, k) = continue-eq-ok (split blob) _ s h in
      let got = key_for c host parts.named s in
      let (key, f, j) =
        continue-eq-ok got.0 (λ key. lift (payload_under c host action parts key)) got.1 k in
      from_key parts e key f j
    where
      from_key :
          (parts : Parts)
          → split blob ≡ ok parts
          → (key : Option Key) → (key_for c host parts.named s).0 ≡ ok key
          → payload_under c host action parts key ≡ ok payload
          → IsVouchedFor action blob payload
      from_key parts e none f j = absurd (cc)
      from_key parts e (some key) f j =
          let (message, m, p, v) = payload_if-eq-ok key parts (signed action parts.payload) j in
          record {
            parts = parts;
            splits = e;
            carried = p;
            key = key;
            approved = key_for-eq-ok parts.named s f;
            message = message;
            covers = ap (signed action) (sym p) ∙ m;
            made = v;
          }
