-- ===== src/RemoteCache/Signing/Signer/Admitted.antt =====
-- What a signer wraps, an authority that has admitted it unwraps, for as long as it accepts the chain.
use tine.Base.{◌^◌, ◌<◌, ◌≡◌, true, some, Bytes, length, same_bytes_refl}
use tine.Base.Text.{Text}
use tine.RemoteCache.Outcome.{ok}
use tine.RemoteCache.Exec.{continue-eq-ok}
use tine.RemoteCache.Signing.Envelope.{signed, envelope, key_id_length, ed25519}
use tine.RemoteCache.Signing.Envelope.RoundTrip.{split-envelope}
use tine.RemoteCache.Signing.Authority.{
  Crypto, Host, key_id, verify, load_certificate, check_at, check, check_pem, key_for, unwrap,
}
use tine.RemoteCache.Signing.Signer.{Keys, Signer, id, check_current, wrap}

module _ (c : Crypto) (k : Keys c) {S : Type 0} (host : Host c.Time S) where
  open c use {Key, Certificate}

  -- What the package documents of a key: its signatures verify, and are short; its digest is as long
  -- as a key id at least.
  pub record IsSigning (key : k.PrivateKey) : Type 0 where
    pub kind : c.is_ed25519 (k.public key) ≡ true
    pub verifies : (message : Bytes) → c.verifies (k.public key) (k.sign key message) message ≡ true
    pub short : (message : Bytes) → length (k.sign key message) < 2 ^ 16
    pub width : length (key_id c host (k.public key)) ≡ key_id_length

  -- The certificate of this key is the one remembered, and its chain is accepted at this clock.
  pub record IsAdmitted (signer : Signer c k) (s : S) : Type 0 where
    pub pem : Text
    pub leaf : Certificate
    pub remembered : host.certificate s (id c k host signer) ≡ some pem
    pub loads : c.load_pem pem ≡ some leaf
    pub holds : c.public_key leaf ≡ k.public signer.key
    pub chain : c.chain_accepts leaf (host.now s).0 ≡ true

  check_pem-admitted :
      (signer : Signer c k) (s : S)
      → IsSigning signer.key
      → (a : IsAdmitted signer s)
      → (check_pem c host a.pem (id c k host signer) s).0 ≡ ok (k.public signer.key)
  unfolding check_pem load_certificate check check_at id
  check_pem-admitted signer s h a =
      rw (a.loads, a.chain, a.holds, h.kind, same_bytes_refl (key_id c host (k.public signer.key)))

  key_for-admitted :
      (signer : Signer c k) (s : S)
      → IsSigning signer.key
      → IsAdmitted signer s
      → (key_for c host (id c k host signer) s).0 ≡ ok (some (k.public signer.key))
  unfolding key_for
  key_for-admitted signer s h a = rw (a.remembered, check_pem-admitted signer s h a)

  -- The payload comes back from what `wrap` returned, whenever it was wrapped.
  pub unwrap-wrap :
      (signer : Signer c k) (action : Text) (payload : Bytes) (before s : S) {blob : Bytes}
      → IsSigning signer.key
      → (wrap c k host signer action payload before).0 ≡ ok blob
      → IsAdmitted signer s
      → (unwrap c host action blob s).0 ≡ ok payload
  unfolding wrap unwrap
  unwrap-wrap signer action payload before s {blob} h e a =
      let current = check_current c k host signer before in
      let (nothing, f, e') = continue-eq-ok current.0 _ current.1 e in
      let (message, m, e'') = continue-eq-ok (signed action payload) _ current.1 e' in
      let signature = k.sign signer.key message in
      let same : envelope (id c k host signer) signature payload ≡ blob = cc in
      let width : length (id c k host signer) ≡ key_id_length = unfold id in h.width in
      let parts = split-envelope (id c k host signer) signature payload width (h.short message) in
      let verified : verify c host (k.public signer.key) ed25519 signature message ≡ true =
        unfold verify in rw (h.kind, h.verifies message) in
      rw (← same, parts, key_for-admitted signer s h a, m, verified)
