-- ===== src/RemoteCache/Shim/Lookup/Trusted.antt =====
-- What `_kept` and `_fetch` find is a pointer that passed the same test, from the store or the bucket.
use tine.Base.{
  ◌≡◌, refl, ◌++◌, ap, ◌∙◌, Bool, true, false, Option, none, some, Bytes, take, length, inl, inr,
  Bool-cases, same_bytes,
}
use tine.RemoteCache.Outcome.{Raised, ok, is_value_error, is_url_error}
use tine.RemoteCache.Exec.{continue-eq-ok, handled-eq-ok, lift, pure}
use tine.RemoteCache.Reapi.Digest.{Digest}
use tine.RemoteCache.Signing.Authority.Trust.{IsVouchedFor, unwrap-IsVouchedFor}
use tine.RemoteCache.Signing.Envelope.{magic}
use tine.RemoteCache.Store.Results.{put_result}
use tine.RemoteCache.Store.Results
use tine.RemoteCache.Bucket.{small_object}
use tine.Base.Text.{text_of}
use tine.RemoteCache.Shim.Pointer.{read_pointer}
use tine.RemoteCache.Shim.State.{Setup, Shim, count, get, host}
use tine.RemoteCache.Shim.Lookup.{
  Found, verified, trusted, kept_refused, kept, trusted_found, kept_of, fetch_refused, trusted_with,
  fetch_pointer, fetch_rest, fetch, or_fetched,
}
use tine.RemoteCache.Shim.Lookup.Same.{fetch_rest-same}

module _ (u : Setup) where
  -- What the bytes stored for an action have passed: the authority's test, or that of no authority.
  pub Passed : Bool → Digest → Bytes → Bytes → Type 0
  Passed true action stored payload = IsVouchedFor u.crypto (host u) action.hash stored payload
  Passed false action stored payload =
      (same_bytes (take (length magic) stored) magic ≡ false) × (stored ≡ payload)

  verified-Passed :
      (b : Bool) (action : Digest) (stored : Bytes) (s : Shim u.world.State) {payload : Bytes}
      → (verified u b action stored s).0 ≡ ok payload
      → Passed b action stored payload
  unfolding Passed
  verified-Passed true action stored s h =
      unwrap-IsVouchedFor u.crypto (host u) action.hash stored s h
  verified-Passed false action stored s h =
      elim (Bool-cases (same_bytes (take (length magic) stored) magic)) [
        | inl e ↦ absurd (let h' = rw e at h in cc)
        | inr e ↦ let h' = rw e at h in (e, cc)
      ]

  -- Where the bytes stood that a lookup of an action found, which began in a state: in the row that the
  -- store had for the action; or, where the store gave nothing that could be trusted, in the object of
  -- the bucket that has the action's name.
  pub data IsStoredFor (s : Shim u.world.State) (action : Digest) (stored : Bytes) : Type 0 where
    in_store : Results.result action s.store ≡ some stored → IsStoredFor s action stored
    in_bucket :
        u.has_bucket ≡ true
        → (kept u action s).0 ≡ ok none
        → (get u (text_of "ac/" ++ action.hash) small_object (kept u action s).1).0
          ≡ ok (some stored)
        → IsStoredFor s action stored

  -- A pointer and its result, of bytes that stood there and passed.
  pub record IsTrusted (before : Shim u.world.State) (action : Digest) (found : Found)
      : Type 0 where
    pub stored : Bytes
    pub source : IsStoredFor before action stored
    pub payload : Bytes
    pub passed : Passed u.has_authority action stored payload
    pub holds : read_pointer payload ≡ ok found

  trusted-IsTrusted :
      (before : Shim u.world.State) (action : Digest) (stored : Bytes) (s : Shim u.world.State)
      {found : Found}
      → IsStoredFor before action stored
      → (trusted u action stored s).0 ≡ ok found
      → IsTrusted before action found
  unfolding trusted
  trusted-IsTrusted before action stored s source h =
      let passed = verified u u.has_authority action stored s in
      let (payload, e, k) = continue-eq-ok passed.0 (λ p. lift (read_pointer p)) passed.1 h in
      record {
        stored = stored;
        source = source;
        payload = payload;
        passed = verified-Passed u.has_authority action stored s e;
        holds = k;
      }

  trusted_found-IsTrusted :
      (before : Shim u.world.State) (action : Digest) (stored : Bytes) (s : Shim u.world.State)
      {found : Found}
      → IsStoredFor before action stored
      → (trusted_found u action stored s).0 ≡ ok (some found)
      → IsTrusted before action found
  trusted_found-IsTrusted before action stored s {found} source h =
      let got = trusted u action stored s in
      let (f, e, k) = continue-eq-ok got.0 (λ f. pure (some f)) got.1 h in
      let same : f ≡ found = cc in
      trusted-IsTrusted before action stored s source (e ∙ ap (λ (f : Found). ok f) same)

  -- A handler returns nothing found.
  kept_refused-none :
      {A : Type 0} (action : Digest) (e : Raised) (s : Shim u.world.State) {found : Found}
      → (kept_refused u action e s).0 ≡ ok (some found)
      → A
  unfolding count
  kept_refused-none action e s h = elim (Bool-cases (is_url_error e)) [
    | inl a ↦ absurd (let h' = rw a at h in cc)
    | inr a ↦ elim (Bool-cases (is_value_error e)) [
      | inl b ↦ absurd (let h' = rw (a, b) at h in cc)
      | inr b ↦ absurd (let h' = rw (a, b) at h in cc)
    ]
  ]

  fetch_refused-none :
      {A : Type 0} (e : Raised) (s : Shim u.world.State) {got : Bytes × Found}
      → (fetch_refused u e s).0 ≡ ok (some got)
      → A
  unfolding count
  fetch_refused-none e s h = elim (Bool-cases (is_url_error e)) [
    | inl a ↦ absurd (let h' = rw a at h in cc)
    | inr a ↦ elim (Bool-cases (is_value_error e)) [
      | inl b ↦ absurd (let h' = rw (a, b) at h in cc)
      | inr b ↦ absurd (let h' = rw (a, b) at h in cc)
    ]
  ]

  kept_of-IsTrusted :
      (action : Digest) (stands : Option Bytes) (s : Shim u.world.State) {found : Found}
      → Results.result action s.store ≡ stands
      → (kept_of u action stands s).0 ≡ ok (some found)
      → IsTrusted s action found
  kept_of-IsTrusted action none s source h = absurd (cc)
  kept_of-IsTrusted action (some stored) s source h =
      let got = trusted_found u action stored s in
      elim (handled-eq-ok got.0 (kept_refused u action) got.1 h) [
        | inl e ↦ trusted_found-IsTrusted s action stored s (in_store source) e
        | inr (e, f, k) ↦ kept_refused-none action e got.1 k
      ]

  kept-IsTrusted :
      (action : Digest) (s : Shim u.world.State) {found : Found}
      → (kept u action s).0 ≡ ok (some found)
      → IsTrusted s action found
  unfolding kept
  kept-IsTrusted action s h = kept_of-IsTrusted action (Results.result action s.store) s refl h

  trusted_with-IsTrusted :
      (before : Shim u.world.State) (action : Digest) (got : Option Bytes) (s : Shim u.world.State)
      {of : Bytes} {found : Found}
      → ((stored : Bytes) → got ≡ some stored → IsStoredFor before action stored)
      → (trusted_with u action got s).0 ≡ ok (some (of, found))
      → IsTrusted before action found
  unfolding count
  trusted_with-IsTrusted before action none s from h = absurd (cc)
  trusted_with-IsTrusted before action (some stored) s {found = found} from h =
      let got = trusted u action stored s in
      let (f, e, k) = continue-eq-ok got.0 (λ f. pure (some (stored, f))) got.1 h in
      let same : f ≡ found = cc in
      trusted-IsTrusted before action stored s (from stored refl)
        (e ∙ ap (λ (f : Found). ok f) same)

  -- The pointer that `_fetch` reads, where it begins in the state that `_kept` left.
  fetch_pointer-IsTrusted :
      (action : Digest) (before : Shim u.world.State) {stored : Bytes} {found : Found}
      → u.has_bucket ≡ true
      → (kept u action before).0 ≡ ok none
      → (fetch_pointer u action (kept u action before).1).0 ≡ ok (some (stored, found))
      → IsTrusted before action found
  unfolding fetch_pointer
  fetch_pointer-IsTrusted action before bucket nothing h =
      elim (handled-eq-ok _ (fetch_refused u) _ h) [
        | inl e ↦
            let (got, f, k) = continue-eq-ok _ (trusted_with u action) _ e in
            trusted_with-IsTrusted before action got _
              (λ stored same. in_bucket bucket nothing (f ∙ ap (λ (o : Option Bytes). ok o) same)) k
        | inr (e, f, k) ↦ fetch_refused-none e _ k
      ]

  fetch-IsTrusted :
      (action : Digest) (before : Shim u.world.State) {found : Found}
      → u.has_bucket ≡ true
      → (kept u action before).0 ≡ ok none
      → (fetch u action (kept u action before).1).0 ≡ ok (some found)
      → IsTrusted before action found
  unfolding fetch
  fetch-IsTrusted action before bucket nothing h =
      let first = fetch_pointer u action (kept u action before).1 in
      let (got, e, k) = continue-eq-ok first.0 (fetch_rest u action) first.1 h in
      let (stored, f) = fetch_rest-same u action got first.1 k in
      fetch_pointer-IsTrusted action before bucket nothing
        (e ∙ ap (λ (o : Option (Bytes × Found)). ok o) f)

  -- What the store held, or what was fetched where it held none.
  pub or_fetched-IsTrusted :
      (bucket : Bool) (action : Digest) (held : Option Found) (before : Shim u.world.State)
      {found : Found}
      → u.has_bucket ≡ bucket
      → (kept u action before).0 ≡ ok held
      → (or_fetched u bucket action held (kept u action before).1).0 ≡ ok (some found)
      → IsTrusted before action found
  or_fetched-IsTrusted bucket action (some f) before {found} b e h =
      let same : f ≡ found = cc in
      kept-IsTrusted action before (e ∙ ap (λ (f : Found). ok (some f)) same)
  or_fetched-IsTrusted false action none before b e h = absurd (cc)
  or_fetched-IsTrusted true action none before b e h = fetch-IsTrusted action before b e h
