-- ===== src/RemoteCache/Shim/Lookup/Served.antt =====
-- What `ActionCache.get` serves: a result that was trusted, with every blob that it names here.
use tine.Base.{
  ◌≡◌, refl, subst, inl, inr, Bool-cases, ap, ◌∙◌, Bool, true, false, Option, none, some, List, All,
}
use tine.Base.Text.{text_of}
use tine.RemoteCache.Outcome.{ok}
use tine.RemoteCache.Exec.{continue-eq-ok}
use tine.RemoteCache.Reapi.Digest.{Digest}
use tine.RemoteCache.Reapi.Result.{ActionResult, GetActionResultRequest}
use tine.RemoteCache.Signing.Envelope.{is_sha256_hex}
use tine.RemoteCache.Store.Presence.{IsHere}
use tine.RemoteCache.Shim.Pointer.{Pointer}
use tine.RemoteCache.Shim.State.{Setup, Shim, count}
use tine.RemoteCache.Shim.Local.{referenced, blob}
use tine.RemoteCache.Shim.Local.Presence.{ensure-IsHere}
use tine.RemoteCache.Shim.Lookup.{Found, kept, or_fetched, backed, hit, served, get_for, get_result}
use tine.RemoteCache.Shim.Lookup.Trusted.{IsTrusted, or_fetched-IsTrusted}

module _ (u : Setup) where
  -- The blobs that a result was resolved to, each here in the state left.
  pub record IsBacked (result : ActionResult) (s : Shim u.world.State) : Type 0 where
    pub blobs : List Digest
    pub resolved_in : Shim u.world.State
    pub resolved : (referenced (blob u) result resolved_in).0 ≡ ok (some blobs)
    pub present : All (IsHere s.store) blobs

  -- A lookup that began in the one state and left the other.
  pub record IsServed (request : GetActionResultRequest) (result : ActionResult)
      (before s : Shim u.world.State) : Type 0 where
    pub action : Digest
    pub asked : request.action_digest ≡ some action
    pub pointer : Pointer
    pub trusted : IsTrusted u (count u (text_of "lookups") before).1 action (pointer, result)
    pub backed : IsBacked result s

  hit-same :
      (result : ActionResult) (complete : Bool) (s : Shim u.world.State) {got : ActionResult}
      → (hit u result complete s).0 ≡ ok got
      → (complete ≡ true) × (result ≡ got) × ((hit u result complete s).1.store ≡ s.store)
  unfolding count
  hit-same result true s h = (refl, cc, refl)
  hit-same result false s h = absurd (cc)

  backed-IsHere :
      (blobs : Option (List Digest)) (s : Shim u.world.State)
      → (backed u blobs s).0 ≡ ok true
      → (ds : List Digest) × (blobs ≡ some ds) × All (IsHere (backed u blobs s).1.store) ds
  backed-IsHere none s h = absurd (cc)
  backed-IsHere (some ds) s h = (ds, refl, ensure-IsHere u ds s h)

  served-IsBacked :
      (pointer : Pointer) (result : ActionResult) (s : Shim u.world.State) {got : ActionResult}
      → (served u (some (pointer, result)) s).0 ≡ ok got
      → (result ≡ got) × IsBacked result (served u (some (pointer, result)) s).1
  served-IsBacked pointer result s h =
      let found = referenced (blob u) result s in
      let (blobs, e, k) = continue-eq-ok found.0 _ found.1 h in
      let checked = backed u blobs found.1 in
      let (complete, f, j) = continue-eq-ok checked.0 (hit u result) checked.1 k in
      let (c, same, kept) = hit-same result complete checked.1 j in
      let (ds, g, present) = backed-IsHere blobs found.1 (f ∙ ap (λ (b : Bool). ok b) c) in
      (
        same,
        record {
          blobs = ds;
          resolved_in = s;
          resolved = e ∙ ap (λ (o : Option (List Digest)). ok o) g;
          present = rw (e, f, kept) present;
        },
      )

  served-IsServed :
      (before : Shim u.world.State) (action : Digest) (found : Option Found)
      (s : Shim u.world.State) {got : ActionResult}
      → ((f : Found) → found ≡ some f → IsTrusted u (count u (text_of "lookups") before).1 action f)
      → (served u found s).0 ≡ ok got
      → IsServed (record { action_digest = some action }) got before (served u found s).1
  served-IsServed before action none s fine h = absurd (cc)
  served-IsServed before action (some (pointer, result)) s fine h =
      let left = (served u (some (pointer, result)) s).1 in
      let (same, backed) = served-IsBacked pointer result s h in
      subst (λ (r : ActionResult). IsServed (record { action_digest = some action }) r before left)
        same
        (record {
          action = action;
          asked = refl;
          pointer = pointer;
          trusted = fine (pointer, result) refl;
          backed = backed;
        })

  looked_up :
      (action : Digest) (s : Shim u.world.State) {got : ActionResult}
      → (get_for u (some action) s).0 ≡ ok got
      → IsServed (record { action_digest = some action }) got s (get_for u (some action) s).1
  unfolding count
  looked_up action s h = elim (Bool-cases (is_sha256_hex action.hash)) [
    | inr n ↦ absurd (let h' = rw n at h in cc)
    | inl y ↦
        let h' = rw y at h in
        let started = (count u (text_of "lookups") s).1 in
        let first = kept u action started in
        let (held, e, k) = continue-eq-ok first.0 _ first.1 h' in
        let second = or_fetched u u.has_bucket action held first.1 in
        let (found, f, j) = continue-eq-ok second.0 (served u) second.1 k in
        rw (y, e, f)
          (served-IsServed s action found second.1
            (λ one same.
              or_fetched-IsTrusted u u.has_bucket action held started refl e
                (f ∙ ap (λ (o : Option Found). ok o) same))
            j)
  ]

  get_for-IsServed :
      (asked : Option Digest) (s : Shim u.world.State) {got : ActionResult}
      → (get_for u asked s).0 ≡ ok got
      → IsServed (record { action_digest = asked }) got s (get_for u asked s).1
  get_for-IsServed none s h = absurd (cc)
  get_for-IsServed (some action) s h = looked_up action s h

  -- Whatever the store, the bucket and the clocks hold: a result that `get` returns was read from bytes
  -- that stood in the store's row of the action asked for, or, where the store gave nothing that could
  -- be trusted, that the bucket answered with under ac/ and the action's hash; they passed the test of
  -- this shim, vouched for where there is an authority and unsigned where there is none; and every blob
  -- that the result resolves to is here at its size in the state left.
  pub get_result-IsServed :
      (request : GetActionResultRequest) (s : Shim u.world.State) {got : ActionResult}
      → (get_result u request s).0 ≡ ok got
      → IsServed request got s (get_result u request s).1
  unfolding get_result
  get_result-IsServed request s h = get_for-IsServed request.action_digest s h
