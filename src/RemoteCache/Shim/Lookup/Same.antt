-- ===== src/RemoteCache/Shim/Lookup/Same.antt =====
-- Whatever way the blobs of a pointer come, what `_fetch` finds is what the pointer read.
use tine.Base.{◌≡◌, ap, Option, none, some, List, Bytes, inl, inr, Bool-cases}
use tine.RemoteCache.Outcome.{Result, ok, err, is_value_error}
use tine.RemoteCache.Exec.{continue-eq-ok, pure}
use tine.RemoteCache.Reapi.Digest.{Digest}
use tine.RemoteCache.Store.Table.{Table}
use tine.RemoteCache.Store.Blobs.{remember_all}
use tine.RemoteCache.Store.Results.{put_result}
use tine.RemoteCache.Shim.State.{Setup, Shim, on_store, count}
use tine.RemoteCache.Shim.Local.{admit, refuse, fetch_bundle}
use tine.RemoteCache.Shim.Lookup.{
  Found, held_by_store, admit_proven, from_bundle, taken, fetch_rest,
}

module _ (u : Setup) where
  admit_proven-same :
      (action : Digest) (stored : Bytes) (got : Found) (members : Table Bytes)
      → (blobs : Result (List Digest)) (s : Shim u.world.State) {found : Found}
      → (admit_proven u action stored got members blobs s).0 ≡ ok (some found)
      → got ≡ found
  unfolding count refuse
  admit_proven-same action stored (pointer, result) members (err e) s h =
      elim (Bool-cases (is_value_error e)) [
        | inl b ↦ absurd (let h' = rw b at h in cc)
        | inr b ↦ absurd (let h' = rw b at h in cc)
      ]
  admit_proven-same action stored (pointer, result) members (ok blobs) s {found} h =
      let admitted = admit u members pointer.bundle s in
      let (a, e, k) = continue-eq-ok admitted.0 _ admitted.1 h in
      let put = on_store u (put_result u.platform action stored) admitted.1 in
      let (b, f, j) = continue-eq-ok put.0 (λ nothing. pure (some (pointer, result))) put.1 k in cc

  from_bundle-same :
      (action : Digest) (stored : Bytes) (got : Found) (members : Option (Table Bytes))
      → (s : Shim u.world.State) {found : Found}
      → (from_bundle u action stored got members s).0 ≡ ok (some found)
      → got ≡ found
  from_bundle-same action stored got none s h = absurd (cc)
  from_bundle-same action stored (pointer, result) (some members) s h =
      admit_proven-same action stored (pointer, result) members _ s h

  taken-same :
      (action : Digest) (stored : Bytes) (got : Found) (local : Option (List Digest))
      → (s : Shim u.world.State) {found : Found}
      → (taken u action stored got local s).0 ≡ ok (some found)
      → got ≡ found
  taken-same action stored (pointer, result) (some local) s {found} h =
      let put = on_store u (put_result u.platform action stored) s in
      let (a, e, k) = continue-eq-ok put.0 _ put.1 h in
      let kept = on_store u (remember_all u.platform local pointer.bundle) put.1 in
      let (b, f, j) = continue-eq-ok kept.0 (λ nothing. pure (some (pointer, result))) kept.1 k in
      cc
  taken-same action stored (pointer, result) none s h =
      let got = fetch_bundle u pointer.bundle s in
      let (members, e, k) =
        continue-eq-ok got.0 (from_bundle u action stored (pointer, result)) got.1 h in
      from_bundle-same action stored (pointer, result) members got.1 k

  pub fetch_rest-same :
      (action : Digest) (got : Option (Bytes × Found)) (s : Shim u.world.State) {found : Found}
      → (fetch_rest u action got s).0 ≡ ok (some found)
      → (stored : Bytes) × (got ≡ some (stored, found))
  fetch_rest-same action none s h = absurd (cc)
  fetch_rest-same action (some (stored, (pointer, result))) s h =
      let held = held_by_store u result s in
      let (local, e, k) =
        continue-eq-ok held.0 (taken u action stored (pointer, result)) held.1 h in
      (
        stored,
        ap (λ (f : Found). some (stored, f))
            (taken-same action stored (pointer, result) local held.1 k),
      )
