-- ===== src/RemoteCache/Shim/Local/Presence.antt =====
-- What `Local` serves, and what it says is here.
use tine.Base.{
  ◌≡◌, refl, sym, ap, ◌∙◌, Bool, true, false, Option, none, some, List, [], ◌∷◌, Bytes, All,
  All-imp,
}
use tine.RemoteCache.Outcome.{ok}
use tine.RemoteCache.Exec.{continue-eq-ok}
use tine.RemoteCache.Reapi.Digest.{Digest}
use tine.RemoteCache.Store.State.{Store}
use tine.RemoteCache.Store.Blobs
use tine.RemoteCache.Store.Blobs.{use_blob, has_blobs}
use tine.RemoteCache.Store.Presence.{
  IsHere, Told, IsHere-content, has_blobs-content, has_blobs-Told,
}
use tine.RemoteCache.Store.Reads.{blob-eq-ok}
use tine.RemoteCache.Shim.State.{Setup, Shim, on_store}
use tine.RemoteCache.Shim.Local.{
  ensure, all_here, missing_of, refill_each, here, blob, read_if, read_again, read_first,
  ensure_missing, refill_if, wanted_from,
}

module _ (u : Setup) where
  read_if-hashes :
      (digest : Digest) (first : Bool) (s : Shim u.world.State) {content : Bytes}
      → (read_if u digest first s).0 ≡ ok (some content)
      → u.platform.sha256 content ≡ digest.hash
  read_if-hashes digest false s h = absurd (cc)
  read_if-hashes digest true s h = blob-eq-ok u.platform digest s.store h

  read_again-hashes :
      (digest : Digest) (found : Option Bytes) (s : Shim u.world.State) {content : Bytes}
      → ((b : Bytes) → found ≡ some b → u.platform.sha256 b ≡ digest.hash)
      → (read_again u digest found s).0 ≡ ok (some content)
      → u.platform.sha256 content ≡ digest.hash
  read_again-hashes digest (some b) s {content} fine h = fine content (cc)
  read_again-hashes digest none s fine h =
      let again = ensure u (digest ∷ []) s in
      let (first, e, k) = continue-eq-ok again.0 (read_if u digest) again.1 h in
      read_if-hashes digest first again.1 k

  read_first-hashes :
      (digest : Digest) (first : Bool) (s : Shim u.world.State) {content : Bytes}
      → (read_first u digest first s).0 ≡ ok (some content)
      → u.platform.sha256 content ≡ digest.hash
  read_first-hashes digest false s h = absurd (cc)
  read_first-hashes digest true s h =
      let got = on_store u (Blobs.blob u.platform digest) s in
      let (found, e, k) = continue-eq-ok got.0 (read_again u digest) got.1 h in
      read_again-hashes digest found got.1
        (λ b f. blob-eq-ok u.platform digest s.store (e ∙ ap (λ (o : Option Bytes). ok o) f)) k

  -- Whatever the store and the bucket hold: `Local.blob` returns only bytes of the hash asked for.
  pub blob-hashes :
      (digest : Digest) (s : Shim u.world.State) {content : Bytes}
      → (blob u digest s).0 ≡ ok (some content)
      → u.platform.sha256 content ≡ digest.hash
  unfolding blob
  blob-hashes digest s h =
      let again = ensure u (digest ∷ []) s in
      let (first, e, k) = continue-eq-ok again.0 (read_first u digest) again.1 h in
      read_first-hashes digest first again.1 k

  Told-missing :
      (s : Store) (ds : List Digest) (answers : List Bool)
      → Told u.platform s ds answers
      → missing_of ds answers ≡ []
      → All (IsHere s) ds
  unfolding missing_of
  Told-missing s [] [] t m = tt
  Told-missing s [] (a ∷ answers) t m = absurd t
  Told-missing s (d ∷ ds) [] t m = absurd t
  Told-missing s (d ∷ ds) (true ∷ answers) t m = (t.0 refl, Told-missing s ds answers t.1 m)
  Told-missing s (d ∷ ds) (false ∷ answers) t m = absurd (cc)

  Told-all_here :
      (s : Store) (ds : List Digest) (answers : List Bool)
      → Told u.platform s ds answers
      → all_here answers ≡ true
      → All (IsHere s) ds
  unfolding all_here
  Told-all_here s [] [] t m = tt
  Told-all_here s [] (a ∷ answers) t m = absurd t
  Told-all_here s (d ∷ ds) [] t m = absurd t
  Told-all_here s (d ∷ ds) (true ∷ answers) t m = (t.0 refl, Told-all_here s ds answers t.1 m)
  Told-all_here s (d ∷ ds) (false ∷ answers) t m = absurd (cc)

  -- What `has_blobs` was told of a store holds of the store that it leaves.
  still_here :
      (asked ds : List Digest) (s : Store)
      → All (IsHere s) ds
      → All (IsHere (has_blobs u.platform asked s).1) ds
  still_here asked ds s = All-imp _ _ ds (λ d.
      IsHere-content u.platform (has_blobs u.platform asked s).1 s d
        (sym (has_blobs-content u.platform d.hash asked s)))

  refill_if-IsHere :
      (bucket : Bool) (ds missing : List Digest) (s : Shim u.world.State)
      → (refill_if u bucket ds missing s).0 ≡ ok true
      → All (IsHere (refill_if u bucket ds missing s).1.store) ds
  refill_if-IsHere false ds missing s h = absurd (cc)
  refill_if-IsHere true ds missing s h =
      let filled = refill_each u (wanted_from missing s.store []) s in
      let (done, f, k) = continue-eq-ok filled.0 _ filled.1 h in
      let asked = here u ds filled.1 in
      let (answers, g, j) = continue-eq-ok asked.0 _ asked.1 k in
      let all : all_here answers ≡ true = cc in
      let told = has_blobs-Told u.platform ds filled.1.store g in
      rw (f, g) (still_here ds ds filled.1.store (Told-all_here filled.1.store ds answers told all))

  ensure_missing-IsHere :
      (ds missing : List Digest) (s : Shim u.world.State)
      → (missing ≡ [] → All (IsHere s.store) ds)
      → (ensure_missing u ds missing s).0 ≡ ok true
      → All (IsHere (ensure_missing u ds missing s).1.store) ds
  ensure_missing-IsHere ds [] s fine h = fine refl
  ensure_missing-IsHere ds (one ∷ missing) s fine h =
      refill_if-IsHere u.has_bucket ds (one ∷ missing) s h

  -- Where `ensure` says so, every blob is here at its size, whether it was or was fetched.
  pub ensure-IsHere :
      (ds : List Digest) (s : Shim u.world.State)
      → (ensure u ds s).0 ≡ ok true
      → All (IsHere (ensure u ds s).1.store) ds
  unfolding ensure
  ensure-IsHere ds s h =
      let asked = here u ds s in
      let (answers, g, k) = continue-eq-ok asked.0 _ asked.1 h in
      let told = has_blobs-Told u.platform ds s.store g in
      rw g (
        ensure_missing-IsHere ds (missing_of ds answers) asked.1
          (λ m. still_here ds ds s.store (Told-missing s.store ds answers told m)) k)
