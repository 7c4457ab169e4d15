-- ===== src/RemoteCache/Shim/Stream/Carried.antt =====
-- What `ByteStream` carries: the window asked for of bytes that have the hash named, and an upload that
-- makes its digest.
use tine.Base.{
  ℕ, ◌^◌, ◌≡◌, refl, sym, ap, ◌∙◌, subst, inl, inr, Bool, true, false, Option, none, some, List, [],
  ◌∷◌, Bytes, length, All, arith, Bool-cases,
}
use tine.RemoteCache.Outcome.{Raised, Result, ok, is_value_error}
use tine.RemoteCache.Exec.{continue-eq-ok, handled, handled-eq-ok}
use tine.RemoteCache.Reapi.Digest.{Digest}
use tine.RemoteCache.Reapi.Stream.{ReadRequest, ReadResponse, WriteRequest}
use tine.RemoteCache.Store.Blobs.{put_blob}
use tine.RemoteCache.Store.Reads.{put_blobs-eq-ok}
use tine.RemoteCache.Shim.State.{Setup, Shim, on_store, count, accepts_uploads}
use tine.RemoteCache.Shim.Stream.Chunks.{joined, IsWithin, chunks-join}
use tine.RemoteCache.Shim.Stream.Window.{IsWindow, window_of-IsWindow}
use tine.RemoteCache.Shim.Stream.Upload.{IsOpened, write_all-IsOpened}
use tine.RemoteCache.Shim.Local.{blob}
use tine.RemoteCache.Shim.Local.Presence.{blob-hashes}
use tine.RemoteCache.Shim.Stream.{
  resource_digest, chunk_size, window_of, write_all, invalid, sent, commit, write_accepted,
  read_stream, write_stream, chunks,
}

module _ (u : Setup) where
  -- Bytes of the digest that the resource names, in chunks that make the window asked for.
  pub record IsRead (request : ReadRequest) (rs : List ReadResponse) : Type 0 where
    pub digest : Digest
    pub names : resource_digest request.resource_name ≡ ok digest
    pub content : Bytes
    pub hashes : u.platform.sha256 content ≡ digest.hash
    pub window : IsWindow request content (joined rs)
    pub within : All (IsWithin (2 ^ 20)) rs

  sent-eq-ok :
      (request : ReadRequest) (found : Option Bytes) (s : Shim u.world.State)
      {rs : List ReadResponse}
      → (sent u request found s).0 ≡ ok rs
      → (content : Bytes) × (found ≡ some content)
        × (joined rs ≡ window_of request content)
        × All (IsWithin chunk_size) rs
  sent-eq-ok request none s h = absurd (cc)
  sent-eq-ok request (some content) s {rs} h =
      let same : chunks chunk_size (window_of request content) ≡ rs = cc in
      let (joins, within, one) = chunks-join chunk_size (window_of request content) (omega arith) in
      (content, refl, ap joined (sym same) ∙ joins, subst (All (IsWithin chunk_size)) same within)

  invalid-raises :
      {A B : Type 0} (e : Raised) (s : Shim u.world.State) {a : A} → (invalid u e s).0 ≡ ok a → B
  invalid-raises e s h = elim (Bool-cases (is_value_error e)) [
    | inl v ↦ absurd (let h' = rw v at h in cc)
    | inr v ↦ absurd (let h' = rw v at h in cc)
  ]

  caught-eq-ok :
      {A : Type 0} (r : Result A) (s : Shim u.world.State) {a : A}
      → (handled r (invalid u) s).0 ≡ ok a
      → r ≡ ok a
  caught-eq-ok r s h = elim (handled-eq-ok r (invalid u) s h) [
    | inl e ↦ e
    | inr (e, f, k) ↦ invalid-raises e s k
  ]

  -- What `read` streams, put together, is what stands behind the offset asked for in bytes that have
  -- the hash named: all of it where no limit is asked for, and else no more than the limit; and no
  -- chunk is longer than 2^20 bytes.
  pub read_stream-IsRead :
      (request : ReadRequest) (s : Shim u.world.State) {rs : List ReadResponse}
      → (read_stream u request s).0 ≡ ok rs
      → IsRead request rs
  unfolding read_stream
  read_stream-IsRead request s h =
      let named = resource_digest request.resource_name in
      let first = handled named (invalid u) s in
      let (digest, e, k) = continue-eq-ok first.0 _ first.1 h in
      let got = blob u digest first.1 in
      let (found, f, j) = continue-eq-ok got.0 (sent u request) got.1 k in
      let (content, g, window, within) = sent-eq-ok request found got.1 j in
      record {
        digest = digest;
        names = caught-eq-ok named s e;
        content = content;
        hashes = blob-hashes u digest first.1 (f ∙ ap (λ (o : Option Bytes). ok o) g);
        window = subst (IsWindow request content) (sym window) (window_of-IsWindow request content);
        within = within;
      }

  -- What the messages carry up to the one that finishes, under the digest that the first names.
  pub record IsWritten (requests : List WriteRequest) (size : ℕ) : Type 0 where
    pub digest : Digest
    pub all : Bytes
    pub upload : IsOpened requests digest all
    pub hashes : u.platform.sha256 all ≡ digest.hash
    pub sized : length all ≡ digest.size_bytes
    pub committed : length all ≡ size

  commit-IsWritten :
      (requests : List WriteRequest) (got : Option Digest × Bytes) (s : Shim u.world.State)
      {size : ℕ}
      → write_all none [] requests ≡ ok got
      → (commit u got s).0 ≡ ok (record { committed_size = size })
      → IsWritten requests size
  unfolding put_blob
  commit-IsWritten requests (none, all) s w h = absurd (cc)
  commit-IsWritten requests (some digest, all) s w h =
      let put = on_store u (put_blob u.platform digest all none) s in
      let stored = handled put.0 (invalid u) put.1 in
      let (nothing, e, k) = continue-eq-ok stored.0 _ stored.1 h in
      let filed =
        put_blobs-eq-ok u.platform ((digest, all) ∷ []) none s.store (caught-eq-ok put.0 put.1 e) in
      record {
        digest = digest;
        all = all;
        upload = write_all-IsOpened requests w;
        hashes = filed.0.0;
        sized = filed.0.1;
        committed = cc;
      }

  write_accepted-IsWritten :
      (b : Bool) (requests : List WriteRequest) (s : Shim u.world.State) {size : ℕ}
      → (write_accepted u b requests s).0 ≡ ok (record { committed_size = size })
      → IsWritten requests size
  unfolding count
  write_accepted-IsWritten false requests s h = absurd (cc)
  write_accepted-IsWritten true requests s h =
      let (got, e, k) = continue-eq-ok (write_all none [] requests) (commit u) s h in
      commit-IsWritten requests got s e k

  -- Where `write` returns: the first message starts at zero and names a digest; the contents of the
  -- messages, one behind the other up to the first that finishes the upload or else of all, have the
  -- hash and the size of that digest; and the size returned is theirs.
  pub write_stream-IsWritten :
      (requests : List WriteRequest) (s : Shim u.world.State) {size : ℕ}
      → (write_stream u requests s).0 ≡ ok (record { committed_size = size })
      → IsWritten requests size
  unfolding write_stream
  write_stream-IsWritten requests s h = write_accepted-IsWritten (accepts_uploads u) requests s h
