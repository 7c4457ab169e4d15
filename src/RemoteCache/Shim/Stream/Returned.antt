-- ===== src/RemoteCache/Shim/Stream/Returned.antt =====
-- What `ByteStream.write` took, `ByteStream.read` streams.
use tine.Base.{
  ℕ, ◌+◌, ◌≤◌, ◌≡◌, refl, sym, ap, ◌∙◌, subst, true, Option, none, some, List, [], ◌∷◌, Bytes,
  length, arith, inl, inr, Bool-cases,
}
use tine.Base.Decimal.{int_text}
use tine.Base.Text.{Text}
use tine.RemoteCache.Outcome.{ok}
use tine.RemoteCache.Reapi.Digest.{Digest}
use tine.RemoteCache.Reapi.Stream.{ReadRequest, ReadResponse, WriteRequest}
use tine.RemoteCache.Signing.Envelope.{is_sha256_hex}
use tine.RemoteCache.Store.Blobs.{has_blobs}
use tine.RemoteCache.Store.State.{Store}
use tine.RemoteCache.Store.Presence.{content_at, has_blobs-content}
use tine.RemoteCache.Store.Stored.{put_blob-stores, has_blobs-stored, blob-stored}
use tine.RemoteCache.Shim.State.{Setup, Shim, accepts_uploads}
use tine.RemoteCache.Shim.Local.{blob, ensure, missing_of}
use tine.RemoteCache.Shim.Stream.{
  resource_digest, digest_in, sized, chunk_size, chunks, window_of, read_stream, write_stream,
}
use tine.RemoteCache.Shim.Stream.Chunks.{joined, chunks-join}
use tine.RemoteCache.Shim.Stream.Window.{IsWindow, window_of-IsWindow}
use tine.RemoteCache.Shim.Stream.Upload.{IsUpload, write_all-opened}

sized-hex :
    (hash : Text) (size : Option ℕ) {d : Digest}
    → is_sha256_hex hash ≡ true
    → sized hash size ≡ ok d
    → is_sha256_hex d.hash ≡ true
sized-hex hash none hex h = absurd (cc)
sized-hex hash (some n) {d} hex h = let same : hash ≡ d.hash = cc in rw (sym same) hex

digest_in-hex :
    (parts : Option (List Text)) {d : Digest} → digest_in parts ≡ ok d → is_sha256_hex d.hash ≡ true
digest_in-hex none h = absurd (cc)
digest_in-hex (some []) h = absurd (cc)
digest_in-hex (some (hash ∷ [])) h = absurd (cc)
digest_in-hex (some (hash ∷ size ∷ parts)) {d} h = elim (Bool-cases (is_sha256_hex hash)) [
  | inr e ↦ absurd (let h' = rw e at h in cc)
  | inl e ↦ let h' = rw e at h in sized-hex hash (int_text size) e h'
]

module _ (u : Setup) where
  -- A blob that the store has under its hash is what `Local.blob` finds.
  blob-stands :
      (d : Digest) (content : Bytes) (s : Shim u.world.State)
      → is_sha256_hex d.hash ≡ true
      → content_at d.hash s.store ≡ some content
      → length content ≡ d.size_bytes
      → u.platform.sha256 content ≡ d.hash
      → (blob u d s).0 ≡ ok (some content)
  unfolding blob ensure missing_of
  blob-stands d content s hex at long hashes =
      let asked = has_blobs u.platform (d ∷ []) s.store in
      let still : content_at d.hash asked.1 ≡ some content =
        has_blobs-content u.platform d.hash (d ∷ []) s.store ∙ at in
      rw (has_blobs-stored u.platform d content s.store hex at long)
        (rw (blob-stored u.platform d content asked.1 hex still hashes) refl)

  -- An upload that is accepted, of bytes that are what its digest says and that there is room for.
  write_stream-stores :
      (first : WriteRequest) (others : List WriteRequest) (s : Shim u.world.State) {digest : Digest}
      {all : Bytes}
      → accepts_uploads u ≡ true
      → resource_digest first.resource_name ≡ ok digest
      → first.write_offset ≡ 0
      → IsUpload (first ∷ others) all
      → u.platform.sha256 all ≡ digest.hash
      → length all ≡ digest.size_bytes
      → s.store.held + digest.size_bytes ≤ s.store.max_bytes
      → (left : Store) × (content_at digest.hash left ≡ some all)
        × (write_stream u (first ∷ others) s
            ≡ (ok (record { committed_size = length all }), record s { store = left }))
  unfolding write_stream resource_digest
  write_stream-stores first others s {digest} {all} accepts names start carried hashes long room =
      let (left, same, stands) =
        put_blob-stores u.platform digest all none s.store (digest_in-hex _ names) hashes long
          room in
      (left, stands, rw (accepts, write_all-opened first others names start carried, same) refl)

  read_stream-stands :
      (request : ReadRequest) (digest : Digest) (all : Bytes) (s : Shim u.world.State)
      → resource_digest request.resource_name ≡ ok digest
      → (blob u digest s).0 ≡ ok (some all)
      → (read_stream u request s).0 ≡ ok (chunks chunk_size (window_of request all))
  unfolding read_stream
  read_stream-stands request digest all s names found = rw (names, found) refl

  -- Where uploads are accepted, the first message starts at zero and names a digest, what the messages
  -- carry has the hash and the size of that digest, and the store has room for it: `write` returns that
  -- size, and to a read of the same resource, the next call, `read` streams what the request asks for
  -- of the bytes carried.
  pub read_stream-write_stream :
      (first : WriteRequest) (others : List WriteRequest) (request : ReadRequest)
      (s : Shim u.world.State) {digest : Digest} {all : Bytes}
      → accepts_uploads u ≡ true
      → resource_digest first.resource_name ≡ ok digest
      → first.write_offset ≡ 0
      → IsUpload (first ∷ others) all
      → u.platform.sha256 all ≡ digest.hash
      → length all ≡ digest.size_bytes
      → s.store.held + digest.size_bytes ≤ s.store.max_bytes
      → request.resource_name ≡ first.resource_name
      → ((write_stream u (first ∷ others) s).0 ≡ ok (record { committed_size = length all }))
        × ((rs : List ReadResponse) × ((read_stream u request
                (write_stream u (first ∷ others) s).1).0
              ≡ ok rs)
            × IsWindow request all (joined rs))
  unfolding resource_digest
  read_stream-write_stream first others request s {digest} {all} accepts names start carried hashes
        long room named =
      let (left, stands, wrote) =
        write_stream-stores first others s accepts names start carried hashes long room in
      let window = window_of request all in
      let found =
        blob-stands digest all (record s { store = left }) (digest_in-hex _ names) stands long
          hashes in
      (
        rw wrote refl,
        (
          chunks chunk_size window,
          rw wrote (
              read_stream-stands request digest all (record s { store = left })
                (ap resource_digest named ∙ names) found),
          subst (IsWindow request all) (sym (chunks-join chunk_size window (omega arith)).0)
              (window_of-IsWindow request all),
        ),
      )
