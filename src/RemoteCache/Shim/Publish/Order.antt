-- ===== src/RemoteCache/Shim/Publish/Order.antt =====
-- The order in which `_publish` writes to the bucket: a pointer only once its bundle stands there.
use tine.Base.{
  ◌≡◌, refl, sym, ap, subst, ◌∙◌, Bool, true, false, Option, none, some, List, [], ◌∷◌, ◌++◌, Bytes,
  All, All-imp, inl, inr, Bool-cases, same_bytes, same_bytes→eq,
}
use tine.Base.Text.{Text, text_of}
use tine.RemoteCache.Outcome.{ok}
use tine.RemoteCache.Exec.{continue-eq-ok}
use tine.RemoteCache.Bundle.{pack}
use tine.RemoteCache.Reapi.Digest.{Digest}
use tine.RemoteCache.Store.Table.{Table, find, upsert, find-upsert_here}
use tine.RemoteCache.Store.Choose.{among_texts}
use tine.RemoteCache.Store.Blobs
use tine.RemoteCache.Store.Reads.{blob-eq-ok}
use tine.RemoteCache.Shim.State.{Setup, Shim, on_store}
use tine.RemoteCache.Shim.Publish.{Prepared, filed_as, gather, send, refreshed}

-- What an upsert of one blob leaves under another key.
pub find-upsert_other :
    (key other : Text) (blob : Bytes) (t : Table Bytes)
    → same_bytes key other ≡ false
    → find other (upsert key blob (λ _. blob) t) ≡ find other t
unfolding find upsert
find-upsert_other key other blob [] h = rw h refl
find-upsert_other key other blob ((k, row) ∷ t) h = elim (Bool-cases (same_bytes k key)) [
  | inl e ↦
      let same : k ≡ key = same_bytes→eq k key e in
      let apart : same_bytes k other ≡ false = rw same h in rw (e, apart) refl
  | inr e ↦ elim (Bool-cases (same_bytes k other)) [
    | inl f ↦ rw (e, f) refl
    | inr f ↦ rw (e, f) (find-upsert_other key other blob t h)
  ]
]

module _ (u : Setup) where
  -- A member of this hash, of that hash.
  abbrev pub IsFiled : Table Bytes → Digest → Type 0
  IsFiled members d =
      (content : Bytes) × (find d.hash members ≡ some content)
      × (u.platform.sha256 content ≡ d.hash)

  IsFiled-upsert :
      (hash : Text) (blob : Bytes) (members : Table Bytes)
      → u.platform.sha256 blob ≡ hash
      → (d : Digest) → IsFiled members d
      → IsFiled (upsert hash blob (λ _. blob) members) d
  IsFiled-upsert hash blob members right d (content, found, good) =
      elim (Bool-cases (same_bytes hash d.hash)) [
        | inl e ↦
            let same = same_bytes→eq hash d.hash e in
            (blob, rw (sym same) (find-upsert_here hash blob members), right ∙ same)
        | inr e ↦ (content, find-upsert_other hash d.hash blob members e ∙ found, good)
      ]

  pub filed_as-eq-ok :
      (hash : Text) (members : Table Bytes) (found : Option Bytes) (s : Shim u.world.State)
      → {more : Table Bytes} → (filed_as u hash members found s).0 ≡ ok more
      → (blob : Bytes) × (found ≡ some blob) × (upsert hash blob (λ _. blob) members ≡ more)
  filed_as-eq-ok hash members none s h = absurd (cc)
  filed_as-eq-ok hash members (some blob) s h = (blob, refl, cc)

  -- Every blob gathered is filed, and what was filed stays so.
  pub gather-IsFiled :
      (kept blobs : List Digest) (members : Table Bytes) (s : Shim u.world.State)
      {all : Table Bytes}
      → All (IsFiled members) kept
      → (gather u blobs members s).0 ≡ ok all
      → All (IsFiled all) kept × All (IsFiled all) blobs
  unfolding gather
  gather-IsFiled kept [] members s {all} filed h =
      let same : members ≡ all = cc in
      (subst (λ (m : Table Bytes). All (IsFiled m) kept) same filed, tt)
  gather-IsFiled kept (d ∷ blobs) members s {all} filed h =
      let got = on_store u (Blobs.blob u.platform d) s in
      let (found, e, k) = continue-eq-ok got.0 _ got.1 h in
      let added = filed_as u d.hash members found got.1 in
      let (more, f, j) = continue-eq-ok added.0 (gather u blobs) added.1 k in
      let (blob, g, same) = filed_as-eq-ok d.hash members found got.1 f in
      let right = blob-eq-ok u.platform d s.store (e ∙ ap (λ (o : Option Bytes). ok o) g) in
      let now : All (IsFiled (upsert d.hash blob (λ _. blob) members)) (d ∷ kept) = (
        (blob, find-upsert_here d.hash blob members, right),
        All-imp _ _ kept (IsFiled-upsert d.hash blob members right) filed,
      ) in
      let (all_kept, all_blobs) =
        gather-IsFiled (d ∷ kept) blobs more added.1
          (subst (λ (m : Table Bytes). All (IsFiled m) (d ∷ kept)) same now) j in
      (all_kept.1, (all_kept.0, all_blobs))

  -- What `publish_bundle` leaves: the bundle under this name refreshed where it is shared, and written
  -- where it is not, holding a member of its hash for every blob.
  pub data Stands (p : Prepared) (s : Shim u.world.State) : Bool → Shim u.world.State → Type 0 where
    refreshed_there :
        {left : Shim u.world.State}
        → among_texts p.bundle s.tainted ≡ false
        → refreshed u false (text_of "bundle/" ++ p.bundle) s ≡ (ok true, left)
        → Stands p s true left
    written :
        {left : Shim u.world.State} (members : Table Bytes) (mid : Shim u.world.State)
        → All (IsFiled members) p.blobs
        → (send u (text_of "bundle/" ++ p.bundle) (pack members) mid).0 ≡ ok tt
        → left.net ≡ (send u (text_of "bundle/" ++ p.bundle) (pack members) mid).1.net
        → Stands p s false left
