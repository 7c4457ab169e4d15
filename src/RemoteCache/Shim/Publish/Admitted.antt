-- ===== src/RemoteCache/Shim/Publish/Admitted.antt =====
-- What `_publish` gathers for a bundle is what `_proven` accepts of it: both resolve the result by
-- the same content.
use tine.Base.{
  ◌≡◌, refl, sym, ap, subst, ◌∙◌, true, Option, none, some, List, [], ◌∷◌, Bytes, All, All-imp,
  All-append_right, arith, inl, inr, same_bytes_refl,
}
use tine.Base.Text.{Text}
use tine.RemoteCache.Outcome.{ok}
use tine.RemoteCache.Exec.{continue-eq-ok}
use tine.RemoteCache.Bundle.Name.{bundle_name}
use tine.RemoteCache.Reapi.Digest.{Digest}
use tine.RemoteCache.Reapi.Result.{ActionResult, named}
use tine.RemoteCache.Store.Table.{Table, upsert}
use tine.RemoteCache.Store.State.{Store}
use tine.RemoteCache.Store.Blobs
use tine.RemoteCache.Store.Presence.{content_at, blob-content}
use tine.RemoteCache.Shim.State.{Setup, Shim, on_store}
use tine.RemoteCache.Shim.Local.{referenced}
use tine.RemoteCache.Shim.Proven.{hashes_of, keys_of, all_among, same_set, proven}
use tine.RemoteCache.Shim.Publish.{filed_as, gather}
use tine.RemoteCache.Shim.Publish.Order.{IsFiled, filed_as-eq-ok}
use tine.RemoteCache.Shim.Publish.Agreement.{
  all_among-upsert, among_texts-keys_of, All-append_left, Agrees, files_of-keeps,
  files_of-lookup_in, IsOf, IsOf-upsert,
}

module _ (u : Setup) where
  filed_as-keeps :
      (hash : Text) (members : Table Bytes) (found : Option Bytes) (s : Shim u.world.State)
      → (filed_as u hash members found s).1 ≡ s
  filed_as-keeps hash members none s = refl
  filed_as-keeps hash members (some blob) s = refl

  -- What is gathered is of the store, under the hashes of what was asked for.
  pub gather-IsOf :
      (names : List Text) (blobs : List Digest) (members : Table Bytes) (s : Shim u.world.State)
      → (first : Store) {all : Table Bytes}
      → ((key : Text) → content_at key s.store ≡ content_at key first)
      → all_among (hashes_of blobs) names ≡ true
      → IsOf first members
      → all_among (keys_of members) names ≡ true
      → (gather u blobs members s).0 ≡ ok all
      → IsOf first all × (all_among (keys_of all) names ≡ true)
  unfolding gather all_among hashes_of
  gather-IsOf names [] members s first {all} kept asked is_of among h =
      let same : members ≡ all = cc in
      (
        subst (IsOf first) same is_of,
        ap (λ (m : Table Bytes). all_among (keys_of m) names) (sym same) ∙ among,
      )
  gather-IsOf names (d ∷ blobs) members s first {all} kept asked is_of among h =
      let got = on_store u (Blobs.blob u.platform d) s in
      let (found, e, k) = continue-eq-ok got.0 _ got.1 h in
      let added = filed_as u d.hash members found got.1 in
      let (more, f, j) = continue-eq-ok added.0 (gather u blobs) added.1 k in
      let (blob, g, same) = filed_as-eq-ok u d.hash members found got.1 f in
      let (filed, same_content) =
        blob-content u.platform d s.store (e ∙ ap (λ (o : Option Bytes). ok o) g) in
      let next = upsert d.hash blob (λ _. blob) members in
      let is_of' = IsOf-upsert first d.hash blob members (sym (kept d.hash) ∙ filed) is_of in
      let among' = all_among-upsert names d.hash blob members (ground (arith, asked)) among in
      gather-IsOf names blobs more added.1 first
        (λ key.
          ap (λ (left : Shim u.world.State). content_at key left.store)
            (filed_as-keeps d.hash members found got.1)
          ∙ same_content key
          ∙ kept key)
        (ground (arith, asked)) (subst (IsOf first) same is_of')
        (ap (λ (m : Table Bytes). all_among (keys_of m) names) (sym same) ∙ among') j

  all_among-IsFiled :
      (ds : List Digest) (members : Table Bytes)
      → All (IsFiled u members) ds
      → all_among (hashes_of ds) (keys_of members) ≡ true
  unfolding all_among hashes_of
  all_among-IsFiled [] members h = refl
  all_among-IsFiled (d ∷ ds) members h =
      rw (among_texts-keys_of d.hash members h.0.1, all_among-IsFiled ds members h.1) refl

  filed-Agrees :
      (s : Store) (members : Table Bytes)
      → IsOf s members
      → (d : Digest) → IsFiled u members d
      → Agrees s members d
  filed-Agrees s members is_of d (content, found, right) = elim (is_of d.hash) [
    | inl none_there ↦ absurd (let clash = sym none_there ∙ found in cc)
    | inr there ↦ there
  ]

  -- A table that agrees with the store that resolved the result, and has its blobs and no others, is
  -- accepted as the result's bundle.
  pub proven-agreeing :
      (result : ActionResult) (before : Store) (members : Table Bytes) {blobs : List Digest}
      → (referenced (Blobs.blob u.platform) result before).0 ≡ ok (some blobs)
      → IsOf before members
      → All (IsFiled u members) blobs
      → all_among (keys_of members) (hashes_of blobs) ≡ true
      → proven u.platform.sha256
          (record { bundle = bundle_name u.platform.sha256 blobs; result = result.raw })
          result
          members
        ≡ ok blobs
  unfolding referenced proven same_set named
  proven-agreeing result before members {blobs} resolved is_of filed among =
      let agree =
        All-imp _ (Agrees before members) blobs (filed-Agrees before members is_of) filed in
      let named_agree =
        files_of-keeps (Blobs.blob u.platform) (Agrees before members) result.tree_digests
          (named result) before resolved agree in
      let trees =
        All-append_left (Agrees before members) result.tree_digests _
          (All-append_right (Agrees before members) result.file_digests _ named_agree) in
      let found =
        files_of-lookup_in u.platform result.tree_digests (named result) before members resolved
          trees in
      let name = same_bytes_refl (bundle_name u.platform.sha256 blobs) in
      rw (found, all_among-IsFiled blobs members filed, among, name) refl
