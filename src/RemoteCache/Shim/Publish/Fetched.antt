-- ===== src/RemoteCache/Shim/Publish/Fetched.antt =====
-- What `_publish` uploads as a bundle, `fetch_bundle` unpacks and `_proven` accepts.
use tine.Base.{
  ◌≡◌, ◌<◌, ◌^◌, refl, sym, ap, subst, ◌∙◌, true, not, Option, some, List, [], ◌∷◌, Bytes, All,
  All-imp, length, arith, inl, inr, Bool-cases, same_bytes, same_bytes→eq,
}
use tine.Base.Text.{Text}
use tine.RemoteCache.Outcome.{ok, then_raise-eq-ok}
use tine.RemoteCache.Exec.{continue-eq-ok}
use tine.RemoteCache.Bundle.{pack, unpack, sorted_items}
use tine.RemoteCache.Bundle.RoundTrip.{IsMember, unpack-pack}
use tine.RemoteCache.Bundle.Name.{bundle_name}
use tine.RemoteCache.Reapi.Digest.{Digest}
use tine.RemoteCache.Reapi.Result.{ActionResult}
use tine.RemoteCache.Signing.Envelope.{is_sha256_hex}
use tine.RemoteCache.Signing.Envelope.Hashes.{is_sha256_hex_iff, encode-hex}
use tine.RemoteCache.Store.Table.{Table, IsKeyed, find, upsert}
use tine.RemoteCache.Store.State.{Store, path}
use tine.RemoteCache.Store.Blobs
use tine.RemoteCache.Store.Reads.{blob-eq-ok}
use tine.RemoteCache.Store.Presence.{content_at}
use tine.RemoteCache.Shim.State.{Setup, Shim, on_store}
use tine.RemoteCache.Shim.Local.{referenced, dict_from}
use tine.RemoteCache.Shim.Local.Dict.{same_bytes_apart, find-dict_sorted, all_among-dict_sorted}
use tine.RemoteCache.Shim.Proven.{hashes_of, keys_of, all_among, proven}
use tine.RemoteCache.Shim.Publish.{filed_as, gather}
use tine.RemoteCache.Shim.Publish.Order.{find-upsert_other, IsFiled, gather-IsFiled, filed_as-eq-ok}
use tine.RemoteCache.Shim.Publish.Agreement.{all_among_refl}
use tine.RemoteCache.Shim.Publish.Admitted.{gather-IsOf, proven-agreeing}

IsKeyed-upsert :
    (key : Text) (blob : Bytes) (t : Table Bytes)
    → IsKeyed t
    → IsKeyed (upsert key blob (λ _. blob) t)
unfolding upsert find
IsKeyed-upsert key blob [] keyed = (refl, tt)
IsKeyed-upsert key blob ((one, row) ∷ t) keyed = elim (Bool-cases (same_bytes one key)) [
  | inl e ↦ rw e keyed
  | inr e ↦ rw e (
    find-upsert_other key one blob t (same_bytes_apart one key e) ∙ keyed.0,
    IsKeyed-upsert key blob t keyed.1,
  )
]

module _ (u : Setup) where
  -- A member under its hash, which is one.
  abbrev IsRight : Text × Bytes → Type 0
  IsRight one = (u.platform.sha256 one.1 ≡ one.0) × (is_sha256_hex one.0 ≡ true)

  IsRight-upsert :
      (key : Text) (blob : Bytes) (t : Table Bytes)
      → IsRight (key, blob)
      → All IsRight t
      → All IsRight (upsert key blob (λ _. blob) t)
  unfolding upsert
  IsRight-upsert key blob [] right all = (right, tt)
  IsRight-upsert key blob ((one, row) ∷ t) right all = elim (Bool-cases (same_bytes one key)) [
    | inl e ↦
        let same = same_bytes→eq one key e in
        rw e (subst (λ (k : Text). IsRight (k, blob)) (sym same) right, all.1)
    | inr e ↦ rw e (all.0, IsRight-upsert key blob t right all.1)
  ]

  read-IsRight :
      (d : Digest) (s : Store) {content : Bytes}
      → (Blobs.blob u.platform d s).0 ≡ ok (some content)
      → IsRight (d.hash, content)
  unfolding Blobs.blob path
  read-IsRight d s h =
      let (file, e, k) = continue-eq-ok (path d.hash) _ s h in
      let (hex, f) = then_raise-eq-ok _ (not (is_sha256_hex d.hash)) _ e in
      (blob-eq-ok u.platform d s h, ground arith)

  gather-IsRight :
      (blobs : List Digest) (members : Table Bytes) (s : Shim u.world.State) {all : Table Bytes}
      → IsKeyed members
      → All IsRight members
      → (gather u blobs members s).0 ≡ ok all
      → IsKeyed all × All IsRight all
  unfolding gather
  gather-IsRight [] members s {all} keyed right h =
      let same : members ≡ all = cc in
      subst (λ (m : Table Bytes). IsKeyed m × All IsRight m) same (keyed, right)
  gather-IsRight (d ∷ blobs) members s keyed right h =
      let got = on_store u (Blobs.blob u.platform d) s in
      let (found, e, k) = continue-eq-ok got.0 _ got.1 h in
      let added = filed_as u d.hash members found got.1 in
      let (more, f, j) = continue-eq-ok added.0 (gather u blobs) added.1 k in
      let (blob, g, same) = filed_as-eq-ok u d.hash members found got.1 f in
      let one = read-IsRight d s.store (e ∙ ap (λ (o : Option Bytes). ok o) g) in
      gather-IsRight blobs more added.1
        (subst IsKeyed same (IsKeyed-upsert d.hash blob members keyed))
        (subst (All IsRight) same (IsRight-upsert d.hash blob members one right)) j

  IsRight-IsMember :
      (t : Table Bytes)
      → All IsRight t
      → All (λ one. length one.1 < 2 ^ 64) t
      → All (IsMember u.platform.sha256) t
  IsRight-IsMember [] right short = tt
  IsRight-IsMember ((key, blob) ∷ t) right short =
      let hex = (is_sha256_hex_iff key).0 right.0.1 in
      (
        record {
          hashes = sym right.0.0;
          width = ap length (encode-hex key hex) ∙ hex.width;
          fits = short.0;
        },
        IsRight-IsMember t right.1 short.1,
      )

  -- What a builder gathers for a result that its store resolved, from files that have not changed
  -- since, and packs into a bundle, unpacks again, where each blob is shorter than 2^64 bytes; and a
  -- reader accepts it as exactly that result's bundle, under the name of its digests.
  pub proven-published :
      (result : ActionResult) (before : Store) (s : Shim u.world.State)
      → {blobs : List Digest} {members : Table Bytes}
      → (referenced (Blobs.blob u.platform) result before).0 ≡ ok (some blobs)
      → ((key : Text) → content_at key s.store ≡ content_at key before)
      → (gather u blobs [] s).0 ≡ ok members
      → All (λ one. length one.1 < 2 ^ 64) members
      → (unpack u.platform.sha256 (pack members) ≡ ok (sorted_items members))
        × (proven u.platform.sha256
              (record { bundle = bundle_name u.platform.sha256 blobs; result = result.raw })
              result
              (dict_from (sorted_items members) [])
            ≡ ok blobs)
  unfolding find
  proven-published result before s {blobs} {members} resolved same gathered short =
      let (is_of, among) =
        gather-IsOf u (hashes_of blobs) blobs [] s before same (all_among_refl (hashes_of blobs))
          (λ key. inl refl) (unfold all_among keys_of in refl) gathered in
      let (keyed, right) = gather-IsRight blobs [] s tt tt gathered in
      let filed = (gather-IsFiled u [] blobs [] s tt gathered).1 in
      let sorted = dict_from (sorted_items members) [] in
      let found = λ (key : Text). find-dict_sorted key members keyed in
      (
        unpack-pack u.platform.sha256 members (IsRight-IsMember members right short),
        proven-agreeing u result before sorted resolved
            (λ key. elim (is_of key) [
              | inl none_there ↦ inl (found key ∙ none_there)
              | inr there ↦ inr (found key ∙ there)
            ])
            (All-imp (IsFiled u members) (IsFiled u sorted) blobs
              (λ d one. (one.0, found d.hash ∙ one.1, one.2)) filed)
            (all_among-dict_sorted (hashes_of blobs) members among),
      )
