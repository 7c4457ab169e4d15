-- ===== src/RemoteCache/Shim/Publish/Agreement.antt =====
-- Tables that agree with a store: a result that the store resolved, they resolve alike.
use tine.Base.{
  ◌≡◌, refl, sym, ap, subst, ◌∙◌, ◌⊎◌, true, Option, none, some, List, [], ◌∷◌, ◌++◌, Bytes, All,
  All-imp, arith, inl, inr, Bool-cases, same_bytes, same_bytes→eq, same_bytes_refl,
}
use tine.Base.Text.{Text}
use tine.RemoteCache.Outcome.{ok}
use tine.RemoteCache.Exec.{Exec, continue-eq-ok}
use tine.RemoteCache.Reapi.Digest.{Digest}
use tine.RemoteCache.Reapi.Result.{tree_files}
use tine.RemoteCache.Store.Table.{Table, find, upsert, find-upsert_here}
use tine.RemoteCache.Store.State.{Platform, Store}
use tine.RemoteCache.Store.Choose.{among_texts}
use tine.RemoteCache.Store.Blobs
use tine.RemoteCache.Store.Presence.{content_at, blob-content}
use tine.RemoteCache.Shim.Local.{with_files, files_of}
use tine.RemoteCache.Shim.Proven.{keys_of, all_among, lookup_in}
use tine.RemoteCache.Shim.Publish.Order.{find-upsert_other}

-- Names, and the keys of a table that is filed into.
module _ (names : List Text) where
  pub all_among-upsert :
      (key : Text) (blob : Bytes) (t : Table Bytes)
      → among_texts key names ≡ true
      → all_among (keys_of t) names ≡ true
      → all_among (keys_of (upsert key blob (λ _. blob) t)) names ≡ true
  unfolding all_among keys_of upsert
  all_among-upsert key blob [] h k = rw h refl
  all_among-upsert key blob ((one, row) ∷ t) h k = elim (Bool-cases (same_bytes one key)) [
    | inl e ↦ rw e k
    | inr e ↦ rw e (ground (arith, all_among-upsert key blob t))
  ]

all_among-more :
    (xs names : List Text) (one : Text)
    → all_among xs names ≡ true
    → all_among xs (one ∷ names) ≡ true
unfolding all_among among_texts
all_among-more [] names one h = refl
all_among-more (x ∷ xs) names one h = ground (arith, all_among-more xs names one)

pub all_among_refl : (xs : List Text) → all_among xs xs ≡ true
unfolding all_among among_texts
all_among_refl [] = refl
all_among_refl (x ∷ xs) = rw (same_bytes_refl x, all_among-more xs xs x (all_among_refl xs)) refl

pub among_texts-keys_of :
    (key : Text) (t : Table Bytes) {content : Bytes}
    → find key t ≡ some content
    → among_texts key (keys_of t) ≡ true
unfolding among_texts keys_of find
among_texts-keys_of key [] h = absurd (cc)
among_texts-keys_of key ((one, row) ∷ t) h = elim (Bool-cases (same_bytes one key)) [
  | inl e ↦ rw e refl
  | inr e ↦ rw e (among_texts-keys_of key t (rw e at h))
]

-- A digest under whose hash a table has what the store has.
abbrev pub Agrees : Store → Table Bytes → Digest → Type 0
Agrees s members d = find d.hash members ≡ content_at d.hash s

with_files-eq-ok :
    {S : Type 0} (found : Option Bytes) (digests : List Digest)
    → (next : List Digest → Exec S (Option (List Digest))) (s : S) {blobs : List Digest}
    → (with_files found digests next s).0 ≡ ok (some blobs)
    → (bytes : Bytes) × (files : List Digest) × (found ≡ some bytes)
      × (tree_files bytes ≡ ok files)
      × ((next (digests ++ files) s).0 ≡ ok (some blobs))
with_files-eq-ok none digests next s h = absurd (cc)
with_files-eq-ok (some bytes) digests next s h =
    let (files, e, k) = continue-eq-ok (tree_files bytes) _ s h in (bytes, files, refl, e, k)

pub All-append_left : (P : Digest → Type 0) (xs ys : List Digest) → All P (xs ++ ys) → All P xs
All-append_left P [] ys h = tt
All-append_left P (x ∷ xs) ys h = (h.0, All-append_left P xs ys h.1)

module _ {S : Type 0} (lookup : Digest → Exec S (Option Bytes)) (P : Digest → Type 0) where
  -- What holds of every digest resolved holds of those that it started with.
  pub files_of-keeps :
      (trees digests : List Digest) (s : S) {blobs : List Digest}
      → (files_of lookup trees digests s).0 ≡ ok (some blobs)
      → All P blobs
      → All P digests
  unfolding files_of
  files_of-keeps [] digests s {blobs} h all =
      let same : digests ≡ blobs = cc in subst (All P) (sym same) all
  files_of-keeps (tree ∷ trees) digests s {blobs} h all =
      let (found, e, k) = continue-eq-ok (lookup tree s).0 _ (lookup tree s).1 h in
      let (bytes, files, f, g, j) =
        with_files-eq-ok found digests (files_of lookup trees) (lookup tree s).1 k in
      All-append_left P digests files (files_of-keeps trees (digests ++ files) _ j all)

module _ (p : Platform) where
  -- A result that the store resolved, a table that agrees with it on the trees resolves alike.
  pub files_of-lookup_in :
      (trees digests : List Digest) (s : Store) (members : Table Bytes) {blobs : List Digest}
      → (files_of (Blobs.blob p) trees digests s).0 ≡ ok (some blobs)
      → All (Agrees s members) trees
      → (files_of (lookup_in members) trees digests tt).0 ≡ ok (some blobs)
  unfolding files_of
  files_of-lookup_in [] digests s members h agree = h
  files_of-lookup_in (tree ∷ trees) digests s members h agree =
      let read = Blobs.blob p tree s in
      let (found, e, k) = continue-eq-ok read.0 _ read.1 h in
      let (bytes, files, f, g, j) =
        with_files-eq-ok found digests (files_of (Blobs.blob p) trees) read.1 k in
      let (filed, kept) = blob-content p tree s (e ∙ ap (λ (o : Option Bytes). ok o) f) in
      let others = All-imp _ (Agrees read.1 members) trees (λ d a. a ∙ sym (kept d.hash)) agree.1 in
      rw (agree.0, filed, g) (files_of-lookup_in trees (digests ++ files) read.1 members j others)

-- A table holds nothing under a key but what the store has there.
abbrev pub IsOf : Store → Table Bytes → Type 0
IsOf s members = (key : Text) → (find key members ≡ none) ⊎ (find key members ≡ content_at key s)

pub IsOf-upsert :
    (s : Store) (hash : Text) (blob : Bytes) (members : Table Bytes)
    → content_at hash s ≡ some blob
    → IsOf s members
    → IsOf s (upsert hash blob (λ _. blob) members)
IsOf-upsert s hash blob members filed is_of key = elim (Bool-cases (same_bytes hash key)) [
  | inl e ↦
      let same = same_bytes→eq hash key e in
      inr (
        ap (λ (k : Text). find k (upsert hash blob (λ _. blob) members)) (sym same)
        ∙ find-upsert_here hash blob members
        ∙ sym filed
        ∙ ap (λ (k : Text). content_at k s) same)
  | inr e ↦
      let kept = find-upsert_other hash key blob members e in
      elim (is_of key) [ inl none_there ↦ inl (kept ∙ none_there) | inr there ↦ inr (kept ∙ there) ]
]
