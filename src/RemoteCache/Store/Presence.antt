-- ===== src/RemoteCache/Store/Presence.antt =====
-- What `has_blobs` of remote_cache/store.py answers, and that it changes no file's content.
use tine.Base.{
  ℕ, ◌≡◌, refl, sym, ap, subst, ◌∙◌, Bool, true, Option, none, some, List, [], ◌∷◌, Bytes, length,
  ◌==◌, ==_iff, arith, inl, inr, Bool-cases, same_bytes,
}
use tine.Base.Text.{Text}
use tine.RemoteCache.Outcome.{Result, ok, err}
use tine.RemoteCache.Store.Evict.{forget}
use tine.RemoteCache.Exec.{pure, continue, continue-eq-ok, Exec}
use tine.RemoteCache.Reapi.Digest.{Digest}
use tine.RemoteCache.Store.Table.{Table, find, change}
use tine.RemoteCache.Store.State.{Platform, File, Store, now, path}
use tine.RemoteCache.Store.Blobs.{use_blob, has_blobs, used_if, serve, blob}

abbrev pub content_of : Option File → Option Bytes
content_of none = none
content_of (some file) = some file.content

-- The content filed under a hash.
abbrev pub content_at : Text → Store → Option Bytes
content_at hash s = content_of (find hash s.files)

-- A file of this digest's size is under its hash.
abbrev pub IsHere : Store → Digest → Type 0
IsHere s d =
    (content : Bytes) × (content_at d.hash s ≡ some content) × (length content ≡ d.size_bytes)

content_of-change :
    (key file : Text) (used : ℕ) (t : Table File)
    → content_of (find key (change file (λ (f : File). record f { used = used }) t))
      ≡ content_of (find key t)
unfolding find change
content_of-change key file used [] = refl
content_of-change key file used ((k, f) ∷ t) = elim (Bool-cases (same_bytes k file)) [
  | inl e ↦ elim (Bool-cases (same_bytes k key)) [ inl g ↦ rw (e, g) refl | inr g ↦ rw (e, g) refl ]
  | inr e ↦ elim (Bool-cases (same_bytes k key)) [
    | inl g ↦ rw (e, g) refl
    | inr g ↦ rw (e, g) (content_of-change key file used t)
  ]
]

-- The content under a key does not change in a block whose steps do not change it.
continue-content :
    {A B : Type 0} (key : Text) (r : Result A) (f : A → Exec Store B) (s : Store)
    → ((a : A) → content_at key (f a s).1 ≡ content_at key s)
    → content_at key (continue r f s).1 ≡ content_at key s
continue-content key (ok a) f s keeps = keeps a
continue-content key (err e) f s keeps = refl

module _ (p : Platform) where
  used_if-content :
      (key : Text) (d : Digest) (file : Text) (f : Option File) (s : Store)
      → content_at key (used_if p d file f s).1 ≡ content_at key s
  unfolding now
  used_if-content key d file none s = refl
  used_if-content key d file (some f) s = elim (Bool-cases (length f.content == d.size_bytes)) [
    | inl e ↦ rw e (content_of-change key file (p.time s.readings) s.files)
    | inr e ↦ rw e refl
  ]

  use_blob-content :
      (key : Text) (d : Digest) (s : Store) → content_at key (use_blob p d s).1 ≡ content_at key s
  unfolding use_blob
  use_blob-content key d s =
      continue-content key (path d.hash) _ s
        (λ file. used_if-content key d file (find file s.files) s)

  pub has_blobs-content :
      (key : Text) (ds : List Digest) (s : Store)
      → content_at key (has_blobs p ds s).1 ≡ content_at key s
  unfolding has_blobs
  has_blobs-content key [] s = refl
  has_blobs-content key (d ∷ ds) s =
      let used = use_blob p d s in
      continue-content key used.0 _ used.1 (λ here.
        let others = has_blobs p ds used.1 in
        continue-content key others.0 _ others.1 (λ answers. refl)
        ∙ has_blobs-content key ds used.1)
      ∙ use_blob-content key d s

  path-eq-ok : (hash : Text) {file : Text} → path hash ≡ ok file → hash ≡ file
  unfolding path
  path-eq-ok hash h = ground arith

  used_if-IsHere :
      (d : Digest) (file : Text) (f : Option File) (s : Store)
      → content_of f ≡ content_at d.hash s
      → (used_if p d file f s).0 ≡ ok true
      → IsHere s d
  unfolding now
  used_if-IsHere d file none s at h = absurd (cc)
  used_if-IsHere d file (some f) s at h = elim (Bool-cases (length f.content == d.size_bytes)) [
    | inl e ↦ (f.content, sym at, (==_iff _ _).0 e)
    | inr e ↦ absurd (let h' = rw e at h in cc)
  ]

  use_blob-IsHere : (d : Digest) (s : Store) → (use_blob p d s).0 ≡ ok true → IsHere s d
  unfolding use_blob
  use_blob-IsHere d s h =
      let (file, e, k) = continue-eq-ok (path d.hash) _ s h in
      let same = path-eq-ok d.hash e in
      used_if-IsHere d file (find file s.files) s (ap (λ (t : Text). content_at t s) (sym same)) k

  -- Each answer that is true is of a blob that is here.
  abbrev pub Told : Store → List Digest → List Bool → Type 0
  Told s [] [] = Unit
  Told s (d ∷ ds) (a ∷ answers) = (a ≡ true → IsHere s d) × Told s ds answers
  Told s ds answers = ⊥

  pub IsHere-content :
      (s s' : Store) (d : Digest)
      → content_at d.hash s' ≡ content_at d.hash s
      → IsHere s' d
      → IsHere s d
  IsHere-content s s' d same h = (h.0, sym same ∙ h.1, h.2)

  Told-content :
      (s s' : Store) (ds : List Digest) (answers : List Bool)
      → ((key : Text) → content_at key s' ≡ content_at key s)
      → Told s' ds answers
      → Told s ds answers
  Told-content s s' [] [] same h = tt
  Told-content s s' [] (a ∷ answers) same h = h
  Told-content s s' (d ∷ ds) [] same h = h
  Told-content s s' (d ∷ ds) (a ∷ answers) same h =
      (λ e. IsHere-content s s' d (same d.hash) (h.0 e), Told-content s s' ds answers same h.1)

  -- Of each digest `has_blobs` tells the truth.
  pub has_blobs-Told :
      (ds : List Digest) (s : Store) {answers : List Bool}
      → (has_blobs p ds s).0 ≡ ok answers
      → Told s ds answers
  unfolding has_blobs
  has_blobs-Told [] s {answers} h =
      let same : ◌≡◌ {A = List Bool} [] answers = cc in subst (Told s []) same tt
  has_blobs-Told (d ∷ ds) s {answers} h =
      let used = use_blob p d s in
      let (a, e, k) = continue-eq-ok used.0 _ used.1 h in
      let others = has_blobs p ds used.1 in
      let (more, f, j) = continue-eq-ok others.0 _ others.1 k in
      let same : (a ∷ more) ≡ answers = cc in
      subst (Told s (d ∷ ds)) same (
        λ t. use_blob-IsHere d s (e ∙ ap (λ (b : Bool). ok b) t),
        Told-content s used.1 ds more (λ key. use_blob-content key d s)
            (has_blobs-Told ds used.1 f),
      )

  -- What `blob` returns is the content filed, and it changes no content then.
  serve-content :
      (d : Digest) (file : Text) (f : Option File) (s : Store) {content : Bytes}
      → (serve p d file f s).0 ≡ ok (some content)
      → (content_of f ≡ some content)
        × ((key : Text) → content_at key (serve p d file f s).1 ≡ content_at key s)
  unfolding now
  serve-content d file none s h = absurd (cc)
  serve-content d file (some f) s h = elim (Bool-cases (same_bytes (p.sha256 f.content) d.hash)) [
    | inl e ↦
        let h' = rw e at h in
        (cc, λ key. rw e (content_of-change key file (p.time s.readings) s.files))
    | inr e ↦ absurd (
        let h' = rw e at h in
        let dropped = forget p (d.hash ∷ []) s in
        let (nothing, g, k) = continue-eq-ok dropped.0 (λ nothing. pure none) dropped.1 h' in cc)
  ]

  pub blob-content :
      (d : Digest) (s : Store) {content : Bytes}
      → (blob p d s).0 ≡ ok (some content)
      → (content_at d.hash s ≡ some content)
        × ((key : Text) → content_at key (blob p d s).1 ≡ content_at key s)
  unfolding blob
  blob-content d s h =
      let (file, e, k) = continue-eq-ok (path d.hash) _ s h in
      let same = path-eq-ok d.hash e in
      let (filed, kept) = serve-content d file (find file s.files) s k in
      (ap (λ (t : Text). content_at t s) same ∙ filed, λ key. rw e (kept key))
