-- ===== src/RemoteCache/Shim/Proven.antt =====
-- `_proven` of remote_cache/shim.py: a bundle is exactly what the result names, under its name.
use tine.Base.{
  ◌≡◌, refl, ap, subst, ◌∙◌, All, inl, inr, Bool-cases, Bool, true, not, ◌&&◌, Option, none, some,
  List, [], ◌∷◌, Bytes, same_bytes, same_bytes→eq, arith, if◌then◌else◌,
}
use tine.Base.Text.{Text}
use tine.RemoteCache.Outcome.{
  Result, ok, err, ◌>>=◌, >>=-eq-ok, then_raise-eq-ok, foreign_members, wrong_members, wrong_bundle,
}
use tine.RemoteCache.Exec.{Exec, pure}
use tine.RemoteCache.Bundle.Name.{bundle_name}
use tine.RemoteCache.Reapi.Digest.{Digest}
use tine.RemoteCache.Reapi.Result.{ActionResult}
use tine.RemoteCache.Store.Table.{Table, find}
use tine.RemoteCache.Store.Choose.{among_texts}
use tine.RemoteCache.Shim.Pointer.{Pointer}
use tine.RemoteCache.Shim.Local.{referenced}

-- {digest.hash for digest in digests}, and the keys of a `dict`
unfoldable pub hashes_of : List Digest → List Text
hashes_of [] = []
hashes_of (d ∷ ds) = d.hash ∷ hashes_of ds

unfoldable pub keys_of : {A : Type 0} → Table A → List Text
keys_of [] = []
keys_of ((key, a) ∷ t) = key ∷ keys_of t

unfoldable pub all_among : List Text → List Text → Bool
all_among [] names = true
all_among (one ∷ others) names = among_texts one names && all_among others names

-- `==` of two sets
unfoldable pub same_set : List Text → List Text → Bool
unfolding all_among
same_set xs ys = all_among xs ys && all_among ys xs

abbrev pub exactly :
    (Bytes → Text) → Text → Table Bytes → Option (List Digest) → Result (List Digest)
exactly sha256 bundle members none = err foreign_members
exactly sha256 bundle members (some blobs) =
    if not (same_set (hashes_of blobs) (keys_of members))
    then err wrong_members
    else if not (same_bytes (bundle_name sha256 blobs) bundle)
    then err wrong_bundle
    else ok blobs

-- `members.get(digest.hash)`, as the lookup of `referenced`.
abbrev pub lookup_in : Table Bytes → Digest → Exec (Unit {0}) (Option Bytes)
lookup_in members digest = pure (find digest.hash members)

-- `_proven`
unfoldable pub proven : (Bytes → Text) → Pointer → ActionResult → Table Bytes → Result (List Digest)
proven sha256 pointer result members = do
  blobs ← (referenced (lookup_in members) result tt).0
  exactly sha256 pointer.bundle members blobs

among_texts-hashes_of :
    (name : Text) (members : Table Bytes)
    → among_texts name (keys_of members) ≡ true
    → (content : Bytes) × (find name members ≡ some content)
unfolding among_texts keys_of find
among_texts-hashes_of name [] h = absurd (cc)
among_texts-hashes_of name ((key, blob) ∷ t) h = elim (Bool-cases (same_bytes key name)) [
  | inl e ↦ (blob, rw e refl)
  | inr e ↦ let (content, f) = among_texts-hashes_of name t (rw e at h) in (content, rw e f)
]

-- A member of this hash is among the members.
abbrev pub IsCarried : Table Bytes → Digest → Type 0
IsCarried members d = (content : Bytes) × (find d.hash members ≡ some content)

all_among-IsCarried :
    (ds : List Digest) (members : Table Bytes)
    → all_among (hashes_of ds) (keys_of members) ≡ true
    → All (IsCarried members) ds
unfolding all_among hashes_of
all_among-IsCarried [] members h = tt
all_among-IsCarried (d ∷ ds) members h = (
  among_texts-hashes_of d.hash members (ground arith),
  all_among-IsCarried ds members (ground arith),
)

all_among-All :
    (xs names : List Text) → all_among xs names ≡ true → All (λ x. among_texts x names ≡ true) xs
unfolding all_among
all_among-All [] names h = tt
all_among-All (x ∷ xs) names h = (ground arith, all_among-All xs names (ground arith))

-- The bundle carries each blob, and every member is one; the blobs make the bundle's name.
pub record IsExactly (sha256 : Bytes → Text) (bundle : Text) (members : Table Bytes)
    (blobs : List Digest) : Type 0 where
  pub lacks_none : All (IsCarried members) blobs
  pub nothing_else : All (λ name. among_texts name (hashes_of blobs) ≡ true) (keys_of members)
  pub name : bundle_name sha256 blobs ≡ bundle

exactly-IsExactly :
    (sha256 : Bytes → Text) (bundle : Text) (members : Table Bytes) (found : Option (List Digest))
    → {blobs : List Digest} → exactly sha256 bundle members found ≡ ok blobs
    → (found ≡ some blobs) × IsExactly sha256 bundle members blobs
unfolding same_set
exactly-IsExactly sha256 bundle members none h = absurd (cc)
exactly-IsExactly sha256 bundle members (some ds) {blobs} h =
    let (a, h1) = then_raise-eq-ok _ (not (same_set (hashes_of ds) (keys_of members))) _ h in
    let (b, h2) = then_raise-eq-ok _ (not (same_bytes (bundle_name sha256 ds) bundle)) _ h1 in
    let same : ds ≡ blobs = cc in
    (
      ap (λ (l : List Digest). some l) same,
      subst (λ (l : List Digest). IsExactly sha256 bundle members l) same
          (record {
            lacks_none = all_among-IsCarried ds members (ground arith);
            nothing_else = all_among-All (keys_of members) (hashes_of ds) (ground arith);
            name = same_bytes→eq _ _ (ground arith);
          }),
    )

-- Where `_proven` returns, the blobs are those that the result names when it is resolved out of the
-- bundle; the bundle carries each of them and nothing else; and they make the bundle's name.
pub proven-eq-ok :
    (sha256 : Bytes → Text) (pointer : Pointer) (result : ActionResult) (members : Table Bytes)
    → {blobs : List Digest} → proven sha256 pointer result members ≡ ok blobs
    → ((referenced (lookup_in members) result tt).0 ≡ ok (some blobs))
      × IsExactly sha256 pointer.bundle members blobs
unfolding proven
proven-eq-ok sha256 pointer result members h =
    let (found, e, k) = >>=-eq-ok (referenced (lookup_in members) result tt).0 _ h in
    let (f, exact) = exactly-IsExactly sha256 pointer.bundle members found k in
    (e ∙ ap (λ (o : Option (List Digest)). ok o) f, exact)
