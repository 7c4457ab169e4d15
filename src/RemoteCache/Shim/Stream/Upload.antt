-- ===== src/RemoteCache/Shim/Stream/Upload.antt =====
-- The messages of an upload that `write` takes up, and what they carry together.
use tine.Base.{
  ◌≡◌, refl, ap, ◌∙◌, ◌⊎◌, inl, inr, subst, Bool, true, false, Option, none, some, List, [], ◌∷◌,
  ◌++◌, Bytes, ◌==◌, arith, Bool-cases, append-nil, append_assoc, sym,
}
use tine.RemoteCache.Outcome.{Result, ok, err, is_value_error}
use tine.RemoteCache.Reapi.Digest.{Digest}
use tine.RemoteCache.Reapi.Stream.{WriteRequest}
use tine.RemoteCache.Shim.Stream.{
  resource_digest, begin_with, opened, opened_as, written, write_all,
}

-- The contents one behind the other, up to the first message that finishes, or of all.
pub data IsUpload : List WriteRequest → Bytes → Type 0 where
  ended : IsUpload [] []
  finished :
      {request : WriteRequest} {requests : List WriteRequest}
      → request.finish_write ≡ true
      → IsUpload (request ∷ requests) request.content
  went_on :
      {request : WriteRequest} {requests : List WriteRequest} {rest : Bytes}
      → request.finish_write ≡ false
      → IsUpload requests rest
      → IsUpload (request ∷ requests) (request.content ++ rest)

-- One round of the loop of `write`: the bytes so far with the digest, or what the next rounds make.
pub written-eq-ok :
    (all : Bytes) (last : Bool) (open_for : Result Digest) (rest : Result (Option Digest × Bytes))
    {got : Option Digest × Bytes}
    → written all last open_for rest ≡ ok got
    → (digest : Digest) × (open_for ≡ ok digest)
      × (((last ≡ true) × ((some digest, all) ≡ got)) ⊎ ((last ≡ false) × (rest ≡ ok got)))
written-eq-ok all last (err e) rest h = absurd (cc)
written-eq-ok all true (ok digest) rest h = (digest, refl, inl (refl, cc))
written-eq-ok all false (ok digest) rest h = (digest, refl, inr (refl, h))

-- Once a digest is known, it stays, and what the messages carry is added to the bytes so far.
pub write_all-IsUpload :
    (digest : Digest) (before : Bytes) (requests : List WriteRequest) {d : Digest} {all : Bytes}
    → write_all (some digest) before requests ≡ ok (some d, all)
    → (rest : Bytes) × (all ≡ before ++ rest) × IsUpload requests rest × (digest ≡ d)
unfolding write_all
write_all-IsUpload digest before [] {all = all} h =
    let same : before ≡ all = cc in ([], rw append-nil (sym same), ended, cc)
write_all-IsUpload digest before (request ∷ requests) {all = all} h =
    let more = before ++ request.content in
    let (same, e, next) =
      written-eq-ok more request.finish_write (ok digest) (write_all (some digest) more requests)
        h in
    elim next [
      | inl (f, k) ↦ let same : more ≡ all = cc in (request.content, sym same, finished f, cc)
      | inr (f, k) ↦
          let (rest, joins, carried, one) = write_all-IsUpload digest more requests k in
          (
            request.content ++ rest,
            joins ∙ append_assoc before request.content rest,
            went_on f carried,
            cc,
          )
    ]

-- An upload of the digest that its first message names, from the start.
pub record IsOpened (requests : List WriteRequest) (digest : Digest) (all : Bytes) : Type 0 where
  pub first : WriteRequest
  pub others : List WriteRequest
  pub begins : requests ≡ first ∷ others
  pub names : resource_digest first.resource_name ≡ ok digest
  pub at_start : first.write_offset ≡ 0
  pub carried : IsUpload requests all

begin_with-eq-ok :
    (request : WriteRequest) (named : Result Digest) {digest : Digest}
    → begin_with request named ≡ ok digest
    → (named ≡ ok digest) × (request.write_offset ≡ 0)
begin_with-eq-ok request (err e) h = elim (Bool-cases (is_value_error e)) [
  | inl v ↦ absurd (let h' = rw v at h in cc)
  | inr v ↦ absurd (let h' = rw v at h in cc)
]
begin_with-eq-ok request (ok digest) h = elim (Bool-cases (request.write_offset == 0)) [
  | inl v ↦ let h' = rw v at h in (cc, ground (arith, v))
  | inr v ↦ absurd (let h' = rw v at h in cc)
]

pub write_all-IsOpened :
    (requests : List WriteRequest) {digest : Digest} {all : Bytes}
    → write_all none [] requests ≡ ok (some digest, all)
    → IsOpened requests digest all
unfolding write_all
write_all-IsOpened [] h = absurd (cc)
write_all-IsOpened (request ∷ requests) {digest} {all} h =
    let open_for = opened request none in
    let rest = write_all (opened_as open_for) request.content requests in
    let (d, e, next) = written-eq-ok request.content request.finish_write open_for rest h in
    let (names, at_start) = begin_with-eq-ok request (resource_digest request.resource_name) e in
    elim next [
      | inl (f, k) ↦
          let same : d ≡ digest = cc in
          let whole : request.content ≡ all = cc in
          record {
            first = request;
            others = requests;
            begins = refl;
            names = names ∙ ap (λ (d : Digest). ok d) same;
            at_start = at_start;
            carried = subst (IsUpload (request ∷ requests)) whole (finished f);
          }
      | inr (f, k) ↦
          let (more, joins, carried, same) =
            write_all-IsUpload d request.content requests (rw e at k) in
          record {
            first = request;
            others = requests;
            begins = refl;
            names = names ∙ ap (λ (d : Digest). ok d) same;
            at_start = at_start;
            carried = subst (IsUpload (request ∷ requests)) (sym joins) (went_on f carried);
          }
    ]

-- What the messages carry, the loop has behind the bytes so far.
write_all-carried :
    (digest : Digest) (before : Bytes) (requests : List WriteRequest) {rest : Bytes}
    → IsUpload requests rest
    → write_all (some digest) before requests ≡ ok (some digest, before ++ rest)
unfolding write_all
write_all-carried digest before [] ended = rw append-nil refl
write_all-carried digest before (request ∷ requests) (finished f) = rw f refl
write_all-carried digest before (request ∷ requests) (went_on {rest = rest} f carried) =
    rw (f, write_all-carried digest (before ++ request.content) requests carried)
      (ap (λ (b : Bytes). ok (some digest, b)) (append_assoc before request.content rest))

-- An upload that starts at zero, of a digest, is taken up whole.
pub write_all-opened :
    (first : WriteRequest) (others : List WriteRequest) {digest : Digest} {all : Bytes}
    → resource_digest first.resource_name ≡ ok digest
    → first.write_offset ≡ 0
    → IsUpload (first ∷ others) all
    → write_all none [] (first ∷ others) ≡ ok (some digest, all)
unfolding write_all
write_all-opened first others {digest} names start carried =
    let from : (first.write_offset == 0) ≡ true = ground (arith, start) in
    rw (names, from) (write_all-carried digest [] (first ∷ others) carried)
