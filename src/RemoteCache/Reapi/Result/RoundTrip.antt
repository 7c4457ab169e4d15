-- ===== src/RemoteCache/Reapi/Result/RoundTrip.antt =====
-- The requests about an action read back as they were written.
use tine.Base.{◌^◌, ◌<◌, ◌≡◌, refl, List, [], ◌∷◌, ◌++◌, length, Option, none, some, arith}
use tine.RemoteCache.Outcome.{ok}
use tine.RemoteCache.Wire.Fields.{blob, Field}
use tine.RemoteCache.Wire.Message.{blobs_of}
use tine.RemoteCache.Wire.Message.Lookup.{under}
use tine.RemoteCache.Wire.ReadBack.{message-Writes, blobs-holding}
use tine.RemoteCache.Wire.RoundTrip.{Writes, Writes-nil, Writes-append, Writes-submessage}
use tine.RemoteCache.Reapi.Digest
use tine.RemoteCache.Reapi.Digest.{Digest}
use tine.RemoteCache.Reapi.Digest.RoundTrip.{Nests, optional_fields, Writes-optional, child_digest}
use tine.RemoteCache.Reapi.Result.{
  ActionResult, parse, GetActionResultRequest, parse_get, get_to_bytes, UpdateActionResultRequest,
  parse_update, update_to_bytes, result_to_bytes, last_result,
}

-- Asking for a result carries the action's digest over, or its absence.
pub parse_get-get_to_bytes :
    (r : GetActionResultRequest) → Nests r.action_digest → parse_get (get_to_bytes r) ≡ ok r
unfolding parse_get get_to_bytes
parse_get-get_to_bytes r h =
    let bs = Digest.optional_to_bytes 2 r.action_digest in
    let fs = optional_fields 2 r.action_digest in
    let (c, e, k) = child_digest bs fs 2 r.action_digest refl h in
    rw (message-Writes (Writes-optional 2 r.action_digest (omega arith) h), e) (rw k)

-- A result to publish is one that its own bytes parse to, and short enough to be nested.
abbrev pub IsPublishable : Option ActionResult → Type 0
IsPublishable none = Unit
IsPublishable (some r) = (parse r.raw ≡ ok r) × (length r.raw < 2 ^ 70)

abbrev result_fields : Option ActionResult → List Field
result_fields none = []
result_fields (some r) = (3, blob r.raw) ∷ []

Writes-result :
    (r : Option ActionResult) → IsPublishable r → Writes (result_to_bytes r) (result_fields r)
Writes-result none h = Writes-nil
Writes-result (some r) h = Writes-submessage 3 r.raw (omega arith) h.1

under_two :
    (d : Option Digest) (r : Option ActionResult)
    → blobs_of (under 2 (optional_fields 2 d ++ result_fields r))
      ≡ blobs_of (under 2 (optional_fields 2 d))
unfolding blobs_of
under_two none none = refl
under_two none (some r) = refl
under_two (some d) none = refl
under_two (some d) (some r) = refl

under_three :
    (d : Option Digest) (r : Option ActionResult)
    → blobs_of (under 3 (optional_fields 2 d ++ result_fields r))
      ≡ blobs_of (under 3 (result_fields r))
unfolding blobs_of
under_three none r = refl
under_three (some d) r = refl

last_result-result_fields :
    (r : Option ActionResult)
    → IsPublishable r
    → last_result (blobs_of (under 3 (result_fields r))) ≡ ok r
unfolding blobs_of
last_result-result_fields none h = refl
last_result-result_fields (some r) h = rw h.0

-- Publishing a result carries the digest and the result's own bytes over, each of them or its
-- absence: an empty result is still a result.
pub parse_update-update_to_bytes :
    (r : UpdateActionResultRequest)
    → Nests r.action_digest
    → IsPublishable r.action_result
    → parse_update (update_to_bytes r) ≡ ok r
unfolding parse_update update_to_bytes
parse_update-update_to_bytes r h p =
    let d = r.action_digest in
    let bs = update_to_bytes r in
    let fs : List Field = optional_fields 2 d ++ result_fields r.action_result in
    let w = Writes-append (Writes-optional 2 d (omega arith) h) (Writes-result r.action_result p) in
    let (c, e, k) = child_digest bs fs 2 d (under_two d r.action_result) h in
    rw (message-Writes w, e, blobs-holding bs fs 3, under_three d r.action_result)
      (rw (k, last_result-result_fields r.action_result p))
