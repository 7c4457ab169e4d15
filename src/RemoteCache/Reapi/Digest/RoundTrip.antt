-- ===== src/RemoteCache/Reapi/Digest/RoundTrip.antt =====
-- Digests and statuses read back as they were written.
use tine.Base.{
  ℕ, ◌^◌, ◌<◌, ◌≡◌, refl, ◌∙◌, ap, List, [], ◌∷◌, ◌++◌, Bytes, length, last_or, All, Option, none,
  some, arith,
}
use tine.Base.Text.{encode}
use tine.RemoteCache.Outcome.{ok, Result}
use tine.RemoteCache.Wire.Fields.{blob, Field}
use tine.RemoteCache.Wire.Message
use tine.RemoteCache.Wire.Message.{Message, message, ints_of, blobs_of}
use tine.RemoteCache.Wire.Message.Lookup.{under, holding}
use tine.RemoteCache.Wire.ReadBack.{
  message-Writes, integer-holding, text-holding, text_found-encode, IsWritable, Writes-text,
  child-holding, child-holding-none, nested_fields, bodies, normed, ReadsBack, children-nested,
}
use tine.RemoteCache.Wire.RoundTrip.{
  Writes, Writes-nil, Writes-submessage, IsNumber, Writes-append, Writes-varint, varint_fields,
  blob_fields,
}
use tine.RemoteCache.Reapi.Digest
use tine.RemoteCache.Reapi.Digest.{Digest, Status, digest_in, status_to_bytes, parse_status}

pub record IsSendable (d : Digest) : Type 0 where
  pub name : IsWritable d.hash
  pub small : d.size_bytes < 2 ^ 70

pub digest_fields : Digest → List Field
digest_fields d = blob_fields 1 (encode d.hash) ++ varint_fields 2 d.size_bytes

pub Writes-digest : {d : Digest} → IsSendable d → Writes (Digest.to_bytes d) (digest_fields d)
unfolding Digest.to_bytes digest_fields
Writes-digest {d} s =
    Writes-append (Writes-text 1 d.hash (omega arith) s.name)
      (Writes-varint 2 d.size_bytes (omega arith) s.small)

digest_text :
    (e : Bytes) (n : ℕ) → last_or [] (blobs_of (under 1 (blob_fields 1 e ++ varint_fields 2 n))) ≡ e
unfolding blobs_of
digest_text e n = ground arith

digest_size :
    (e : Bytes) (n : ℕ) → last_or 0 (ints_of (under 2 (blob_fields 1 e ++ varint_fields 2 n))) ≡ n
unfolding ints_of
digest_size e n = ground arith

pub digest_in-holding :
    {d : Digest} → IsSendable d → digest_in (holding (Digest.to_bytes d) (digest_fields d)) ≡ d
unfolding digest_fields
digest_in-holding {d} s =
    let bs = Digest.to_bytes d in
    rw (
      text-holding bs _ 1,
      digest_text (encode d.hash) d.size_bytes,
      text_found-encode d.hash s.name.scalars,
      integer-holding bs _ 2,
      digest_size (encode d.hash) d.size_bytes,
    )

-- A digest parses back from its bytes.
pub parse-to_bytes : (d : Digest) → IsSendable d → Digest.parse (Digest.to_bytes d) ≡ ok d
unfolding Digest.parse
parse-to_bytes d s = rw (message-Writes (Writes-digest s)) (ap ok (digest_in-holding s))

-- The bytes of a digest that can be sent are few enough to be nested.
pub record IsNestable (d : Digest) : Type 0 where
  pub sendable : IsSendable d
  pub short : length (Digest.to_bytes d) < 2 ^ 70

abbrev pub AllNestable : List Digest → Type 0
AllNestable = All IsNestable

abbrev pub Nests : Option Digest → Type 0
Nests none = Unit
Nests (some d) = IsNestable d

abbrev pub optional_fields : ℕ → Option Digest → List Field
optional_fields n none = []
optional_fields n (some d) = (n, blob (Digest.to_bytes d)) ∷ []

pub Writes-optional :
    (n : ℕ) (d : Option Digest)
    → IsNumber n
    → Nests d
    → Writes (Digest.optional_to_bytes n d) (optional_fields n d)
unfolding Digest.optional_to_bytes
Writes-optional n none fits h = Writes-nil
Writes-optional n (some d) fits h = Writes-submessage n (Digest.to_bytes d) fits h.short

-- An optional digest, read from the one message that carries it, or from none.
pub child_digest :
    (bs : Bytes) (fs : List Field) (number : ℕ) (d : Option Digest)
    → blobs_of (under number fs) ≡ blobs_of (under number (optional_fields number d))
    → Nests d
    → (one : Option Message) × (Message.child (holding bs fs) number ≡ ok one) × (Digest.of one ≡ d)
unfolding Digest.of blobs_of
child_digest bs fs number none h n = (none, child-holding-none bs fs number h, refl)
child_digest bs fs number (some d) h n =
    let found : blobs_of (under number fs) ≡ Digest.to_bytes d ∷ [] = h ∙ ground arith in
    (
      some (holding (Digest.to_bytes d) (digest_fields d)),
      child-holding bs _ fs number found (message-Writes (Writes-digest n.sendable)),
      ap (λ (one : Digest). some one) (digest_in-holding n.sendable),
    )

abbrev parse_child : Message → Result Digest
parse_child one = Digest.parse one.bytes

abbrev same : Digest → Digest
same d = d

abbrev digest_bodies : List Digest → List Bytes
digest_bodies = bodies Digest.to_bytes parse_child same

Writes-repeated :
    (n : ℕ) (ds : List Digest)
    → IsNumber n
    → AllNestable ds
    → Writes (Digest.repeated_to_bytes n ds) (nested_fields n (digest_bodies ds))
unfolding Digest.repeated_to_bytes
Writes-repeated n [] fits h = Writes-nil
Writes-repeated n (d ∷ ds) fits h =
    Writes-append (Writes-submessage n (Digest.to_bytes d) fits h.0.short)
      (Writes-repeated n ds fits h.1)

digests_read_back :
    (ds : List Digest) → AllNestable ds → All (ReadsBack Digest.to_bytes parse_child same) ds
digests_read_back [] h = tt
digests_read_back (d ∷ ds) h = (
  (_, message-Writes (Writes-digest h.0.sendable), parse-to_bytes d h.0.sendable),
  digests_read_back ds h.1,
)

normed-same : (ds : List Digest) → normed Digest.to_bytes parse_child same ds ≡ ds
normed-same [] = refl
normed-same (d ∷ ds) = ap (◌∷◌ d) (normed-same ds)

-- Repeated digests parse back from their bytes, in order.
pub parse_repeated-repeated_to_bytes :
    (n : ℕ) (ds : List Digest)
    → IsNumber n
    → AllNestable ds
    → Digest.parse_repeated n (Digest.repeated_to_bytes n ds) ≡ ok ds
unfolding Digest.parse_repeated
parse_repeated-repeated_to_bytes n ds fits h = rw (message-Writes (Writes-repeated n ds fits h)) (
    children-nested Digest.to_bytes parse_child same _ n ds (digests_read_back ds h)
    ∙ ap ok (normed-same ds))

abbrev pub IsWritableStatus : Status → Type 0
IsWritableStatus s = (s.code < 2 ^ 70) × IsWritable s.reason

abbrev status_fields : Status → List Field
status_fields s = varint_fields 1 s.code ++ blob_fields 2 (encode s.reason)

status_code :
    (n : ℕ) (e : Bytes) → last_or 0 (ints_of (under 1 (varint_fields 1 n ++ blob_fields 2 e))) ≡ n
unfolding ints_of
status_code n e = ground arith

status_reason :
    (n : ℕ) (e : Bytes) → last_or [] (blobs_of (under 2 (varint_fields 1 n ++ blob_fields 2 e))) ≡ e
unfolding blobs_of
status_reason n e = ground arith

-- A status parses back from its bytes.
pub parse_status-status_to_bytes :
    (s : Status) → IsWritableStatus s → parse_status (status_to_bytes s) ≡ ok s
unfolding parse_status status_to_bytes
parse_status-status_to_bytes s h =
    let w =
      Writes-append (Writes-varint 1 s.code (omega arith) h.0)
        (Writes-text 2 s.reason (omega arith) h.1) in
    rw (
      message-Writes w,
      integer-holding _ (status_fields s) 1,
      status_code s.code (encode s.reason),
      text-holding _ (status_fields s) 2,
      status_reason s.code (encode s.reason),
      text_found-encode s.reason h.1.scalars,
    )
