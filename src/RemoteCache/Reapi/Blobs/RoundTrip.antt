-- ===== src/RemoteCache/Reapi/Blobs/RoundTrip.antt =====
-- The batch messages read back as they were written, up to what each of them does not carry.
use tine.Base.{
  ℕ, ◌^◌, ◌<◌, ◌≡◌, refl, List, [], ◌∷◌, ◌++◌, Bytes, length, last_or, All, Option, none, some,
  false, All-imp, ◌==◌, arith,
}
use tine.RemoteCache.Outcome.{ok, Result}
use tine.RemoteCache.Wire.Fields.{blob, Field}
use tine.RemoteCache.Wire.Message.{Message, blobs_of}
use tine.RemoteCache.Wire.Message.Lookup.{under, holding}
use tine.RemoteCache.Wire.ReadBack.{
  message-Writes, last_blob-holding, nested_fields, bodies, normed, ReadsBack, children-nested,
}
use tine.RemoteCache.Wire.RoundTrip.{
  Writes, Writes-nil, Writes-append, Writes-blob, Writes-submessage, blob_fields, IsNumber,
}
use tine.RemoteCache.Reapi.Digest.{Digest, status_to_bytes}
use tine.RemoteCache.Reapi.Digest.RoundTrip.{
  Nests, optional_fields, Writes-optional, child_digest, IsWritableStatus,
  parse_status-status_to_bytes,
}
use tine.RemoteCache.Reapi.Blobs.{
  Blob, status_or_ok, update_body, updated_body, read_body, parse_update_body, parse_updated_body,
  parse_read_body, batch_to_bytes, parse_batch, parse_batch_update, batch_update_to_bytes,
  parse_batch_updated, batch_updated_to_bytes, parse_batch_read, batch_read_to_bytes,
}

-- What a blob must be to go into a batch: each part of it is short enough to be nested.
pub record IsBatchable (one : Blob) : Type 0 where
  pub nests : Nests one.digest
  pub content_short : length one.content < 2 ^ 70
  pub status_writable : IsWritableStatus (status_or_ok one.status)
  pub status_short : length (status_to_bytes (status_or_ok one.status)) < 2 ^ 70
  pub update_short : length (update_body one) < 2 ^ 70
  pub updated_short : length (updated_body one) < 2 ^ 70
  pub read_short : length (read_body one) < 2 ^ 70

abbrev status_bytes : Blob → Bytes
status_bytes one = status_to_bytes (status_or_ok one.status)

-- What each message keeps of a blob.
abbrev pub sent : Blob → Blob
sent one = record { digest = one.digest; content = one.content; status = none }

abbrev pub answered : Blob → Blob
answered one = record { digest = one.digest; content = []; status = some (status_or_ok one.status) }

abbrev pub served : Blob → Blob
served one = record {
  digest = one.digest;
  content = one.content;
  status = some (status_or_ok one.status);
}

-- The digest is under 1, and nothing else is.
under_digest :
    (d : Option Digest) (fs : List Field)
    → blobs_of (under 1 fs) ≡ []
    → blobs_of (under 1 (optional_fields 1 d ++ fs)) ≡ blobs_of (under 1 (optional_fields 1 d))
unfolding blobs_of
under_digest none fs h = h
under_digest (some d) fs h = rw h

under_others :
    (n : ℕ) (d : Option Digest) (fs : List Field)
    → (1 == n) ≡ false
    → under n (optional_fields 1 d ++ fs) ≡ under n fs
under_others n none fs h = refl
under_others n (some d) fs h = rw h

content_at_two : (c : Bytes) → last_or [] (blobs_of (under 2 (blob_fields 2 c))) ≡ c
unfolding blobs_of
content_at_two c = ground arith

none_at_one : (c : Bytes) → blobs_of (under 1 (blob_fields 2 c)) ≡ []
unfolding blobs_of
none_at_one c = ground arith

content_of_three :
    (c s : Bytes) → last_or [] (blobs_of (under 2 (blob_fields 2 c ++ (3, blob s) ∷ []))) ≡ c
unfolding blobs_of
content_of_three c s = ground arith

status_of_three :
    (c s : Bytes) → last_or [] (blobs_of (under 3 (blob_fields 2 c ++ (3, blob s) ∷ []))) ≡ s
unfolding blobs_of
status_of_three c s = ground arith

none_of_three : (c s : Bytes) → blobs_of (under 1 (blob_fields 2 c ++ (3, blob s) ∷ [])) ≡ []
unfolding blobs_of
none_of_three c s = ground arith

update-ReadsBack : (one : Blob) → IsBatchable one → ReadsBack update_body parse_update_body sent one
unfolding update_body parse_update_body
update-ReadsBack one h =
    let tail : List Field = blob_fields 2 one.content in
    let fs = optional_fields 1 one.digest ++ tail in
    let bs = update_body one in
    let w =
      Writes-append (Writes-optional 1 one.digest (omega arith) h.nests)
        (Writes-blob 2 one.content (omega arith) h.content_short) in
    let (c, e, k) =
      child_digest bs fs 1 one.digest (under_digest one.digest tail (none_at_one one.content))
        h.nests in
    (
      holding bs fs,
      message-Writes w,
      rw (e, k, last_blob-holding bs fs 2, under_others 2 one.digest tail refl)
          (rw (content_at_two one.content)),
    )

updated-ReadsBack :
    (one : Blob) → IsBatchable one → ReadsBack updated_body parse_updated_body answered one
unfolding updated_body parse_updated_body blobs_of
updated-ReadsBack one h =
    let tail : List Field = (2, blob (status_bytes one)) ∷ [] in
    let fs = optional_fields 1 one.digest ++ tail in
    let bs = updated_body one in
    let w =
      Writes-append (Writes-optional 1 one.digest (omega arith) h.nests)
        (Writes-submessage 2 (status_bytes one) (omega arith) h.status_short) in
    let (c, e, k) = child_digest bs fs 1 one.digest (under_digest one.digest tail refl) h.nests in
    (
      holding bs fs,
      message-Writes w,
      rw (e, k, last_blob-holding bs fs 2, under_others 2 one.digest tail refl)
          (rw (parse_status-status_to_bytes (status_or_ok one.status) h.status_writable)),
    )

read-ReadsBack : (one : Blob) → IsBatchable one → ReadsBack read_body parse_read_body served one
unfolding read_body parse_read_body
read-ReadsBack one h =
    let s = status_bytes one in
    let tail : List Field = blob_fields 2 one.content ++ (3, blob s) ∷ [] in
    let fs = optional_fields 1 one.digest ++ tail in
    let bs = read_body one in
    let w = Writes-append (Writes-optional 1 one.digest (omega arith) h.nests) (
      Writes-append (Writes-blob 2 one.content (omega arith) h.content_short)
        (Writes-submessage 3 s (omega arith) h.status_short)) in
    let (c, e, k) =
      child_digest bs fs 1 one.digest (under_digest one.digest tail (none_of_three one.content s))
        h.nests in
    (
      holding bs fs,
      message-Writes w,
      rw (
        e,
        k,
        last_blob-holding bs fs 3,
        under_others 3 one.digest tail refl,
        status_of_three one.content s,
        parse_status-status_to_bytes (status_or_ok one.status) h.status_writable,
        last_blob-holding bs fs 2,
        under_others 2 one.digest tail refl,
        content_of_three one.content s,
      ),
    )

module _ (body : Blob → Bytes) (read : Message → Result Blob) (norm : Blob → Blob) where
  Writes-batch :
      (n : ℕ) (xs : List Blob)
      → IsNumber n
      → All (λ x. length (body x) < 2 ^ 70) xs
      → Writes (batch_to_bytes n body xs) (nested_fields n (bodies body read norm xs))
  unfolding batch_to_bytes
  Writes-batch n [] fits h = Writes-nil
  Writes-batch n (x ∷ xs) fits h =
      Writes-append (Writes-submessage n (body x) fits h.0) (Writes-batch n xs fits h.1)

  parse_batch_lem :
      (n : ℕ) (xs : List Blob)
      → IsNumber n
      → ((one : Blob) → IsBatchable one → length (body one) < 2 ^ 70)
      → ((one : Blob) → IsBatchable one → ReadsBack body read norm one)
      → All IsBatchable xs
      → parse_batch n read (batch_to_bytes n body xs) ≡ ok (normed body read norm xs)
  unfolding parse_batch
  parse_batch_lem n xs fits short back h =
      rw (message-Writes (Writes-batch n xs fits (All-imp IsBatchable _ xs short h)))
        (children-nested body read norm _ n xs (All-imp IsBatchable _ xs back h))

abbrev pub sent_all : List Blob → List Blob
sent_all = normed update_body parse_update_body sent

abbrev pub answered_all : List Blob → List Blob
answered_all = normed updated_body parse_updated_body answered

abbrev pub served_all : List Blob → List Blob
served_all = normed read_body parse_read_body served

-- The three batch messages read back as written, in order, but for what each leaves out: an upload
-- carries no status, its answer no content, and a missing status is written as OK.
pub batches_round_trip :
    (xs : List Blob)
    → All IsBatchable xs
    → (parse_batch_update (batch_update_to_bytes (record { blobs = xs }))
        ≡ ok (record { blobs = sent_all xs }))
      × (parse_batch_updated (batch_updated_to_bytes (record { blobs = xs }))
          ≡ ok (record { blobs = answered_all xs }))
      × (parse_batch_read (batch_read_to_bytes (record { blobs = xs }))
          ≡ ok (record { blobs = served_all xs }))
unfolding parse_batch_update batch_update_to_bytes parse_batch_updated batch_updated_to_bytes
    parse_batch_read batch_read_to_bytes
batches_round_trip xs h =
    let updates =
      parse_batch_lem update_body parse_update_body sent 2 xs (omega arith)
        (λ one b. b.update_short) update-ReadsBack h in
    let answers =
      parse_batch_lem updated_body parse_updated_body answered 1 xs (omega arith)
        (λ one b. b.updated_short) updated-ReadsBack h in
    let reads =
      parse_batch_lem read_body parse_read_body served 1 xs (omega arith) (λ one b. b.read_short)
        read-ReadsBack h in
    (rw updates, rw answers, rw reads)
