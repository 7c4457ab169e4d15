-- ===== src/RemoteCache/Tests/Reapi.antt =====
-- remote_cache/reapi.py: messages with short names in them.
use tine.RemoteCache.Wire.Message.{child}
use tine.RemoteCache.Reapi.Result.{digests_under}
use tine.RemoteCache.Wire.Message.{children}
use tine.RemoteCache.Wire.Fields.{fields}
use tine.RemoteCache.Wire.Message.{message}
use tine.Base.{◌<◌, ◌^◌, ◌≡◌, refl, none, some, [], ◌∷◌, length, arith, inl}
use tine.Base.Text.{Text, encode}
use tine.RemoteCache.Outcome.{ok}
use tine.RemoteCache.Wire.Writer
use tine.RemoteCache.Wire.ReadBack.{IsWritable}
use tine.RemoteCache.Reapi.Digest
use tine.RemoteCache.Reapi.Digest.{Digest, Status, status_to_bytes, parse_status}
use tine.RemoteCache.Reapi.Digest.RoundTrip.{IsSendable, IsNestable}
use tine.RemoteCache.Reapi.Result.{ActionResult, parse}
use tine.RemoteCache.Reapi.Blobs.{
  Blob, parse_batch_update, batch_update_to_bytes, parse_batch_updated, batch_updated_to_bytes,
  parse_batch_read, batch_read_to_bytes, update_body, updated_body, read_body,
}
use tine.RemoteCache.Reapi.Blobs.RoundTrip.{
  IsBatchable, sent_all, answered_all, served_all, batches_round_trip,
}

abbrev name : Text
name = b'a' ∷ b'b' ∷ []

name-IsWritable : IsWritable name
unfolding encode
name-IsWritable = record {
  scalars = (inl (omega arith), (inl (omega arith), tt));
  short = omega arith;
}

abbrev digest : Digest
digest = record { hash = name; size_bytes = 300 }

digest-IsSendable : IsSendable digest
digest-IsSendable = record { name = name-IsWritable; small = omega arith }

digest_bytes : Digest.to_bytes digest ≡ 10 ∷ 2 ∷ b'a' ∷ b'b' ∷ 16 ∷ 0xac ∷ 2 ∷ []
unfolding Digest.to_bytes Writer.text Writer.varint
digest_bytes = refl

digest-IsNestable : IsNestable digest
digest-IsNestable = record { sendable = digest-IsSendable; short = rw digest_bytes (omega arith) }

abbrev status : Status
status = record { code = 5; reason = name }

-- A result that names nothing, and writes the empty message.
abbrev empty_result : ActionResult
empty_result = record {
  raw = [];
  file_digests = [];
  tree_digests = [];
  stdout = none;
  stderr = none;
}

empty_result_parses : parse [] ≡ ok empty_result
unfolding parse message fields children digests_under child Digest.of
empty_result_parses = refl

abbrev one_blob : Blob
one_blob = record { digest = some digest; content = 7 ∷ 8 ∷ []; status = some status }

status_fits : length (status_to_bytes status) < 2 ^ 70
unfolding status_to_bytes Writer.varint Writer.text
status_fits = omega arith

update_fits : length (update_body one_blob) < 2 ^ 70
unfolding update_body Digest.optional_to_bytes Writer.submessage Digest.to_bytes Writer.text
    Writer.varint
update_fits = omega arith

updated_fits : length (updated_body one_blob) < 2 ^ 70
unfolding updated_body Digest.optional_to_bytes Writer.submessage Digest.to_bytes Writer.text
    Writer.varint status_to_bytes
updated_fits = omega arith

read_fits : length (read_body one_blob) < 2 ^ 70
unfolding read_body Digest.optional_to_bytes Writer.submessage Digest.to_bytes Writer.text
    Writer.varint status_to_bytes
read_fits = omega arith

one_blob-IsBatchable : IsBatchable one_blob
one_blob-IsBatchable = record {
  nests = digest-IsNestable;
  content_short = omega arith;
  status_writable = (omega arith, name-IsWritable);
  status_short = status_fits;
  update_short = update_fits;
  updated_short = updated_fits;
  read_short = read_fits;
}

batches_round_trip_example :
    (parse_batch_update (batch_update_to_bytes (record { blobs = one_blob ∷ [] }))
      ≡ ok (record { blobs = sent_all (one_blob ∷ []) }))
    × (parse_batch_updated (batch_updated_to_bytes (record { blobs = one_blob ∷ [] }))
        ≡ ok (record { blobs = answered_all (one_blob ∷ []) }))
    × (parse_batch_read (batch_read_to_bytes (record { blobs = one_blob ∷ [] }))
        ≡ ok (record { blobs = served_all (one_blob ∷ []) }))
batches_round_trip_example = batches_round_trip (one_blob ∷ []) (one_blob-IsBatchable, tt)
