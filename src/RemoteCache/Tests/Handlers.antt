-- ===== src/RemoteCache/Tests/Handlers.antt =====
-- The services of remote_cache/shim.py over one blob; its bucket; and the names of resources, of
-- bundles and of pointers.
use tine.RemoteCache.Store.State.{present}
use tine.RemoteCache.Store.Filed.{arriving_bytes}
use tine.RemoteCache.Store.Evict.{evict}
use tine.RemoteCache.Store.Filed.{check_blob}
use tine.RemoteCache.Shim.Stream.{write_all}
use tine.RemoteCache.Shim.Stream.{window_of}
use tine.RemoteCache.Shim.Stream.{chunks}
use tine.Base.Decimal.{int_text}
use tine.RemoteCache.Shim.Stream.{split_path}
use tine.RemoteCache.Shim.Stream.{behind_blobs}
use tine.RemoteCache.Shim.Stream.{range_from}
use tine.RemoteCache.Shim.Local.{all_here}
use tine.RemoteCache.Store.Blobs.{bundle_of}
use tine.RemoteCache.Shim.Local.{wanted_from}
use tine.RemoteCache.Shim.Local.{refill_each}
use tine.RemoteCache.Store.Table.{change}
use tine.RemoteCache.Store.Blobs
use tine.RemoteCache.Shim.Local.{missing_of}
use tine.RemoteCache.Store.State.{now}
use tine.RemoteCache.Store.Table.{find}
use tine.RemoteCache.Store.State.{path}
use tine.RemoteCache.Store.Blobs.{use_blob}
use tine.RemoteCache.Store.Blobs.{has_blobs}
use tine.RemoteCache.Shim.Local.{ensure}
use tine.RemoteCache.Shim.Local
use tine.RemoteCache.Shim.Storage.{read_each}
use tine.Base.{ℕ, ◌≡◌, refl, ◌||◌, Bool, true, false, none, some, List, [], ◌∷◌, ◌++◌, arith}
use tine.Base.Text.{Text, text_of}
use tine.RemoteCache.Outcome.{ok}
use tine.RemoteCache.Bucket
use tine.RemoteCache.Bucket.{Net, answered}
use tine.RemoteCache.Bucket.Replies.{Received, get-Received}
use tine.RemoteCache.Bundle.Name.{same_digest, bundle_name}
use tine.RemoteCache.Bundle.Name.Sets.{SameMembers, bundle_name-SameMembers}
use tine.RemoteCache.Reapi.Digest.{Digest}
use tine.RemoteCache.Reapi.Blobs.{Blob, BatchReadBlobsRequest}
use tine.RemoteCache.Reapi.Stream.{ReadRequest, ReadResponse, WriteRequest}
use tine.RemoteCache.Signing.Envelope.{is_sha256_hex}
use tine.RemoteCache.Store.Filed.{check_blobs}
use tine.RemoteCache.Shim.Pointer.{Pointer, ac_pack, ac_unpack}
use tine.RemoteCache.Shim.Pointer.RoundTrip.{ac_unpack-ac_pack}
use tine.RemoteCache.Shim.State.{Setup, Shim, accepts_uploads}
use tine.RemoteCache.Shim.Storage.{batch_read, check_each, read_as}
use tine.RemoteCache.Shim.Storage.Answers.{AreAnswers, batch_read-AreAnswers}
use tine.RemoteCache.Shim.Storage.Updates.{AreChecked, check_each-AreChecked_passes}
use tine.RemoteCache.Shim.Stream.{read_stream, write_stream, resource_digest}
use tine.RemoteCache.Shim.Stream.Carried.{
  IsRead, IsWritten, read_stream-IsRead, write_stream-IsWritten,
}
use tine.RemoteCache.Shim.Stream.Returned.{read_stream-write_stream}
use tine.RemoteCache.Shim.Stream.Upload.{finished, went_on}
use tine.RemoteCache.Shim.Stream.Window.{IsWindow}
use tine.RemoteCache.Shim.Stream.Chunks.{joined}
use tine.RemoteCache.Tests.Shim.{zeros, hash, blob_a, digest_a, world, setup_with, shim}

abbrev setup : Setup
setup = setup_with false

abbrev other_digest : Digest
other_digest = record { hash = zeros 64; size_bytes = 3 }

abbrev batch : BatchReadBlobsRequest
batch = record { digests = digest_a ∷ other_digest ∷ [] }

abbrev two_answers : List Blob
two_answers = read_as setup digest_a (some blob_a) ∷ read_as setup other_digest none ∷ []

answers : (batch_read setup batch shim).0 ≡ ok (record { blobs = two_answers })
unfolding batch_read read_each Local.blob ensure has_blobs use_blob path is_sha256_hex find now
    missing_of Blobs.blob change refill_each wanted_from bundle_of all_here range_from
answers = refl

batch_read-AreAnswers_example : AreAnswers setup shim (digest_a ∷ other_digest ∷ []) two_answers
batch_read-AreAnswers_example = batch_read-AreAnswers setup batch shim answers

-- One blob is what its digest says, and one is longer.
abbrev entries : List Blob
entries =
    record { digest = some digest_a; content = blob_a; status = none }
    ∷ record { digest = some digest_a; content = b'a' ∷ b'b' ∷ []; status = none }
    ∷ []

check_each-AreChecked_passes_example :
    AreChecked setup entries (check_each setup entries []).0
    × (check_blobs setup.platform (check_each setup entries []).1 ≡ ok tt)
check_each-AreChecked_passes_example = check_each-AreChecked_passes setup entries

abbrev resource : Text
resource = text_of "tine/blobs/" ++ (hash blob_a ++ text_of "/1")

abbrev read_request : ReadRequest
read_request = record { resource_name = resource; read_offset = 0; read_limit = 0 }

reads : (read_stream setup read_request shim).0 ≡ ok (record { content = blob_a } ∷ [])
unfolding read_stream resource_digest behind_blobs split_path is_sha256_hex int_text Local.blob
    ensure has_blobs use_blob path find now missing_of Blobs.blob change chunks range_from window_of
reads = refl

read_stream-IsRead_example : IsRead setup read_request (record { content = blob_a } ∷ [])
read_stream-IsRead_example = read_stream-IsRead setup read_request shim reads

-- An upload in two messages, the second without a name.
abbrev begun : WriteRequest
begun = record {
  resource_name = resource;
  write_offset = 0;
  finish_write = false;
  content = blob_a;
}

abbrev done : WriteRequest
done = record { resource_name = []; write_offset = 1; finish_write = true; content = [] }

abbrev uploads : List WriteRequest
uploads = begun ∷ done ∷ []

writes : (write_stream setup uploads shim).0 ≡ ok (record { committed_size = 1 })
unfolding write_stream accepts_uploads write_all resource_digest behind_blobs split_path
    is_sha256_hex int_text Blobs.put_blob Blobs.put_blobs check_blobs check_blob evict
    arriving_bytes present find Blobs.write_files path now Blobs.file_rows
writes = refl

write_stream-IsWritten_example : IsWritten setup uploads 1
write_stream-IsWritten_example = write_stream-IsWritten setup uploads shim writes

-- A store that has nothing yet.
abbrev empty : Shim ℕ
empty = record shim { store = record shim.store { held = 0; blobs = []; files = [] } }

names_a : resource_digest resource ≡ ok digest_a
unfolding resource_digest behind_blobs split_path is_sha256_hex int_text
names_a = refl

accepts : accepts_uploads setup ≡ true
unfolding accepts_uploads
accepts = refl

abbrev one_byte : ReadRequest
one_byte = record { resource_name = resource; read_offset = 0; read_limit = 1 }

read_stream-write_stream_example :
    ((write_stream setup uploads empty).0 ≡ ok (record { committed_size = 1 }))
    × ((rs : List ReadResponse) × ((read_stream setup one_byte
            (write_stream setup uploads empty).1).0
          ≡ ok rs)
        × IsWindow one_byte blob_a (joined rs))
read_stream-write_stream_example =
    read_stream-write_stream setup begun (done ∷ []) one_byte empty accepts names_a refl
      (went_on refl (finished refl)) refl refl (omega arith) refl

hash_is_hex : is_sha256_hex (hash blob_a) ≡ true
unfolding is_sha256_hex
hash_is_hex = refl

gets : (Bucket.get world (text_of "b") 60 (text_of "key") 10 shim.net).0 ≡ ok (some (text_of "pem"))
unfolding Bucket.get
gets = refl

get-Received_example : Received 10 (some (text_of "pem")) (answered 3 (text_of "pem"))
get-Received_example = get-Received world (text_of "b") 60 (text_of "key") 10 shim.net gets

abbrev pointer : Pointer
pointer = record { bundle = hash blob_a; result = 7 ∷ [] }

ac_unpack-ac_pack_example : ac_unpack (ac_pack pointer) ≡ ok pointer
ac_unpack-ac_pack_example = ac_unpack-ac_pack pointer hash_is_hex (omega arith)

either_order : (a b : Bool) → (a || (b || false)) ≡ (b || (a || false))
either_order true true = refl
either_order true false = refl
either_order false true = refl
either_order false false = refl

swapped : SameMembers (digest_a ∷ other_digest ∷ []) (other_digest ∷ digest_a ∷ [])
swapped d = either_order (same_digest digest_a d) (same_digest other_digest d)

bundle_name-SameMembers_example :
    bundle_name hash (digest_a ∷ other_digest ∷ [])
    ≡ bundle_name hash (other_digest ∷ digest_a ∷ [])
bundle_name-SameMembers_example =
    bundle_name-SameMembers hash (digest_a ∷ other_digest ∷ []) (other_digest ∷ digest_a ∷ [])
      swapped
