-- ===== src/RemoteCache/Tests/Shim.antt =====
-- remote_cache/shim.py over one blob, with a bucket that answers each request alike.
use tine.RemoteCache.Store.Table.{upsert}
use tine.RemoteCache.Store.Blobs
use tine.RemoteCache.Shim.Publish.{gather}
use tine.RemoteCache.Reapi.Digest.{of}
use tine.RemoteCache.Wire.Message.{child}
use tine.RemoteCache.Reapi.Result.{digests_under}
use tine.RemoteCache.Wire.Message.{children}
use tine.RemoteCache.Reapi.Result.{parse}
use tine.RemoteCache.Wire.Message.{text}
use tine.RemoteCache.Wire.Fields.{read_blob}
use tine.RemoteCache.Wire.Fields.{read_value}
use tine.RemoteCache.Wire.Varint.{read_varint}
use tine.RemoteCache.Wire.Fields.{fields}
use tine.RemoteCache.Wire.Message
use tine.RemoteCache.Shim.Pointer.{ac_unpack}
use tine.RemoteCache.Shim.Pointer.{read_pointer}
use tine.Base.Text.{decode}
use tine.RemoteCache.Bucket
use tine.RemoteCache.Signing.Envelope
use tine.RemoteCache.Signing.Authority
use tine.RemoteCache.Store.Results
use tine.RemoteCache.Shim.Lookup
use tine.Base.Text.{encode}
use tine.RemoteCache.Bundle.Name.{insert_digest}
use tine.RemoteCache.Bundle.Name.{sorted_set}
use tine.RemoteCache.Bundle.Name.{member_lines}
use tine.RemoteCache.Bundle.Name.{bundle_name}
use tine.RemoteCache.Shim.Proven.{keys_of}
use tine.RemoteCache.Store.Choose.{among_texts}
use tine.RemoteCache.Reapi.Result.{named}
use tine.RemoteCache.Shim.Proven.{hashes_of}
use tine.RemoteCache.Shim.Proven.{same_set}
use tine.RemoteCache.Shim.Local.{referenced}
use tine.RemoteCache.Shim.Local.{missing_of}
use tine.RemoteCache.Store.State
use tine.RemoteCache.Store.Table.{find}
use tine.RemoteCache.Signing.Envelope.{is_sha256_hex}
use tine.RemoteCache.Store.State.{path}
use tine.RemoteCache.Store.Blobs.{use_blob}
use tine.RemoteCache.Store.Blobs.{has_blobs}
use tine.Base.{
  ℕ, zero, suc, ◌+◌, ◌≡◌, arith, refl, Bool, true, false, none, some, [], ◌∷◌, ◌++◌, Bytes,
}
use tine.Base.Text.{Text, text_of}
use tine.RemoteCache.Outcome.{ok}
use tine.RemoteCache.Bucket.{Reply, answered, http_error, World, Net}
use tine.RemoteCache.Reapi.Digest.{Digest}
use tine.RemoteCache.Reapi.Result.{ActionResult, GetActionResultRequest}
use tine.RemoteCache.Store.State.{Platform, Store}
use tine.RemoteCache.Store.Table.{Table}
use tine.RemoteCache.Shim.Pointer.{Pointer}
use tine.RemoteCache.Shim.State.{count, Setup, Shim}
use tine.RemoteCache.Shim.Local.{ensure, referenced}
use tine.RemoteCache.Shim.Proven.{lookup_in, proven, IsExactly, proven-eq-ok}
use tine.RemoteCache.Shim.Lookup.{get_result}
use tine.RemoteCache.Shim.Lookup.Served.{IsServed, get_result-IsServed}
use tine.RemoteCache.Shim.Publish.{Prepared, send}
use tine.RemoteCache.Bundle.{pack, unpack, sorted_items}
use tine.RemoteCache.Shim.Local.{dict_from}
use tine.RemoteCache.Shim.Publish.Fetched.{proven-published}
use tine.RemoteCache.Tests.Signing.{action, crypto, key_name, keys}

abbrev pub zeros : ℕ → Text
zeros zero = []
zeros (suc n) = b'0' ∷ zeros n

abbrev pub hash : Bytes → Text
hash [] = zeros 64
hash (b ∷ bs) = b ∷ zeros 63

abbrev pub blob_a : Bytes
blob_a = b'a' ∷ []

abbrev pub digest_a : Digest
digest_a = record { hash = hash blob_a; size_bytes = 1 }

-- A read finds a certificate, and a bundle to refresh is not there. The state counts the requests.
abbrev pub world : World ℕ
world = record {
  State = ℕ;
  open_url = λ url s. (answered 3 (text_of "pem"), s + 1);
  send = λ url content s. (answered 0 [], s + 1);
  copy = λ url s. (http_error 404, s + 1);
  monotonic = λ s. (7, s);
  now = λ s. (5, s);
}

abbrev pub setup_with : Bool → Setup
setup_with authority = record {
  crypto = crypto;
  keys = keys;
  world = world;
  platform = record { sha256 = hash; ninety_percent = λ n. n; time = λ n. n };
  base_url = text_of "b";
  cooldown = 60;
  has_bucket = true;
  has_writer = true;
  has_authority = authority;
  signer = none;
  say = λ e. [];
}

-- A result that names the one blob as its output, and the pointer to it, wrapped under a key.
abbrev raw : Bytes
raw = 50 ∷ 68 ∷ 10 ∷ 64 ∷ (hash blob_a ++ 16 ∷ 1 ∷ [])

abbrev pointed : Bytes
pointed = 10 ∷ 64 ∷ (hash blob_a ++ (18 ∷ 70 ∷ raw))

abbrev stored : Bytes
stored = text_of "TINE" ++ (1 ∷ 1 ∷ (key_name ++ (0 ∷ 2 ∷ 219 ∷ 3 ∷ pointed)))

abbrev result : ActionResult
result = record {
  raw = raw;
  file_digests = [];
  tree_digests = [];
  stdout = some digest_a;
  stderr = none;
}

abbrev pub shim : Shim ℕ
shim = record {
  store = record {
    max_bytes = 1000;
    max_rows = 100;
    held = 1;
    readings = 0;
    blobs = (hash blob_a, record { size = 1; bundle = none; present = true; seen = 1 }) ∷ [];
    results = (action, record { pointer = stored; seen = 1 }) ∷ [];
    certificates = [];
    files = (hash blob_a, record { content = blob_a; used = 1 }) ∷ [];
  };
  net = record { resting_until = 0; world = 0 };
  counts = [];
  tainted = [];
}

abbrev asked : GetActionResultRequest
asked = record { action_digest = some (record { hash = action; size_bytes = 1 }) }

serves : (get_result (setup_with true) asked shim).0 ≡ ok result
unfolding get_result is_sha256_hex count Lookup.kept Results.result find Lookup.trusted
    Authority.unwrap Envelope.split Authority.key_for Results.certificate Authority.key_from_bucket
    Bucket.get Authority.check_pem Authority.load_certificate Authority.check Authority.check_at
    Envelope.signed Authority.verify decode read_pointer ac_unpack Message.message fields
    read_varint read_value read_blob text parse children digests_under child referenced ensure
    has_blobs named of use_blob path Results.put_certificate State.now Message.integer missing_of
serves = refl

get_result-IsServed_example :
    IsServed (setup_with true) asked result shim (get_result (setup_with true) asked shim).1
get_result-IsServed_example = get_result-IsServed (setup_with true) asked shim serves

ensures : (ensure (setup_with false) (digest_a ∷ []) shim).0 ≡ ok true
unfolding ensure has_blobs use_blob path is_sha256_hex find State.now missing_of
ensures = refl

abbrev members : Table Bytes
members = (hash blob_a, blob_a) ∷ []

abbrev pointer : Pointer
pointer = record { bundle = hash blob_a; result = raw }

proves : proven hash pointer result members ≡ ok (digest_a ∷ [])
unfolding proven referenced same_set hashes_of named among_texts keys_of bundle_name member_lines
    sorted_set insert_digest encode
proves = refl

abbrev prepared : Prepared
prepared = record { payload = 7 ∷ []; bundle = hash blob_a; blobs = digest_a ∷ [] }

abbrev action_digest : Digest
action_digest = record { hash = action; size_bytes = 1 }

proven-eq-ok_example :
    ((referenced (lookup_in members) result tt).0 ≡ ok (some (digest_a ∷ [])))
    × IsExactly hash (hash blob_a) members (digest_a ∷ [])
proven-eq-ok_example = proven-eq-ok hash pointer result members proves

resolves :
    (referenced (Blobs.blob (setup_with false).platform) result shim.store).0
    ≡ ok (some (digest_a ∷ []))
unfolding referenced named
resolves = refl

gathers : (gather (setup_with false) (digest_a ∷ []) [] shim).0 ≡ ok members
unfolding gather Blobs.blob path is_sha256_hex find State.now upsert
gathers = refl

proven-published_example :
    (unpack hash (pack members) ≡ ok (sorted_items members))
    × (proven hash
          (record { bundle = bundle_name hash (digest_a ∷ []); result = raw })
          result
          (dict_from (sorted_items members) [])
        ≡ ok (digest_a ∷ []))
proven-published_example =
    proven-published (setup_with false) result shim.store shim resolves (λ key. refl) gathers
      (omega arith, tt)
