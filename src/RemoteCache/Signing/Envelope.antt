-- ===== src/RemoteCache/Signing/Envelope.antt =====
-- The hash test, the signed bytes and the envelope of remote_cache/signing.py.
pub mod Hashes
pub mod RoundTrip
use tine.Base.{
  ℕ, zero, suc, Bool, true, false, not, ◌&&◌, ◌||◌, List, [], ◌∷◌, ◌++◌, Bytes, length, take, drop,
  is_nil, same_bytes, ltb, ◌==◌, if◌then◌else◌,
}
use tine.Base.Struct.{big_endian, from_big_endian, fixed_width}
use tine.Base.Text.{Text, encode, text_of}
use tine.RemoteCache.Outcome.{
  Result, ok, err, not_a_hash, short_object, not_signed, bad_version, bad_algorithm,
  short_signature,
}

abbrev pub magic : Bytes
magic = text_of "TINE"

abbrev pub version : ℕ
version = 1

abbrev pub ed25519 : ℕ
ed25519 = 1

abbrev pub key_id_length : ℕ
key_id_length = 8

-- struct's size of ">4sBB8sH"
abbrev pub header_size : ℕ
header_size = 16

abbrev pub domain : Bytes
domain = text_of "tine-cache-ac-v1" ++ 0 ∷ []

abbrev pub hash_length : ℕ
hash_length = 64

abbrev pub hex_characters : Text
hex_characters = text_of "0123456789abcdef"

unfoldable pub among : List ℕ → ℕ → Bool
among [] c = false
among (x ∷ xs) c = x == c || among xs c

-- `str.strip(characters)`, from the left and from the right.
unfoldable pub left_strip : Text → Text → Text
left_strip characters [] = []
left_strip characters (c ∷ t) = if among characters c then left_strip characters t else c ∷ t

unfoldable pub right_strip : Text → Text → Text
right_strip characters [] = []
right_strip characters (c ∷ t) =
    let rest = right_strip characters t in
    if is_nil rest && among characters c then [] else c ∷ rest

unfoldable pub strip : Text → Text → Text
unfolding among left_strip right_strip
strip characters t = right_strip characters (left_strip characters t)

unfoldable pub is_sha256_hex : Text → Bool
unfolding strip
is_sha256_hex t = length t == hash_length && is_nil (strip hex_characters t)

-- `_signed`
unfoldable pub signed : Text → Bytes → Result Bytes
unfolding is_sha256_hex encode
signed action_hash payload =
    if not (is_sha256_hex action_hash)
    then err not_a_hash
    else ok (domain ++ (encode action_hash ++ payload))

-- HEADER.pack(MAGIC, VERSION, ED25519, id, length): the last two as "8s" and "H".
unfoldable pub pack_header : Bytes → ℕ → Bytes
pack_header named size =
    magic ++ (version ∷ ed25519 ∷ (fixed_width key_id_length named ++ big_endian 2 size))

-- What `Signer.wrap` stores, once the key made the signature.
unfoldable pub envelope : Bytes → Bytes → Bytes → Bytes
unfolding pack_header
envelope named signature payload = pack_header named (length signature) ++ (signature ++ payload)

pub record Parts : Type 0 where
  pub named : Bytes
  pub algorithm : ℕ
  pub signature : Bytes
  pub payload : Bytes

-- The byte at an offset, which the header's length has shown to be there.
abbrev byte_at : ℕ → Bytes → ℕ
byte_at i [] = 0
byte_at zero (b ∷ bs) = b
byte_at (suc i) (b ∷ bs) = byte_at i bs

abbrev take_signature : Bytes → ℕ → Bytes → Result Parts
take_signature named size after =
    if not (length (take size after) == size)
    then err short_signature
    else ok (record {
      named = named;
      algorithm = ed25519;
      signature = take size after;
      payload = drop size after;
    })

unfoldable pub split : Bytes → Result Parts
split blob =
    if ltb (length blob) header_size
    then err short_object
    else if not (same_bytes (take 4 blob) magic)
    then err not_signed
    else if not (byte_at 4 blob == version)
    then err bad_version
    else if not (byte_at 5 blob == ed25519)
    then err bad_algorithm
    else take_signature (take key_id_length (drop 6 blob))
        (from_big_endian 0 (take 2 (drop 14 blob))) (drop header_size blob)
