-- ===== src/RemoteCache/Bundle.antt =====
-- remote_cache/bundle.py: the container of what one action result names. hashlib's sha256, as hex,
-- is a parameter. A `Mapping[str, bytes]` is the list of its items, whose keys differ.
pub mod RoundTrip
pub mod Name
use tine.Base.{
  ℕ, zero, suc, ◌+◌, ◌*◌, ◌/◌, ◌%◌, ◌^◌, Bool, List, [], ◌∷◌, ◌++◌, Bytes, length, take, drop,
  same_bytes, ltb, ◌==◌, ◌&&◌, ◌||◌, true, false, if◌then◌else◌,
}
use tine.Base.Struct.{big_endian, from_big_endian, fixed_width}
use tine.Base.Text.{Text, encode}
use tine.RemoteCache.ReadAll.{read_all}
use tine.RemoteCache.Outcome.{Result, ok, err, ◌>>=◌, bundle_tail, bundle_size, member_hash}

abbrev pub header_size : ℕ
header_size = 72

-- HEADER.pack(hash_.encode(), len(blob)) + blob
unfoldable pub pack_member : Text × Bytes → Bytes
pack_member (name, blob) = fixed_width 64 (encode name) ++ (big_endian 8 (length blob) ++ blob)

-- Python's order of two texts.
abbrev pub text_le : Text → Text → Bool
text_le [] ys = true
text_le (x ∷ xs) [] = false
text_le (x ∷ xs) (y ∷ ys) = ltb x y || (x == y && text_le xs ys)

unfoldable pub insert_sorted : Text × Bytes → List (Text × Bytes) → List (Text × Bytes)
insert_sorted one [] = one ∷ []
insert_sorted one (other ∷ others) =
    if text_le one.0 other.0 then one ∷ other ∷ others else other ∷ insert_sorted one others

-- sorted(blobs), as items
unfoldable pub sorted_items : List (Text × Bytes) → List (Text × Bytes)
unfolding insert_sorted
sorted_items [] = []
sorted_items (one ∷ others) = insert_sorted one (sorted_items others)

unfoldable pub pack_in_order : List (Text × Bytes) → Bytes
unfolding pack_member
pack_in_order [] = []
pack_in_order (one ∷ others) = pack_member one ++ pack_in_order others

unfoldable pub pack : List (Text × Bytes) → Bytes
unfolding pack_in_order sorted_items
pack blobs = pack_in_order (sorted_items blobs)

module _ (sha256 : Bytes → Text) where
  -- Behind a header: the blob that it announces, under the hash that it has.
  unfoldable pub check_member : Bytes → ℕ → Bytes → Result ((Text × Bytes) × Bytes)
  check_member name size behind =
      let blob = take size behind in
      if ltb (length behind) size
      then err bundle_size
      else if same_bytes (encode (sha256 blob)) name
      then ok ((sha256 blob, blob), drop size behind)
      else err member_hash

  -- One round of the loop: a member, and the bytes behind it.
  unfoldable pub unpack_member : Bytes → Result ((Text × Bytes) × Bytes)
  unpack_member rest =
      if ltb (length rest) header_size
      then err bundle_tail
      else check_member (take 64 rest) (from_big_endian 0 (take 8 (drop 64 rest)))
          (drop header_size rest)

  unfoldable pub unpack : Bytes → Result (List (Text × Bytes))
  unfolding unpack_member check_member read_all
  unpack = read_all unpack_member
