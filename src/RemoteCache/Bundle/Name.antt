-- ===== src/RemoteCache/Bundle/Name.antt =====
-- `bundle_name` of remote_cache/bundle.py: the name of a set of digests.
pub mod Order
pub mod Sets
use tine.Base.{
  ℕ, Bool, true, false, ◌&&◌, ◌||◌, List, [], ◌∷◌, ◌++◌, Bytes, same_bytes, ltb, ◌==◌,
  if◌then◌else◌,
}
use tine.Base.Decimal.{decimal}
use tine.Base.Order.{text_lt}
use tine.Base.Text.{Text, encode}
use tine.RemoteCache.Reapi.Digest.{Digest}

-- The digests as Python compares them: by all their fields, and by the key of the sort.
abbrev pub same_digest : Digest → Digest → Bool
same_digest a b = same_bytes a.hash b.hash && a.size_bytes == b.size_bytes

abbrev pub digest_lt : Digest → Digest → Bool
digest_lt a b = text_lt a.hash b.hash || (same_bytes a.hash b.hash && ltb a.size_bytes b.size_bytes)

-- A digest among digests that are sorted and differ.
unfoldable pub insert_digest : Digest → List Digest → List Digest
insert_digest a [] = a ∷ []
insert_digest a (b ∷ bs) =
    if digest_lt a b then a ∷ b ∷ bs else if same_digest a b then b ∷ bs else b ∷ insert_digest a bs

-- sorted(set(members), key=lambda one: (one.hash, one.size_bytes))
unfoldable pub sorted_set : List Digest → List Digest
sorted_set [] = []
sorted_set (a ∷ others) = insert_digest a (sorted_set others)

-- f"{member.hash}/{member.size_bytes}\n"
abbrev pub member_line : Digest → Text
member_line d = d.hash ++ (b'/' ∷ (decimal d.size_bytes ++ 10 ∷ []))

unfoldable pub member_lines : List Digest → Bytes
member_lines [] = []
member_lines (d ∷ ds) = encode (member_line d) ++ member_lines ds

unfoldable pub bundle_name : (Bytes → Text) → List Digest → Text
bundle_name sha256 members = sha256 (member_lines (sorted_set members))
