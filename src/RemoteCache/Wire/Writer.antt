-- ===== src/RemoteCache/Wire/Writer.antt =====
-- The writers of remote_cache/wire.py: one field each, left out at its default.
use tine.Base.{
  ℕ, ◌*◌, ◌^◌, bit_or, Bool, true, false, List, [], ◌∷◌, ◌++◌, Bytes, length, is_nil, ◌==◌,
  if◌then◌else◌,
}
use tine.Base.Text.{Text, encode}
use tine.RemoteCache.Wire.Varint.{write_varint}
use tine.RemoteCache.Wire.Fields.{kind_varint, kind_length}

-- `_tag`
unfoldable pub tag : ℕ → ℕ → Bytes
unfolding write_varint
tag number kind = write_varint (bit_or (number * 2 ^ 3) kind)

unfoldable pub varint : ℕ → ℕ → Bytes
unfolding tag
varint number value = if value == 0 then [] else tag number kind_varint ++ write_varint value

abbrev int_of : Bool → ℕ
int_of true = 1
int_of false = 0

unfoldable pub flag : ℕ → Bool → Bytes
unfolding varint
flag number value = varint number (int_of value)

-- A nested message, written even when its body is empty.
unfoldable pub submessage : ℕ → Bytes → Bytes
unfolding tag
submessage number body = tag number kind_length ++ (write_varint (length body) ++ body)

unfoldable pub blob : ℕ → Bytes → Bytes
unfolding tag
blob number value =
    if is_nil value then [] else tag number kind_length ++ (write_varint (length value) ++ value)

unfoldable pub text : ℕ → Text → Bytes
unfolding blob encode
text number value = blob number (encode value)

-- b"".join(_write_varint(one) for one in values)
unfoldable pub join_varints : List ℕ → Bytes
join_varints [] = []
join_varints (one ∷ values) = write_varint one ++ join_varints values

unfoldable pub packed : ℕ → List ℕ → Bytes
unfolding blob join_varints
packed number values = blob number (join_varints values)
