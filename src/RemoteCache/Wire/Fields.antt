-- ===== src/RemoteCache/Wire/Fields.antt =====
-- `fields` of remote_cache/wire.py. The generator is modelled by the list of what it yields, as
-- its only caller, `Message`, reads it to the end; an error on the way is the caller's error.
pub mod Consumes
use tine.Base.{
  ℕ, zero, suc, ◌/◌, ◌^◌, bit_and, Option, none, some, List, [], ◌∷◌, Bytes, length, take, drop,
  ltb, ◌==◌, if◌then◌else◌,
}
use tine.RemoteCache.Outcome.{
  Raised, Result, ok, err, ◌>>=◌, field_zero, length_past_end, field_past_end, bad_wire_type,
}
use tine.RemoteCache.ReadAll.{read_all}
use tine.RemoteCache.Wire.Varint.{read_varint}

-- `int | bytes`
pub data Value : Type 0 where
  int : ℕ → Value
  blob : Bytes → Value

abbrev pub kind_varint : ℕ
kind_varint = 0

abbrev pub kind_fixed64 : ℕ
kind_fixed64 = 1

abbrev pub kind_length : ℕ
kind_length = 2

abbrev pub kind_fixed32 : ℕ
kind_fixed32 = 5

abbrev pub Field : Type 0
Field = ℕ × Value

-- `at += n`, and the check at the end of the round.
unfoldable pub skip : ℕ → Bytes → Result (Option Field × Bytes)
skip n rest = if ltb (length rest) n then err field_past_end else ok (none, drop n rest)

unfoldable pub read_blob : ℕ → ℕ → Bytes → Result (Option Field × Bytes)
read_blob number size rest =
    if ltb (length rest) size
    then err length_past_end
    else ok (some (number, blob (take size rest)), drop size rest)

unfoldable pub read_value : ℕ → ℕ → Bytes → Result (Option Field × Bytes)
read_value number kind rest =
    if number == 0
    then err field_zero
    else if kind == kind_varint
    then (do value ← read_varint rest; ok (some (number, int value.0), value.1))
    else if kind == kind_length
    then (do size ← read_varint rest; read_blob number size.0 size.1)
    else if kind == kind_fixed64
    then skip 8 rest
    else if kind == kind_fixed32
    then skip 4 rest
    else err (bad_wire_type number kind)

-- One round of the loop: what it yields, if anything, and the bytes behind it.
unfoldable pub read_field : Bytes → Result (Option Field × Bytes)
read_field bytes = do tag ← read_varint bytes; read_value (tag.0 / 2 ^ 3) (bit_and tag.0 0x07) tag.1

abbrev pub yielded : List (Option Field) → List Field
yielded [] = []
yielded (none ∷ others) = yielded others
yielded (some field ∷ others) = field ∷ yielded others

unfoldable pub fields : Bytes → Result (List Field)
unfolding read_field read_all
fields bytes = do rounds ← read_all read_field bytes; ok (yielded rounds)
