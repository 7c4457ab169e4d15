-- ===== src/RemoteCache/Wire/Varint.antt =====
-- `_varint`, `_write_varint` and `unpack_varints` of remote_cache/wire.py. Writing takes a round
-- for each seven bits, so the value itself is fuel enough.
pub mod Bounds
pub mod RoundTrip
use tine.Base.{
  ℕ, zero, suc, ◌+◌, ◌*◌, ◌/◌, ◌^◌, bit_and, bit_or, List, [], ◌∷◌, Bytes, length, ltb, ◌==◌,
  if◌then◌else◌,
}
use tine.RemoteCache.Outcome.{Result, ok, err, ◌>>=◌, varint_past_end, varint_too_long}
use tine.RemoteCache.ReadAll.{read_all}

-- The loop of `_varint`, from the `value` and `shift` reached.
unfoldable pub read_varint_from : ℕ → ℕ → Bytes → Result (ℕ × Bytes)
read_varint_from value shift [] = err varint_past_end
read_varint_from value shift (byte ∷ rest) =
    let value' = bit_or value (bit_and byte 0x7f * 2 ^ shift) in
    let more = read_varint_from value' (shift + 7) rest in
    if ltb 63 shift
    then err varint_too_long
    else if bit_and byte 0x80 == 0
    then ok (value', rest)
    else more

unfoldable pub read_varint : Bytes → Result (ℕ × Bytes)
unfolding read_varint_from
read_varint = read_varint_from 0 0

-- The loop of `_write_varint`.
unfoldable pub write_varint_in : ℕ → ℕ → Bytes
write_varint_in zero value = []
write_varint_in (suc fuel) value =
    let byte = bit_and value 0x7f in
    let value' = value / 2 ^ 7 in
    let more = write_varint_in fuel value' in
    if value' == 0 then byte ∷ [] else bit_or byte 0x80 ∷ more

unfoldable pub write_varint : ℕ → Bytes
unfolding write_varint_in
write_varint value = write_varint_in (suc value) value

unfoldable pub unpack_varints : Bytes → Result (List ℕ)
unfolding read_varint read_all
unpack_varints = read_all read_varint
