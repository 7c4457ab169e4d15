-- ===== src/RemoteCache/Wire/Varint/Bounds.antt =====
-- What reading a varint takes from the input, and how large its value can be.
use native.Mathlib.Numerals.{towards_suc}
use tine.Base.{
  ℕ, zero, suc, ◌+◌, ◌*◌, ◌%◌, ◌^◌, ◌≤◌, ◌<◌, ◌≡◌, [], ◌∷◌, Bytes, length, bit_and, bit_or, arith,
}
use tine.Base.Bits.{bit_and_low7, bit_or-shifted}
use tine.RemoteCache.Outcome.{ok}
use tine.RemoteCache.Wire.Varint.{read_varint_from, read_varint}

read_varint_from-shrinks :
    (value shift : ℕ) (bytes : Bytes) (v : ℕ) (rest : Bytes)
    → read_varint_from value shift bytes ≡ ok (v, rest)
    → length rest < length bytes
unfolding read_varint_from
read_varint_from-shrinks value shift [] v rest h = absurd (cc)
read_varint_from-shrinks value shift (b ∷ bs) v rest h =
    let value' = bit_or value (bit_and b 0x7f * 2 ^ shift) in
    ground (arith, read_varint_from-shrinks value' (shift + 7) bs v rest)

-- A varint that is read takes a byte at least.
pub read_varint-shrinks :
    (bytes : Bytes) (v : ℕ) (rest : Bytes)
    → read_varint bytes ≡ ok (v, rest)
    → length rest < length bytes
unfolding read_varint
read_varint-shrinks = read_varint_from-shrinks 0 0

seven_more : (s : ℕ) → 2 ^ (s + 7) ≡ 2 ^ s * 128
seven_more s = simp towards_suc (omega arith)

added_digit : (p d acc : ℕ) → d ≤ 127 → acc < p → acc + d * p < p * 128
added_digit p d acc h k = grind arith

power_le : (s k : ℕ) → s + 7 * k ≡ 70 → 2 ^ s ≤ 2 ^ 70
power_le s zero e = let e' : s ≡ 70 = omega arith in rw e' (omega arith)
power_le s (suc k) e =
    let more = power_le (s + 7) k (omega arith) in omega (arith, rw seven_more at more)

-- Past 63 bits the loop raises, so `k` more rounds stay below 70 bits.
read_varint_from_bound :
    (k acc s : ℕ) (bytes : Bytes) (v : ℕ) (rest : Bytes)
    → s + 7 * k ≡ 70
    → acc < 2 ^ s
    → read_varint_from acc s bytes ≡ ok (v, rest)
    → v < 2 ^ 70
unfolding read_varint_from
read_varint_from_bound k acc s [] v rest e low h = absurd (cc)
read_varint_from_bound zero acc s (b ∷ bs) v rest e low h = ground arith
read_varint_from_bound (suc k) acc s (b ∷ bs) v rest e low h =
    let acc' = acc + b % 128 * 2 ^ s in
    let low' : acc' < 2 ^ (s + 7) =
      rw seven_more (added_digit (2 ^ s) (b % 128) acc (omega arith) low) in
    let same : bit_or acc (bit_and b 0x7f * 2 ^ s) ≡ acc' =
      rw bit_and_low7 (bit_or-shifted s acc (b % 128) low) in
    let power : 2 ^ (s + 7) ≤ 2 ^ 70 = power_le (s + 7) k (omega arith) in
    let later = read_varint_from_bound k acc' (s + 7) bs v rest (omega arith) low' in
    ground (arith, same, power, low', later)

-- The shift limit lets through values below 2 ^ 70.
pub read_varint_bound :
    (bytes : Bytes) (v : ℕ) (rest : Bytes) → read_varint bytes ≡ ok (v, rest) → v < 2 ^ 70
unfolding read_varint
read_varint_bound bytes v rest =
    read_varint_from_bound 10 0 0 bytes v rest (omega arith) (omega arith)
