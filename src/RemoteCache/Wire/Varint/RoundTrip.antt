-- ===== src/RemoteCache/Wire/Varint/RoundTrip.antt =====
-- A varint read back after it was written.
use native.Mathlib.Decide.{dec_lt}
use native.Mathlib.Nat.{pow-suc}
use native.Mathlib.Numerals.{towards_suc}
use tine.Base.{
  ℕ, zero, suc, ◌+◌, ◌*◌, ◌/◌, ◌%◌, ◌^◌, ◌≤◌, ◌<◌, ◌≡◌, ◌∙◌, ap, true, false, ◌∷◌, ◌++◌, Bytes,
  ◌==◌, arith,
}
use tine.Base.Bits.{bit_and_low7, bit_and_bit7, bit_or-shifted, bit_or-bit7}
use tine.RemoteCache.Outcome.{ok}
use tine.RemoteCache.Wire.Varint.{read_varint_from, read_varint, write_varint_in, write_varint}

read_varint_last :
    (acc s b : ℕ) (rest : Bytes)
    → acc < 2 ^ s
    → s ≤ 63
    → b < 128
    → read_varint_from acc s (b ∷ rest) ≡ ok (acc + b * 2 ^ s, rest)
unfolding read_varint_from
read_varint_last acc s b rest low fits small =
    let e : b % 128 ≡ b = omega arith in
    rw (bit_and_bit7, bit_and_low7, e, bit_or-shifted s acc b low) (ground arith)

read_varint_more :
    (acc s b : ℕ) (rest : Bytes)
    → acc < 2 ^ s
    → s ≤ 63
    → 128 ≤ b
    → b < 256
    → read_varint_from acc s (b ∷ rest) ≡ read_varint_from (acc + b % 128 * 2 ^ s) (s + 7) rest
unfolding read_varint_from
read_varint_more acc s b rest low fits big small =
    rw (bit_and_bit7, bit_and_low7, bit_or-shifted s acc (b % 128) low) (ground arith)

seven_more : (s : ℕ) → 2 ^ (s + 7) ≡ 2 ^ s * 128
seven_more s = simp towards_suc (omega arith)

-- A value of one byte, and one of more, whose higher bits are read back.
reads_last :
    (s fuel v acc : ℕ) (rest : Bytes)
    → s ≤ 63
    → acc < 2 ^ s
    → v < 128
    → read_varint_from acc s (write_varint_in (suc fuel) v ++ rest) ≡ ok (acc + v * 2 ^ s, rest)
unfolding write_varint_in
reads_last s fuel v acc rest fits low small =
    let done : (v / 2 ^ 7 == 0) ≡ true = ground arith in
    let e : v % 128 ≡ v = omega arith in
    rw (done, bit_and_low7, e) (read_varint_last acc s v rest low fits small)

reads_more :
    (s fuel v acc : ℕ) (rest : Bytes)
    → s ≤ 63
    → acc < 2 ^ s
    → 128 ≤ v
    → read_varint_from (acc + v % 128 * 2 ^ s) (s + 7) (write_varint_in fuel (v / 128) ++ rest)
      ≡ ok (acc + v % 128 * 2 ^ s + v / 128 * 2 ^ (s + 7), rest)
    → read_varint_from acc s (write_varint_in (suc fuel) v ++ rest) ≡ ok (acc + v * 2 ^ s, rest)
unfolding write_varint_in
reads_more s fuel v acc rest fits low big later =
    let more : (v / 2 ^ 7 == 0) ≡ false = ground arith in
    let e : (v % 128 + 128) % 128 ≡ v % 128 = omega arith in
    let split : v ≡ v % 128 + v / 128 * 128 = omega arith in
    let whole : acc + v % 128 * 2 ^ s + v / 128 * 2 ^ (s + 7) ≡ acc + v * 2 ^ s =
      rw seven_more (omega (arith, ap (λ (t : ℕ). t * 2 ^ s) split)) in
    rw (more, bit_and_low7, bit_or-bit7 (v % 128) (omega arith))
      (read_varint_more acc s (v % 128 + 128) _ low fits (omega arith) (omega arith)
        ∙ rw e (later ∙ rw whole))

low_digit : (p d acc : ℕ) → d ≤ 127 → acc < p → acc + d * p < p * 128
low_digit p d acc h k = grind arith

low_more : (s acc v : ℕ) → acc < 2 ^ s → acc + v % 128 * 2 ^ s < 2 ^ (s + 7)
low_more s acc v h = rw seven_more (low_digit (2 ^ s) (v % 128) acc (omega arith) h)

reads_back :
    (k s fuel v acc : ℕ) (rest : Bytes)
    → s + 7 * k ≡ 63
    → acc < 2 ^ s
    → v < 128 ^ suc k
    → v < fuel
    → read_varint_from acc s (write_varint_in fuel v ++ rest) ≡ ok (acc + v * 2 ^ s, rest)
reads_back k s zero v acc rest fits low small enough = absurd (omega arith)
reads_back zero s (suc fuel) v acc rest fits low small enough =
    reads_last s fuel v acc rest (omega arith) low small
reads_back (suc k) s (suc fuel) v acc rest fits low small enough = elim (dec_lt v 128) [
  | yes one ↦ reads_last s fuel v acc rest (omega arith) low one
  | no many ↦
      let small' : v < 128 ^ suc k * 128 = rw pow-suc at small in
      reads_more s fuel v acc rest (omega arith) low (omega arith) (
        reads_back k (s + 7) fuel (v / 128) (acc + v % 128 * 2 ^ s) rest (omega arith)
          (low_more s acc v low) (omega arith) (omega arith))
]

-- Every value below 2 ^ 70 is read back as it was written, whatever follows it.
pub read_varint-write_varint :
    (value : ℕ) (rest : Bytes)
    → value < 2 ^ 70
    → read_varint (write_varint value ++ rest) ≡ ok (value, rest)
unfolding read_varint write_varint
read_varint-write_varint value rest small =
    reads_back 9 0 (suc value) value 0 rest (omega arith) (omega arith) small (omega arith)
    ∙ ap (λ v. ok (v, rest)) (omega arith)
