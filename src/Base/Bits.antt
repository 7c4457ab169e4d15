-- ===== src/Base/Bits.antt =====
-- Python's `&` and `|` on non-negative integers as arithmetic, where the operands make them so.
use Prim.Native.Nat.{
  ℕ, zero, suc, ◌+◌, ◌*◌, ◌/◌, ◌%◌, ◌^◌, ◌≤◌, ◌<◌, min, max, bit_and, bit_or, digits,
  bit_and-bitwise, bit_or-bitwise,
}
use mathlib.Core.Path.{◌≡◌, refl}
use native.Mathlib.Nat.{pow-suc, mul_assoc}
use native.Mathlib.Omega.{arith}

-- Rounds beyond the first number's own value change nothing.
module _ (over : ℕ → ℕ) (digit : ℕ → ℕ → ℕ) where
  digits_rounds : (r s x y : ℕ) → x ≤ r → x ≤ s → digits over digit r x y ≡ digits over digit s x y
  digits_rounds zero zero _ y p q = refl
  digits_rounds (suc r) (suc s) zero y p q = refl
  digits_rounds (suc r) zero zero y p q = refl
  digits_rounds zero (suc s) zero y p q = refl
  digits_rounds zero (suc s) (suc x) y p q = absurd (omega arith)
  digits_rounds (suc r) zero (suc x) y p q = absurd (omega arith)
  digits_rounds (suc r) (suc s) (suc x) y p q =
      omega (arith, digits_rounds r s (suc x / 2) (y / 2) (omega arith) (omega arith))

zero-bit_or : (y : ℕ) → bit_or 0 y ≡ y
zero-bit_or y = bit_or-bitwise 0 y

zero-bit_and : (y : ℕ) → bit_and 0 y ≡ 0
zero-bit_and y = bit_and-bitwise 0 y

pub bit_or_digit : (x y : ℕ) → bit_or x y ≡ bit_or (x / 2) (y / 2) * 2 + max (x % 2) (y % 2)
bit_or_digit zero y = omega (arith, zero-bit_or y, zero-bit_or (y / 2))
bit_or_digit (suc x) y =
    let half = suc x / 2 in
    omega (
      arith,
      bit_or-bitwise (suc x) y,
      bit_or-bitwise half (y / 2),
      digits_rounds (λ d. d) max x half half (y / 2) (omega arith) (omega arith),
    )

pub bit_and_digit : (x y : ℕ) → bit_and x y ≡ bit_and (x / 2) (y / 2) * 2 + min (x % 2) (y % 2)
bit_and_digit zero y = omega (arith, zero-bit_and y, zero-bit_and (y / 2))
bit_and_digit (suc x) y =
    let half = suc x / 2 in
    omega (
      arith,
      bit_and-bitwise (suc x) y,
      bit_and-bitwise half (y / 2),
      digits_rounds (λ d. 0) min x half half (y / 2) (omega arith) (omega arith),
    )

bit_and-zero_rounds : (r x : ℕ) → x ≤ r → bit_and x 0 ≡ 0
bit_and-zero_rounds r zero h = zero-bit_and 0
bit_and-zero_rounds zero (suc x) h = absurd (omega arith)
bit_and-zero_rounds (suc r) (suc x) h =
    omega (arith, bit_and_digit (suc x) 0, bit_and-zero_rounds r (suc x / 2) (omega arith))

bit_and-zero : (x : ℕ) → bit_and x 0 ≡ 0
bit_and-zero x = bit_and-zero_rounds x x (omega arith)

bit_or-zero_rounds : (r x : ℕ) → x ≤ r → bit_or x 0 ≡ x
bit_or-zero_rounds r zero h = zero-bit_or 0
bit_or-zero_rounds zero (suc x) h = absurd (omega arith)
bit_or-zero_rounds (suc r) (suc x) h =
    omega (arith, bit_or_digit (suc x) 0, bit_or-zero_rounds r (suc x / 2) (omega arith))

bit_or-zero : (x : ℕ) → bit_or x 0 ≡ x
bit_or-zero x = bit_or-zero_rounds x x (omega arith)

bit_and_one : (x : ℕ) → bit_and x 1 ≡ x % 2
bit_and_one x = omega (arith, bit_and_digit x 1, bit_and-zero (x / 2))

bit_and_three : (x : ℕ) → bit_and x 3 ≡ x % 4
bit_and_three x = omega (arith, bit_and_digit x 3, bit_and_one (x / 2))

-- `x & 0x07`
pub bit_and_low3 : (x : ℕ) → bit_and x 7 ≡ x % 8
bit_and_low3 x = omega (arith, bit_and_digit x 7, bit_and_three (x / 2))

bit_and_low5 : (x : ℕ) → bit_and x 31 ≡ x % 32
bit_and_low5 x =
    omega (arith, bit_and_digit x 31, bit_and_digit (x / 2) 15, bit_and_low3 (x / 2 / 2))

-- `x & 0x7F`
pub bit_and_low7 : (x : ℕ) → bit_and x 127 ≡ x % 128
bit_and_low7 x =
    omega (arith, bit_and_digit x 127, bit_and_digit (x / 2) 63, bit_and_low5 (x / 2 / 2))

bit_and_eight : (x : ℕ) → bit_and x 8 ≡ x / 8 % 2 * 8
bit_and_eight x = omega (
  arith,
  bit_and_digit x 8,
  bit_and_digit (x / 2) 4,
  bit_and_digit (x / 2 / 2) 2,
  bit_and_one (x / 2 / 2 / 2),
)

-- `x & 0x80`
pub bit_and_bit7 : (x : ℕ) → bit_and x 128 ≡ x / 128 % 2 * 128
bit_and_bit7 x = omega (
  arith,
  bit_and_digit x 128,
  bit_and_digit (x / 2) 64,
  bit_and_digit (x / 2 / 2) 32,
  bit_and_digit (x / 2 / 2 / 2) 16,
  bit_and_eight (x / 2 / 2 / 2 / 2),
)

or_double : (v y : ℕ) → bit_or (v / 2) y ≡ v / 2 + y → bit_or v (y * 2) ≡ v + y * 2
or_double v y h =
    let e : y * 2 / 2 ≡ y = omega arith in omega (arith, rw e at (bit_or_digit v (y * 2)))

pow_double : (x s : ℕ) → x * 2 ^ suc s ≡ x * 2 ^ s * 2
pow_double x s = rw pow-suc (rw mul_assoc)

-- A value below the shift and a shifted one have no digit in common: `v | x << s`.
pub bit_or-shifted : (s v x : ℕ) → v < 2 ^ s → bit_or v (x * 2 ^ s) ≡ v + x * 2 ^ s
bit_or-shifted zero zero x h = omega (arith, zero-bit_or (x * 1))
bit_or-shifted zero (suc v) x h = absurd (omega arith)
bit_or-shifted (suc s) v x h =
    let low : v / 2 < 2 ^ s = omega (arith, rw pow-suc at h) in
    rw pow_double (or_double v (x * 2 ^ s) (bit_or-shifted s (v / 2) x low))

or_low_digit : (v y : ℕ) → bit_or v (y / 2) ≡ v + y / 2 → bit_or (v * 2) y ≡ v * 2 + y
or_low_digit v y h =
    let e : v * 2 / 2 ≡ v = omega arith in omega (arith, rw e at (bit_or_digit (v * 2) y))

-- `v << 3 | kind`
pub bit_or-low3 : (v kind : ℕ) → kind < 8 → bit_or (v * 8) kind ≡ v * 8 + kind
bit_or-low3 v kind h =
    let none_left : kind / 2 / 2 / 2 ≡ 0 = omega arith in
    let top : bit_or v (kind / 2 / 2 / 2) ≡ v + kind / 2 / 2 / 2 =
      rw none_left (omega (arith, bit_or-zero v)) in
    let e : v * 8 ≡ v * 2 * 2 * 2 = omega arith in
    rw e (or_low_digit _ kind (or_low_digit _ (kind / 2) (or_low_digit v (kind / 2 / 2) top)))

-- `byte | 0x80`
pub bit_or-bit7 : (byte : ℕ) → byte < 128 → bit_or byte 128 ≡ byte + 128
bit_or-bit7 byte h = bit_or-shifted 7 byte 1 h
