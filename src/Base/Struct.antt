-- ===== src/Base/Struct.antt =====
-- What Python's `struct` packs with ">": numbers as a fixed count of bytes, big end first, and byte
-- strings of a fixed width. It raises at a number too large for its field, and so does what it
-- serves here never have: a length below 2 ^ 64.
use native.Mathlib.Nat.{pow-suc}
use tine.Base.Lists.{Bytes, length, All, length-append}
use Prim.Native.Nat.{ℕ, zero, suc, ◌+◌, ◌*◌, ◌/◌, ◌%◌, ◌^◌, ◌<◌}
use mathlib.Core.Path.{◌≡◌, refl, ap, ◌∙◌}
use mathlib.Core.List.{[], ◌∷◌, ◌++◌}
use native.Mathlib.Omega.{arith}

abbrev pub big_endian : ℕ → ℕ → Bytes
big_endian zero n = []
big_endian (suc k) n = big_endian k (n / 256) ++ (n % 256) ∷ []

abbrev pub from_big_endian : ℕ → Bytes → ℕ
from_big_endian acc [] = acc
from_big_endian acc (b ∷ bs) = from_big_endian (acc * 256 + b) bs

-- ">64s" and its like: cut to the width, or filled up with NULs.
abbrev pub fixed_width : ℕ → Bytes → Bytes
fixed_width zero bs = []
fixed_width (suc n) [] = 0 ∷ fixed_width n []
fixed_width (suc n) (b ∷ bs) = b ∷ fixed_width n bs

pub fixed_width-length : (bs : Bytes) → fixed_width (length bs) bs ≡ bs
fixed_width-length [] = refl
fixed_width-length (b ∷ bs) = ap (◌∷◌ b) (fixed_width-length bs)

abbrev pub AreBytes : Bytes → Type 0
AreBytes = All (λ (b : ℕ). b < 256)

pub length-big_endian : (k n : ℕ) → length (big_endian k n) ≡ k
length-big_endian zero n = refl
length-big_endian (suc k) n =
    omega (
      arith,
      length-append (big_endian k (n / 256)) ((n % 256) ∷ []),
      length-big_endian k (n / 256),
    )

from_big_endian-snoc :
    (acc : ℕ) (xs : Bytes) (b : ℕ)
    → from_big_endian acc (xs ++ b ∷ []) ≡ from_big_endian acc xs * 256 + b
from_big_endian-snoc acc [] b = refl
from_big_endian-snoc acc (x ∷ xs) b = from_big_endian-snoc (acc * 256 + x) xs b

pub from_big_endian-big_endian : (k n : ℕ) → n < 256 ^ k → from_big_endian 0 (big_endian k n) ≡ n
from_big_endian-big_endian zero n h = omega (arith, h)
from_big_endian-big_endian (suc k) n h =
    let h' : n < 256 ^ k * 256 = rw pow-suc at h in
    from_big_endian-snoc 0 (big_endian k (n / 256)) (n % 256)
    ∙ omega (arith, from_big_endian-big_endian k (n / 256) (omega arith))

-- The first byte is the highest digit.
big_endian-top :
    (k d m : ℕ) → m < 256 ^ k → d < 256 → big_endian (suc k) (d * 256 ^ k + m) ≡ d ∷ big_endian k m
big_endian-top zero d m h s = ap (λ (b : ℕ). b ∷ []) (omega arith)
big_endian-top (suc k) d m h s =
    let power : 256 ^ suc k ≡ 256 ^ k * 256 = pow-suc 256 k in
    let low : m / 256 < 256 ^ k = omega arith in
    let high : (d * 256 ^ suc k + m) / 256 ≡ d * 256 ^ k + m / 256 = rw power (omega arith) in
    let last : (d * 256 ^ suc k + m) % 256 ≡ m % 256 = rw power (omega arith) in
    rw (high, last) (ap (λ (bs : Bytes). bs ++ (m % 256) ∷ []) (big_endian-top k d (m / 256) low s))

-- How large the number of so many bytes is.
from_big_endian_acc :
    (acc : ℕ) (bs : Bytes) → from_big_endian acc bs ≡ acc * 256 ^ length bs + from_big_endian 0 bs
from_big_endian_acc acc [] = omega arith
from_big_endian_acc acc (b ∷ bs) =
    rw pow-suc
      (omega (arith, from_big_endian_acc (acc * 256 + b) bs, from_big_endian_acc (0 * 256 + b) bs))

digit_lt : (p b r : ℕ) → b < 256 → r < p → (0 + b) * p + r < p * 256
digit_lt p b r h k = grind arith

from_big_endian-lt : (bs : Bytes) → AreBytes bs → from_big_endian 0 bs < 256 ^ length bs
from_big_endian-lt [] h = omega arith
from_big_endian-lt (b ∷ bs) h = rw pow-suc (
    rw (from_big_endian_acc (0 * 256 + b) bs)
      (digit_lt (256 ^ length bs) b (from_big_endian 0 bs) h.0 (from_big_endian-lt bs h.1)))

pub big_endian-from_big_endian :
    (bs : Bytes) → AreBytes bs → big_endian (length bs) (from_big_endian 0 bs) ≡ bs
big_endian-from_big_endian [] h = refl
big_endian-from_big_endian (b ∷ bs) h =
    let low = from_big_endian-lt bs h.1 in
    let split : from_big_endian 0 (b ∷ bs) ≡ b * 256 ^ length bs + from_big_endian 0 bs =
      from_big_endian_acc (0 * 256 + b) bs ∙ omega arith in
    ap (big_endian (suc (length bs))) split
    ∙ big_endian-top (length bs) b (from_big_endian 0 bs) low h.0
    ∙ ap (◌∷◌ b) (big_endian-from_big_endian bs h.1)
