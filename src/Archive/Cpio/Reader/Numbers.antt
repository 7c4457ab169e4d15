-- ===== src/Archive/Cpio/Reader/Numbers.antt =====
-- The numbers of a header of archive/cpio.py, as they are written and as they are read.
use native.Mathlib.Nat.{pow-suc}
use tine.Base.{
  ℕ, zero, suc, ◌+◌, ◌*◌, ◌/◌, ◌%◌, ◌^◌, ◌<◌, ◌≡◌, refl, sym, ap, ◌∙◌, some, List, [], ◌∷◌, ◌++◌,
  append_assoc, Option-cases, inl, inr, All, Bytes, length, take-append_of, drop-append_of, arith,
}
use tine.Archive.Cpio.{hex_digit, hex_digits, hex8, hex_fields}
use tine.Archive.Cpio.Alignment.{FitsField, hex_width-small, length-hex8, length-hex_digits}
use tine.Archive.Cpio.Reader.{hex_value, number_from, number, numbers}

hex_value-hex_digit : (n : ℕ) → n < 16 → hex_value (hex_digit n) ≡ some n
hex_value-hex_digit n h = ground (arith, h)

number_from-snoc :
    (acc : ℕ) (digits : Bytes) (n d c : ℕ)
    → number_from acc digits ≡ some n
    → hex_value c ≡ some d
    → number_from acc (digits ++ c ∷ []) ≡ some (n * 16 + d)
unfolding number_from
number_from-snoc acc [] n d c h k = let same : acc ≡ n = cc in rw (k, same)
number_from-snoc acc (x ∷ digits) n d c h k = elim (Option-cases (hex_value x)) [
  | inl gone ↦ absurd (let h' = rw gone at h in cc)
  | inr (e, here) ↦ rw here (number_from-snoc (acc * 16 + e) digits n d c (rw here at h) k)
]

number_from-hex_digits : (k v : ℕ) → v < 16 ^ k → number_from 0 (hex_digits k v) ≡ some v
unfolding number_from hex_digits
number_from-hex_digits zero v h =
    let none_left : v ≡ 0 = omega (arith, h) in ap some (sym none_left)
number_from-hex_digits (suc k) v h =
    let h' : v < 16 ^ k * 16 = rw pow-suc at h in
    let high = number_from-hex_digits k (v / 16) (omega arith) in
    let low = hex_value-hex_digit (v % 16) (omega arith) in
    let whole : v / 16 * 16 + v % 16 ≡ v = omega arith in
    number_from-snoc 0 (hex_digits k (v / 16)) (v / 16) (v % 16) (hex_digit (v % 16)) high low
    ∙ ap some whole

number-some :
    (digits : Bytes) (v : ℕ)
    → 0 < length digits
    → number_from 0 digits ≡ some v
    → number digits ≡ some v
number-some [] v h k = absurd (omega (arith, h))
number-some (c ∷ digits) v h k = k

number-hex8 : (v : ℕ) → FitsField v → number (hex8 v) ≡ some v
unfolding hex8
number-hex8 v h =
    let wide = hex_width-small v 8 v (omega (arith, h)) in
    let counted = length-hex_digits 8 v in
    rw wide (
      number-some (hex_digits 8 v) v (omega (arith, counted))
        (number_from-hex_digits 8 v (omega (arith, h))))

-- Fields that fit are read back, whatever follows them.
pub numbers-hex_fields :
    (vs : List ℕ) (more : Bytes)
    → All FitsField vs
    → numbers (length vs) (hex_fields vs ++ more) ≡ some vs
unfolding numbers hex_fields
numbers-hex_fields [] more h = refl
numbers-hex_fields (v ∷ vs) more h =
    let counted = length-hex8 v h.0 in
    let rest : Bytes = hex_fields vs ++ more in
    rw (
      append_assoc (hex8 v) (hex_fields vs) more,
      take-append_of 8 (hex8 v) rest counted,
      drop-append_of 8 (hex8 v) rest counted,
      number-hex8 v h.0,
      numbers-hex_fields vs more h.1,
    )
