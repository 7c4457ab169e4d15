-- ===== src/Base/Decimal.antt =====
-- Numbers as decimal text: `str(n)`, and `int(text)` for ASCII text. Python's `int` also reads a
-- minus sign, and the digits of other scripts: here they are refused.
use tine.Base.Tests.{ltb, leb, ◌==◌, if◌then◌else◌, Bool-cases}
use tine.Base.Lists.{All, All-append}
use tine.Base.Text.{Text}
use Prim.Native.Nat.{ℕ, zero, suc, ◌+◌, ◌-◌, ◌*◌, ◌/◌, ◌%◌, ◌≤◌, ◌<◌}
use mathlib.Core.Path.{◌≡◌, refl, sym, ap, ◌∙◌}
use mathlib.Core.Bool.{Bool, true, false, ◌&&◌, ◌||◌}
use mathlib.Core.Logic.{inl, inr}
use mathlib.Core.Option.{Option, none, some}
use mathlib.Core.List.{[], ◌∷◌, ◌++◌, append-nil, append_assoc}
use native.Mathlib.Omega.{arith}

unfoldable pub decimal_in : ℕ → ℕ → Text
decimal_in zero n = []
decimal_in (suc fuel) n =
    let rest = decimal_in fuel (n / 10) in
    if ltb n 10 then (b'0' + n) ∷ [] else rest ++ (b'0' + n % 10) ∷ []

-- `str(n)`: a round takes a digit, so one more round than `n` is enough.
unfoldable pub decimal : ℕ → Text
unfolding decimal_in
decimal n = decimal_in (suc n) n

abbrev is_space : ℕ → Bool
is_space c =
    (leb 9 c && leb c 13)
    || (leb 28 c && leb c 32)
    || (c == 0x85)
    || (c == 0xa0)
    || (c == 0x1680)
    || (leb 0x2000 c && leb c 0x200a)
    || (c == 0x2028)
    || (c == 0x2029)
    || (c == 0x202f)
    || (c == 0x205f)
    || (c == 0x3000)

abbrev pub is_digit : ℕ → Bool
is_digit c = leb b'0' c && leb c b'9'

-- The text behind the digits: spaces alone.
unfoldable pub only_spaces : Text → Bool
only_spaces [] = true
only_spaces (c ∷ cs) = is_space c && only_spaces cs

-- The digits read so far, and the text behind them: more digits, an underscore that a digit must
-- follow, or spaces alone.
unfoldable pub int_digits : Bool → ℕ → Text → Option ℕ
int_digits digit_due n [] = if digit_due then none else some n
int_digits digit_due n (c ∷ cs) =
    let more = int_digits false (n * 10 + (c - b'0')) cs in
    let grouped = int_digits true n cs in
    if is_digit c
    then more
    else if digit_due
    then none
    else if c == b'_'
    then grouped
    else if only_spaces (c ∷ cs)
    then some n
    else none

-- `int(text)`
unfoldable pub int_text : Text → Option ℕ
unfolding int_digits
int_text [] = none
int_text (c ∷ cs) =
    let rest = int_text cs in
    if is_space c
    then rest
    else if c == b'+'
    then int_digits true 0 cs
    else int_digits true 0 (c ∷ cs)

int_digits-decimal_in :
    (fuel n : ℕ) (due : Bool) (rest : Text)
    → n < fuel
    → int_digits due 0 (decimal_in fuel n ++ rest) ≡ int_digits false n rest
unfolding int_digits decimal_in
int_digits-decimal_in zero n due rest h = absurd (omega arith)
int_digits-decimal_in (suc fuel) n due rest h = elim (Bool-cases (ltb n 10)) [
  | inl e ↦ rw e (ground (arith, e))
  | inr e ↦
      let high =
        int_digits-decimal_in fuel (n / 10) due ((b'0' + n % 10) ∷ rest) (ground (arith, e)) in
      rw (e, append_assoc (decimal_in fuel (n / 10)) ((b'0' + n % 10) ∷ []) rest)
        (high ∙ ground arith)
]

-- A number's text starts with a digit.
decimal_in-head :
    (fuel n : ℕ) (rest : Text)
    → n < fuel
    → (c : ℕ) × (cs : Text) × (decimal_in fuel n ++ rest ≡ c ∷ cs) × (is_digit c ≡ true)
unfolding decimal_in
decimal_in-head zero n rest h = absurd (omega arith)
decimal_in-head (suc fuel) n rest h = elim (Bool-cases (ltb n 10)) [
  | inl e ↦ (b'0' + n, rest, rw e refl, ground (arith, e))
  | inr e ↦
      let (c, cs, split, digit) =
        decimal_in-head fuel (n / 10) ((b'0' + n % 10) ∷ rest) (ground (arith, e)) in
      (
        c,
        cs,
        rw (e, append_assoc (decimal_in fuel (n / 10)) ((b'0' + n % 10) ∷ []) rest) split,
        digit,
      )
]

digit_bounds : (c : ℕ) → is_digit c ≡ true → (48 ≤ c) × (c ≤ 57)
digit_bounds c h = ground (arith, h)

space_far : (c low high : ℕ) → c < low → (leb low c && leb c high) ≡ false
space_far c low high h = ground arith

space_near : (c low high : ℕ) → high < c → (leb low c && leb c high) ≡ false
space_near c low high h = ground arith

other : (c d : ℕ) → c < d → (c == d) ≡ false
other c d h = ground arith

digit_no_space : (c : ℕ) → is_digit c ≡ true → (is_space c ≡ false) × ((c == b'+') ≡ false)
digit_no_space c h =
    let (low, high) = digit_bounds c h in
    (
      rw (
        space_near c 9 13 (omega arith),
        space_near c 28 32 (omega arith),
        other c 0x85 (omega arith),
        other c 0xa0 (omega arith),
        other c 0x1680 (omega arith),
        space_far c 0x2000 0x200a (omega arith),
        other c 0x2028 (omega arith),
        other c 0x2029 (omega arith),
        other c 0x202f (omega arith),
        other c 0x205f (omega arith),
        other c 0x3000 (omega arith),
      ),
      ground arith,
    )

int_text-digit :
    (c : ℕ) (cs : Text) → is_digit c ≡ true → int_text (c ∷ cs) ≡ int_digits true 0 (c ∷ cs)
unfolding int_text
int_text-digit c cs h = let (space, plus) = digit_no_space c h in rw (space, plus)

-- A number is read back from its text.
pub int_text-decimal : (n : ℕ) → int_text (decimal n) ≡ some n
unfolding decimal
int_text-decimal n =
    let (c, cs, split, digit) = decimal_in-head (suc n) n [] (omega arith) in
    let whole : decimal_in (suc n) n ≡ c ∷ cs = rw append-nil at split in
    ap int_text whole
    ∙ int_text-digit c cs digit
    ∙ ap (int_digits true 0) (sym split)
    ∙ int_digits-decimal_in (suc n) n true [] (omega arith)
    ∙ unfold int_digits in refl

abbrev pub AreDigits : Text → Type 0
AreDigits = All (λ (c : ℕ). is_digit c ≡ true)

AreDigits-append : (xs ys : Text) → AreDigits xs → AreDigits ys → AreDigits (xs ++ ys)
AreDigits-append = All-append (λ (c : ℕ). is_digit c ≡ true)

decimal_in-AreDigits : (fuel n : ℕ) → AreDigits (decimal_in fuel n)
unfolding decimal_in
decimal_in-AreDigits zero n = tt
decimal_in-AreDigits (suc fuel) n = elim (Bool-cases (ltb n 10)) [
  | inl e ↦ rw e (ground (arith, e), tt)
  | inr e ↦ rw e (
      AreDigits-append (decimal_in fuel (n / 10)) ((b'0' + n % 10) ∷ [])
        (decimal_in-AreDigits fuel (n / 10)) (ground arith, tt))
]

pub decimal-AreDigits : (n : ℕ) → AreDigits (decimal n)
unfolding decimal
decimal-AreDigits n = decimal_in-AreDigits (suc n) n
