-- ===== src/Image/Version/Progress.antt =====
-- image/version.py: every round that goes on has taken a character of the left text, so the loop ends.
use tine.Base.{
  ℕ, zero, suc, ◌+◌, ◌≤◌, ◌<◌, Bool, true, false, ◌||◌, ◌≡◌, refl, sym, subst, ◌∙◌, ◌⊎◌, inl, inr,
  some, [], ◌∷◌, length, is_nil, ◌==◌, Bool-cases, arith,
}
use tine.Base.Text.{Text}
use tine.Image.Version.{
  Sign, Step, is_digit, is_letter, is_valid, skip_separators, prefix_of, behind_prefix, has, marker,
  ends, numbers, letters, has_digits, runs, and_then, round, compare_in, compare,
}

abbrev starts : (ℕ → Bool) → Text → Bool
starts test [] = false
starts test (c ∷ value) = test c

-- The text got shorter, or it is still the same and is not one of those that the step takes from.
abbrev Passes : (Text → Bool) → Text → Text → Type 0
Passes takes left left' = (length left' < length left) ⊎ ((left' ≡ left) × (takes left ≡ false))

-- Where the step goes on, it goes on like that.
abbrev Through : (Text → Bool) → Text → Step → Type 0
Through takes left step =
    (left' right' : Text) → step ≡ Step.onward left' right' → Passes takes left left'

skip_separators_le :
    (value : Text)
    → (length (skip_separators value) ≤ length value)
      × (is_nil (skip_separators value) || starts is_valid (skip_separators value) ≡ true)
unfolding skip_separators
skip_separators_le [] = (ground arith, refl)
skip_separators_le (c ∷ value) = elim (Bool-cases (is_valid c)) [
  | inl h ↦ (ground (arith, skip_separators_le value), ground (arith, h))
  | inr h ↦ (ground (arith, skip_separators_le value), ground (arith, h, skip_separators_le value))
]

behind_prefix_lem :
    (alphabet : ℕ → Bool) (value : Text) → (length (behind_prefix alphabet value) ≤ length value)
unfolding behind_prefix
behind_prefix_lem alphabet [] = ground arith
behind_prefix_lem alphabet (c ∷ value) = ground (arith, behind_prefix_lem alphabet value)

behind_prefix-Passes :
    (alphabet : ℕ → Bool) (value : Text)
    → Passes (starts alphabet) value (behind_prefix alphabet value)
unfolding behind_prefix
behind_prefix-Passes alphabet [] = inr (refl, refl)
behind_prefix-Passes alphabet (c ∷ value) = elim (Bool-cases (alphabet c)) [
  | inl h ↦ inl (ground (arith, h, behind_prefix_lem alphabet value))
  | inr h ↦ inr (ground (arith, h), h)
]

marker-Through : (m : ℕ) (left right : Text) → Through (has m) left (marker m left right)
marker-Through m [] right left' right' h = ground arith
marker-Through m (c ∷ left) right left' right' h = elim (Bool-cases (c == m)) [
  | inl same ↦ inl (ground (arith, h, same))
  | inr other ↦ inr (ground (arith, h, other), other)
]

ends-Through : (left right : Text) → Through is_nil left (ends left right)
ends-Through [] [] left' right' h = absurd (cc)
ends-Through [] (d ∷ right) left' right' h = absurd (cc)
ends-Through (c ∷ left) [] left' right' h = absurd (cc)
ends-Through (c ∷ left) (d ∷ right) left' right' h = inr (cc, refl)

numbers-eq-onward :
    (left right left' right' : Text)
    → numbers left right ≡ Step.onward left' right'
    → left' ≡ behind_prefix is_digit left
numbers-eq-onward left right left' right' h = ground (arith, h)

letters-eq-onward :
    (left right left' right' : Text)
    → letters left right ≡ Step.onward left' right'
    → left' ≡ behind_prefix is_letter left
letters-eq-onward left right left' right' h = ground (arith, h)

-- A text that starts with a digit or a letter.
abbrev starts_run : Text → Bool
starts_run value = starts is_digit value || starts is_letter value

has_digits_lem : (value : Text) → has_digits value ≡ starts is_digit value
unfolding prefix_of
has_digits_lem [] = refl
has_digits_lem (c ∷ value) = ground arith

behind-Passes :
    (value rest : Text)
    → (rest ≡ behind_prefix is_digit value) × (starts is_digit value ≡ true)
      ⊎ (rest ≡ behind_prefix is_letter value) × (starts is_digit value ≡ false)
    → Passes starts_run value rest
behind-Passes value rest (inl (same, starting)) = elim (behind_prefix-Passes is_digit value) [
  | inl less ↦ inl (ground (arith, same, less))
  | inr kept ↦ absurd (cc)
]
behind-Passes value rest (inr (same, other)) = elim (behind_prefix-Passes is_letter value) [
  | inl less ↦ inl (ground (arith, same, less))
  | inr kept ↦ inr (same ∙ kept.0, ground (arith, other, kept.1))
]

runs-Through : (left right : Text) → Through starts_run left (runs left right)
runs-Through left right left' right' h = elim (Bool-cases (has_digits left)) [
  | inl l ↦
      let same = numbers-eq-onward left right left' right' (ground (arith, h, l)) in
      behind-Passes left left' (inl (same, sym (has_digits_lem left) ∙ l))
  | inr l ↦
      let same = letters-eq-onward left right left' right' (ground (arith, h, l)) in
      behind-Passes left left' (inr (same, sym (has_digits_lem left) ∙ l))
]

abbrev either : (Text → Bool) → (Text → Bool) → Text → Bool
either first second value = first value || second value

either-Passes :
    (first second : Text → Bool) (left middle right : Text)
    → Passes first left middle
    → Passes second middle right
    → Passes (either first second) left right
either-Passes first second left middle right (inl p) (inl q) = inl (omega (arith, p, q))
either-Passes first second left middle right (inl p) (inr q) = inl (ground (arith, p, q.0))
either-Passes first second left middle right (inr p) (inl q) = inl (ground (arith, q, p.0))
either-Passes first second left middle right (inr p) (inr q) =
    inr (q.0 ∙ p.0, ground (arith, p.1, subst (λ t. second t ≡ false) p.0 q.1))

and_then-Through :
    (first second : Text → Bool) (left : Text) (step : Step) (next : Text → Text → Step)
    → Through first left step
    → ((l r : Text) → Through second l (next l r))
    → Through (either first second) left (and_then step next)
and_then-Through first second left (Step.decided sign) next f g left' right' h = absurd (cc)
and_then-Through first second left (Step.onward l r) next f g left' right' h =
    either-Passes first second left l left' (f l r refl) (g l r left' right' h)

-- What the steps before the digits and letters take from.
abbrev markers : Text → Bool
markers = either (either (either (either (has b'~') is_nil) (has b'-')) (has b'^')) (has b'.')

takes_valid :
    (value : Text)
    → (is_nil value || starts is_valid value) ≡ true
    → either markers starts_run value ≡ true
takes_valid [] h = refl
takes_valid (c ∷ value) h = ground (arith, h)

-- A round takes a character of the left text where it goes on.
pub round-shrinks :
    (left right left' right' : Text)
    → round left right ≡ Step.onward left' right'
    → length left' < length left
unfolding round
round-shrinks left right left' right' h =
    let value = skip_separators left in
    let step1 = marker-Through b'~' value (skip_separators right) in
    let step2 = and_then-Through (has b'~') is_nil value _ _ step1 ends-Through in
    let step3 =
      and_then-Through (either (has b'~') is_nil) _ value _ _ step2 (marker-Through b'-') in
    let step4 =
      and_then-Through (either (either (has b'~') is_nil) (has b'-')) _ value _ _ step3
        (marker-Through b'^') in
    let step5 =
      and_then-Through (either (either (either (has b'~') is_nil) (has b'-')) (has b'^')) _ value _
        _ step4 (marker-Through b'.') in
    let (bound, valid) = skip_separators_le left in
    elim (and_then-Through markers _ value _ _ step5 runs-Through left' right' h) [
      | inl less ↦ omega (arith, less, bound)
      | inr kept ↦ absurd (let taken = takes_valid value valid in cc)
    ]

pub step_cases :
    (step : Step)
    → ((sign : Sign) × (step ≡ Step.decided sign))
      ⊎ ((left right : Text) × (step ≡ Step.onward left right))
step_cases (Step.decided sign) = inl (sign, refl)
step_cases (Step.onward left right) = inr (left, right, refl)

compare_in-decides :
    (rounds : ℕ) (left right : Text)
    → length left < rounds
    → (sign : Sign) × (compare_in rounds left right ≡ some sign)
unfolding compare_in
compare_in-decides zero left right h = absurd (omega (arith, h))
compare_in-decides (suc rounds) left right h = elim (step_cases (round left right)) [
  | inl (sign, same) ↦ (sign, rw same)
  | inr (left', right', same) ↦
      let less = round-shrinks left right left' right' same in
      let (sign, later) = compare_in-decides rounds left' right' (omega (arith, h, less)) in
      (sign, cc)
]

-- Enough rounds are as good as more.
pub compare_in-enough :
    (rounds rounds' : ℕ) (left right : Text)
    → length left < rounds
    → length left < rounds'
    → compare_in rounds left right ≡ compare_in rounds' left right
unfolding compare_in
compare_in-enough zero rounds' left right h k = absurd (omega (arith, h))
compare_in-enough (suc rounds) zero left right h k = absurd (omega (arith, k))
compare_in-enough (suc rounds) (suc rounds') left right h k = elim (step_cases (round left right)) [
  | inl (sign, same) ↦ rw same
  | inr (left', right', same) ↦
      let less = round-shrinks left right left' right' same in
      let later =
        compare_in-enough rounds rounds' left' right' (omega (arith, h, less))
          (omega (arith, k, less)) in
      cc
]

-- The loop of `compare` ends with a sign, whatever the texts hold.
pub compare-eq-some : (left right : Text) → (sign : Sign) × (compare left right ≡ some sign)
unfolding compare
compare-eq-some left right =
    compare_in-decides (suc (length left + length right)) left right (omega arith)
