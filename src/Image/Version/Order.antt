-- ===== src/Image/Version/Order.antt =====
-- image/version.py: comparing versions orders them.
use tine.Base.{
  ℕ, zero, suc, ◌+◌, ◌<◌, Bool, true, false, ◌&&◌, ◌≡◌, refl, sym, ap, subst, ◌∙◌, Option, some,
  length, if◌then◌else◌, arith,
}
use tine.Base.Text.{Text}
use mathlib.Core.Option
use tine.Image.Version.{
  Sign, Step, is_digit, is_letter, skip_separators, prefix_of, behind_prefix, significant, marker,
  ends, numbers, letters, has_digits, runs, round, follow, compare_in, compare,
}
use tine.Image.Version.Progress.{compare_in-enough, compare-eq-some}
use tine.Image.Version.Chains.{
  mirror, Chained, Turns, Chains, Chained-greater, Chained-less, less-Chained, mirror_step,
  marker-Turns, marker-Chains, ends-Turns, ends-Chains, and_then-Turns, and_then-Chains,
}
use tine.Image.Version.Keys.{
  by_text, by_text-Turns, by_text-Chains, by_length-Turns, by_length-Chains,
}

-- The sign that two signs make, where neither is `greater`.
abbrev pub lower : Sign → Sign → Sign
lower Sign.less next = Sign.less
lower Sign.same next = next
lower Sign.greater next = Sign.greater

abbrev go_on : (ℕ → Bool) → Text → Text → Step
go_on alphabet left right = Step.onward (behind_prefix alphabet left) (behind_prefix alphabet right)

go_on-Turns : (alphabet : ℕ → Bool) → Turns (go_on alphabet)
go_on-Turns alphabet left right = refl

go_on-Chains : (alphabet : ℕ → Bool) → Chains (go_on alphabet)
go_on-Chains alphabet left middle right = (refl, refl)

abbrev number : Text → Text
number value = significant (prefix_of is_digit value)

abbrev by_digits : Text → Text → Step
by_digits = by_text number (go_on is_digit)

numbers-Turns : Turns numbers
numbers-Turns =
    by_length-Turns number by_digits (by_text-Turns number (go_on is_digit) (go_on-Turns is_digit))

numbers-Chains : Chains numbers
numbers-Chains =
    by_length-Chains number by_digits
      (by_text-Chains number (go_on is_digit) (go_on-Chains is_digit))

letters-Turns : Turns letters
letters-Turns = by_text-Turns (prefix_of is_letter) (go_on is_letter) (go_on-Turns is_letter)

letters-Chains : Chains letters
letters-Chains = by_text-Chains (prefix_of is_letter) (go_on is_letter) (go_on-Chains is_letter)

-- `runs`, by which of the texts have digits.
abbrev runs_by : Bool → Bool → Text → Text → Step
runs_by l r left right =
    if l && r
    then numbers left right
    else if l
    then Step.decided Sign.greater
    else if r
    then Step.decided Sign.less
    else letters left right

runs_by-Turns :
    (l r : Bool) (left right : Text) → runs_by r l right left ≡ mirror_step (runs_by l r left right)
runs_by-Turns true true left right = numbers-Turns left right
runs_by-Turns true false left right = refl
runs_by-Turns false true left right = refl
runs_by-Turns false false left right = letters-Turns left right

runs_by-Chains :
    (l m r : Bool) (left middle right : Text)
    → Chained (runs_by l m left middle) (runs_by m r middle right) (runs_by l r left right)
runs_by-Chains true true true left middle right = numbers-Chains left middle right
runs_by-Chains true true false left middle right = Chained-greater (numbers left middle) _
runs_by-Chains true false r left middle right = tt
runs_by-Chains false true true left middle right = less-Chained (numbers middle right)
runs_by-Chains false true false left middle right = tt
runs_by-Chains false false true left middle right = Chained-less (letters left middle)
runs_by-Chains false false false left middle right = letters-Chains left middle right

runs-Turns : Turns runs
runs-Turns left right = runs_by-Turns (has_digits left) (has_digits right) left right

runs-Chains : Chains runs
runs-Chains left middle right =
    runs_by-Chains (has_digits left) (has_digits middle) (has_digits right) left middle right

round-Turns : Turns round
unfolding round
round-Turns left right = and_then-Turns runs runs-Turns _ _ (
    and_then-Turns (marker b'.') (marker-Turns b'.') _ _ (
      and_then-Turns (marker b'^') (marker-Turns b'^') _ _ (
        and_then-Turns (marker b'-') (marker-Turns b'-') _ _ (
          and_then-Turns ends ends-Turns _ _
            (marker-Turns b'~' (skip_separators left) (skip_separators right))))))

round-Chains : Chains round
unfolding round
round-Chains left middle right = and_then-Chains runs runs-Chains _ _ _ (
    and_then-Chains (marker b'.') (marker-Chains b'.') _ _ _ (
      and_then-Chains (marker b'^') (marker-Chains b'^') _ _ _ (
        and_then-Chains (marker b'-') (marker-Chains b'-') _ _ _ (
          and_then-Chains ends ends-Chains _ _ _ (
            marker-Chains b'~' (skip_separators left) (skip_separators middle)
              (skip_separators right))))))

follow-mirror :
    (step : Step) (next next' : Text → Text → Option Sign)
    → ((l r : Text) → next' r l ≡ Option.map mirror (next l r))
    → follow (mirror_step step) next' ≡ Option.map mirror (follow step next)
follow-mirror (Step.decided sign) next next' h = refl
follow-mirror (Step.onward left right) next next' h = h left right

compare_in-mirror :
    (rounds : ℕ) (left right : Text)
    → compare_in rounds right left ≡ Option.map mirror (compare_in rounds left right)
unfolding compare_in
compare_in-mirror zero left right = refl
compare_in-mirror (suc rounds) left right = rw (round-Turns left right) (
    follow-mirror (round left right) (compare_in rounds) (compare_in rounds)
      (compare_in-mirror rounds))

compare_in-compare :
    (rounds : ℕ) (left right : Text)
    → length left < rounds
    → compare_in rounds left right ≡ compare left right
unfolding compare
compare_in-compare rounds left right h =
    compare_in-enough rounds (suc (length left + length right)) left right h (omega arith)

compare_turned : (left right : Text) → compare right left ≡ Option.map mirror (compare left right)
unfolding compare
compare_turned left right =
    let rounds = suc (length right + length left) in
    compare_in-mirror rounds left right
    ∙ ap (Option.map mirror) (compare_in-compare rounds left right (omega arith))

-- Whatever the texts hold, the loop of `compare` ends with a sign, and with the mirrored sign where the texts
-- are swapped.
pub compare-mirror :
    (left right : Text)
    → (sign : Sign) × (compare left right ≡ some sign) × (compare right left ≡ some (mirror sign))
compare-mirror left right =
    let (sign, found) = compare-eq-some left right in
    (sign, found, compare_turned left right ∙ ap (Option.map mirror) found)

abbrev pub at_most : Sign → Bool
at_most Sign.less = true
at_most Sign.same = true
at_most Sign.greater = false

-- What comparing texts that meet makes, where neither sign is `greater`.
abbrev Meets : (Text → Text → Option Sign) → Type 0
Meets next =
    (left middle right : Text) (s t : Sign)
    → next left middle ≡ some s
    → next middle right ≡ some t
    → at_most s ≡ true
    → at_most t ≡ true
    → next left right ≡ some (lower s t)

follow-Meets :
    (next : Text → Text → Option Sign)
    → Meets next
    → (first second third : Step) → Chained first second third
    → (s t : Sign) → follow first next ≡ some s
    → follow second next ≡ some t
    → at_most s ≡ true
    → at_most t ≡ true
    → follow third next ≡ some (lower s t)
follow-Meets next meets (Step.decided Sign.greater) second third c s t h k p q = ground arith
follow-Meets next meets (Step.decided Sign.less) (Step.decided Sign.greater) third c s t h k p q =
    ground arith
follow-Meets next meets (Step.decided Sign.less) (Step.decided Sign.less) third c s t h k p q =
    ground arith
follow-Meets next meets (Step.decided Sign.less) (Step.decided Sign.same) third c s t h k p q =
    ground arith
follow-Meets next meets (Step.decided Sign.less) (Step.onward middle right) third c s t h k p q =
    ground arith
follow-Meets next meets (Step.decided Sign.same) (Step.decided Sign.greater) third c s t h k p q =
    ground arith
follow-Meets next meets (Step.decided Sign.same) (Step.decided Sign.less) third c s t h k p q =
    ground arith
follow-Meets next meets (Step.decided Sign.same) (Step.decided Sign.same) third c s t h k p q =
    ground arith
follow-Meets next meets (Step.decided Sign.same) (Step.onward middle right) third c s t h k p q =
    absurd c
follow-Meets next meets (Step.onward left middle) (Step.decided Sign.greater) third c s t h k p q =
    ground arith
follow-Meets next meets (Step.onward left middle) (Step.decided Sign.less) third c s t h k p q =
    ground arith
follow-Meets next meets (Step.onward left middle) (Step.decided Sign.same) third c s t h k p q =
    absurd c
follow-Meets next meets (Step.onward left middle) (Step.onward middle' right) third c s t h k p q =
    rw c.1 (meets left middle right s t h (subst (λ m. next m right ≡ some t) c.0 k) p q)

compare_in-Meets : (rounds : ℕ) → Meets (compare_in rounds)
unfolding compare_in
compare_in-Meets zero left middle right s t h k p q = absurd (cc)
compare_in-Meets (suc rounds) left middle right s t h k p q =
    follow-Meets (compare_in rounds) (compare_in-Meets rounds) (round left middle)
      (round middle right) (round left right) (round-Chains left middle right) s t h k p q

-- Where a version is at most the next, and that is at most a third, the first is at most the third: it is
-- lower where either of them is, and compares the same where both do.
pub compare-lower :
    (left middle right : Text) (s t : Sign)
    → compare left middle ≡ some s
    → compare middle right ≡ some t
    → at_most s ≡ true
    → at_most t ≡ true
    → compare left right ≡ some (lower s t)
compare-lower left middle right s t h k p q =
    let rounds = suc (length left + length middle) in
    let h' = compare_in-compare rounds left middle (omega arith) ∙ h in
    let k' = compare_in-compare rounds middle right (omega arith) ∙ k in
    sym (compare_in-compare rounds left right (omega arith))
    ∙ compare_in-Meets rounds left middle right s t h' k' p q
