-- ===== src/Image/Version/Chains.antt =====
-- image/version.py: steps that turn round and chain, as the steps of an order do.
use tine.Base.{ℕ, Bool, true, false, ◌&&◌, ◌≡◌, refl, [], ◌∷◌, not, if◌then◌else◌}
use tine.Base.Text.{Text}
use tine.Image.Version.{Sign, Step, has, behind, marker, ends, and_then}

-- The sign the other way round.
abbrev pub mirror : Sign → Sign
mirror Sign.less = Sign.greater
mirror Sign.same = Sign.same
mirror Sign.greater = Sign.less

-- The sign that two signs make, where neither is `greater`.
abbrev pub lower : Sign → Sign → Sign
lower Sign.less next = Sign.less
lower Sign.same next = next
lower Sign.greater next = Sign.greater

abbrev pub mirror_step : Step → Step
mirror_step (Step.decided sign) = Step.decided (mirror sign)
mirror_step (Step.onward left right) = Step.onward right left

-- What a third step is, where two steps are about texts that meet.
abbrev pub Chained : Step → Step → Step → Type 0
Chained (Step.decided Sign.greater) second third = Unit
Chained (Step.decided Sign.less) (Step.decided Sign.greater) third = Unit
Chained (Step.decided Sign.less) (Step.decided Sign.less) third = third ≡ Step.decided Sign.less
Chained (Step.decided Sign.less) (Step.decided Sign.same) third = third ≡ Step.decided Sign.less
Chained (Step.decided Sign.less) (Step.onward left right) third = third ≡ Step.decided Sign.less
Chained (Step.decided Sign.same) (Step.decided Sign.greater) third = Unit
Chained (Step.decided Sign.same) (Step.decided Sign.less) third = third ≡ Step.decided Sign.less
Chained (Step.decided Sign.same) (Step.decided Sign.same) third = third ≡ Step.decided Sign.same
Chained (Step.decided Sign.same) (Step.onward left right) third = ⊥
Chained (Step.onward left middle) (Step.decided Sign.greater) third = Unit
Chained (Step.onward left middle) (Step.decided Sign.less) third = third ≡ Step.decided Sign.less
Chained (Step.onward left middle) (Step.decided Sign.same) third = ⊥
Chained (Step.onward left middle) (Step.onward middle' right) third =
    (middle' ≡ middle) × (third ≡ Step.onward left right)

-- A comparison of texts that turns round and chains.
abbrev pub Turns : (Text → Text → Step) → Type 0
Turns f = (left right : Text) → f right left ≡ mirror_step (f left right)

abbrev pub Chains : (Text → Text → Step) → Type 0
Chains f = (left middle right : Text) → Chained (f left middle) (f middle right) (f left right)

pub Chained-greater : (first third : Step) → Chained first (Step.decided Sign.greater) third
Chained-greater (Step.decided Sign.less) third = tt
Chained-greater (Step.decided Sign.same) third = tt
Chained-greater (Step.decided Sign.greater) third = tt
Chained-greater (Step.onward left right) third = tt

pub Chained-less : (first : Step) → Chained first (Step.decided Sign.less) (Step.decided Sign.less)
Chained-less (Step.decided Sign.less) = refl
Chained-less (Step.decided Sign.same) = refl
Chained-less (Step.decided Sign.greater) = tt
Chained-less (Step.onward left right) = refl

pub less-Chained :
    (second : Step) → Chained (Step.decided Sign.less) second (Step.decided Sign.less)
less-Chained (Step.decided Sign.less) = refl
less-Chained (Step.decided Sign.same) = refl
less-Chained (Step.decided Sign.greater) = tt
less-Chained (Step.onward left right) = refl

-- `marker`, by what the texts have.
abbrev marker_by : Bool → Bool → Text → Text → Step
marker_by l r left right =
    if l && not r
    then Step.decided Sign.less
    else if r && not l
    then Step.decided Sign.greater
    else Step.onward (behind l left) (behind r right)

marker_by-Turns :
    (l r : Bool) (left right : Text)
    → marker_by r l right left ≡ mirror_step (marker_by l r left right)
marker_by-Turns true true left right = refl
marker_by-Turns true false left right = refl
marker_by-Turns false true left right = refl
marker_by-Turns false false left right = refl

pub marker-Turns : (m : ℕ) → Turns (marker m)
marker-Turns m left right = marker_by-Turns (has m left) (has m right) left right

marker_by-Chains :
    (l m r : Bool) (left middle right : Text)
    → Chained (marker_by l m left middle) (marker_by m r middle right) (marker_by l r left right)
marker_by-Chains true true true left middle right = (refl, refl)
marker_by-Chains true true false left middle right = refl
marker_by-Chains true false true left middle right = tt
marker_by-Chains true false false left middle right = refl
marker_by-Chains false true r left middle right = tt
marker_by-Chains false false true left middle right = tt
marker_by-Chains false false false left middle right = (refl, refl)

pub marker-Chains : (m : ℕ) → Chains (marker m)
marker-Chains m left middle right =
    marker_by-Chains (has m left) (has m middle) (has m right) left middle right

pub ends-Turns : Turns ends
ends-Turns [] [] = refl
ends-Turns [] (d ∷ right) = refl
ends-Turns (c ∷ left) [] = refl
ends-Turns (c ∷ left) (d ∷ right) = refl

pub ends-Chains : Chains ends
ends-Chains [] [] [] = refl
ends-Chains [] [] (e ∷ right) = refl
ends-Chains [] (d ∷ middle) [] = tt
ends-Chains [] (d ∷ middle) (e ∷ right) = refl
ends-Chains (c ∷ left) [] right = tt
ends-Chains (c ∷ left) (d ∷ middle) [] = tt
ends-Chains (c ∷ left) (d ∷ middle) (e ∷ right) = (refl, refl)

pub and_then-Turns :
    (g : Text → Text → Step)
    → Turns g
    → (step step' : Step) → step' ≡ mirror_step step
    → and_then step' g ≡ mirror_step (and_then step g)
and_then-Turns g turn (Step.decided sign) step' h = rw h
and_then-Turns g turn (Step.onward left right) step' h = rw h (turn left right)

pub and_then-Chains :
    (g : Text → Text → Step)
    → Chains g
    → (first second third : Step) → Chained first second third
    → Chained (and_then first g) (and_then second g) (and_then third g)
and_then-Chains g chain (Step.decided Sign.greater) second third h = tt
and_then-Chains g chain (Step.decided Sign.less) (Step.decided Sign.greater) third h = tt
and_then-Chains g chain (Step.decided Sign.less) (Step.decided Sign.less) third h = rw h
and_then-Chains g chain (Step.decided Sign.less) (Step.decided Sign.same) third h = rw h
and_then-Chains g chain (Step.decided Sign.less) (Step.onward middle right) third h =
    rw h (less-Chained (g middle right))
and_then-Chains g chain (Step.decided Sign.same) (Step.decided Sign.greater) third h = tt
and_then-Chains g chain (Step.decided Sign.same) (Step.decided Sign.less) third h = rw h
and_then-Chains g chain (Step.decided Sign.same) (Step.decided Sign.same) third h = rw h
and_then-Chains g chain (Step.decided Sign.same) (Step.onward middle right) third h = absurd h
and_then-Chains g chain (Step.onward left middle) (Step.decided Sign.greater) third h =
    Chained-greater (g left middle) (and_then third g)
and_then-Chains g chain (Step.onward left middle) (Step.decided Sign.less) third h =
    rw h (Chained-less (g left middle))
and_then-Chains g chain (Step.onward left middle) (Step.decided Sign.same) third h = absurd h
and_then-Chains g chain (Step.onward left middle) (Step.onward middle' right) third h =
    rw (h.0, h.1) (chain left middle right)
