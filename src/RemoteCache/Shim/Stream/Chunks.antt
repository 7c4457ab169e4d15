-- ===== src/RemoteCache/Shim/Stream/Chunks.antt =====
-- The chunks of a window.
use tine.Base.{
  ℕ, zero, suc, ◌+◌, ◌≤◌, ◌<◌, ◌≡◌, refl, sym, ap, ◌∙◌, inl, inr, true, List, [], ◌∷◌, ◌++◌, Bytes,
  length, take, drop, All, map, ltb, arith, Bool-cases, append-nil, take-append-drop, drop-drop,
}
use tine.RemoteCache.Reapi.Stream.{ReadResponse}
use tine.RemoteCache.Shim.Stream.{range_from, or_zero, chunk, chunks}

-- What the chunks carry, in their order.
unfoldable pub joined : List ReadResponse → Bytes
joined [] = []
joined (r ∷ rs) = r.content ++ joined rs

take-drop :
    (step start : ℕ) (w : Bytes) → take step (drop start w) ++ drop (start + step) w ≡ drop start w
take-drop step start w =
    ap (◌++◌ (take step (drop start w))) (sym (drop-drop step start w))
    ∙ take-append-drop step (drop start w)

drop_past : (n : ℕ) (w : Bytes) → length w ≤ n → drop n w ≡ []
drop_past zero [] h = refl
drop_past zero (x ∷ w) h = absurd (omega arith)
drop_past (suc n) [] h = refl
drop_past (suc n) (x ∷ w) h = drop_past n w (omega arith)

length-take_most : (n : ℕ) (w : Bytes) → length (take n w) ≤ n
length-take_most zero w = omega arith
length-take_most (suc n) [] = omega arith
length-take_most (suc n) (x ∷ w) = omega (arith, length-take_most n w)

joined-range_from :
    (step rounds start : ℕ) (w : Bytes)
    → 0 < step
    → length w ≤ start + rounds
    → joined (map (chunk step w) (range_from step rounds start (length w))) ≡ drop start w
unfolding joined range_from
joined-range_from step zero start w pos enough = sym (drop_past start w (omega (arith, enough)))
joined-range_from step (suc rounds) start w pos enough = elim (Bool-cases (ltb start (length w))) [
  | inl e ↦ rw e (
      ap (◌++◌ (take step (drop start w)))
        (joined-range_from step rounds (start + step) w pos (omega (arith, enough, pos)))
      ∙ take-drop step start w)
  | inr e ↦ rw e (sym (drop_past start w (ground (arith, e))))
]

-- What a chunk carries.
abbrev pub IsWithin : ℕ → ReadResponse → Type 0
IsWithin step r = length r.content ≤ step

IsWithin-chunks :
    (step : ℕ) (w : Bytes) (starts : List ℕ) → All (IsWithin step) (map (chunk step w) starts)
IsWithin-chunks step w [] = tt
IsWithin-chunks step w (n ∷ ns) = (length-take_most step (drop n w), IsWithin-chunks step w ns)

take-nil : (n : ℕ) → take {A = ℕ} n [] ≡ []
take-nil zero = refl
take-nil (suc n) = refl

or_zero_some :
    (step : ℕ) (w : Bytes) (starts : List ℕ) → 0 < length (map (chunk step w) (or_zero starts))
or_zero_some step w [] = omega arith
or_zero_some step w (n ∷ ns) = omega arith

joined-or_zero :
    (step : ℕ) (w : Bytes) (starts : List ℕ)
    → 0 < step
    → starts ≡ range_from step (length w) 0 (length w)
    → joined (map (chunk step w) (or_zero starts)) ≡ w
unfolding joined range_from
joined-or_zero step w (n ∷ ns) pos e =
    ap (λ (l : List ℕ). joined (map (chunk step w) l)) e
    ∙ joined-range_from step (length w) 0 w pos (omega arith)
joined-or_zero step [] [] pos e = append-nil _ ∙ take-nil step
joined-or_zero step (x ∷ w) [] pos e =
    let positive : ltb 0 (suc (length w)) ≡ true = ground arith in
    let split = rw positive at e in absurd (cc)

-- The chunks of a window make the window again, and none is longer than a chunk may be; of an empty
-- window there is one.
pub chunks-join :
    (step : ℕ) (w : Bytes)
    → 0 < step
    → (joined (chunks step w) ≡ w)
      × All (IsWithin step) (chunks step w)
      × (0 < length (chunks step w))
unfolding chunks
chunks-join step w pos = (
  joined-or_zero step w (range_from step (length w) 0 (length w)) pos refl,
  IsWithin-chunks step w (or_zero (range_from step (length w) 0 (length w))),
  or_zero_some step w (range_from step (length w) 0 (length w)),
)
