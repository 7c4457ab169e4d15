-- ===== src/Kmod/Links/Enough.antt =====
-- `_chase` of kmod/kmod.py: a tree that has what it yields resolves the same.
use tine.Base.{
  ℕ, zero, suc, ◌||◌, ◌≡◌, sym, ap, subst, ◌∙◌, inl, inr, Option, none, some, List, [], ◌∷◌, ◌++◌,
  All, Option-cases, Bool-cases,
}
use mathlib.Core.Option
use tine.Base.Text.{Text}
use tine.Kmod.Links.{
  Place, link_depth, is_up, stays, next, Walk, met, walk, restart, chase_in, chase,
}
use tine.Kmod.Links.Chase.{
  walk-on, walk-at, chase_in-arrived, chase_in-linked, walk_cases, met-eq-some,
}

-- A second tree, with no symlink where the first has none.
module _ (link link' : Place → Option (List Text))
    (fewer : (place : Place) → link place ≡ none → link' place ≡ none) where
  met-eq-none :
      (current : Place) (part : Text) → met link current part ≡ none → met link' current part ≡ none
  met-eq-none current part h = elim (Bool-cases (is_up part || stays part)) [
    | inl dots ↦ rw dots
    | inr on ↦ rw on (fewer (part ∷ current) (rw on at h))
  ]

  met-same :
      (current : Place) (part : Text) (target : List Text)
      → met link current part ≡ some target
      → link' (part ∷ current) ≡ link (part ∷ current)
      → met link' current part ≡ some target
  met-same current part target h same = elim (Bool-cases (is_up part || stays part)) [
    | inl dots ↦ absurd (let h' = rw dots at h in cc)
    | inr on ↦ rw on (same ∙ met-eq-some link current part target h)
  ]

  walk-arrived :
      (current : Place) (todo : List Text) (place : Place)
      → walk link current todo ≡ Walk.arrived place
      → walk link' current todo ≡ Walk.arrived place
  unfolding walk
  walk-arrived current [] place h = h
  walk-arrived current (part ∷ todo) place h = elim (Option-cases (met link current part)) [
    | inl gone ↦
        walk-on link' current part todo (met-eq-none current part gone)
        ∙ walk-arrived (next current part) todo place
            (sym (walk-on link current part todo gone) ∙ h)
    | inr (target, here) ↦
        absurd (let h' = sym (walk-at link current part todo target here) ∙ h in cc)
  ]

  walk-linked :
      (current : Place) (todo : List Text) (place : Place) (target rest : List Text)
      → walk link current todo ≡ Walk.linked place target rest
      → link' place ≡ link place
      → walk link' current todo ≡ Walk.linked place target rest
  unfolding walk
  walk-linked current [] place target rest h same = absurd (cc)
  walk-linked current (part ∷ todo) place target rest h same =
      elim (Option-cases (met link current part)) [
        | inl gone ↦
            walk-on link' current part todo (met-eq-none current part gone)
            ∙ walk-linked (next current part) todo place target rest
                (sym (walk-on link current part todo gone) ∙ h) same
        | inr (target', here) ↦
            let at_link = sym (walk-at link current part todo target' here) ∙ h in
            let stopped : part ∷ current ≡ place = cc in
            let same' = subst (λ p. link' p ≡ link p) (sym stopped) same in
            walk-at link' current part todo target' (met-same current part target' here same')
            ∙ at_link
      ]

  chase_in-same :
      (depth : ℕ) (current : Place) (todo : List Text) (places : List Place)
      → chase_in link depth current todo ≡ some places
      → All (λ (place : Place). link' place ≡ link place) places
      → chase_in link' depth current todo ≡ some places
  unfolding chase_in
  chase_in-same zero current todo places h same = absurd (cc)
  chase_in-same (suc depth) current todo places h same =
      elim (walk_cases link (walk link current todo)) [
        | inl (place, here) ↦
            chase_in-arrived link' depth current todo place (walk-arrived current todo place here)
            ∙ sym (chase_in-arrived link depth current todo place here)
            ∙ h
        | inr (place, target, rest, here) ↦
            let h' = sym (chase_in-linked link depth current todo place target rest here) ∙ h in
            elim (Option-cases (chase_in link depth (restart place target) (target ++ rest))) [
              | inl gone ↦ absurd (let h'' = rw gone at h' in cc)
              | inr (others, found) ↦
                  let whole : place ∷ others ≡ places = let h'' = rw found at h' in cc in
                  let same' = subst (All (λ (p : Place). link' p ≡ link p)) (sym whole) same in
                  let later =
                    chase_in-same depth (restart place target) (target ++ rest) others found
                      same'.1 in
                  chase_in-linked link' depth current todo place target rest
                    (walk-linked current todo place target rest here same'.0)
                  ∙ ap (Option.map (◌∷◌ place)) later
                  ∙ ap some whole
            ]
      ]

-- In a tree that has the symlinks that `_chase` yields, and none where the first tree has none, the path leads
-- the same way.
pub chase-same :
    (link link' : Place → Option (List Text)) (rel : List Text) (places : List Place)
    → chase link rel ≡ some places
    → ((place : Place) → link place ≡ none → link' place ≡ none)
    → All (λ (place : Place). link' place ≡ link place) places
    → chase link' rel ≡ some places
unfolding chase
chase-same link link' rel places h fewer same =
    chase_in-same link link' fewer link_depth [] rel places h same
