-- ===== src/Kmod/Links/Chase.antt =====
-- `_chase` of kmod/kmod.py: where it ends, and that what it yields is enough to get there.
use tine.Base.{
  ℕ, zero, suc, true, ◌||◌, ◌≡◌, ◌⊎◌, refl, sym, ap, subst, ◌∙◌, inl, inr, Option, none, some, List,
  [], ◌∷◌, ◌++◌, Option-cases, Bool-cases,
}
use mathlib.Core.Option
use tine.Base.Text.{Text}
use tine.Kmod.Links.{
  Place, link_depth, parent, is_up, stays, next, is_absolute, Walk, met, walk, stop_at,
  yield_behind, restart, chase_in, chase, is_link, is_some,
}

module _ (link : Place → Option (List Text)) where
  pub walk-on :
      (current : Place) (part : Text) (todo : List Text)
      → met link current part ≡ none
      → walk link current (part ∷ todo) ≡ walk link (next current part) todo
  unfolding walk
  walk-on current part todo h =
      ap (λ o. stop_at o (part ∷ current) todo (walk link (next current part) todo)) h

  pub walk-at :
      (current : Place) (part : Text) (todo target : List Text)
      → met link current part ≡ some target
      → walk link current (part ∷ todo) ≡ Walk.linked (part ∷ current) target todo
  unfolding walk
  walk-at current part todo target h =
      ap (λ o. stop_at o (part ∷ current) todo (walk link (next current part) todo)) h

  pub chase_in-arrived :
      (depth : ℕ) (current : Place) (todo : List Text) (place : Place)
      → walk link current todo ≡ Walk.arrived place
      → chase_in link (suc depth) current todo ≡ some (place ∷ [])
  unfolding chase_in
  chase_in-arrived depth current todo place h = ap (λ w. yield_behind w (chase_in link depth)) h

  pub chase_in-linked :
      (depth : ℕ) (current : Place) (todo : List Text) (place : Place) (target rest : List Text)
      → walk link current todo ≡ Walk.linked place target rest
      → chase_in link (suc depth) current todo
        ≡ Option.map (◌∷◌ place) (chase_in link depth (restart place target) (target ++ rest))
  unfolding chase_in
  chase_in-linked depth current todo place target rest h =
      ap (λ w. yield_behind w (chase_in link depth)) h

  -- No component on the way to the place is a symlink.
  abbrev pub IsReal : Place → Type 0
  IsReal [] = Unit
  IsReal (part ∷ place) = (link (part ∷ place) ≡ none) × IsReal place

  IsReal-parent : (place : Place) → IsReal place → IsReal (parent place)
  IsReal-parent [] h = tt
  IsReal-parent (part ∷ place) h = h.1

  next-IsReal :
      (current : Place) (part : Text)
      → IsReal current
      → met link current part ≡ none
      → IsReal (next current part)
  next-IsReal current part h k = elim (Bool-cases (is_up part)) [
    | inl up ↦ rw up (IsReal-parent current h)
    | inr down ↦ elim (Bool-cases (stays part)) [
      | inl stay ↦ rw (down, stay) h
      | inr on ↦ rw (down, on) (rw (down, on) at k, h)
    ]
  ]

  -- Where the components lead, from a place with no symlink on the way.
  abbrev Leads : Walk → Type 0
  Leads (Walk.arrived place) = IsReal place
  Leads (Walk.linked place target rest) = (link place ≡ some target) × IsReal (parent place)

  pub met-eq-some :
      (current : Place) (part : Text) (target : List Text)
      → met link current part ≡ some target
      → link (part ∷ current) ≡ some target
  met-eq-some current part target h = elim (Bool-cases (is_up part || stays part)) [
    | inl dots ↦ absurd (let h' = rw dots at h in cc)
    | inr on ↦ rw on at h
  ]

  walk-Leads :
      (current : Place) (todo : List Text) → IsReal current → Leads (walk link current todo)
  unfolding walk
  walk-Leads current [] h = h
  walk-Leads current (part ∷ todo) h = elim (Option-cases (met link current part)) [
    | inl gone ↦
        subst Leads (sym (walk-on current part todo gone))
          (walk-Leads (next current part) todo (next-IsReal current part h gone))
    | inr (target, here) ↦
        subst Leads (sym (walk-at current part todo target here))
          (met-eq-some current part target here, h)
  ]

  -- Every place but the last is a symlink that no symlink leads to, and no symlink is on the way to the last.
  abbrev pub IsTrail : List Place → Type 0
  IsTrail [] = ⊥
  IsTrail (place ∷ []) = IsReal place
  IsTrail (place ∷ other ∷ places) =
      (is_link link place ≡ true) × IsReal (parent place) × IsTrail (other ∷ places)

  IsTrail-cons :
      (place : Place) (places : List Place)
      → is_link link place ≡ true
      → IsReal (parent place)
      → IsTrail places
      → IsTrail (place ∷ places)
  IsTrail-cons place [] h k t = absurd t
  IsTrail-cons place (other ∷ places) h k t = (h, k, t)

  restart-IsReal :
      (place : Place) (target : List Text) → IsReal (parent place) → IsReal (restart place target)
  restart-IsReal place target h = elim (Bool-cases (is_absolute target)) [
    | inl yes_ ↦ rw yes_ tt
    | inr no_ ↦ rw no_ h
  ]

  pub walk_cases :
      (w : Walk)
      → ((place : Place) × (w ≡ Walk.arrived place))
        ⊎ ((place : Place) × (target rest : List Text) × (w ≡ Walk.linked place target rest))
  walk_cases (Walk.arrived place) = inl (place, refl)
  walk_cases (Walk.linked place target rest) = inr (place, target, rest, refl)

  chase_in-IsTrail :
      (depth : ℕ) (current : Place) (todo : List Text) (places : List Place)
      → IsReal current
      → chase_in link depth current todo ≡ some places
      → IsTrail places
  unfolding chase_in
  chase_in-IsTrail zero current todo places h k = absurd (cc)
  chase_in-IsTrail (suc depth) current todo places h k =
      elim (walk_cases (walk link current todo)) [
        | inl (place, here) ↦
            let same : place ∷ [] ≡ places =
              let k' = sym (chase_in-arrived depth current todo place here) ∙ k in cc in
            subst IsTrail same (subst Leads here (walk-Leads current todo h))
        | inr (place, target, rest, here) ↦
            let (linked, parent_real) = subst Leads here (walk-Leads current todo h) in
            let k' = sym (chase_in-linked depth current todo place target rest here) ∙ k in
            elim (Option-cases (chase_in link depth (restart place target) (target ++ rest))) [
              | inl gone ↦ absurd (let k'' = rw gone at k' in cc)
              | inr (others, found) ↦
                  let same : place ∷ others ≡ places = let k'' = rw found at k' in cc in
                  subst IsTrail same (
                    IsTrail-cons place others (ap is_some linked) parent_real (
                      chase_in-IsTrail depth (restart place target) (target ++ rest) others
                        (restart-IsReal place target parent_real) found))
            ]
      ]

  -- What `_chase` yields is a trail of symlinks to a place that no symlink leads to.
  pub chase-IsTrail :
      (rel : List Text) (places : List Place) → chase link rel ≡ some places → IsTrail places
  unfolding chase
  chase-IsTrail rel places h = chase_in-IsTrail link_depth [] rel places tt h
