-- ===== src/Kmod/Links.antt =====
-- `_chase` and `carry` of kmod/kmod.py. A place is the list of its components, the last first; the target of a
-- symlink is the list of the components of its path, in order, the root among them where it is absolute.
-- Going up from the root that is spelled //, where Python stays, is not modelled.
pub mod Chase
pub mod Enough
use tine.Base.{
  ℕ, zero, suc, Bool, true, false, ◌||◌, Option, none, some, List, [], ◌∷◌, ◌++◌, same_bytes,
  if◌then◌else◌,
}
use mathlib.Core.Option
use tine.Base.Text.{Text}

abbrev pub Place : Type 0
Place = List Text

-- _LINK_DEPTH
abbrev pub link_depth : ℕ
link_depth = 40

-- current.parent
abbrev pub parent : Place → Place
parent [] = []
parent (part ∷ current) = current

abbrev pub is_up : Text → Bool
is_up part = same_bytes part (b'.' ∷ b'.' ∷ [])

abbrev pub stays : Text → Bool
stays part = same_bytes part (b'.' ∷ []) || same_bytes part (b'/' ∷ [])

-- The first part of a path from the root, which Python keeps two slashes of.
abbrev pub is_root : Text → Bool
is_root part = same_bytes part (b'/' ∷ []) || same_bytes part (b'/' ∷ b'/' ∷ [])

-- Where a component leads.
abbrev pub next : Place → Text → Place
next current part =
    if is_up part then parent current else if stays part then current else part ∷ current

-- target.is_absolute(), where the first part is / or, behind two slashes, //.
abbrev pub is_absolute : List Text → Bool
is_absolute [] = false
is_absolute (part ∷ parts) = is_root part

-- The `while` loop went to the end, or stopped at a symlink.
pub data Walk : Type 0 where
  arrived : Place → Walk
  linked : Place → List Text → List Text → Walk

-- Stops at a symlink, with what is left to walk.
abbrev pub stop_at : Option (List Text) → Place → List Text → Walk → Walk
stop_at none place todo on = on
stop_at (some target) place todo on = Walk.linked place target todo

abbrev pub restart : Place → List Text → Place
restart current target = if is_absolute target then [] else parent current

-- Yields where the walk ended, and goes on from a symlink.
abbrev pub yield_behind : Walk → (Place → List Text → Option (List Place)) → Option (List Place)
yield_behind (Walk.arrived place) on = some (place ∷ [])
yield_behind (Walk.linked place target todo) on =
    Option.map (◌∷◌ place) (on (restart place target) (target ++ todo))

abbrev pub is_some {ℓ} : {A : Type ℓ} → Option A → Bool
is_some none = false
is_some (some a) = true

-- Over `is_symlink` and `readlink` of the tree.
module _ (link : Place → Option (List Text)) where
  -- The target, where the component leads to a symlink.
  abbrev pub met : Place → Text → Option (List Text)
  met current part = if is_up part || stays part then none else link (part ∷ current)

  unfoldable pub walk : Place → List Text → Walk
  walk current [] = Walk.arrived current
  walk current (part ∷ todo) =
      stop_at (met current part) (part ∷ current) todo (walk (next current part) todo)

  -- The loop, with so many symlinks left; `none` is its failure.
  unfoldable pub chase_in : ℕ → Place → List Text → Option (List Place)
  chase_in zero current todo = none
  chase_in (suc depth) current todo = yield_behind (walk current todo) (chase_in depth)

  unfoldable pub chase : List Text → Option (List Place)
  chase rel = chase_in link_depth [] rel

  abbrev pub is_link : Place → Bool
  is_link path = elim (link path) [ none ↦ false | some target ↦ true ]

  -- What of these the tree has.
  unfoldable pub present : (Place → Bool) → List Place → List Place
  present exists [] = []
  present exists (path ∷ paths) =
      let rest = present exists paths in if is_link path || exists path then path ∷ rest else rest

  -- A set, in the order in which its members are met.
  unfoldable pub carry : (Place → Bool) → List Text → Option (List Place)
  carry exists rel = Option.map (present exists) (chase rel)
