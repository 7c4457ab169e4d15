-- ===== src/Archive/Cpio/Extract.antt =====
-- `_relpath` of archive/cpio.py: where an entry goes beneath the destination.
use tine.Base.{
  ℕ, Bool, false, ◌||◌, ◌≡◌, ◌⊎◌, refl, ap, ◌∙◌, inl, inr, List, [], ◌∷◌, ◌++◌, All, is_nil,
  same_bytes, ◌==◌, if◌then◌else◌, Bool-cases, arith,
}
use tine.Base.Text.{Text}

-- A character in front of the first part.
abbrev pub in_front : ℕ → List Text → List Text
in_front c [] = (c ∷ []) ∷ []
in_front c (part ∷ parts) = (c ∷ part) ∷ parts

-- name.split("/")
unfoldable pub components : Text → List Text
components [] = [] ∷ []
components (c ∷ name) =
    let rest = components name in if c == b'/' then [] ∷ rest else in_front c rest

-- p in ("", ".", "..")
abbrev pub is_skipped : Text → Bool
is_skipped part = is_nil part || same_bytes part (b'.' ∷ []) || same_bytes part (b'.' ∷ b'.' ∷ [])

unfoldable pub kept : List Text → List Text
kept [] = []
kept (part ∷ parts) = let rest = kept parts in if is_skipped part then rest else part ∷ rest

-- "/".join(parts)
abbrev pub join : List Text → Text
join [] = []
join (part ∷ []) = part
join (part ∷ other ∷ parts) = part ++ b'/' ∷ join (other ∷ parts)

unfoldable pub relpath : Text → Text
relpath name = join (kept (components name))

IsFlat : Text → Type 0
IsFlat = All (λ (c : ℕ). (c == b'/') ≡ false)

components-flat : (part : Text) → IsFlat part → components part ≡ part ∷ []
unfolding components IsFlat
components-flat [] h = refl
components-flat (c ∷ part) h = rw (h.0, components-flat part h.1)

components-joined :
    (part rest : Text) → IsFlat part → components (part ++ b'/' ∷ rest) ≡ part ∷ components rest
unfolding components IsFlat
components-joined [] rest h = refl
components-joined (c ∷ part) rest h = rw (h.0, components-joined part rest h.1)

in_front-IsFlat :
    (c : ℕ) (parts : List Text)
    → (c == b'/') ≡ false
    → All IsFlat parts
    → All IsFlat (in_front c parts)
unfolding IsFlat
in_front-IsFlat c [] h k = ((h, tt), tt)
in_front-IsFlat c (part ∷ parts) h k = ((h, k.0), k.1)

components-IsFlat : (name : Text) → All IsFlat (components name)
unfolding components IsFlat
components-IsFlat [] = (tt, tt)
components-IsFlat (c ∷ name) = elim (Bool-cases (c == b'/')) [
  | inl slash ↦ rw slash (tt, components-IsFlat name)
  | inr other ↦ rw other (in_front-IsFlat c (components name) other (components-IsFlat name))
]

-- A component that is a name, and leads nowhere else.
abbrev pub IsInside : Text → Type 0
IsInside part =
    (is_nil part ≡ false)
    × (same_bytes part (b'.' ∷ []) ≡ false)
    × (same_bytes part (b'.' ∷ b'.' ∷ []) ≡ false)

not_skipped-IsInside : (part : Text) → is_skipped part ≡ false → IsInside part
not_skipped-IsInside part h = (ground (arith, h), ground (arith, h), ground (arith, h))

kept-IsInside :
    (parts : List Text) → All IsFlat parts → All IsInside (kept parts) × All IsFlat (kept parts)
unfolding kept
kept-IsInside [] h = (tt, tt)
kept-IsInside (part ∷ parts) h =
    let (inside, flat) = kept-IsInside parts h.1 in
    elim (Bool-cases (is_skipped part)) [
      | inl skipped ↦ rw skipped (inside, flat)
      | inr here ↦ rw here ((not_skipped-IsInside part here, inside), (h.0, flat))
    ]

components-join :
    (part : Text) (parts : List Text)
    → All IsFlat (part ∷ parts)
    → components (join (part ∷ parts)) ≡ part ∷ parts
components-join part [] h = components-flat part h.0
components-join part (other ∷ parts) h =
    components-joined part (join (other ∷ parts)) h.0
    ∙ ap (◌∷◌ part) (components-join other parts h.1)

-- The path of an entry has the components of the name but for the empty ones and the dots, in their order, and
-- none of them leads out of the destination; it is empty where none is left.
pub relpath-IsInside :
    (name : Text)
    → ((kept (components name) ≡ []) × (relpath name ≡ []))
      ⊎ ((components (relpath name) ≡ kept (components name))
          × All IsInside (components (relpath name)))
unfolding relpath
relpath-IsInside name =
    by_parts (kept (components name)) (kept-IsInside (components name) (components-IsFlat name))
  where
    by_parts :
        (parts : List Text)
        → All IsInside parts × All IsFlat parts
        → ((parts ≡ []) × (join parts ≡ []))
          ⊎ ((components (join parts) ≡ parts) × All IsInside (components (join parts)))
    by_parts [] h = inl (refl, refl)
    by_parts (part ∷ parts) h =
        let same = components-join part parts h.1 in inr (same, rw same (h.0))
