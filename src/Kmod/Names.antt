-- ===== src/Kmod/Names.antt =====
-- Python's sets and dictionaries of texts, in the order of insertion, and `sorted` of texts.
use tine.Base.{
  ◌≡◌, refl, sym, ap, ◌∙◌, Bool, true, false, ◌&&◌, ◌||◌, Option, none, some, List, [], ◌∷◌, ◌++◌,
  same_bytes, same_bytes→eq, same_bytes_refl, if◌then◌else◌, arith,
}
use tine.Base.Order.{text_lt}
use tine.Base.Text.{Text}

-- `name in names`
abbrev pub mem : Text → List Text → Bool
mem name [] = false
mem name (other ∷ others) = same_bytes name other || mem name others

-- names.add(name)
abbrev pub add : Text → List Text → List Text
add name names = if mem name names then names else names ++ name ∷ []

-- set(names)
unfoldable pub set_of : List Text → List Text
set_of [] = []
set_of (name ∷ names) = let rest = set_of names in if mem name rest then rest else name ∷ rest

unfoldable pub insert_sorted : Text → List Text → List Text
insert_sorted name [] = name ∷ []
insert_sorted name (other ∷ others) =
    let rest = insert_sorted name others in
    if text_lt other name then other ∷ rest else name ∷ other ∷ others

-- sorted(names)
unfoldable pub sorted : List Text → List Text
unfolding insert_sorted
sorted [] = []
sorted (name ∷ names) = insert_sorted name (sorted names)

module _ {ℓ} {A : Type ℓ} where
  -- table.get(name)
  abbrev pub find : Text → List (Text × A) → Option A
  find name [] = none
  find name ((other, value) ∷ table) = if same_bytes name other then some value else find name table

  -- table[name] = value
  abbrev pub put : Text → A → List (Text × A) → List (Text × A)
  put name value [] = (name, value) ∷ []
  put name value ((other, old) ∷ table) =
      let rest = put name value table in
      if same_bytes name other then (other, value) ∷ table else (other, old) ∷ rest

-- table.setdefault(key, set()).add(name)
unfoldable pub file : Text → Text → List (Text × List Text) → List (Text × List Text)
file key name [] = (key, name ∷ []) ∷ []
file key name ((other, names) ∷ table) =
    let rest = file key name table in
    if same_bytes key other then (other, add name names) ∷ table else (other, names) ∷ rest

-- `name in table.get(key, ())`
abbrev pub filed : Text → Text → List (Text × List Text) → Bool
filed key name [] = false
filed key name ((other, names) ∷ table) =
    if same_bytes key other then mem name names else filed key name table

-- {key: tuple(sorted(names)) for key, names in table.items()}
unfoldable pub sorted_values : List (Text × List Text) → List (Text × List Text)
sorted_values [] = []
sorted_values ((key, names) ∷ table) = (key, sorted names) ∷ sorted_values table

pub mem-append : (x : Text) (xs ys : List Text) → mem x (xs ++ ys) ≡ (mem x xs || mem x ys)
mem-append x [] ys = refl
mem-append x (z ∷ zs) ys = ground (arith, mem-append x zs ys)

mem-insert_sorted :
    (x name : Text) (names : List Text)
    → mem x (insert_sorted name names) ≡ (same_bytes x name || mem x names)
unfolding insert_sorted
mem-insert_sorted x name [] = refl
mem-insert_sorted x name (other ∷ others) = ground (arith, mem-insert_sorted x name others)

pub mem-sorted : (x : Text) (names : List Text) → mem x (sorted names) ≡ mem x names
unfolding sorted
mem-sorted x [] = refl
mem-sorted x (name ∷ names) =
    mem-insert_sorted x name (sorted names) ∙ ap (λ b. same_bytes x name || b) (mem-sorted x names)

pub mem_same : (x y : Text) (names : List Text) → same_bytes x y ≡ true → mem x names ≡ mem y names
mem_same x y names h = ap (λ z. mem z names) (same_bytes→eq x y h)

pub mem-set_of : (x : Text) (names : List Text) → mem x (set_of names) ≡ mem x names
unfolding set_of
mem-set_of x [] = refl
mem-set_of x (name ∷ names) = ground (arith, mem-set_of x names, mem_same x name (set_of names))

pub mem-add :
    (x name : Text) (names : List Text)
    → mem x (add name names) ≡ (same_bytes x name || mem x names)
mem-add x name names = ground (arith, mem-append x names (name ∷ []), mem_same x name names)

same_either : (k x y : Text) → same_bytes x y ≡ true → same_bytes k x ≡ same_bytes k y
same_either k x y h = ap (same_bytes k) (same_bytes→eq x y h)

same_both : (k x y : Text) → same_bytes k x ≡ true → same_bytes k y ≡ true → same_bytes x y ≡ true
same_both k x y h j = rw (sym (same_bytes→eq k x h) ∙ same_bytes→eq k y j) (same_bytes_refl y)

pub filed-file :
    (k x key name : Text) (table : List (Text × List Text))
    → filed k x (file key name table) ≡ ((same_bytes k key && same_bytes x name) || filed k x table)
unfolding file
filed-file k x key name [] = ground arith
filed-file k x key name ((other, names) ∷ table) = ground (
  arith,
  filed-file k x key name table,
  mem-add x name names,
  same_either k key other,
  same_both k key other,
)

pub filed-sorted_values :
    (k x : Text) (table : List (Text × List Text))
    → filed k x (sorted_values table) ≡ filed k x table
unfolding sorted_values
filed-sorted_values k x [] = refl
filed-sorted_values k x ((key, names) ∷ table) =
    ground (arith, mem-sorted x names, filed-sorted_values k x table)

pub find-put {ℓ} :
    {A : Type ℓ} (k name : Text) (value : A) (table : List (Text × A))
    → find k (put name value table) ≡ (if same_bytes k name then some value else find k table)
find-put k name value [] = refl
find-put k name value ((other, old) ∷ table) =
    ground (arith, find-put k name value table, same_either k name other, same_both k name other)
