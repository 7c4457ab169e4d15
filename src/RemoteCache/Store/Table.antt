-- ===== src/RemoteCache/Store/Table.antt =====
-- The tables of the store's index: rows under a text that is a primary key.
use tine.Base.{
  Option, none, some, List, [], ◌∷◌, same_bytes, same_bytes_refl, Bool-cases, inl, inr,
  if◌then◌else◌, ◌≡◌, refl, arith,
}
use tine.Base.Text.{Text}

abbrev pub Table : Type 0 → Type 0
Table A = List (Text × A)

module _ {A : Type 0} where
  -- SELECT ... WHERE key = ?
  unfoldable pub find : Text → Table A → Option A
  find key [] = none
  find key ((k, row) ∷ t) = if same_bytes k key then some row else find key t

  -- INSERT ... ON CONFLICT (key) DO UPDATE ...
  unfoldable pub upsert : Text → A → (A → A) → Table A → Table A
  upsert key new update [] = (key, new) ∷ []
  upsert key new update ((k, row) ∷ t) =
      if same_bytes k key then (k, update row) ∷ t else (k, row) ∷ upsert key new update t

  -- UPDATE ... WHERE key = ?
  unfoldable pub change : Text → (A → A) → Table A → Table A
  change key update [] = []
  change key update ((k, row) ∷ t) =
      if same_bytes k key then (k, update row) ∷ t else (k, row) ∷ change key update t

  -- DELETE ... WHERE key = ?
  unfoldable pub remove : Text → Table A → Table A
  remove key [] = []
  remove key ((k, row) ∷ t) =
      let rest = remove key t in if same_bytes k key then rest else (k, row) ∷ rest

  -- A primary key: no row stands behind another of its key.
  abbrev pub IsKeyed : Table A → Type 0
  IsKeyed [] = Unit
  IsKeyed ((k, row) ∷ t) = (find k t ≡ none) × IsKeyed t

  -- What a row is changed to, where there is one.
  abbrev pub changed : (A → A) → Option A → Option A
  changed update none = none
  changed update (some row) = some (update row)

  pub find-change_here :
      (key : Text) (update : A → A) (t : Table A)
      → find key (change key update t) ≡ changed update (find key t)
  unfolding find change
  find-change_here key update [] = refl
  find-change_here key update ((k, row) ∷ t) = ground (arith, find-change_here key update t)

  pub find-remove_here : (key : Text) (t : Table A) → find key (remove key t) ≡ none
  unfolding find remove
  find-remove_here key [] = refl
  find-remove_here key ((k, row) ∷ t) = ground (arith, find-remove_here key t)

  pub find-upsert_here :
      (key : Text) (new : A) (t : Table A) → find key (upsert key new (λ _. new) t) ≡ some new
  unfolding find upsert
  find-upsert_here key new [] = rw (same_bytes_refl key) refl
  find-upsert_here key new ((k, row) ∷ t) = elim (Bool-cases (same_bytes k key)) [
    | inl e ↦ rw (e, e) refl
    | inr e ↦ rw (e, e) (find-upsert_here key new t)
  ]
