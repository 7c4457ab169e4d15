-- ===== src/Image/Version/Keys.antt =====
-- image/version.py: a step that decides by an order of what the texts have turns round and chains.
use tine.Base.{
  ℕ, Bool, true, false, ◌≡◌, sym, ◌∙◌, ◌⊎◌, inl, inr, length, ltb, ◌==◌, same_bytes, same_bytes→eq,
  same_bytes_refl, Bool-cases, not, if◌then◌else◌, arith,
}
use tine.Base.Order.{text_lt, text_lt_irrefl, text_lt_trans, text_lt_connex}
use tine.Base.Text.{Text}
use tine.Image.Version.{Sign, Step}
use tine.Image.Version.Chains.{Turns, Chains, Chained-greater, Chained-less, less-Chained}

module _ {K : Type 0} (key : Text → K) (equal before : K → K → Bool)
    (equal→eq : (x y : K) → equal x y ≡ true → x ≡ y) (equal_refl : (x : K) → equal x x ≡ true)
    (irrefl : (x : K) → before x x ≡ false)
    (trans : (x y z : K) → before x y ≡ true → before y z ≡ true → before x z ≡ true)
    (connex : (x y : K) → before x y ≡ false → before y x ≡ false → x ≡ y) where
  -- Decides by an order of what texts have, and goes on where that is the same.
  abbrev pub by_key : (Text → Text → Step) → Text → Text → Step
  by_key next left right =
      if not (equal (key left) (key right))
      then Step.decided (if before (key left) (key right) then Sign.less else Sign.greater)
      else next left right

  Places : Text → Text → Type 0
  Places left right =
      (key left ≡ key right)
      ⊎ (before (key left) (key right) ≡ true)
      ⊎ (before (key right) (key left) ≡ true)

  places : (left right : Text) → Places left right
  unfolding Places
  places left right = elim (Bool-cases (before (key left) (key right))) [
    | inl less ↦ inr (inl less)
    | inr l ↦ elim (Bool-cases (before (key right) (key left))) [
      | inl greater ↦ inr (inr greater)
      | inr r ↦ inl (connex (key left) (key right) l r)
    ]
  ]

  unequal : (x y : K) → before x y ≡ true → (equal x y ≡ false) × (equal y x ≡ false)
  unequal x y h = (other x y (inl h), other y x (inr h))
    where
      other : (x y : K) → (before x y ≡ true) ⊎ (before y x ≡ true) → equal x y ≡ false
      other x y h = elim (Bool-cases (equal x y)) [
        | inl same ↦ absurd (
            let alike = equal→eq x y same in
            let low = irrefl y in
            elim h [
              | inl k ↦ (let k' = rw alike at k in cc)
              | inr k ↦ (let k' = rw alike at k in cc)
            ])
        | inr differ ↦ differ
      ]

  asym : (x y : K) → before x y ≡ true → before y x ≡ false
  asym x y h = elim (Bool-cases (before y x)) [
    | inl k ↦ absurd (let loop = trans x y x h k in let low = irrefl x in cc)
    | inr k ↦ k
  ]

  pub by_key-same :
      (next : Text → Text → Step) (left right : Text)
      → key left ≡ key right
      → by_key next left right ≡ next left right
  by_key-same next left right h = rw (h, equal_refl (key right))

  pub by_key-less :
      (next : Text → Text → Step) (left right : Text)
      → before (key left) (key right) ≡ true
      → by_key next left right ≡ Step.decided Sign.less
  by_key-less next left right h = rw ((unequal (key left) (key right) h).0, h)

  pub by_key-greater :
      (next : Text → Text → Step) (left right : Text)
      → before (key right) (key left) ≡ true
      → by_key next left right ≡ Step.decided Sign.greater
  by_key-greater next left right h =
      rw ((unequal (key right) (key left) h).1, asym (key right) (key left) h)

  pub by_key-Turns : (next : Text → Text → Step) → Turns next → Turns (by_key next)
  unfolding Places
  by_key-Turns next turn left right = elim (places left right) [
    | inl h ↦
        rw (by_key-same next left right h, by_key-same next right left (sym h)) (turn left right)
    | inr (inl h) ↦ rw (by_key-less next left right h, by_key-greater next right left h)
    | inr (inr h) ↦ rw (by_key-greater next left right h, by_key-less next right left h)
  ]

  pub by_key-Chains : (next : Text → Text → Step) → Chains next → Chains (by_key next)
  unfolding Places
  by_key-Chains next chain left middle right = elim (places left middle) [
    | inl h ↦ elim (places middle right) [
      | inl k ↦
          rw
            (
              by_key-same next left middle h,
              by_key-same next middle right k,
              by_key-same next left right (h ∙ k),
            )
            (chain left middle right)
      | inr (inl k) ↦
          rw
            (
              by_key-same next left middle h,
              by_key-less next middle right k,
              by_key-less next left right (rw h k),
            )
            (Chained-less (next left middle))
      | inr (inr k) ↦
          rw (by_key-greater next middle right k)
            (Chained-greater (by_key next left middle) (by_key next left right))
    ]
    | inr (inl h) ↦ elim (places middle right) [
      | inl k ↦
          rw
            (
              by_key-less next left middle h,
              by_key-same next middle right k,
              by_key-less next left right (rw (sym k) h),
            )
            (less-Chained (next middle right))
      | inr (inl k) ↦ rw (
        by_key-less next left middle h,
        by_key-less next middle right k,
        by_key-less next left right (trans _ _ _ h k),
      )
      | inr (inr k) ↦
          rw (by_key-greater next middle right k)
            (Chained-greater (by_key next left middle) (by_key next left right))
    ]
    | inr (inr h) ↦ rw (by_key-greater next left middle h) tt
  ]

==-eq : (x y : ℕ) → (x == y) ≡ true → x ≡ y
==-eq x y h = ground arith

abbrev pub by_text : (Text → Text) → (Text → Text → Step) → Text → Text → Step
by_text key next left right =
    if not (same_bytes (key left) (key right))
    then Step.decided (if text_lt (key left) (key right) then Sign.less else Sign.greater)
    else next left right

abbrev pub by_length : (Text → Text) → (Text → Text → Step) → Text → Text → Step
by_length key next left right =
    if not (length (key left) == length (key right))
    then Step.decided
        (if ltb (length (key left)) (length (key right)) then Sign.less else Sign.greater)
    else next left right

module _ (key : Text → Text) (next : Text → Text → Step) where
  pub by_text-Turns : Turns next → Turns (by_text key next)
  by_text-Turns =
      by_key-Turns key same_bytes text_lt same_bytes→eq same_bytes_refl text_lt_irrefl text_lt_trans
        text_lt_connex next

  pub by_text-Chains : Chains next → Chains (by_text key next)
  by_text-Chains =
      by_key-Chains key same_bytes text_lt same_bytes→eq same_bytes_refl text_lt_irrefl
        text_lt_trans text_lt_connex next

  pub by_length-Turns : Turns next → Turns (by_length key next)
  by_length-Turns =
      by_key-Turns (λ value. length (key value)) ◌==◌ ltb ==-eq (λ x. ground arith)
        (λ x. ground arith) (λ x y z h k. ground (arith, h, k)) (λ x y h k. ground (arith, h, k))
        next

  pub by_length-Chains : Chains next → Chains (by_length key next)
  by_length-Chains =
      by_key-Chains (λ value. length (key value)) ◌==◌ ltb ==-eq (λ x. ground arith)
        (λ x. ground arith) (λ x y z h k. ground (arith, h, k)) (λ x y h k. ground (arith, h, k))
        next
