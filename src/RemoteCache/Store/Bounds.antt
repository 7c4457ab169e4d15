-- ===== src/RemoteCache/Store/Bounds.antt =====
-- What eviction frees: enough, or all that may go.
use tine.Base.{
  ℕ, ◌+◌, ◌≤◌, ◌≡◌, refl, ap, ◌⊎◌, List, [], ◌∷◌, ◌++◌, leb, arith, inl, inr, Bool-cases,
}
use tine.RemoteCache.Store.Choose.{Candidate, choose}

abbrev pub freed_by : List Candidate → ℕ
freed_by [] = 0
freed_by (a ∷ ages) = a.size + freed_by ages

-- The loop goes by age: it takes the oldest candidates, as many as free what is over, or all.
pub choose_lem :
    (over freed : ℕ) (ages : List Candidate)
    → (left : List Candidate) × (choose over freed ages ++ left ≡ ages)
      × ((left ≡ []) ⊎ (over ≤ freed + freed_by (choose over freed ages)))
unfolding choose
choose_lem over freed [] = ([], refl, inl refl)
choose_lem over freed (a ∷ ages) = elim (Bool-cases (leb over freed)) [
  | inl e ↦ (a ∷ ages, rw e refl, inr (ground (arith, e)))
  | inr e ↦
      let (left, split, done) = choose_lem over (freed + a.size) ages in
      (
        left,
        rw e (ap (◌∷◌ a) split),
        elim done [ inl nothing ↦ inl nothing | inr enough ↦ inr (rw e (omega (arith, enough))) ],
      )
]
