-- ===== src/RemoteCache/Shim/Idle.antt =====
-- When `wait` of remote_cache/shim.py finds the shim idle.
pub mod Steps
use tine.Base.{
  ℕ, ◌+◌, ◌≤◌, ◌≡◌, refl, ◌⊎◌, inl, inr, Bool, true, false, List, [], ◌∷◌, length, All, All-imp,
  ltb, ◌==◌, arith, Bool-cases,
}
pub use tine.RemoteCache.Shim.Idle.Steps.{
  Activity, Waits, idle, until_stopped, for, Runs, begun, called, attended, looked, among_pids,
  attend, touch, still_alive, building, held_open, look,
}

module _ (alive : ℕ → ℕ → Bool) where
  -- The process of a build was found gone, once it was attended.
  abbrev pub IsGone : ℕ × ℕ → Type 0
  IsGone build = (now : ℕ) × (build.1 ≤ now) × (alive now build.0 ≡ false)

  abbrev IsKnown : Activity → ℕ × ℕ → Type 0
  IsKnown a build = (among_pids build.0 a.pids ≡ true) ⊎ IsGone build

  abbrev IsSettled : ℕ → Activity → ℕ × ℕ → Type 0
  IsSettled clock a build = (build.1 ≤ clock) × IsKnown a build

  among-still_alive :
      (now pid : ℕ) (pids : List ℕ)
      → alive now pid ≡ true
      → among_pids pid pids ≡ true
      → among_pids pid (still_alive alive now pids) ≡ true
  unfolding among_pids still_alive
  among-still_alive now pid [] h k = k
  among-still_alive now pid (one ∷ pids) h k = elim (Bool-cases (one == pid)) [
    | inl e ↦
        let same : one ≡ pid = ground (arith, e) in
        let there : alive now one ≡ true = rw same h in rw there (rw e refl)
    | inr e ↦
        let rest = among-still_alive now pid pids h (rw e at k) in
        elim (Bool-cases (alive now one)) [ inl f ↦ rw f (rw e rest) | inr f ↦ rw f rest ]
  ]

  IsKnown-building :
      (now : ℕ) (a : Activity) (build : ℕ × ℕ)
      → build.1 ≤ now
      → IsKnown a build
      → IsKnown (building alive now a).1 build
  unfolding building
  IsKnown-building now a build h (inr gone) = inr gone
  IsKnown-building now a build h (inl there) = elim (Bool-cases (alive now build.0)) [
    | inl e ↦ inl (among-still_alive now build.0 a.pids e there)
    | inr e ↦ inr (now, h, e)
  ]

  IsKnown-look :
      (timeout now : ℕ) (a : Activity) (build : ℕ × ℕ)
      → build.1 ≤ now
      → IsKnown a build
      → IsKnown (look alive timeout now a).1 build
  unfolding look
  IsKnown-look timeout now a build since h = elim (Bool-cases (timeout == 0)) [
    | inl e ↦ rw e h
    | inr e ↦ elim (Bool-cases (ltb now (a.last + timeout))) [
      | inl f ↦ rw (e, f) h
      | inr f ↦
          let kept = IsKnown-building now a build since h in
          elim (Bool-cases ((building alive now a).0 == 0)) [
            | inl g ↦ rw (e, f, g) kept
            | inr g ↦ rw (e, f, g) kept
          ]
    ]
  ]

  IsKnown-attend :
      (now one : ℕ) (a : Activity) (build : ℕ × ℕ)
      → IsKnown a build
      → IsKnown (attend now one a) build
  unfolding attend among_pids
  IsKnown-attend now one a build (inr gone) = inr gone
  IsKnown-attend now one a build (inl there) = elim (Bool-cases (among_pids one a.pids)) [
    | inl e ↦ inl (rw e there)
    | inr e ↦ inl (rw e (ground (arith, there)))
  ]

  attends : (now pid : ℕ) (a : Activity) → IsKnown (attend now pid a) (pid, now)
  unfolding attend among_pids
  attends now pid a = elim (Bool-cases (among_pids pid a.pids)) [
    | inl e ↦ inl (rw e e)
    | inr e ↦ inl (rw e (ground arith))
  ]

  runs-IsSettled :
      (timeout : ℕ) (first : Activity) {clock : ℕ} {calls : List ℕ} {builds : List (ℕ × ℕ)}
      {a : Activity}
      → Runs alive timeout first clock calls builds a
      → All (IsSettled clock a) builds
  unfolding touch
  runs-IsSettled timeout first begun = tt
  runs-IsSettled timeout first (called {builds = builds} now later runs) =
      All-imp _ _ builds (λ build h. (omega (arith, h.0, later), h.1))
        (runs-IsSettled timeout first runs)
  runs-IsSettled timeout first (attended {builds = builds} {a = a} now pid later runs) = (
    (omega arith, attends now pid a),
    All-imp _ _ builds (λ build h. (omega (arith, h.0, later), IsKnown-attend now pid a build h.1))
        (runs-IsSettled timeout first runs),
  )
  runs-IsSettled timeout first (looked {builds = builds} {a = a} now later runs) =
      All-imp _ _ builds
        (λ build h.
          let since : build.1 ≤ now = omega (arith, h.0, later) in
          (since, IsKnown-look timeout now a build since h.1))
        (runs-IsSettled timeout first runs)

  look-last : (timeout now : ℕ) (a : Activity) → (look alive timeout now a).1.last ≡ a.last
  unfolding look building
  look-last timeout now a = elim (Bool-cases (timeout == 0)) [
    | inl e ↦ rw e refl
    | inr e ↦ elim (Bool-cases (ltb now (a.last + timeout))) [
      | inl f ↦ rw (e, f) refl
      | inr f ↦ elim (Bool-cases ((building alive now a).0 == 0)) [
        | inl g ↦ rw (e, f, g) refl
        | inr g ↦ rw (e, f, g) refl
      ]
    ]
  ]

  -- A call that came by the clock, and no later than the activity says.
  abbrev IsNoted : ℕ → Activity → ℕ → Type 0
  IsNoted clock a call = (call ≤ clock) × (call ≤ a.last)

  runs-IsNoted :
      (timeout : ℕ) (first : Activity) {clock : ℕ} {calls : List ℕ} {builds : List (ℕ × ℕ)}
      {a : Activity}
      → Runs alive timeout first clock calls builds a
      → All (IsNoted clock a) calls
  unfolding touch attend
  runs-IsNoted timeout first begun = ((omega arith, omega arith), tt)
  runs-IsNoted timeout first (called {calls = calls} now later runs) = (
    (omega arith, omega arith),
    All-imp _ _ calls (λ call h. (omega (arith, h.0, later), omega (arith, h.0, later)))
        (runs-IsNoted timeout first runs),
  )
  runs-IsNoted timeout first (attended {calls = calls} now pid later runs) = (
    (omega arith, omega arith),
    All-imp _ _ calls (λ call h. (omega (arith, h.0, later), omega (arith, h.0, later)))
        (runs-IsNoted timeout first runs),
  )
  runs-IsNoted timeout first (looked {calls = calls} {a = a} now later runs) =
      All-imp _ _ calls (λ call h. (omega (arith, h.0, later), rw (look-last timeout now a) h.1))
        (runs-IsNoted timeout first runs)

  none_left :
      (left : List ℕ) (build : ℕ × ℕ)
      → (length left == 0) ≡ true
      → (among_pids build.0 left ≡ true) ⊎ IsGone build
      → IsGone build
  unfolding among_pids
  none_left left build h (inr gone) = gone
  none_left [] build h (inl there) = absurd (cc)
  none_left (one ∷ left) build h (inl there) = absurd (ground (arith, h))

  look-idle :
      (timeout now : ℕ) (a : Activity)
      → (look alive timeout now a).0 ≡ idle
      → ((building alive now a).0 ≡ 0) × (a.last + timeout ≤ now)
  unfolding look
  look-idle timeout now a h = elim (Bool-cases (timeout == 0)) [
    | inl e ↦ absurd (let h' = rw e at h in cc)
    | inr e ↦ elim (Bool-cases (ltb now (a.last + timeout))) [
      | inl f ↦ absurd (let h' = rw (e, f) at h in cc)
      | inr f ↦ elim (Bool-cases ((building alive now a).0 == 0)) [
        | inl g ↦ (ground (arith, g), ground (arith, f))
        | inr g ↦ absurd (let h' = rw (e, f, g) at h in cc)
      ]
    ]
  ]

  -- Whatever was called, attended and looked at before, on a clock that does not go back: where `wait`
  -- finds the shim idle, the process of every build that was attended has been found gone since, and
  -- every call that touched the shim or attended a build came the timeout ago or earlier.
  pub idle-IsGone :
      (timeout now : ℕ) (first : Activity) {clock : ℕ} {calls : List ℕ} {builds : List (ℕ × ℕ)}
      {a : Activity}
      → Runs alive timeout first clock calls builds a
      → clock ≤ now
      → (look alive timeout now a).0 ≡ idle
      → All IsGone builds × All (λ (call : ℕ). call + timeout ≤ now) calls
  unfolding building
  idle-IsGone timeout now first {calls = calls} {builds = builds} {a = a} runs later h =
      let (nobody, expired) = look-idle timeout now a h in
      let empty : (length (still_alive alive now a.pids) == 0) ≡ true = ground (arith, nobody) in
      (
        All-imp _ _ builds
            (λ build known.
              let since : build.1 ≤ now = omega (arith, known.0, later) in
              none_left (still_alive alive now a.pids) build empty
                (IsKnown-building now a build since known.1))
            (runs-IsSettled timeout first runs),
        All-imp _ _ calls (λ call noted. omega (arith, noted.1, expired))
            (runs-IsNoted timeout first runs),
      )
