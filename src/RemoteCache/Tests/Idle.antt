-- ===== src/RemoteCache/Tests/Idle.antt =====
-- A shim that one build holds open until time 20, with a timeout of 5.
use tine.Base.{ℕ, ◌≤◌, ◌+◌, ◌≡◌, refl, Bool, [], ◌∷◌, All, ltb, arith}
use tine.RemoteCache.Shim.Idle.Steps.{
  Activity, Runs, begun, called, attended, looked, attend, touch, look, building, still_alive,
  among_pids, idle, for,
}
use tine.RemoteCache.Shim.Idle.{IsGone, idle-IsGone}

abbrev until_20 : ℕ → ℕ → Bool
until_20 now pid = ltb now 20

abbrev first : Activity
first = record { last = 0; pids = [] }

abbrev waiting : Activity
waiting = (look until_20 5 12 (touch 4 (attend 3 7 first))).1

-- At time 12 the build holds it open.
build_holds : (look until_20 5 12 (touch 4 (attend 3 7 first))).0 ≡ for 5
unfolding look touch building still_alive attend among_pids
build_holds = refl

abbrev runs : Runs until_20 5 first 12 (4 ∷ 3 ∷ 0 ∷ []) ((7, 3) ∷ []) waiting
runs = looked 12 (omega arith) (called 4 (omega arith) (attended 3 7 (omega arith) begun))

finds_idle : (look until_20 5 30 waiting).0 ≡ idle
unfolding look touch building still_alive attend among_pids
finds_idle = refl

idle-IsGone_example :
    All (IsGone until_20) ((7, 3) ∷ []) × All (λ (call : ℕ). call + 5 ≤ 30) (4 ∷ 3 ∷ 0 ∷ [])
idle-IsGone_example = idle-IsGone until_20 5 30 first runs (omega arith) finds_idle
