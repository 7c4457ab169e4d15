-- ===== src/RemoteCache/Shim/Idle/Steps.antt =====
-- `Activity` and `wait` of remote_cache/shim.py, the calls that touch the one while the other waits
-- being steps. Whether a process is `alive` at a reading of the clock is a parameter.
use tine.Base.{ℕ, ◌+◌, ◌-◌, ◌≤◌, Bool, false, ◌||◌, List, [], ◌∷◌, length, ltb, ◌==◌, if◌then◌else◌}

pub record Activity : Type 0 where
  pub last : ℕ
  -- `_building`
  pub pids : List ℕ

unfoldable pub among_pids : ℕ → List ℕ → Bool
among_pids pid [] = false
among_pids pid (one ∷ others) = one == pid || among_pids pid others

-- `Activity.attend`
unfoldable pub attend : ℕ → ℕ → Activity → Activity
attend now pid a = record {
  last = now;
  pids = if among_pids pid a.pids then a.pids else pid ∷ a.pids;
}

-- `Activity.intercept_service`
unfoldable pub touch : ℕ → Activity → Activity
touch now a = record a { last = now }

-- What `wait` goes on to do: to return "idle", or to wait for so long, or for as long as it takes.
pub data Waits : Type 0 where
  idle until_stopped : Waits
  for : ℕ → Waits

module _ (alive : ℕ → ℕ → Bool) where
  unfoldable pub still_alive : ℕ → List ℕ → List ℕ
  still_alive now [] = []
  still_alive now (pid ∷ pids) =
      let rest = still_alive now pids in if alive now pid then pid ∷ rest else rest

  -- `Activity.building`
  unfoldable pub building : ℕ → Activity → ℕ × Activity
  building now a = let left = still_alive now a.pids in (length left, record a { pids = left })

  abbrev pub held_open : ℕ → ℕ × Activity → Waits × Activity
  held_open timeout (builds, a) = if builds == 0 then (idle, a) else (for timeout, a)

  -- One round of the loop of `wait`, up to where it waits.
  unfoldable pub look : ℕ → ℕ → Activity → Waits × Activity
  look timeout now a =
      if timeout == 0
      then (until_stopped, a)
      else if ltb now (a.last + timeout)
      then (for (a.last + timeout - now), a)
      else held_open timeout (building now a)

  -- The steps taken since the first activity: what the clock read last, when each call came that did not
  -- only look, the builds attended with when they were, and the activity left. The clock does not go
  -- back.
  pub data Runs (timeout : ℕ) (first : Activity)
      : ℕ → List ℕ → List (ℕ × ℕ) → Activity → Type 0 where
    begun : Runs timeout first first.last (first.last ∷ []) [] first
    called :
        {before : ℕ} {calls : List ℕ} {builds : List (ℕ × ℕ)} {a : Activity} (now : ℕ)
        → before ≤ now
        → Runs timeout first before calls builds a
        → Runs timeout first now (now ∷ calls) builds (touch now a)
    attended :
        {before : ℕ} {calls : List ℕ} {builds : List (ℕ × ℕ)} {a : Activity} (now pid : ℕ)
        → before ≤ now
        → Runs timeout first before calls builds a
        → Runs timeout first now (now ∷ calls) ((pid, now) ∷ builds) (attend now pid a)
    looked :
        {before : ℕ} {calls : List ℕ} {builds : List (ℕ × ℕ)} {a : Activity} (now : ℕ)
        → before ≤ now
        → Runs timeout first before calls builds a
        → Runs timeout first now calls builds (look timeout now a).1
