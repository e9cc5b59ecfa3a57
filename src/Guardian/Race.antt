-- ===== src/Guardian/Race.antt =====
-- internal/project/guardian.go: the guard loop and the manual operations of one guardian at the same
-- time. `stateMu` is held for single accesses and never for a whole operation, so a thread is a
-- place in the code and a move goes from one access of a shared field to the next. What probes,
-- scripts and commands answer is left open. `g.failCount++`, which takes no lock, is a load and a
-- store.
pub mod Bound
pub mod Overlap
pub mod Alone
pub mod Sequential
pub mod Paused
use daemon_go.Prelude.{
  ℕ, zero, suc, ◌≡◌, ◌⊎◌, Bool, true, false, Option, none, some, List, [], ◌∷◌, ◌++◌, if◌then◌else◌,
}
use daemon_go.Prelude.Int.{ℤ, pos, is_zero, increment}
use daemon_go.Config.{Project}
use daemon_go.Guardian.{
  ProjectGuardian, State, running, stopped, starting, failed, set_paused, is_failed, new_guardian,
}
use daemon_go.Guardian.Tick.{or_now}

-- Where a thread stands in the guardian's methods.
pub data Place : Type 0 where
  idle : Place  -- waiting for a tick, or for a call
  unpaused : Place  -- `loop`, past isPaused and cfg.Enabled
  probing : Place  -- `loop`, past isFailedLocked
  alive : Place  -- `loop`, before setState(StateRunning)
  marked : Place  -- before ensureStartInfo
  entering : Place  -- head of startProject
  refused : Place  -- before the setState(StateFailed) of a start that is refused
  admitted : Place  -- before setState(StateStarting)
  launching : Place  -- the actions, the script and waitForStartup
  failing : Place  -- before the setState(StateFailed) of a start that failed
  counting : Place  -- before failCount++
  tallied : ℤ → Place  -- in failCount++, with the count it has loaded
  up : Place  -- before the setState(StateRunning) of a start that succeeded
  clearing : Place  -- before its ResetFailCount
  dating : Place  -- before startTime = time.Now()
  locating : Place  -- before pid = findPid()
  by_hand : Place  -- ManualStart, before ResetFailCount
  restarting : Place  -- ManualRestart, before its first ResetFailCount
  stopping : (again : Bool) → Place  -- stopProject, before its locked section
  resting : Place  -- ManualRestart, in its sleep

abbrev pub with_state : State → ProjectGuardian → ProjectGuardian
with_state st g = record g { state = st }

abbrev pub seen : Bool → ProjectGuardian → ProjectGuardian
seen b g = record g { last_alive = b }

abbrev pub zeroed : ProjectGuardian → ProjectGuardian
zeroed g = record g { fail_count = pos 0 }

-- the locked section of ensureStartInfo, where `pid` is found
abbrev pub ensured : ℕ → ℕ → ProjectGuardian → ProjectGuardian
ensured pid now g = record g {
  start_time = or_now g.start_time now;
  pid = if is_zero g.pid then pos pid else g.pid;
}

-- the locked section of stopProject
abbrev pub halted : ProjectGuardian → ProjectGuardian
halted g = record g { state = stopped; pid = pos 0; start_time = none }

-- One move of one thread; `looping` is the thread of `loop`, the others carry out calls.
pub data Move (looping : Bool) (g : ProjectGuardian)
    : Place → ProjectGuardian → Place → Type 0 where
  skip : looping ≡ true → (g.paused ≡ true) ⊎ (g.cfg.enabled ≡ false) → Move looping g idle g idle
  begin_tick :
      looping ≡ true → g.paused ≡ false → g.cfg.enabled ≡ true → Move looping g idle g unpaused
  at_limit : is_failed g ≡ true → Move looping g unpaused g idle
  below_limit : is_failed g ≡ false → Move looping g unpaused g probing
  finds_alive : Move looping g probing (seen true g) alive
  finds_dead : Move looping g probing (seen false g) entering
  mark : Move looping g alive (with_state running g) marked
  ensure : (pid now : ℕ) → Move looping g marked (ensured pid now g) idle
  refuse : is_failed g ≡ true → Move looping g entering g refused
  mark_refused : Move looping g refused (with_state failed g) idle
  admit : is_failed g ≡ false → Move looping g entering g admitted
  announce : Move looping g admitted (with_state starting g) launching
  poll : Move looping g launching (seen false g) launching
  script_fails : Move looping g launching g failing
  times_out : Move looping g launching (seen false g) failing
  comes_up : Move looping g launching (seen true g) up
  mark_failing : Move looping g failing (with_state failed g) counting
  read_count : Move looping g counting g (tallied g.fail_count)
  write_count : (n : ℤ) → Move looping g (tallied n) (record g { fail_count = increment n }) idle
  mark_up : Move looping g up (with_state running g) clearing
  clear : Move looping g clearing (zeroed g) dating
  date : (now : ℕ) → Move looping g dating (record g { start_time = some now }) locating
  locate : (pid : ℕ) → Move looping g locating (record g { pid = pos pid }) idle
  call_start : looping ≡ false → Move looping g idle g by_hand
  call_stop : looping ≡ false → Move looping g idle g (stopping false)
  call_restart : looping ≡ false → Move looping g idle g restarting
  call_reset : looping ≡ false → Move looping g idle (zeroed g) idle
  call_mark : looping ≡ false → Move looping g idle (with_state failed g) idle
  call_pause : looping ≡ false → (paused : Bool) → Move looping g idle (set_paused paused g) idle
  reset_start : Move looping g by_hand (zeroed g) entering
  reset_restart : Move looping g restarting (zeroed g) (stopping true)
  halt : Move looping g (stopping false) (halted g) idle
  halt_restart : Move looping g (stopping true) (halted g) resting
  wake : Move looping g resting (zeroed g) entering

-- A guardian and its threads, that of `loop` first.
pub record System : Type 0 where
  pub guardian : ProjectGuardian
  pub threads : List Place

abbrev pub no_threads : List Place → Bool
no_threads [] = true
no_threads (p ∷ ps) = false

-- some thread moves
pub data Step (s t : System) : Type 0 where
  moves :
      (before after : List Place) (p p' : Place) (g : ProjectGuardian)
      → s.threads ≡ before ++ p ∷ after
      → Move (no_threads before) s.guardian p g p'
      → t ≡ record { guardian = g; threads = before ++ p' ∷ after }
      → Step s t

pub data Reach (s : System) : System → Type 0 where
  here : Reach s s
  next : {t u : System} → Reach s t → Step t u → Reach s u

abbrev pub idlers : ℕ → List Place
idlers zero = []
idlers (suc n) = idle ∷ idlers n

-- NewGuardian and `go g.loop()`, with `callers` threads that may call the guardian
abbrev pub new_system : Project → ℕ → System
new_system cfg callers = record { guardian = new_guardian cfg; threads = idlers (suc callers) }
