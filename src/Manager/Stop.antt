-- ===== src/Manager/Stop.antt =====
-- Stop of internal/project/manager.go with the guardians' Stop. Each guardian has its loop; how long
-- a loop takes to return once its channel is closed is an argument, in nanoseconds, by project.
pub mod Once
use daemon_go.Prelude.{
  ℕ, zero, suc, ◌+◌, ◌*◌, ◌≤◌, ◌≡◌, ◌↔◌, refl, Bool, true, false, ◌||◌, Option, none, some, List,
  [], ◌∷◌, All, Text, Dict, leb, ltb, if◌then◌else◌, arith,
}
use Prim.Native.Nat.{min, max}
use mathlib.Core.Option
use daemon_go.Os.{World, second, run_cmd, dial}
use daemon_go.Config.{MonitorConfig}
use daemon_go.Guardian.{ProjectGuardian, Scene}
use daemon_go.Guardian.Probe.{is_alive, wait_for_startup, wait_loop, wait_round, is_stopped, probe}
use daemon_go.Actions.Scripts.{check_port, check_process}
use daemon_go.Manager.{Manager, Daemon}

-- close(g.stopCh) before the `calls`-th call of the world; `none` is the panic on a closed channel
unfoldable pub close_stop : ℕ → ProjectGuardian → Option ProjectGuardian
close_stop calls g =
    if g.stop_ch calls then none else some (record g { stop_ch = λ n. g.stop_ch n || leb calls n })

abbrev pub consed :
    Text → Option ProjectGuardian → Option (Dict ProjectGuardian) → Option (Dict ProjectGuardian)
consed name none gs = none
consed name (some g) none = none
consed name (some g) (some gs) = some ((name, g) ∷ gs)

-- the goroutines of Stop, which close the channel of each guardian
unfoldable pub close_all : ℕ → Dict ProjectGuardian → Option (Dict ProjectGuardian)
unfolding close_stop
close_all calls [] = some []
close_all calls ((name, g) ∷ gs) = consed name (close_stop calls g) (close_all calls gs)

-- wg.Wait(): the time until the last loop has returned
unfoldable pub longest : (Text → ℕ) → Dict ProjectGuardian → ℕ
longest returns [] = 0
longest returns ((name, g) ∷ gs) = max (returns name) (longest returns gs)

abbrev pub ten_seconds : ℕ
ten_seconds = 10 * second

-- what is left after a wait of at most ten seconds
abbrev pub waited : ℕ → Daemon → Dict ProjectGuardian → Bool × Daemon
waited wait d gs = (
  leb wait ten_seconds,
  record d {
    manager = record d.manager { guardians = gs };
    world = record d.world { now = d.world.now + min wait ten_seconds };
  },
)

-- Stop: whether all loops have returned, or the ten seconds went by
unfoldable pub stop_manager : (Text → ℕ) → Daemon → Option (Bool × Daemon)
unfolding close_all longest
stop_manager returns d =
    Option.map (waited (longest returns d.manager.guardians) d)
      (close_all d.world.calls d.manager.guardians)
