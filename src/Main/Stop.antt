-- ===== src/Main/Stop.antt =====
-- The goroutine of daemonHandler.Stop in cmd/daemon/main.go, with Server.Stop of
-- internal/web/server.go and PeerWatcher.Stop of internal/watcher/watcher.go. How long a part takes
-- to end by itself is an argument, in nanoseconds.
pub mod Bounded
use daemon_go.Prelude.{
  ℕ, zero, suc, ◌+◌, ◌*◌, Bool, true, false, Option, none, some, Text, if◌then◌else◌,
}
use Prim.Native.Nat.{min}
use daemon_go.Os.{World, second}
use daemon_go.Manager.{Daemon}
use daemon_go.Manager.Stop.{stop_manager}

-- How long the parts take: the requests of the server, the loop of a project, the peer watcher's.
pub record Lapses : Type 0 where
  pub shutdown : ℕ
  pub loops : Text → ℕ
  pub watch : ℕ

-- what a daemon runs beside its guardians
pub record Running : Type 0 where
  pub serving : Bool  -- `h.server != nil`, and it was started
  pub watching : Bool  -- the loop of the peer watcher was started
  pub watch_closed : Bool  -- the watcher's stopCh

abbrev pub pass : ℕ → World → World
pass ns w = record w { now = w.now + ns }

-- Server.Stop: Shutdown with a timeout of three seconds
unfoldable pub stop_server : ℕ → Bool → World → World
stop_server shutdown serving w = if serving then pass (min shutdown (3 * second)) w else w

-- PeerWatcher.Stop: a loop that was not started never closes stoppedCh; `none` is the panic on a
-- closed channel
unfoldable pub stop_watcher : ℕ → Running → World → Option World
stop_watcher watch r w =
    if r.watch_closed
    then none
    else some (pass (if r.watching then min watch (2 * second) else 2 * second) w)

abbrev pub with_world : Daemon → Option World → Option Daemon
with_world d none = none
with_world d (some w) = some (record d { world = w })

abbrev pub then_end : Option (Bool × Daemon) → Option Daemon
then_end none = none
then_end (some (done, d)) = some d

abbrev pub then_watcher : Lapses → Running → Option (Bool × Daemon) → Option Daemon
then_watcher lapses r none = none
then_watcher lapses r (some (done, d)) = with_world d (stop_watcher lapses.watch r d.world)

-- The goroutine, up to the end of its server, its manager and its watcher: nothing waits for it, so
-- that it may be cut off after any number of its parts.
unfoldable pub stop_parts : ℕ → Lapses → Running → Daemon → Option Daemon
unfolding stop_server stop_manager stop_watcher
stop_parts zero lapses r d = some d
stop_parts (suc zero) lapses r d =
    some (record d { world = stop_server lapses.shutdown r.serving d.world })
stop_parts (suc (suc zero)) lapses r d =
    then_end (
      stop_manager lapses.loops
        (record d { world = stop_server lapses.shutdown r.serving d.world }))
stop_parts (suc (suc (suc n))) lapses r d =
    then_watcher lapses r (
      stop_manager lapses.loops
        (record d { world = stop_server lapses.shutdown r.serving d.world }))
