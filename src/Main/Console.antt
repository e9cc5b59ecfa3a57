-- ===== src/Main/Console.antt =====
-- The daemon at work: what comes to the guardians of internal/project/manager.go, which are the ticks
-- of their loops and the requests of internal/web/server.go, one at a time and in any order. What the
-- peer watcher and the world do in between is left open.
pub mod Guardians
pub mod Handlers
pub mod Sound
use daemon_go.Prelude.{Option, none, List, [], ◌∷◌, Text}
use daemon_go.Os.{World}
use daemon_go.Events.{EventStore}
use daemon_go.Guardian.Tick.{tick}
use daemon_go.Manager.{Daemon, setup_of, on_guardian}
use daemon_go.Web.Server.{Server, Request}
use daemon_go.Web.Server.Routes.{serve}

pub data DaemonEvent : Type 0 where
  loop_ticked : (name : Text) → DaemonEvent
  requested : Request → DaemonEvent
  elsewhere : World → EventStore → DaemonEvent

module _ (server : Server) where
  -- the ticker of the loop of one guardian
  unfoldable pub tick_of : Text → Daemon → Daemon
  unfolding on_guardian tick
  tick_of name d =
      (on_guardian (λ s. (none, tick (setup_of server.json server.platform d.manager) s)) name d).1

  unfoldable pub take_event : DaemonEvent → Daemon → Daemon
  unfolding tick_of serve
  take_event (loop_ticked name) d = tick_of name d
  take_event (requested r) d = (serve server r d).1
  take_event (elsewhere world store) d = record d { world = world; store = store }

  unfoldable pub take_events : List DaemonEvent → Daemon → Daemon
  unfolding take_event
  take_events [] d = d
  take_events (e ∷ es) d = take_events es (take_event e d)
