-- ===== src/Manager.antt =====
-- internal/project/manager.go: the guardians of a daemon by project name. Guardians share the world
-- and the event store; a call for one of them runs on the scene of that guardian.
pub mod Lookup
pub mod Pause
pub mod Stop
use daemon_go.Prelude.{
  Bool, true, false, Option, none, some, List, [], ◌∷◌, ◌++◌, map, Text, Dict, codes, lookup,
  insert, if◌then◌else◌,
}
use daemon_go.Os.{Error, World}
use daemon_go.Config.{DaemonConfig, Project}
use daemon_go.Events.{EventStore, Json, manual_restart}
use daemon_go.Actions.Allowed.{Platform}
use daemon_go.Actions.Registry.{Registry, new_registry}
use daemon_go.Prelude.Int.{pos}
use daemon_go.Guardian.{
  Setup, ProjectGuardian, Scene, new_guardian, set_paused, emit_to, reset_fail_count,
}
use daemon_go.Guardian.Start.{start_by_hand, stop_by_hand, restart_by_hand}
use daemon_go.Guardian.Tick.{ProjectStatus, status}

pub record Manager : Type 0 where
  pub cfg : DaemonConfig
  pub registry : Registry
  pub guardians : Dict ProjectGuardian
  pub paused : Bool

-- the manager with what its guardians share
pub record Daemon : Type 0 where
  pub manager : Manager
  pub world : World
  pub store : EventStore

unfoldable pub new_manager : DaemonConfig → Manager
new_manager cfg = record {
  cfg = cfg;
  registry = record new_registry { allowed_commands = cfg.allowed_commands };
  guardians = [];
  paused = false;
}

abbrev pub setup_of : Json → Platform → Manager → Setup
setup_of json platform m = record { json = json; platform = platform; registry = m.registry }

-- the loop of Start over the configured projects
unfoldable pub start_loop : List Project → Dict ProjectGuardian → Dict ProjectGuardian
unfolding insert new_guardian
start_loop [] gs = gs
start_loop (p ∷ ps) gs = start_loop ps (if p.enabled then insert p.name (new_guardian p) gs else gs)

-- Start; each guardian's loop then ticks on its own
unfoldable pub start : Manager → Manager
unfolding start_loop
start m = record m { guardians = start_loop m.cfg.projects m.guardians }

abbrev pub map_guardians :
    (ProjectGuardian → ProjectGuardian) → Dict ProjectGuardian → Dict ProjectGuardian
map_guardians f = map (λ e. (e.0, f e.1))

-- SetPaused
unfoldable pub set_all_paused : Bool → Manager → Manager
unfolding set_paused
set_all_paused paused m = record m {
  paused = paused;
  guardians = map_guardians (set_paused paused) m.guardians;
}

-- Status
unfoldable pub statuses : Manager → List ProjectStatus
unfolding status
statuses m = map (λ e. status e.1) m.guardians

-- puts a guardian's scene back
abbrev pub put_scene : Text → Daemon → Option Error × Scene → Option Error × Daemon
put_scene name d (err, s) = (
  err,
  record d {
    manager = record d.manager { guardians = insert name s.guardian d.manager.guardians };
    world = s.world;
    store = s.store;
  },
)

abbrev pub scene_of : Daemon → ProjectGuardian → Scene
scene_of d g = record { guardian = g; world = d.world; store = d.store }

abbrev pub on_found :
    (Scene → Option Error × Scene) → Text → Daemon → Option ProjectGuardian → Option Error × Daemon
on_found f name d none = (none, d)
on_found f name d (some g) = put_scene name d (f (scene_of d g))

-- a manual operation on the guardian of a name; an unknown name is no error
unfoldable pub on_guardian : (Scene → Option Error × Scene) → Text → Daemon → Option Error × Daemon
unfolding lookup insert
on_guardian f name d = on_found f name d (lookup name d.manager.guardians)

module _ (json : Json) (platform : Platform) where
  -- ManualStart
  unfoldable pub manual_start_of : Text → Daemon → Option Error × Daemon
  unfolding on_guardian start_by_hand
  manual_start_of name d = on_guardian (start_by_hand (setup_of json platform d.manager)) name d

  -- ManualStop
  unfoldable pub manual_stop_of : Text → Daemon → Option Error × Daemon
  unfolding on_guardian stop_by_hand
  manual_stop_of name d = on_guardian (stop_by_hand (setup_of json platform d.manager)) name d

  -- ManualRestart
  unfoldable pub manual_restart_of : Text → Daemon → Option Error × Daemon
  unfolding on_guardian restart_by_hand
  manual_restart_of name d = on_guardian (restart_by_hand (setup_of json platform d.manager)) name d

  abbrev pub reset_scene : Text → Daemon → Scene → Option Error × Scene
  reset_scene name d s =
      let s₁ = reset_fail_count s in
      let (store, world) =
        emit_to (setup_of json platform d.manager) manual_restart name
          (codes "重置项目 " ++ name ++ codes " 失败计数") [] s₁.world s₁.store in
      (none, record s₁ { store = store; world = world })

  abbrev pub reset_found : Text → Daemon → Option ProjectGuardian → Option Error × Daemon
  reset_found name d none = (some (codes "project " ++ name ++ codes " not found"), d)
  reset_found name d (some g) = put_scene name d (reset_scene name d (scene_of d g))

  -- ResetFailCountByName
  unfoldable pub reset_fail_count_of : Text → Daemon → Option Error × Daemon
  unfolding lookup insert
  reset_fail_count_of name d = reset_found name d (lookup name d.manager.guardians)

-- ResetFailCount
unfoldable pub reset_all : Manager → Manager
reset_all m = record m {
  guardians = map_guardians (λ g. record g { fail_count = pos 0 }) m.guardians;
}
