-- ===== src/Manager/Lookup.antt =====
-- internal/project/manager.go: which guardians a manager has, and whom a manual operation touches.
use daemon_go.Prelude.{
  Option, none, some, List, [], ◌∷◌, Text, Dict, lookup, insert, if◌then◌else◌, ◌≡◌, refl, ◌≢◌,
  ◌==◌, eq_iff, lookup-insert, arith, Option-cases, inl, inr,
}
use mathlib.Core.Option
use daemon_go.Os.{Error}
use daemon_go.Config.{DaemonConfig, Project}
use daemon_go.Events.{Json}
use daemon_go.Actions.Allowed.{Platform}
use daemon_go.Guardian.{ProjectGuardian, Scene, new_guardian}
use daemon_go.Guardian.Start.{start_by_hand, stop_by_hand, restart_by_hand}
use daemon_go.Manager.{
  Daemon, new_manager, start_loop, start, on_guardian, manual_start_of, manual_stop_of,
  manual_restart_of, reset_fail_count_of, put_scene, scene_of, reset_scene, setup_of,
}

-- the last enabled project of a name, `p` when there is none
unfoldable pub last_enabled : Text → List Project → Option Project → Option Project
last_enabled name [] p = p
last_enabled name (q ∷ ps) p =
    last_enabled name ps (if q.enabled then (if q.name == name then some q else p) else p)

lookup-start_loop :
    (name : Text) (ps : List Project) (gs : Dict ProjectGuardian) (p : Option Project)
    → lookup name gs ≡ Option.map new_guardian p
    → lookup name (start_loop ps gs) ≡ Option.map new_guardian (last_enabled name ps p)
unfolding start_loop last_enabled
lookup-start_loop name [] gs p h = h
lookup-start_loop name (q ∷ ps) gs p h =
    lookup-start_loop name ps (if q.enabled then insert q.name (new_guardian q) gs else gs)
      (if q.enabled then (if q.name == name then some q else p) else p)
      (ground (arith, lookup-insert q.name name (new_guardian q) gs))

-- Starting a new manager gives a name a guardian exactly when the configuration has an enabled
-- project of that name: the fresh guardian of the last such project.
pub lookup-start :
    (name : Text) (cfg : DaemonConfig)
    → lookup name (start (new_manager cfg)).guardians
      ≡ Option.map new_guardian (last_enabled name cfg.projects none)
unfolding start new_manager lookup
lookup-start name cfg = lookup-start_loop name cfg.projects [] none refl

-- a call of the manager for a project by name
pub data NamedCall : Type 0 where
  manual_start_call manual_stop_call manual_restart_call reset_call : NamedCall

abbrev pub run_call : Json → Platform → NamedCall → Text → Daemon → Option Error × Daemon
run_call json platform manual_start_call = manual_start_of json platform
run_call json platform manual_stop_call = manual_stop_of json platform
run_call json platform manual_restart_call = manual_restart_of json platform
run_call json platform reset_call = reset_fail_count_of json platform

-- The configuration, the paused flag and the guardian of the other name are as they were.
abbrev pub SameFor : Text → Daemon → Daemon → Type 0
SameFor other d d' =
    (d'.manager.cfg ≡ d.manager.cfg)
    × (d'.manager.paused ≡ d.manager.paused)
    × (lookup other d'.manager.guardians ≡ lookup other d.manager.guardians)

module _ (name other : Text) (ne : other ≢ name) (d : Daemon) where
  put_scene-SameFor : (r : Option Error × Scene) → SameFor other d (put_scene name d r).1
  put_scene-SameFor (err, s) = (
    refl,
    refl,
    ground (arith, lookup-insert name other s.guardian d.manager.guardians, eq_iff name other),
  )

  on_guardian-SameFor :
      (f : Scene → Option Error × Scene) → SameFor other d (on_guardian f name d).1
  unfolding on_guardian
  on_guardian-SameFor f = elim (Option-cases (lookup name d.manager.guardians)) [
    | inl unknown ↦ rw unknown (refl, refl, refl)
    | inr (g, known) ↦ rw known (put_scene-SameFor (f (scene_of d g)))
  ]

  -- A manual start, stop or restart or a reset by name touches the guardian of that name alone:
  -- the guardian of every other name, the configuration and the paused flag stay as they were,
  -- whatever the scripts and the actions answer.
  pub run_call-SameFor :
      (json : Json) (platform : Platform) (call : NamedCall)
      → SameFor other d (run_call json platform call name d).1
  unfolding manual_start_of manual_stop_of manual_restart_of reset_fail_count_of
  run_call-SameFor json platform manual_start_call =
      on_guardian-SameFor (start_by_hand (setup_of json platform d.manager))
  run_call-SameFor json platform manual_stop_call =
      on_guardian-SameFor (stop_by_hand (setup_of json platform d.manager))
  run_call-SameFor json platform manual_restart_call =
      on_guardian-SameFor (restart_by_hand (setup_of json platform d.manager))
  run_call-SameFor json platform reset_call =
      elim (Option-cases (lookup name d.manager.guardians)) [
        | inl unknown ↦ rw unknown (refl, refl, refl)
        | inr (g, known) ↦
            rw known (put_scene-SameFor (reset_scene json platform name d (scene_of d g)))
      ]
