-- ===== src/Manager/Pause.antt =====
-- internal/project/manager.go: pausing and resuming all projects.
use daemon_go.Prelude.{ℕ, true, false, some, [], ◌∷◌, Text, Dict, lookup, ◌≡◌, refl, arith, inl}
use mathlib.Core.Option
use daemon_go.Guardian.{Setup, ProjectGuardian, init, set_paused}
use daemon_go.Guardian.Tick.{ticks}
use daemon_go.Guardian.Tick.Idle.{ticks_idle}
use daemon_go.Manager.{Manager, Daemon, set_all_paused, map_guardians, scene_of}

lookup-map_guardians :
    (f : ProjectGuardian → ProjectGuardian) (name : Text) (gs : Dict ProjectGuardian)
    → lookup name (map_guardians f gs) ≡ Option.map f (lookup name gs)
unfolding lookup
lookup-map_guardians f name [] = refl
lookup-map_guardians f name ((j, g) ∷ gs) = ground (arith, lookup-map_guardians f name gs)

abbrev pub as_initial : ProjectGuardian → ProjectGuardian
as_initial g = record g { paused = false; state = init }

paused_guardian :
    (name : Text) (m : Manager) (g : ProjectGuardian)
    → lookup name (set_all_paused true m).guardians ≡ some g
    → g.paused ≡ true
unfolding set_all_paused set_paused
paused_guardian name m g h = ground (arith, lookup-map_guardians (set_paused true) name m.guardians)

-- Pausing all projects and resuming them leaves each guardian with its configuration, pid, start
-- time, failure count and last observation, unpaused and in the initial state; and no number of
-- ticks of a guardian of the paused manager changes anything in between.
pub pause_resume_lem :
    (setup : Setup) (n : ℕ) (name : Text) (d : Daemon) (g : ProjectGuardian)
    → lookup name (set_all_paused true d.manager).guardians ≡ some g
    → (ticks setup n (scene_of d g) ≡ scene_of d g)
      × (lookup name (set_all_paused false (set_all_paused true d.manager)).guardians
          ≡ Option.map as_initial (lookup name d.manager.guardians))
unfolding set_all_paused set_paused
pause_resume_lem setup n name d g h = (
  ticks_idle setup n (scene_of d g) (inl (paused_guardian name d.manager g h)),
  ground (
    arith,
    lookup-map_guardians (set_paused true) name d.manager.guardians,
    lookup-map_guardians (set_paused false) name
        (map_guardians (set_paused true) d.manager.guardians),
  ),
)
