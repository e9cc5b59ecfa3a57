-- ===== src/Main/Guarded.antt =====
-- cmd/daemon/main.go: which projects are guarded after a start.
use mathlib.Core.Option
use daemon_go.Prelude.{
  Bool, true, false, not, ◌&&◌, ◌≡◌, refl, none, List, [], ◌∷◌, Text, codes, ◌==◌, lookup,
  if◌then◌else◌, Bool-cases, inl, inr,
}
use daemon_go.Os.{Disk}
use daemon_go.Config.{DaemonConfig}
use daemon_go.Config.Files.{load_state, paused}
use daemon_go.Guardian.{new_guardian}
use daemon_go.Manager.{Manager, new_manager, set_all_paused, reset_all}
use daemon_go.Manager.Lookup.{last_enabled, lookup-start}
use daemon_go.Main.{
  start_daemon, GlobalCall, pause_call, resume_call, reset_call, run_global, run_globals,
}

-- The daemon guards its projects: instance a, not paused when it started.
abbrev pub guards : DaemonConfig → Disk → Bool
guards cfg disk = cfg.instance_name == codes "a" && not (load_state cfg disk == paused)

-- After a start with a new manager, a name has a guardian exactly when this is instance a, the
-- state file does not say PAUSED, and an enabled project has the name; it is the fresh guardian of
-- the last such project.
pub lookup-start_daemon :
    (name : Text) (cfg : DaemonConfig) (disk : Disk)
    → lookup name (start_daemon (new_manager cfg) disk).manager.guardians ≡ (
        if guards cfg disk
        then Option.map new_guardian (last_enabled name cfg.projects none)
        else none)
unfolding start_daemon new_manager set_all_paused lookup
lookup-start_daemon name cfg disk = elim (Bool-cases (cfg.instance_name == codes "a")) [
  | inr other ↦ rw other refl
  | inl main_instance ↦ elim (Bool-cases (load_state cfg disk == paused)) [
    | inl at_rest ↦ rw (main_instance, at_rest) refl
    | inr running ↦ rw (main_instance, running) (lookup-start name cfg)
  ]
]

run_globals_none :
    (cs : List GlobalCall) (m : Manager) → m.guardians ≡ [] → (run_globals cs m).guardians ≡ []
unfolding run_globals run_global set_all_paused reset_all
run_globals_none [] m h = h
run_globals_none (pause_call ∷ cs) m h = run_globals_none cs (set_all_paused true m) (rw h refl)
run_globals_none (resume_call ∷ cs) m h = run_globals_none cs (set_all_paused false m) (rw h refl)
run_globals_none (reset_call ∷ cs) m h = run_globals_none cs (reset_all m) (rw h refl)

-- A daemon that starts while its state file says PAUSED guards nothing until it is restarted: no
-- sequence of pauses, resumes and resets by the console gives it a guardian.
pub paused_start_unguarded :
    (cfg : DaemonConfig) (disk : Disk) (cs : List GlobalCall)
    → (load_state cfg disk == paused) ≡ true
    → (run_globals cs (start_daemon (new_manager cfg) disk).manager).guardians ≡ []
unfolding start_daemon new_manager set_all_paused
paused_start_unguarded cfg disk cs at_rest =
    run_globals_none cs (start_daemon (new_manager cfg) disk).manager
      (elim (Bool-cases (cfg.instance_name == codes "a")) [
        | inr other ↦ rw other refl
        | inl main_instance ↦ rw (main_instance, at_rest) refl
      ])
