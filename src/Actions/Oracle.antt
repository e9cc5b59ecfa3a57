-- ===== src/Actions/Oracle.antt =====
-- The answers of the world over an action and over a script.
use daemon_go.Prelude.{
  true, false, Bool, Bool-cases, Option-cases, inl, inr, Option, none, some, List, [], ◌∷◌, Text,
  Dict, codes, ◌==◌, lookup, split_from,
}
use daemon_go.Prelude.Int.{times}
use daemon_go.Prelude.Atoi.{atoi}
use daemon_go.Os.{Error, Cmd, World, run_cmd, stat, millisecond}
use daemon_go.Os.Oracle.{
  SameOracle, SameOracle-refl, SameOracle-trans, SameOracle-run_cmd, SameOracle-start_cmd,
  SameOracle-stat, SameOracle-sleep,
}
use daemon_go.Config.{AllowedCommand, ActionConfig}
use daemon_go.Actions.Allowed.{
  Platform, param, is_command_allowed, run_found, run_parts, run_command,
}
use daemon_go.Actions.Kill.{
  listening_pid, wanted, taskkill, run_here, netstat, kill_loop, kill_listed, kill_process,
  kill_port, kill_window,
}
use daemon_go.Actions.Registry.{
  Action, kill_process_action, kill_port_action, kill_window_action, wait_action,
  run_command_action, wait, execute_action, Registry, execute,
}
use daemon_go.Actions.Scripts.{sanitize_script_path, script_cmd, start_found, run_start_script}
use daemon_go.Actions.Split.{split_command}

ruleset oracle_rules = (
  SameOracle-refl, SameOracle-trans, SameOracle-run_cmd, SameOracle-start_cmd, SameOracle-stat,
  SameOracle-sleep,
)

SameOracle-kill_loop : (lines : List Text) (w : World) → SameOracle w (kill_loop lines w)
unfolding kill_loop
SameOracle-kill_loop [] w = SameOracle-refl w
SameOracle-kill_loop (line ∷ lines) w = elim (Option-cases (wanted (listening_pid line))) [
  | inl skip ↦ rw (skip, kill_loop) (SameOracle-kill_loop lines w)
  | inr (pid, e) ↦
      rw (e, kill_loop)
        (SameOracle-trans (SameOracle-run_cmd w (record { argv = taskkill pid; dir = [] }))
          (SameOracle-kill_loop lines (run_here (taskkill pid) w).1))
]

SameOracle-kill_listed :
    (e : Option Error) (out : Text) (w : World) → SameOracle w (kill_listed e out w).1
unfolding kill_listed
SameOracle-kill_listed (some _) out w = SameOracle-refl w
SameOracle-kill_listed none [] w = SameOracle-refl w
SameOracle-kill_listed none (c ∷ out) w = SameOracle-kill_loop (split_from 10 [] (c ∷ out)) w

module _ (w : World) where
  SameOracle-kill_process : (params : Dict Text) → SameOracle w (kill_process params w).1
  unfolding kill_process
  SameOracle-kill_process params = elim (Bool-cases (param (codes "processName") params == [])) [
    | inl blank ↦ rw blank (SameOracle-refl w)
    | inr named ↦ rw named (SameOracle-run_cmd w _)
  ]

  SameOracle-kill_window : (params : Dict Text) → SameOracle w (kill_window params w).1
  unfolding kill_window
  SameOracle-kill_window params = elim (Bool-cases (param (codes "windowTitle") params == [])) [
    | inl blank ↦ rw blank (SameOracle-refl w)
    | inr named ↦ rw named (SameOracle-run_cmd w _)
  ]

  SameOracle-kill_port : (params : Dict Text) → SameOracle w (kill_port params w).1
  unfolding kill_port
  SameOracle-kill_port params = elim (Bool-cases (param (codes "port") params == [])) [
    | inl blank ↦ rw blank (SameOracle-refl w)
    | inr named ↦ rw named (
        let cmd : Cmd = record { argv = netstat (param (codes "port") params); dir = [] } in
        let (o, w') = run_cmd cmd w in
        SameOracle-trans (SameOracle-run_cmd w cmd) (SameOracle-kill_listed o.err o.out w'))
  ]

  SameOracle-run_found :
      (executable : Text) (args : List Text) (dir : Text) (found : Bool) (w' : World)
      → SameOracle w w'
      → SameOracle w (run_found executable args dir (found, w')).1
  unfolding run_found
  SameOracle-run_found executable args dir true w' h =
      SameOracle-trans h (SameOracle-run_cmd w' (record { argv = executable ∷ args; dir = dir }))
  SameOracle-run_found executable args dir false w' h = h

  SameOracle-run_parts :
      (p : Platform) (allowed : List AllowedCommand) (params : Dict Text)
      (parts : Option (List Text))
      → SameOracle w (run_parts p allowed params parts w).1
  unfolding run_parts
  SameOracle-run_parts p allowed params none = SameOracle-refl w
  SameOracle-run_parts p allowed params (some []) = SameOracle-refl w
  SameOracle-run_parts p allowed params (some (executable ∷ args)) =
      elim (Bool-cases (is_command_allowed p executable args allowed)) [
        | inl t ↦
            let (found, w') = stat executable w in
            rw t (
              SameOracle-run_found executable args (param (codes "workDir") params) found w'
                (SameOracle-stat w executable))
        | inr f ↦ rw f (SameOracle-refl w)
      ]

  SameOracle-run_command :
      (p : Platform) (allowed : List AllowedCommand) (params : Dict Text)
      → SameOracle w (run_command p allowed params w).1
  unfolding run_command
  SameOracle-run_command p allowed params =
      elim (Bool-cases (param (codes "command") params == [])) [
        | inl blank ↦ rw blank (SameOracle-refl w)
        | inr line ↦
            rw line (
              SameOracle-run_parts p allowed params
                (split_command (param (codes "command") params)))
      ]

  SameOracle-wait : (params : Dict Text) → SameOracle w (wait params w).1
  unfolding wait
  SameOracle-wait params = elim (Option-cases (atoi (param (codes "millis") params))) [
    | inl bad ↦ rw bad (SameOracle-refl w)
    | inr (n, good) ↦ rw good (SameOracle-sleep w (times n millisecond))
  ]

  SameOracle-execute_action :
      (p : Platform) (allowed : List AllowedCommand) (a : Action) (params : Dict Text)
      → SameOracle w (execute_action p allowed a params w).1
  unfolding execute_action
  SameOracle-execute_action p allowed kill_process_action params = SameOracle-kill_process params
  SameOracle-execute_action p allowed kill_port_action params = SameOracle-kill_port params
  SameOracle-execute_action p allowed kill_window_action params = SameOracle-kill_window params
  SameOracle-execute_action p allowed wait_action params = SameOracle-wait params
  SameOracle-execute_action p allowed run_command_action params =
      SameOracle-run_command p allowed params

  pub SameOracle-execute :
      (p : Platform) (r : Registry) (cfg : ActionConfig) → SameOracle w (execute p r cfg w).1
  unfolding execute
  SameOracle-execute p r cfg = elim (Option-cases (lookup cfg.kind r.actions)) [
    | inl missing ↦ rw missing (SameOracle-refl w)
    | inr (a, found) ↦ rw found (SameOracle-execute_action p r.allowed_commands a cfg.params)
  ]

  SameOracle-start_found :
      (p : Platform) (script work_dir : Text) (sync found : Bool) (w' : World)
      → SameOracle w w'
      → SameOracle w (start_found p script work_dir sync (found, w')).1
  unfolding start_found
  SameOracle-start_found p script work_dir sync false w' h = h
  SameOracle-start_found p script work_dir true true w' h =
      SameOracle-trans h (SameOracle-run_cmd w' (script_cmd p script work_dir))
  SameOracle-start_found p script work_dir false true w' h =
      SameOracle-trans h (SameOracle-start_cmd w' (script_cmd p script work_dir))

  pub SameOracle-run_start_script :
      (p : Platform) (path work_dir : Text) (sync : Bool)
      → SameOracle w (run_start_script p path work_dir sync w).1
  unfolding run_start_script
  SameOracle-run_start_script p path work_dir sync =
      let script = sanitize_script_path path in
      elim (Bool-cases (sanitize_script_path path == [])) [
        | inl blank ↦ rw blank (SameOracle-refl w)
        | inr named ↦
            let (found, w') = stat script w in
            rw named
              (SameOracle-start_found p script work_dir sync found w' (SameOracle-stat w script))
      ]
