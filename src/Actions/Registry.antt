-- ===== src/Actions/Registry.antt =====
-- The table of actions of internal/actions/actions.go and WaitAction. The interface `Action` is a
-- data type with a constructor for each implementation.
pub mod Dispatch
use daemon_go.Prelude.{
  ℕ, Option, none, some, List, [], ◌∷◌, ◌++◌, Text, Dict, codes, lookup, insert, if◌then◌else◌,
}
use daemon_go.Prelude.Int.{ℤ, times}
use daemon_go.Prelude.Atoi.{atoi}
use daemon_go.Os.{Error, World, sleep, millisecond}
use daemon_go.Config.{AllowedCommand, ActionConfig}
use daemon_go.Actions.Allowed.{Platform, param, run_command}
use daemon_go.Actions.Kill.{kill_process, kill_port, kill_window}

pub data Action : Type 0 where
  kill_process_action kill_port_action kill_window_action wait_action run_command_action : Action

-- Action.Type()
unfoldable pub type_name : Action → Text
type_name kill_process_action = codes "killProcess"
type_name kill_port_action = codes "killPort"
type_name kill_window_action = codes "killWindow"
type_name wait_action = codes "wait"
type_name run_command_action = codes "runCommand"

abbrev wait_for : Text → Option ℤ → World → Option Error × World
wait_for ms none w = (some (codes "invalid millis: " ++ ms), w)
wait_for ms (some n) w = (none, sleep (times n millisecond) w)

-- WaitAction.Execute
unfoldable pub wait : Dict Text → World → Option Error × World
unfolding sleep
wait params w = let ms = param (codes "millis") params in wait_for ms (atoi ms) w

-- Action.Execute; the allowed commands are those of the context
unfoldable pub execute_action :
    Platform → List AllowedCommand → Action → Dict Text → World → Option Error × World
unfolding wait kill_process kill_port kill_window run_command
execute_action p allowed kill_process_action params w = kill_process params w
execute_action p allowed kill_port_action params w = kill_port params w
execute_action p allowed kill_window_action params w = kill_window params w
execute_action p allowed wait_action params w = wait params w
execute_action p allowed run_command_action params w = run_command p allowed params w

pub record Registry : Type 0 where
  pub actions : Dict Action
  pub allowed_commands : List AllowedCommand

unfoldable pub register : Action → Registry → Registry
unfolding type_name insert
register a r = record r { actions = insert (type_name a) a r.actions }

unfoldable pub new_registry : Registry
unfolding register
new_registry = register run_command_action (
    register wait_action (
      register kill_window_action (
        register kill_port_action
          (register kill_process_action (record { actions = []; allowed_commands = [] })))))

abbrev execute_found :
    Platform → Registry → ActionConfig → Option Action → World → Option Error × World
execute_found p r cfg none w = (some (codes "unknown action type: " ++ cfg.kind), w)
execute_found p r cfg (some a) w = execute_action p r.allowed_commands a cfg.params w

-- Registry.Execute, which also sets the context's allowed commands
unfoldable pub execute : Platform → Registry → ActionConfig → World → Option Error × World
execute p r cfg w = execute_found p r cfg (lookup cfg.kind r.actions) w
