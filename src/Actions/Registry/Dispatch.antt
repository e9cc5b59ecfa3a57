-- ===== src/Actions/Registry/Dispatch.antt =====
-- What the table of NewRegistry does with a configured action.
use daemon_go.Prelude.{
  ◌≡◌, ◌≢◌, Option-cases, refl, ap, inl, inr, Option, some, List, ◌++◌, Text, codes, ◌==◌, eq_iff,
  lookup, arith,
}
use daemon_go.Os.{Error, World}
use daemon_go.Config.{AllowedCommand, ActionConfig}
use daemon_go.Actions.Allowed.{Platform}
use daemon_go.Actions.Registry.{
  Action, kill_process_action, kill_port_action, kill_window_action, wait_action,
  run_command_action, type_name, execute_action, Registry, new_registry, execute,
}

lookup-type_name : (a : Action) → lookup (type_name a) new_registry.actions ≡ some a
unfolding new_registry lookup ◌==◌
lookup-type_name kill_process_action = refl
lookup-type_name kill_port_action = refl
lookup-type_name kill_window_action = refl
lookup-type_name wait_action = refl
lookup-type_name run_command_action = refl

type_name-lookup :
    (k : Text) (a : Action) → lookup k new_registry.actions ≡ some a → k ≡ type_name a
unfolding new_registry lookup
type_name-lookup k a h = ground (
  arith,
  eq_iff (codes "killProcess") k,
  eq_iff (codes "killPort") k,
  eq_iff (codes "killWindow") k,
  eq_iff (codes "wait") k,
  eq_iff (codes "runCommand") k,
)

-- The configured action is one of the five, and runs as that one.
pub data Dispatched (p : Platform) (r : Registry) (cfg : ActionConfig) (w : World)
    (result : Option Error × World) : Type 0 where
  known :
      (a : Action)
      → cfg.kind ≡ type_name a
      → result ≡ execute_action p r.allowed_commands a cfg.params w
      → Dispatched p r cfg w result
  unknown :
      ((a : Action) → cfg.kind ≢ type_name a)
      → result ≡ (some (codes "unknown action type: " ++ cfg.kind), w)
      → Dispatched p r cfg w result

-- With the table of NewRegistry a configured action runs as the action whose type it names; any
-- other type is an error that changes nothing.
pub execute-Dispatched :
    (p : Platform) (allowed : List AllowedCommand) (cfg : ActionConfig) (w : World)
    → let r = record new_registry { allowed_commands = allowed } in
      Dispatched p r cfg w (execute p r cfg w)
unfolding execute
execute-Dispatched p allowed cfg w = elim (Option-cases (lookup cfg.kind new_registry.actions)) [
  | inl missing ↦ rw missing (
      unknown (λ a e. cc (missing, ap (λ k. lookup k new_registry.actions) e, lookup-type_name a))
        refl)
  | inr (a, found) ↦ rw found (known a (type_name-lookup cfg.kind a found) refl)
]
