-- ===== src/Service.antt =====
-- internal/service/service.go: serviceHandler.Execute, the daemon as a Windows service. The trace
-- is what Execute itself does; the handler's Start and Stop run on goroutines that it only begins.
-- A status that nobody takes within two seconds is dropped by the sender.
pub mod Stops
pub mod Control
pub mod Command
use daemon_go.Prelude.{ℕ, Bool, true, false, List, [], ◌∷◌, ◌++◌}

-- the states of package svc that Execute reports
pub data ServiceState : Type 0 where
  start_pending service_running stop_pending service_stopped : ServiceState
  other_state : ℕ → ServiceState

pub record Status : Type 0 where
  pub state : ServiceState
  pub accepts : Bool  -- stop and shutdown

-- svc.Cmd
pub data Request : Type 0 where
  interrogate stop shutdown : Request
  other_request : ℕ → Request

pub record ChangeRequest : Type 0 where
  pub cmd : Request
  pub current_status : Status

-- what Execute does, and what its goroutines do
pub data Step : Type 0 where
  send_status : Status → Step
  begin_start begin_stop : Step  -- `go func`
  start_handler stop_handler : Step

abbrev pub bare : ServiceState → Step
bare s = send_status (record { state = s; accepts = false })

-- `case svc.Stop, svc.Shutdown`
abbrev pub ends_service : Request → Bool
ends_service interrogate = false
ends_service stop = true
ends_service shutdown = true
ends_service (other_request n) = false

-- the bodies of the two goroutines
unfoldable pub goroutine_of : Step → List Step
goroutine_of begin_start = start_handler ∷ []
goroutine_of begin_stop = stop_handler ∷ bare service_stopped ∷ []
goroutine_of (send_status s) = []
goroutine_of start_handler = []
goroutine_of stop_handler = []

-- the loop over the requests that arrive, and whether it has returned
unfoldable pub execute_loop : List ChangeRequest → List Step × Bool
execute_loop [] = ([], false)
execute_loop (r ∷ rs) =
    let (steps, returned) = execute_loop rs in
    elim (ends_service r.cmd) [
      | true ↦ (bare stop_pending ∷ begin_stop ∷ [], true)
      | false ↦ (send_status r.current_status ∷ steps, returned)
    ]

-- Execute
unfoldable pub execute_service : List ChangeRequest → List Step × Bool
unfolding execute_loop
execute_service rs =
    let (steps, returned) = execute_loop rs in
    (
      bare start_pending
          ∷ begin_start
          ∷ send_status (record { state = service_running; accepts = true })
          ∷ steps,
      returned,
    )
