-- ===== src/Tests/Main.antt =====
-- The theorems on the start of the daemon and on its service at concrete inputs.
use mathlib.Core.Option
use daemon_go.Prelude.{
  ◌≡◌, inl, refl, true, false, none, [], ◌∷◌, ◌++◌, codes, ◌==◌, lookup, if◌then◌else◌,
}
use daemon_go.Os.{Disk, read_file}
use daemon_go.Config.Files.{load_state}
use daemon_go.Guardian.{new_guardian}
use daemon_go.Manager.{new_manager}
use daemon_go.Manager.Lookup.{last_enabled}
use daemon_go.Main.{start_daemon, resume_call, run_globals}
use daemon_go.Main.Guarded.{guards, lookup-start_daemon, paused_start_unguarded}
use daemon_go.Service.{
  start_pending, service_running, stop_pending, service_stopped, Status, ChangeRequest, interrogate,
  stop, send_status, begin_start, begin_stop, stop_handler, goroutine_of, bare, execute_service,
}
use daemon_go.Service.Stops.{answers, execute_service-append}
use daemon_go.Tests.Fixtures.{small_config, empty_disk}

lookup-start_daemon_example :
    lookup (codes "api") (start_daemon (new_manager small_config) empty_disk).manager.guardians ≡ (
      if guards small_config empty_disk
      then Option.map new_guardian (last_enabled (codes "api") small_config.projects none)
      else none)
lookup-start_daemon_example = lookup-start_daemon (codes "api") small_config empty_disk

abbrev paused_disk : Disk
paused_disk = record empty_disk { files = (codes "daemon.state", codes "PAUSED\n") ∷ [] }

paused_start_unguarded_example :
    (run_globals
      (resume_call ∷ [])
      (start_daemon (new_manager small_config) paused_disk).manager).guardians
    ≡ []
unfolding load_state ◌==◌ lookup read_file
paused_start_unguarded_example =
    paused_start_unguarded small_config paused_disk (resume_call ∷ []) refl

abbrev running_status : Status
running_status = record { state = service_running; accepts = true }

abbrev asked : ChangeRequest
asked = record { cmd = interrogate; current_status = running_status }

abbrev stopped : ChangeRequest
stopped = record { cmd = stop; current_status = running_status }

execute_service-append_example :
    let begun =
      bare start_pending
      ∷ begin_start
      ∷ send_status (record { state = service_running; accepts = true })
      ∷ answers (asked ∷ []) in
    (execute_service (asked ∷ []) ≡ (begun, false))
    × (execute_service ((asked ∷ []) ++ stopped ∷ asked ∷ [])
        ≡ (begun ++ bare stop_pending ∷ begin_stop ∷ [], true))
    × (goroutine_of begin_stop ≡ stop_handler ∷ bare service_stopped ∷ [])
execute_service-append_example =
    execute_service-append (asked ∷ []) (asked ∷ []) stopped ((λ e. cc, λ e. cc), tt) (inl refl)
