-- ===== src/Service/Command.antt =====
-- internal/service/service.go: DaemonService and its Run, which carries out a command or runs the
-- daemon, in the foreground or under the service manager. What package svc does with the handler is
-- an argument, and so is the wait for a signal.
pub mod Refines
use daemon_go.Prelude.{
  Option, none, some, List, Bool, true, false, ◌++◌, Text, codes, ◌==◌, if◌then◌else◌,
}
use daemon_go.Os.{Error}
use daemon_go.Service.Control.{
  Reply, got, refused, ServiceApi, install_service, uninstall_service, start_service, stop_service,
}

pub record DaemonService : Type 0 where
  pub name : Text
  pub display_name : Text
  pub description : Text
  pub exe_path : Text
  pub args : List Text

pub data Command : Type 0 where
  install uninstall start_command stop_command : Command

-- the switch of Run
unfoldable pub command_of : Text → Option Command
command_of cmd =
    if cmd == codes "install"
    then some install
    else if cmd == codes "uninstall"
    then some uninstall
    else if cmd == codes "start"
    then some start_command
    else if cmd == codes "stop"
    then some stop_command
    else none

-- Service, and what runs it: `D` is the daemon, `session` what svc.IsAnInteractiveSession returns,
-- `await` what goes by until a signal, `dispatch` svc.Run.
pub record ServiceHost (D : Type 0) : Type 0 where
  pub start : D → Option Error × D
  pub stop : D → Option Error × D
  pub session : Reply Bool
  pub await : D → D
  pub dispatch : Text → D → Option Error × D

module _ {D : Type 0} (host : ServiceHost D) where
  open host use {start, stop, session, await, dispatch}

  -- in the foreground
  abbrev pub until_signal : Option Error × D → Option Error × D
  until_signal (some err, d) = (some err, d)
  until_signal (none, d) = stop (await d)

  -- Run without a command
  unfoldable pub run_daemon : DaemonService → D → Option Error × D
  run_daemon service d = elim session [
    | refused err ↦ (some (codes "failed to determine interactive session: " ++ err), d)
    | got interactive ↦ if interactive then until_signal (start d) else dispatch service.name d
  ]

module _ (api : ServiceApi) where
  -- one of the four commands
  unfoldable pub carry_out : DaemonService → Command → api.System → Option Error × api.System
  unfolding install_service uninstall_service start_service stop_service
  carry_out service install s =
      install_service api service.name service.display_name service.description service.exe_path
        service.args s
  carry_out service uninstall s = uninstall_service api service.name s
  carry_out service start_command s = start_service api service.name s
  carry_out service stop_command s = stop_service api service.name s

  module _ {D : Type 0} (host : ServiceHost D) where
    abbrev pub run_as :
        DaemonService → Option Command → api.System → D → Option Error × api.System × D
    run_as service (some c) s d = let (r, s') = carry_out service c s in (r, s', d)
    run_as service none s d = let (r, d') = run_daemon host service d in (r, s, d')

    -- Run
    unfoldable pub run_service :
        DaemonService → Text → api.System → D → Option Error × api.System × D
    unfolding command_of carry_out run_daemon
    run_service service cmd s d = run_as service (command_of cmd) s d
