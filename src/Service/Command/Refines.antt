-- ===== src/Service/Command/Refines.antt =====
-- internal/service/service.go: what the commands of Run do to the registered services.
use daemon_go.Prelude.{◌≡◌, refl, none, some, true, Text}
use daemon_go.Service.Control.{ServiceApi}
use daemon_go.Service.Control.Database.{
  Entry, Database, IsRegistered, register, ask, to_start, to_stop, Commits, ServiceLaws,
}
use daemon_go.Service.Control.Refines.{
  install_service-Commits, uninstall_service-Commits, start_service-Commits, stop_service-Commits,
}
use daemon_go.Service.Command.{
  DaemonService, Command, install, uninstall, start_command, stop_command, command_of, ServiceHost,
  carry_out, run_service,
}

-- When a command may succeed.
abbrev pub Permits : Database → DaemonService → Command → Type 0
Permits d service install = d.entries service.name ≡ none
Permits d service _ = IsRegistered service.name d

-- what `install` registers
abbrev pub entry_of : DaemonService → Entry
entry_of service = record {
  exe_path = service.exe_path;
  config = record {
    display_name = service.display_name;
    description = service.description;
    automatic = true;
  };
  args = service.args;
}

-- What a command does where it succeeds.
abbrev pub perform : DaemonService → Command → Database → Database
perform service install = register service.name (some (entry_of service))
perform service uninstall = register service.name none
perform service start_command = ask (to_start service.name)
perform service stop_command = ask (to_stop service.name)

module _ (api : ServiceApi) (laws : ServiceLaws api) (service : DaemonService) where
  open laws use {view}

  carry_out-Commits :
      (c : Command) (s : api.System)
      → let r = carry_out api service c s in
        Commits (Permits (view s) service c) (view s) (perform service c (view s)) r.0 (view r.1)
  unfolding carry_out
  carry_out-Commits install s =
      install_service-Commits api laws service.name s service.display_name service.description
        service.exe_path service.args
  carry_out-Commits uninstall s = uninstall_service-Commits api laws service.name s
  carry_out-Commits start_command s = start_service-Commits api laws service.name s
  carry_out-Commits stop_command s = stop_service-Commits api laws service.name s

  -- A command of Run carries out its operation on the registered services, or returns an error and
  -- changes nothing: `install` registers the service under a name that was free, to be started
  -- automatically, with its path and arguments; `uninstall` takes a registered one out; `start` and
  -- `stop` ask once for it. Nothing stays open on any path, and the daemon itself is not run.
  pub run_service-Commits :
      {D : Type 0} (host : ServiceHost D) (cmd : Text) (c : Command) (s : api.System) (d : D)
      → command_of cmd ≡ some c
      → let r = run_service api host service cmd s d in
        Commits (Permits (view s) service c) (view s) (perform service c (view s)) r.0 (view r.1)
        × (r.2 ≡ d)
  unfolding run_service
  run_service-Commits host cmd c s d is = rw is (carry_out-Commits c s, refl)
