-- ===== src/Main/Boot/Safe.antt =====
-- cmd/daemon/main.go: what a command does.
use daemon_go.Prelude.{
  ◌≡◌, refl, ap, ◌∙◌, eq_refl, true, Option, none, some, List, [], Text, codes, ◌==◌, ◌||◌, arith,
}
use daemon_go.Os.{Error, Disk}
use daemon_go.Config.{service_name}
use daemon_go.Service.Control.{ServiceApi}
use daemon_go.Service.Control.Database.{Entry, Database, Commits, ServiceLaws}
use daemon_go.Service.Command.{Command, command_of, DaemonService, install}
use daemon_go.Service.Command.Refines.{Permits, perform, entry_of, run_service-Commits}
use daemon_go.Main.Flags.{accepted, parse_flags, last_command}
use daemon_go.Main.Boot.{
  Host, change_to_exe_dir, service_of, blank_config, no_handler, code_of, run_for_command, main,
  by_command,
}

-- what a command is carried out on
abbrev pub service_for : ServiceApi → Host → Text → DaemonService
service_for api host x = service_of api host (service_name (blank_config x)) x

module _ (api : ServiceApi) (laws : ServiceLaws api) (host : Host) (d : Disk) (s : api.System) where
  open laws use {view}

  by_command-some :
      (x cmd : Text) (o : Option Command) {c : Command}
      → o ≡ some c
      → by_command api host x cmd d s o ≡ run_for_command api host x cmd d s
  by_command-some x cmd o e = rw e refl

  found_main :
      (x : Text) (rest : List Text)
      → parse_flags (codes "a") host.args ≡ accepted x rest
      → (x == codes "a" || x == codes "b") ≡ true
      → change_to_exe_dir api host ≡ none
      → main api host d s
        ≡ by_command api host x (last_command [] rest) d s (command_of (last_command [] rest))
  unfolding main
  found_main x rest f valid moved = rw (f, valid, moved) refl

  command_main :
      (x : Text) (rest : List Text) (c : Command)
      → parse_flags (codes "a") host.args ≡ accepted x rest
      → (x == codes "a" || x == codes "b") ≡ true
      → change_to_exe_dir api host ≡ none
      → command_of (last_command [] rest) ≡ some c
      → main api host d s ≡ run_for_command api host x (last_command [] rest) d s
  command_main x rest c f valid moved is =
      found_main x rest f valid moved ∙ by_command-some x (last_command [] rest) _ is

  -- With a command as the last one among its arguments, main carries it out on the service of its
  -- instance: it ends with code 0 and what the command does to the registered services, or with code
  -- 1 and the services as they were. It runs no daemon and writes no file.
  pub main-Commits :
      (x : Text) (rest : List Text) (c : Command)
      → parse_flags (codes "a") host.args ≡ accepted x rest
      → (x == codes "a" || x == codes "b") ≡ true
      → change_to_exe_dir api host ≡ none
      → command_of (last_command [] rest) ≡ some c
      → let e = main api host d s in
        ((err : Option Error) × (e.code ≡ code_of api host err)
          × Commits
              (Permits (view s) (service_for api host x) c)
              (view s)
              (perform (service_for api host x) c (view s))
              err
              (view e.services))
        × (e.process ≡ none)
        × (e.disk ≡ d)
  main-Commits x rest c f valid moved is = rw (command_main x rest c f valid moved is) (
      let r =
        run_service-Commits api laws (service_for api host x) (no_handler api host)
          (last_command [] rest) c s tt is in
      ((_, refl, r.0), refl, refl))

  args_read_back :
      (name x : Text) → parse_flags (codes "a") (service_of api host name x).args ≡ accepted x []
  unfolding parse_flags service_of ◌==◌
  args_read_back name x = refl

  registered_then :
      (x : Text) (err : Option Error) (e : Database)
      → code_of api host err ≡ 0
      → Commits
          (Permits (view s) (service_for api host x) install)
          (view s)
          (perform (service_for api host x) install (view s))
          err
          e
      → (entry : Entry) × (e.entries (service_for api host x).name ≡ some entry)
        × (parse_flags (codes "a") entry.args ≡ accepted x [])
  registered_then x none e ok h = (
    entry_of (service_for api host x),
    ap (λ (t : Database). t.entries (service_for api host x).name) h.1
        ∙ rw (eq_refl (service_for api host x).name) refl,
    args_read_back (service_name (blank_config x)) x,
  )
  registered_then x (some err) e bad h = absurd (omega arith)

  -- When `main` with the command `install` ends with code 0, the service of its instance is
  -- registered, with arguments that `main` reads as that instance and no command.
  pub main_installed :
      (x : Text) (rest : List Text)
      → parse_flags (codes "a") host.args ≡ accepted x rest
      → (x == codes "a" || x == codes "b") ≡ true
      → change_to_exe_dir api host ≡ none
      → command_of (last_command [] rest) ≡ some install
      → (main api host d s).code ≡ 0
      → (entry : Entry) × ((view (main api host d s).services).entries (service_for api host x).name
          ≡ some entry)
        × (parse_flags (codes "a") entry.args ≡ accepted x [])
  main_installed x rest f valid moved is ok =
      let ((err, code, done), gone, same) = main-Commits x rest install f valid moved is in
      registered_then x err _ (rw code at ok) done
