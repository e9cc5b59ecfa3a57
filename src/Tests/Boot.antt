-- ===== src/Tests/Boot.antt =====
-- The theorems on main at concrete arguments.
use daemon_go.Prelude.{
  ◌≡◌, ◌≢◌, ◌↔◌, refl, Option, none, some, true, List, [], ◌∷◌, Text, codes, ◌==◌,
}
use daemon_go.Os.{Error, Disk, read_file, write_file}
use daemon_go.Config.{service_name}
use daemon_go.Config.Files.{save}
use daemon_go.Service.Control.{got}
use daemon_go.Service.Control.Database.{Entry, Commits}
use daemon_go.Service.Command.{install, command_of}
use daemon_go.Service.Command.Refines.{Permits, perform}
use daemon_go.Main.Flags.{accepted, parse_flags, last_command}
use daemon_go.Main.Boot.{
  Host, start_process, stop_process, owned, main, change_to_exe_dir, code_of, service_of,
}
use daemon_go.Main.Boot.Runs.{Runs, main-Runs}
use daemon_go.Main.Boot.Safe.{main-Commits, main_installed, service_for}
use daemon_go.Tests.Fixtures.{small_config, empty_disk}
use daemon_go.Tests.Codec.{numbers_yaml}
use daemon_go.Tests.Services.{table, table_laws, no_services}

abbrev host_with : List Text → Host
host_with args = record {
  args = args;
  arg_zero = codes "daemon.exe";
  executable = some (codes "C:/guard/daemon.exe");
  dir = λ path. codes "C:/guard";
  abs = λ path. path;
  chdir = λ path. none;
  create_mutex = λ name. owned;
  random = some (λ n. n);
  yaml = numbers_yaml;
  session = got true;
  await = λ p. p;
  dispatch = λ name p. (none, p);
}

abbrev install_a : Host
install_a = host_with (codes "--instance" ∷ codes "a" ∷ codes "install" ∷ [])

abbrev run_b : Host
run_b = host_with (codes "--instance=b" ∷ [])

-- a disk that holds the configuration of the fixtures
abbrev ready_disk : Disk
ready_disk = (save numbers_yaml small_config (codes "config.yaml") empty_disk).1

main-Commits_example :
    let e = main table install_a empty_disk no_services in
    ((err : Option Error) × (e.code ≡ code_of table install_a err)
      × Commits
          (Permits no_services (service_for table install_a (codes "a")) install)
          no_services
          (perform (service_for table install_a (codes "a")) install no_services)
          err
          e.services)
    × (e.process ≡ none)
    × (e.disk ≡ empty_disk)
unfolding parse_flags last_command command_of change_to_exe_dir ◌==◌
main-Commits_example =
    main-Commits table table_laws install_a empty_disk no_services (codes "a")
      (codes "install" ∷ []) install refl refl refl refl

main_installed_example :
    (entry : Entry) × ((main table install_a empty_disk no_services).services.entries
        (codes "ProcessGuard-a")
      ≡ some entry)
    × (parse_flags (codes "a") entry.args ≡ accepted (codes "a") [])
unfolding parse_flags last_command command_of change_to_exe_dir ◌==◌ main service_of service_name
main_installed_example =
    main_installed table table_laws install_a empty_disk no_services (codes "a")
      (codes "install" ∷ []) refl refl refl refl refl

some-ne-none {ℓ} : {A : Type ℓ} {a : A} → some a ≢ none
some-ne-none e = cc

run_b_runs : (main table run_b ready_disk no_services).process ≢ none
unfolding main ◌==◌ read_file save write_file start_process stop_process
run_b_runs e = some-ne-none (rw (numbers_yaml.unmarshal-marshal small_config) at e)

main-Runs_example :
    ((main table run_b ready_disk no_services).process ≢ none)
    ↔ ((x : Text) × (rest : List Text) × Runs table run_b ready_disk no_services x rest)
main-Runs_example = main-Runs table run_b ready_disk no_services
