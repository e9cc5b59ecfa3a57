-- ===== src/Main/Boot.antt =====
-- main, alreadyRunning and changeToExeDir of cmd/daemon/main.go, and the handler that main gives to
-- the service. Messages on the error output are left out, and so are the files of the log.
pub mod Runs
pub mod Safe
use daemon_go.Prelude.{
  ℕ, Bool, true, false, Option, none, some, List, [], ◌∷◌, ◌++◌, Text, codes, ◌==◌, ◌||◌,
  if◌then◌else◌,
}
use daemon_go.Prelude.Int.{pos}
use daemon_go.Os.{Error, Disk}
use daemon_go.Config.{DaemonConfig, service_name}
use daemon_go.Config.Files.{Yaml, Loaded, loaded, read_failed, parse_failed, load}
use daemon_go.Auth.{AuthManager, Random, Created, created, token_failed, new_auth}
use daemon_go.Manager.{Manager, new_manager}
use daemon_go.Service.Control.{Reply, ServiceApi}
use daemon_go.Service.Command.{DaemonService, Command, command_of, ServiceHost, run_service}
use daemon_go.Main.{instance_config, Started, start_daemon}
use daemon_go.Main.Flags.{Flags, accepted, help_shown, flag_error, parse_flags, last_command}

-- what windows.CreateMutex answers
pub data MutexReply : Type 0 where
  owned already_exists mutex_refused : MutexReply

-- daemonHandler
pub record Process : Type 0 where
  pub manager : Manager
  pub disk : Disk
  pub serving : Bool  -- the web server
  pub guarding : Bool  -- the loops of the guardians
  pub watching : Bool  -- the loop of the peer watcher
  pub stopping : Bool  -- the goroutine of Stop was begun

-- Start
unfoldable pub start_process : Process → Option Error × Process
unfolding start_daemon
start_process p =
    let begun = start_daemon p.manager p.disk in
    (none, record p { manager = begun.manager; guarding = true; watching = begun.watching })

-- Stop returns at once: what its goroutine then does, while main ends, is Main/Stop.
unfoldable pub stop_process : Process → Option Error × Process
stop_process p = (none, record p { stopping = true })

-- &config.DaemonConfig{Instance: instance}
abbrev pub blank_config : Text → DaemonConfig
blank_config instance_name = record {
  instance_name = instance_name;
  log_dir = [];
  state_file = [];
  web_port = pos 0;
  web_host = [];
  peer = record { instance_id = []; service_name = []; check_interval = pos 0; start_script = [] };
  projects = [];
  allowed_commands = [];
  auth_token = [];
}

-- What main asks of the system: the arguments behind the program's name, os.Executable,
-- filepath.Dir and filepath.Abs, os.Chdir, CreateMutex, package svc and the wait for a signal.
pub record Host : Type 0 where
  pub args : List Text
  pub arg_zero : Text
  pub executable : Option Text
  pub dir : Text → Text
  pub abs : Text → Text
  pub chdir : Text → Option Error
  pub create_mutex : Text → MutexReply
  pub random : Random
  pub yaml : Yaml
  pub session : Reply Bool
  pub await : Process → Process
  pub dispatch : Text → Process → Option Error × Process

-- How main ends: the exit code, and the daemon if one was run. os.Exit skips the deferred
-- CloseHandle, so `released` says whether the mutex was closed before the end.
pub record Ended (System : Type 0) : Type 0 where
  pub code : ℕ
  pub services : System
  pub disk : Disk
  pub process : Option Process
  pub released : Bool

module _ (api : ServiceApi) (host : Host) where
  open host use {
    args, arg_zero, executable, dir, abs, chdir, create_mutex, random, yaml, session, await,
    dispatch,
  }

  -- ExePath
  abbrev pub own_path : Text
  own_path =
      abs (elim executable [ none ↦ arg_zero | some exe ↦ if exe == [] then arg_zero else exe ])

  -- changeToExeDir
  unfoldable pub change_to_exe_dir : Option Error
  change_to_exe_dir = elim executable [
    | none ↦ some (codes "executable")
    | some exe ↦ chdir (dir exe)
  ]

  -- the DaemonService of an instance
  unfoldable pub service_of : Text → Text → DaemonService
  service_of name instance_name = record {
    name = name;
    display_name = codes "ProcessGuard Service " ++ instance_name;
    description = codes "Process guard instance " ++ instance_name;
    exe_path = own_path;
    args = codes "--instance" ∷ instance_name ∷ [];
  }

  abbrev pub service_host : ServiceHost Process
  service_host = record {
    start = start_process;
    stop = stop_process;
    session = session;
    await = await;
    dispatch = dispatch;
  }

  -- os.Exit(1) before there is a daemon
  abbrev pub exit : Disk → api.System → Ended api.System
  exit d s = record { code = 1; services = s; disk = d; process = none; released = false }

  abbrev pub code_of : Option Error → ℕ
  code_of none = 0
  code_of (some err) = 1

  -- Of the handler that a command gets, nil in the source, nothing is called.
  abbrev pub no_handler : ServiceHost (Unit {0})
  no_handler = record {
    start = λ d. (none, d);
    stop = λ d. (none, d);
    session = session;
    await = λ d. d;
    dispatch = λ name d. (none, d);
  }

  -- main with a command
  abbrev pub run_for_command : Text → Text → Disk → api.System → Ended api.System
  run_for_command instance_name cmd d s =
      let service = service_of (service_name (blank_config instance_name)) instance_name in
      let (err, s', none_) = run_service api no_handler service cmd s tt in
      record { code = code_of err; services = s'; disk = d; process = none; released = false }

  abbrev pub is_owned : MutexReply → Bool
  is_owned owned = true
  is_owned already_exists = false
  is_owned mutex_refused = false

  -- the end of main, after svc.Run("")
  abbrev pub ended : MutexReply → Option Error × api.System × Process → Ended api.System
  ended m (none, s, p) = record {
    code = 0;
    services = s;
    disk = p.disk;
    process = some p;
    released = is_owned m;
  }
  ended m (some err, s, p) = record {
    code = 1;
    services = s;
    disk = p.disk;
    process = some p;
    released = false;
  }

  -- main from `project.NewManager` on
  unfoldable pub run_process :
      Text → MutexReply → DaemonConfig → Disk → api.System → Ended api.System
  unfolding run_service service_of new_manager
  run_process instance_name m cfg d s =
      let p : Process = record {
        manager = new_manager cfg;
        disk = d;
        serving = instance_name == codes "a";
        guarding = false;
        watching = false;
        stopping = false;
      } in
      ended m (run_service api service_host (service_of (service_name cfg) instance_name) [] s p)

  -- main from `auth.NewManager` on
  abbrev pub with_auth :
      Text → MutexReply → DaemonConfig → api.System → Created × Disk → Ended api.System
  with_auth instance_name m cfg s (token_failed err, d) = exit d s
  with_auth instance_name m cfg s (created a, d) =
      run_process instance_name m (instance_config instance_name a.token cfg) d s

  -- main from `config.Load` on
  abbrev pub with_config : Text → MutexReply → Disk → api.System → Loaded → Ended api.System
  with_config instance_name m d s (loaded cfg) =
      with_auth instance_name m cfg s (new_auth (codes ".") random d)
  with_config instance_name m d s read_failed = exit d s
  with_config instance_name m d s parse_failed = exit d s

  abbrev pub already_running : MutexReply → Bool
  already_running already_exists = true
  already_running owned = false
  already_running mutex_refused = false

  -- main without a command
  unfoldable pub run_for_daemon : Text → Disk → api.System → Ended api.System
  unfolding load new_auth instance_config run_process
  run_for_daemon instance_name d s =
      let m = create_mutex (codes "Global\\ProcessGuard-" ++ instance_name) in
      if already_running m
      then exit d s
      else with_config instance_name m d s (load yaml (codes "config.yaml") d)

  -- whether `cmd` is a command
  abbrev pub by_command : Text → Text → Disk → api.System → Option Command → Ended api.System
  by_command instance_name cmd d s none = run_for_daemon instance_name d s
  by_command instance_name cmd d s (some c) = run_for_command instance_name cmd d s

  -- main from the change of the directory on
  abbrev pub in_exe_dir : Text → List Text → Disk → api.System → Option Error → Ended api.System
  in_exe_dir instance_name rest d s (some err) = exit d s
  in_exe_dir instance_name rest d s none =
      let cmd = last_command [] rest in by_command instance_name cmd d s (command_of cmd)

  abbrev pub after_flags : Flags → Disk → api.System → Ended api.System
  after_flags help_shown d s = record (exit d s) { code = 0 }
  after_flags flag_error d s = record (exit d s) { code = 2 }
  after_flags (accepted instance_name rest) d s =
      if instance_name == codes "a" || instance_name == codes "b"
      then in_exe_dir instance_name rest d s change_to_exe_dir
      else exit d s

  -- main
  unfoldable pub main : Disk → api.System → Ended api.System
  unfolding parse_flags last_command change_to_exe_dir service_of run_service run_for_daemon
  main d s = after_flags (parse_flags (codes "a") args) d s
