-- ===== src/Tests/Fixtures.antt =====
-- A platform, worlds, a project, a configuration and a guardian for the tests.
use daemon_go.Prelude.{true, false, none, some, [], ◌∷◌, Text, codes, ◌==◌}
use daemon_go.Prelude.Int.{pos}
use daemon_go.Os.{Disk, World}
use daemon_go.Config.{AllowedCommand, Project, DaemonConfig}
use daemon_go.Events.{Event, EventStore, blank_store, project_start, project_down}
use daemon_go.Actions.Allowed.{Platform}
use daemon_go.Actions.Registry.{new_registry}
use daemon_go.Guardian.{Setup, Scene, new_guardian}
use daemon_go.Manager.{Daemon, new_manager, start}
use daemon_go.Tests.Wire.{wire}

-- Paths are absolute as they stand, and every pattern matches its own text.
abbrev pub plain_platform : Platform
plain_platform = record {
  absolute = λ path. some path;
  dir = λ path. codes "C:/srv";
  equal_fold = λ a b. a == b;
  compile = λ pattern. some (λ args. args == pattern);
}

abbrev pub empty_disk : Disk
empty_disk = record {
  files = [];
  readable = λ path. true;
  writable = λ path. true;
  movable = λ path. true;
}

-- every file exists, and every command prints `out`
abbrev pub quiet_world : Text → World
quiet_world out = record {
  now = 1_000;
  calls = 0;
  lapse = λ n. 5;
  reply = λ n c. record { out = out; err = none };
  listens = λ n host port. false;
  exists = λ n path. true;
  ran = [];
  disk = empty_disk;
}

abbrev pub dead_world : World
dead_world = quiet_world (codes "INFO: none")

abbrev pub api_project : Project
api_project = record {
  name = codes "api";
  enabled = true;
  monitor = record {
    kind = codes "port";
    port = pos 8080;
    process_name = codes "java.exe";
    host = codes "127.0.0.1";
  };
  check_interval = pos 15;
  startup_timeout = pos 2;
  max_restart_attempts = pos 2;
  restart_delay = pos 10;
  start_mode = codes "async";
  start_script = codes "C:/srv/start.bat";
  stop_script = codes "C:/srv/stop.bat";
  pre_actions = [];
  post_actions = record { kind = codes "wait"; params = (codes "millis", codes "5") ∷ [] } ∷ [];
}

abbrev pub java : AllowedCommand
java = record { path = codes "C:/java.exe"; args_pattern = codes "-jar api.jar" }

abbrev pub small_config : DaemonConfig
small_config = record {
  instance_name = codes "a";
  log_dir = codes "logs";
  state_file = codes "daemon.state";
  web_port = pos 18080;
  web_host = codes "127.0.0.1";
  peer = record {
    instance_id = codes "b";
    service_name = [];
    check_interval = pos 10;
    start_script = codes "C:/srv/peer.bat";
  };
  projects = api_project ∷ [];
  allowed_commands = java ∷ [];
  auth_token = codes "secret";
}

abbrev pub plain_setup : Setup
plain_setup = record { json = wire; platform = plain_platform; registry = new_registry }

abbrev pub empty_store : EventStore
empty_store = blank_store (codes "logs") (codes "a") (pos 100)

abbrev pub fresh_scene : World → Scene
fresh_scene w = record { guardian = new_guardian api_project; world = w; store = empty_store }

abbrev pub start_event : Event
start_event = record {
  time = 7;
  kind = project_start;
  target = codes "api";
  message = codes "start";
  detail = [];
}

abbrev pub down_event : Event
down_event = record start_event { time = 9; kind = project_down; message = codes "down" }

abbrev pub small_daemon : Daemon
small_daemon = record {
  manager = start (new_manager small_config);
  world = dead_world;
  store = empty_store;
}
