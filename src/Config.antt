-- ===== src/Config.antt =====
-- internal/config/config.go: the configuration records, the defaults and the service names.
-- `yaml` tags have no counterpart here; package yaml is a parameter of Config/Files.
pub mod Defaults
pub mod Files
use daemon_go.Prelude.{Text, Dict, Bool, List, [], ◌∷◌, map, codes, ◌++◌, ◌==◌, if◌then◌else◌}
use daemon_go.Prelude.Int.{ℤ, pos, is_zero}

pub record AllowedCommand : Type 0 where
  pub path : Text
  pub args_pattern : Text

pub record PeerConfig : Type 0 where
  pub instance_id : Text
  pub service_name : Text
  pub check_interval : ℤ
  pub start_script : Text

pub record MonitorConfig : Type 0 where
  pub kind : Text
  pub port : ℤ
  pub process_name : Text
  pub host : Text

pub record ActionConfig : Type 0 where
  pub kind : Text
  pub params : Dict Text

pub record Project : Type 0 where
  pub name : Text
  pub enabled : Bool
  pub monitor : MonitorConfig
  pub check_interval : ℤ
  pub startup_timeout : ℤ
  pub max_restart_attempts : ℤ
  pub restart_delay : ℤ
  pub start_mode : Text
  pub start_script : Text
  pub stop_script : Text
  pub pre_actions : List ActionConfig
  pub post_actions : List ActionConfig

pub record DaemonConfig : Type 0 where
  pub instance_name : Text
  pub log_dir : Text
  pub state_file : Text
  pub web_port : ℤ
  pub web_host : Text
  pub peer : PeerConfig
  pub projects : List Project
  pub allowed_commands : List AllowedCommand
  pub auth_token : Text

-- if s == "" { s = d }
abbrev pub or_text : Text → Text → Text
or_text s d = if s == [] then d else s

-- if n == 0 { n = d }
abbrev pub or_int : ℤ → ℤ → ℤ
or_int n d = if is_zero n then d else n

unfoldable pub default_monitor : MonitorConfig → MonitorConfig
default_monitor m = record m {
  kind = or_text m.kind (codes "port");
  host = or_text m.host (codes "127.0.0.1");
}

-- the body of the loop over `cfg.Projects`
unfoldable pub default_project : Project → Project
unfolding default_monitor
default_project p = record p {
  check_interval = or_int p.check_interval (pos 15);
  startup_timeout = or_int p.startup_timeout (pos 60);
  max_restart_attempts = or_int p.max_restart_attempts (pos 3);
  restart_delay = or_int p.restart_delay (pos 10);
  start_mode = or_text p.start_mode (codes "async");
  monitor = default_monitor p.monitor;
}

unfoldable pub apply_defaults : DaemonConfig → DaemonConfig
apply_defaults cfg = record cfg {
  instance_name = or_text cfg.instance_name (codes "a");
  log_dir = or_text cfg.log_dir (codes "logs");
  state_file = or_text cfg.state_file (codes "daemon.state");
  web_host = or_text cfg.web_host (codes "127.0.0.1");
  web_port = or_int cfg.web_port (pos 18080);
  peer = record cfg.peer { check_interval = or_int cfg.peer.check_interval (pos 10) };
  projects = map default_project cfg.projects;
}

unfoldable pub service_name : DaemonConfig → Text
service_name c = codes "ProcessGuard-" ++ c.instance_name

unfoldable pub peer_service_name : DaemonConfig → Text
peer_service_name c =
    if c.peer.service_name == []
    then codes "ProcessGuard-" ++ c.peer.instance_id
    else c.peer.service_name
