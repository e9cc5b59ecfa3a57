-- ===== src/Web/Dto.antt =====
-- internal/web/server.go: the configuration as the console sees it, and the check of what it sends.
-- JSON tags have no counterpart here; a missing `params` object is the empty one.
pub mod Checks
pub mod RoundTrip
use daemon_go.Prelude.{
  ℕ, suc, Bool, true, false, not, List, [], ◌∷◌, ◌++◌, map, Text, Dict, codes, ◌==◌, ◌&&◌, ◌||◌,
  ◌⊎◌, inl, inr, if◌then◌else◌, trim_space, is_empty,
}
use daemon_go.Prelude.Int.{ℤ, pos, leb_ℤ, ltb_ℤ}
use daemon_go.Prelude.Atoi.{itoa}
use daemon_go.Os.{Error}
use daemon_go.Config.{ActionConfig, MonitorConfig, PeerConfig, Project, DaemonConfig}

pub record ActionDto : Type 0 where
  pub kind : Text
  pub params : Dict Text

pub record ProjectDto : Type 0 where
  pub name : Text
  pub enabled : Bool
  pub monitor_type : Text
  pub monitor_port : ℤ
  pub monitor_process_name : Text
  pub check_interval : ℤ
  pub startup_timeout : ℤ
  pub max_restart_attempts : ℤ
  pub restart_delay : ℤ
  pub start_mode : Text
  pub start_script : Text
  pub stop_script : Text
  pub pre_actions : List ActionDto
  pub post_actions : List ActionDto

pub record ConfigDto : Type 0 where
  pub web_port : ℤ
  pub peer_check_interval : ℤ
  pub projects : List ProjectDto

-- the body of the loop of `actionsToDTO`
abbrev pub action_to_dto : ActionConfig → ActionDto
action_to_dto a = record { kind = a.kind; params = a.params }

unfoldable pub actions_to_dto : List ActionConfig → List ActionDto
actions_to_dto = map action_to_dto

unfoldable pub project_to_dto : Project → ProjectDto
unfolding actions_to_dto
project_to_dto p = record {
  name = p.name;
  enabled = p.enabled;
  monitor_type = p.monitor.kind;
  monitor_port = p.monitor.port;
  monitor_process_name = p.monitor.process_name;
  check_interval = p.check_interval;
  startup_timeout = p.startup_timeout;
  max_restart_attempts = p.max_restart_attempts;
  restart_delay = p.restart_delay;
  start_mode = p.start_mode;
  start_script = p.start_script;
  stop_script = p.stop_script;
  pre_actions = actions_to_dto p.pre_actions;
  post_actions = actions_to_dto p.post_actions;
}

unfoldable pub config_to_dto : DaemonConfig → ConfigDto
config_to_dto cfg = record {
  web_port = cfg.web_port;
  peer_check_interval = cfg.peer.check_interval;
  projects = map project_to_dto cfg.projects;
}

-- actions without a type are left out
unfoldable pub dto_to_actions : List ActionDto → List ActionConfig
dto_to_actions [] = []
dto_to_actions (a ∷ actions) =
    let rest = dto_to_actions actions in
    if a.kind == [] then rest else record { kind = a.kind; params = a.params } ∷ rest

-- if n <= 0 { n = d }
abbrev pub or_positive : ℤ → ℤ → ℤ
or_positive n d = if leb_ℤ n (pos 0) then d else n

-- n <= 0 || n > 65535
abbrev pub is_bad_port : ℤ → Bool
is_bad_port n = leb_ℤ n (pos 0) || ltb_ℤ (pos 65535) n

abbrev pub is_monitor_type : Text → Bool
is_monitor_type t = t == codes "port" || t == codes "process" || t == codes "mixed"

abbrev pub has_port : Text → Bool
has_port t = t == codes "port" || t == codes "mixed"

-- the value that `dtoToProject` returns when no check fails
abbrev pub project_of : ProjectDto → Project
project_of dto = record {
  name = trim_space dto.name;
  enabled = dto.enabled;
  monitor = record {
    kind = dto.monitor_type;
    port = dto.monitor_port;
    process_name = dto.monitor_process_name;
    host = codes "127.0.0.1";
  };
  check_interval = or_positive dto.check_interval (pos 15);
  startup_timeout = or_positive dto.startup_timeout (pos 60);
  max_restart_attempts = or_positive dto.max_restart_attempts (pos 3);
  restart_delay = or_positive dto.restart_delay (pos 10);
  start_mode = dto.start_mode;
  start_script = dto.start_script;
  stop_script = dto.stop_script;
  pre_actions = dto_to_actions dto.pre_actions;
  post_actions = dto_to_actions dto.post_actions;
}

unfoldable pub dto_to_project : ProjectDto → Error ⊎ Project
unfolding dto_to_actions trim_space
dto_to_project dto =
    if trim_space dto.name == []
    then inl (codes "project name is required")
    else if not (is_monitor_type dto.monitor_type)
    then inl (codes "monitor type must be port, process or mixed")
    else if has_port dto.monitor_type && is_bad_port dto.monitor_port
    then inl (codes "monitor port must be between 1 and 65535")
    else inr (project_of dto)

-- the loop over the projects, the first of which has the index `i`
abbrev pub cons_project : ℕ → Error ⊎ Project → Error ⊎ List Project → Error ⊎ List Project
cons_project i (inl err) rest = inl (codes "project " ++ itoa (pos (suc i)) ++ codes ": " ++ err)
cons_project i (inr p) (inl err) = inl err
cons_project i (inr p) (inr ps) = inr (p ∷ ps)

unfoldable pub dto_to_projects : ℕ → List ProjectDto → Error ⊎ List Project
unfolding dto_to_project itoa
dto_to_projects i [] = inr []
dto_to_projects i (p ∷ ps) = cons_project i (dto_to_project p) (dto_to_projects (suc i) ps)

abbrev pub config_of : ConfigDto → List Project → DaemonConfig
config_of dto projects = record {
  instance_name = codes "a";
  log_dir = codes "logs";
  state_file = codes "daemon.state";
  web_host = codes "127.0.0.1";
  web_port = dto.web_port;
  peer = record {
    instance_id = codes "b";
    service_name = [];
    check_interval = or_positive dto.peer_check_interval (pos 10);
    start_script = [];
  };
  projects = projects;
  allowed_commands = [];
  auth_token = [];
}

abbrev pub with_projects : ConfigDto → Error ⊎ List Project → Error ⊎ DaemonConfig
with_projects dto (inl err) = inl err
with_projects dto (inr ps) = inr (config_of dto ps)

unfoldable pub dto_to_config : ConfigDto → Error ⊎ DaemonConfig
unfolding dto_to_projects
dto_to_config dto =
    if is_bad_port dto.web_port
    then inl (codes "web port must be between 1 and 65535")
    else with_projects dto (dto_to_projects 0 dto.projects)
