-- ===== src/Config/Defaults.antt =====
-- applyDefaults of internal/config/config.go: what it fills in, and what it leaves alone.
use daemon_go.Prelude.{◌≡◌, ◌≢◌, refl, List, [], ◌∷◌, map, arith, eq_iff, All}
use daemon_go.Prelude.Int.{pos}
use daemon_go.Config.{Project, DaemonConfig, default_project, apply_defaults}

-- No setting that has a default is left blank.
pub record IsCompleteProject (p : Project) : Type 0 where
  pub check_interval : p.check_interval ≢ pos 0
  pub startup_timeout : p.startup_timeout ≢ pos 0
  pub max_restart_attempts : p.max_restart_attempts ≢ pos 0
  pub restart_delay : p.restart_delay ≢ pos 0
  pub start_mode : p.start_mode ≢ []
  pub kind : p.monitor.kind ≢ []
  pub host : p.monitor.host ≢ []

pub record IsComplete (c : DaemonConfig) : Type 0 where
  pub instance_name : c.instance_name ≢ []
  pub log_dir : c.log_dir ≢ []
  pub state_file : c.state_file ≢ []
  pub web_host : c.web_host ≢ []
  pub web_port : c.web_port ≢ pos 0
  pub check_interval : c.peer.check_interval ≢ pos 0
  pub projects : All IsCompleteProject c.projects

default_project-IsCompleteProject : (p : Project) → IsCompleteProject (default_project p)
unfolding default_project
default_project-IsCompleteProject p =
    ground (arith, eq_iff p.start_mode [], eq_iff p.monitor.kind [], eq_iff p.monitor.host [])

map-IsCompleteProject : (ps : List Project) → All IsCompleteProject (map default_project ps)
map-IsCompleteProject [] = tt
map-IsCompleteProject (p ∷ ps) = (default_project-IsCompleteProject p, map-IsCompleteProject ps)

-- After `applyDefaults` every setting that has a default is filled in, those of each project too.
pub apply_defaults-IsComplete : (c : DaemonConfig) → IsComplete (apply_defaults c)
unfolding apply_defaults
apply_defaults-IsComplete c = ground (
  arith,
  eq_iff c.instance_name [],
  eq_iff c.log_dir [],
  eq_iff c.state_file [],
  eq_iff c.web_host [],
  map-IsCompleteProject c.projects,
)

default_project_complete : (p : Project) → IsCompleteProject p → default_project p ≡ p
unfolding default_project
default_project_complete p h =
    ground (arith, eq_iff p.start_mode [], eq_iff p.monitor.kind [], eq_iff p.monitor.host [])

map_complete : (ps : List Project) → All IsCompleteProject ps → map default_project ps ≡ ps
map_complete [] h = refl
map_complete (p ∷ ps) (hp, hps) = cc (default_project_complete p hp, map_complete ps hps)

-- `applyDefaults` changes nothing in a configuration that has no blank setting.
pub apply_defaults_complete : (c : DaemonConfig) → IsComplete c → apply_defaults c ≡ c
unfolding apply_defaults
apply_defaults_complete c h = ground (
  arith,
  eq_iff c.instance_name [],
  eq_iff c.log_dir [],
  eq_iff c.state_file [],
  eq_iff c.web_host [],
  map_complete c.projects h.projects,
)
