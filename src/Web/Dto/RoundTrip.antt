-- ===== src/Web/Dto/RoundTrip.antt =====
-- internal/web/server.go: what is left of a configuration that the console reads and sends back.
use daemon_go.Prelude.{
  ℕ, suc, ◌≡◌, ◌≢◌, refl, ap, sym, ◌∙◌, List, [], ◌∷◌, map, codes, eq_iff, inr, trim_space, All,
  arith,
}
use daemon_go.Prelude.Int.{ℤ, pos, negsuc, ◌≤ℤ◌}
use daemon_go.Config.{ActionConfig, Project, DaemonConfig}
use daemon_go.Web.Dto.{
  actions_to_dto, project_to_dto, config_to_dto, or_positive, dto_to_actions, project_of,
  dto_to_project, dto_to_projects, dto_to_config,
}
use daemon_go.Web.Dto.Checks.{IsPort, IsSound, is_bad_port_iff, dto_to_project_iff}

-- a sound project of the local host, its name trimmed
abbrev pub IsSettled : Project → Type 0
IsSettled p = IsSound p × (trim_space p.name ≡ p.name) × (p.monitor.host ≡ codes "127.0.0.1")

-- what the console's save leaves of a configuration
abbrev pub saved : DaemonConfig → DaemonConfig
saved cfg = record cfg {
  instance_name = codes "a";
  log_dir = codes "logs";
  state_file = codes "daemon.state";
  web_host = codes "127.0.0.1";
  peer = record {
    instance_id = codes "b";
    service_name = [];
    check_interval = cfg.peer.check_interval;
    start_script = [];
  };
  allowed_commands = [];
  auth_token = [];
}

or_positive_id : (n d : ℤ) → pos 1 ≤ℤ n → or_positive n d ≡ n
or_positive_id (pos n) d h = ground arith
or_positive_id (negsuc n) d h = absurd (omega arith)

dto_to_actions-actions_to_dto :
    (actions : List ActionConfig)
    → All (λ a. a.kind ≢ []) actions
    → dto_to_actions (actions_to_dto actions) ≡ actions
unfolding dto_to_actions actions_to_dto
dto_to_actions-actions_to_dto [] h = refl
dto_to_actions-actions_to_dto (a ∷ actions) (named, h) =
    ground (arith, eq_iff a.kind [], dto_to_actions-actions_to_dto actions h)

project_of-project_to_dto : (p : Project) → IsSettled p → project_of (project_to_dto p) ≡ p
unfolding project_to_dto
project_of-project_to_dto p (s, name, host) =
    rw
      (
        name,
        sym host,
        or_positive_id p.check_interval (pos 15) s.check_interval,
        or_positive_id p.startup_timeout (pos 60) s.startup_timeout,
        or_positive_id p.max_restart_attempts (pos 3) s.max_restart_attempts,
        or_positive_id p.restart_delay (pos 10) s.restart_delay,
        dto_to_actions-actions_to_dto p.pre_actions s.pre_actions,
        dto_to_actions-actions_to_dto p.post_actions s.post_actions,
      )
      refl

-- A settled project is sent back as it was.
dto_to_project-project_to_dto :
    (p : Project) → IsSettled p → dto_to_project (project_to_dto p) ≡ inr p
unfolding project_to_dto
dto_to_project-project_to_dto p (s, name, host) =
    (dto_to_project_iff (project_to_dto p)).1 (rw name s.name, s.monitor)
    ∙ ap inr (project_of-project_to_dto p (s, name, host))

dto_to_projects_settled :
    (i : ℕ) (ps : List Project)
    → All IsSettled ps
    → dto_to_projects i (map project_to_dto ps) ≡ inr ps
unfolding dto_to_projects
dto_to_projects_settled i [] h = refl
dto_to_projects_settled i (p ∷ ps) (h, hs) =
    rw (dto_to_project-project_to_dto p h, dto_to_projects_settled (suc i) ps hs) refl

-- A configuration that the console reads and sends back unchanged keeps its web port, the interval
-- of its peer and its projects, if the port is from 1 to 65535, the interval positive and each
-- project sound, with a trimmed name and the local host; all that the console does not show, the
-- allowed commands and the peer's service and script among it, is reset.
pub dto_to_config-config_to_dto :
    (cfg : DaemonConfig)
    → IsPort cfg.web_port
    → pos 1 ≤ℤ cfg.peer.check_interval
    → All IsSettled cfg.projects
    → dto_to_config (config_to_dto cfg) ≡ inr (saved cfg)
unfolding dto_to_config config_to_dto
dto_to_config-config_to_dto cfg port interval settled =
    rw
      (
        (is_bad_port_iff cfg.web_port).1 port,
        dto_to_projects_settled 0 cfg.projects settled,
        or_positive_id cfg.peer.check_interval (pos 10) interval,
      )
      refl
