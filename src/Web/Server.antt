-- ===== src/Web/Server.antt =====
-- internal/web/server.go: the handlers of the console, a function each from a request and the
-- daemon to a response and the daemon. The server's own configuration is the manager's. Log lines
-- and headers other than a static file's type are left out.
pub mod Save
pub mod Routes
pub mod Guards
pub mod Rollback
pub mod Effects
use daemon_go.Prelude.{
  ℕ, Bool, true, false, Option, none, some, List, [], ◌∷◌, ◌++◌, Text, Dict, codes, ◌==◌, ◌⊎◌, inl,
  inr, if◌then◌else◌,
}
use daemon_go.Prelude.Int.{pos}
use daemon_go.Os.{Error, Cmd, World, Disk, run_cmd, sleep, second, stat_file, rename}
use daemon_go.Config.{DaemonConfig, service_name}
use daemon_go.Config.Files.{Yaml, save, save_state, load_state, paused, running}
use daemon_go.Events.{
  EventType, Event, EventStore, Json, daemon_pause, daemon_resume, manual_restart, config_saved,
  service_restart,
}
use daemon_go.Logger.{LogBuffer, recent_logs, load_all_recent_events}
use daemon_go.Auth.{AuthManager, validate}
use daemon_go.Actions.Allowed.{Platform}
use daemon_go.Guardian.{emit_to}
use daemon_go.Guardian.Tick.{ProjectStatus}
use daemon_go.Manager.{
  Manager, Daemon, setup_of, set_all_paused, statuses, manual_start_of, manual_stop_of,
  manual_restart_of, reset_fail_count_of, reset_all,
}
use daemon_go.Web.Dto.{ConfigDto, config_to_dto, dto_to_config}

-- package net: the host of `host:port`, and whether an address is a loopback one; and
-- json.Unmarshal for `ConfigDTO`; path.Clean(path.Join("static", p)), and the files that the build
-- embeds; the log buffer at the time of the request; and the files that os.ReadDir lists
pub record Server : Type 0 where
  pub json : Json
  pub yaml : Yaml
  pub platform : Platform
  pub split_host_port : Text → Option Text
  pub is_loopback : Text → Bool
  pub unmarshal : Text → Option ConfigDto
  pub static_path : Text → Text
  pub embedded : Text → Option Text
  pub auth : AuthManager
  pub buffer : LogBuffer
  pub read_dir : Text → Disk → Option (List Text)

pub record Request : Type 0 where
  pub method : Text
  pub path : Text
  pub remote_addr : Text
  pub header_token : Text
  pub query_token : Text
  pub cookie : Option Text
  pub query_name : Text
  pub body : Option Text  -- `none` when reading it fails

pub data Body : Type 0 where
  empty_body forbidden : Body
  logs : List Text → Body
  events : List Event → Body
  object : Dict Text → Body
  status_of : Text → Text → List ProjectStatus → Body
  projects : List ProjectStatus → Body
  config : ConfigDto → Body
  static_file : Text → Text → Body

pub record Response : Type 0 where
  pub code : ℕ
  pub body : Body

abbrev pub Handler : Type 0
Handler = Request → Daemon → Response × Daemon

abbrev pub write_json : Body → Response
write_json body = record { code = 200; body = body }

abbrev pub write_error : Error → Response
write_error err = record { code = 500; body = object ((codes "error", err) ∷ []) }

abbrev pub method_not_allowed : Response
method_not_allowed = record { code = 405; body = empty_body }

abbrev pub is_post : Request → Bool
is_post r = r.method == codes "POST"

-- http.MethodPost or 405
abbrev pub when_post : Request → Daemon → Response × Daemon → Response × Daemon
when_post r d answer = if is_post r then answer else (method_not_allowed, d)

-- r.URL.Query().Get("name") or an error
abbrev pub when_named : Request → Daemon → Response × Daemon → Response × Daemon
when_named r d answer =
    if r.query_name == [] then (write_error (codes "name is required"), d) else answer

abbrev pub answer_named : Text → Text → Option Error × Daemon → Response × Daemon
answer_named result name (none, d) =
    (write_json (object ((codes "result", result) ∷ (codes "name", name) ∷ [])), d)
answer_named result name (some err, d) = (write_error err, d)

-- extractToken
unfoldable pub extract_token : Request → Text
extract_token r =
    if r.header_token == []
    then if r.query_token == [] then (elim r.cookie [ none ↦ [] | some v ↦ v ]) else r.query_token
    else r.header_token

abbrev pub host_of : Text → Option Text → Text
host_of addr none = addr
host_of addr (some host) = host

module _ (server : Server) where
  -- isLocalIP
  unfoldable pub is_local_ip : Request → Bool
  is_local_ip r = server.is_loopback (host_of r.remote_addr (server.split_host_port r.remote_addr))

  abbrev pub log_event : EventType → Text → Text → Daemon → Daemon
  log_event kind target message d =
      let setup = setup_of server.json server.platform d.manager in
      let (store, world) = emit_to setup kind target message [] d.world d.store in
      record d { store = store; world = world }

  unfoldable pub handle_health : Handler
  handle_health r d = (write_json (object ((codes "status", codes "ok") ∷ [])), d)

  unfoldable pub handle_status : Handler
  unfolding load_state statuses
  handle_status r d =
      let cfg = d.manager.cfg in
      (
        write_json (status_of cfg.instance_name (load_state cfg d.world.disk) (statuses d.manager)),
        d,
      )

  unfoldable pub handle_logs : Handler
  unfolding recent_logs
  handle_logs r d = (write_json (logs (recent_logs server.buffer)), d)

  unfoldable pub handle_events : Handler
  unfolding load_all_recent_events
  handle_events r d =
      let dir = d.manager.cfg.log_dir in
      let names = server.read_dir dir d.world.disk in
      (write_json (events (load_all_recent_events server.json dir names 10 d.world.disk)), d)

  -- what handlePause and handleResume do when the state file was written, or was not
  abbrev pub after_state :
      Bool → Text → EventType → Text → Daemon → Option Error × Disk → Response × Daemon
  after_state pausing state kind message d (some err, _) = (write_error err, d)
  after_state pausing state kind message d (none, disk) = (
    write_json (object ((codes "state", state) ∷ [])),
    log_event kind d.manager.cfg.instance_name message (record d {
      manager = set_all_paused pausing d.manager;
      world = record d.world { disk = disk };
    }),
  )

  unfoldable pub handle_pause : Handler
  unfolding save_state set_all_paused
  handle_pause r d = when_post r d (
      after_state true paused daemon_pause (codes "守护进程已暂停") d
        (save_state d.manager.cfg paused d.world.disk))

  unfoldable pub handle_resume : Handler
  unfolding save_state set_all_paused
  handle_resume r d = when_post r d (
      after_state false running daemon_resume (codes "守护进程已恢复") d
        (save_state d.manager.cfg running d.world.disk))

  unfoldable pub handle_projects : Handler
  unfolding statuses
  handle_projects r d = (write_json (projects (statuses d.manager)), d)

  unfoldable pub handle_project_start : Handler
  handle_project_start r d = when_post r d (
      when_named r d (
        answer_named (codes "started") r.query_name
          (manual_start_of server.json server.platform r.query_name d)))

  unfoldable pub handle_project_stop : Handler
  handle_project_stop r d = when_post r d (
      when_named r d (
        answer_named (codes "stopped") r.query_name
          (manual_stop_of server.json server.platform r.query_name d)))

  unfoldable pub handle_project_restart : Handler
  handle_project_restart r d = when_post r d (
      when_named r d (
        answer_named (codes "restarted") r.query_name
          (manual_restart_of server.json server.platform r.query_name d)))

  unfoldable pub handle_project_reset : Handler
  unfolding reset_all
  handle_project_reset r d = when_post r d (
      if r.query_name == []
      then (
        write_json (object ((codes "result", codes "reset all") ∷ [])),
        log_event manual_restart (codes "all") (codes "重置所有项目失败计数")
            (record d { manager = reset_all d.manager }),
      )
      else answer_named (codes "reset") r.query_name
          (reset_fail_count_of server.json server.platform r.query_name d))
