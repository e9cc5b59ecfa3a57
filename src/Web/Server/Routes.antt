-- ===== src/Web/Server/Routes.antt =====
-- internal/web/server.go: the guards of the handlers, and which handler a path has.
use daemon_go.Prelude.{
  [], ◌∷◌, ◌*◌, not, has_prefix, Option, none, some, Text, codes, ◌==◌, ◌||◌, if◌then◌else◌,
}
use daemon_go.Prelude.Int.{pos}
use daemon_go.Os.{sleep, second, run_cmd}
use daemon_go.Config.{service_name}
use daemon_go.Events.{service_restart}
use daemon_go.Logger.{has_suffix}
use daemon_go.Auth.{validate}
use daemon_go.Manager.{Daemon}
use daemon_go.Web.Server.{
  Server, Response, Handler, object, empty_body, forbidden, handle_logs, handle_events, static_file,
  write_json, when_post, extract_token, is_local_ip, log_event, handle_health, handle_status,
  handle_pause, handle_resume, handle_projects, handle_project_start, handle_project_stop,
  handle_project_restart, handle_project_reset,
}
use daemon_go.Web.Server.Save.{handle_config}

abbrev not_found : Response
not_found = record { code = 404; body = empty_body }

-- a route of the mux
pub data Route : Type 0 where
  open_route guarded_route : Handler → Route

module _ (server : Server) where
  -- the goroutine of handleRestart: it stops the service itself
  unfoldable pub restart_later : Daemon → Daemon
  unfolding service_name sleep run_cmd
  restart_later d =
      let service = service_name d.manager.cfg in
      let d₁ =
        log_event server service_restart service (codes "通过 Web 重启 A 服务")
          (record d { world = sleep (pos (2 * second)) d.world }) in
      let cmd = codes "sc" ∷ codes "stop" ∷ service ∷ [] in
      record d₁ { world = (run_cmd (record { argv = cmd; dir = [] }) d₁.world).1 }

  unfoldable pub handle_restart : Handler
  unfolding restart_later
  handle_restart r d = when_post r d (
    write_json (
        object (
          (codes "result", codes "restarting")
          ∷ (codes "service", service_name d.manager.cfg)
          ∷ (codes "message", codes "A 服务将停止，由对端 B 自动拉起，请等待约 10-20 秒后刷新页面")
          ∷ [])),
    restart_later d,
  )

  abbrev content_type : Text → Text
  content_type path =
      if has_suffix path (codes ".html")
      then codes "text/html"
      else if has_suffix path (codes ".css")
      then codes "text/css"
      else if has_suffix path (codes ".js")
      then codes "application/javascript"
      else codes "text/plain"

  abbrev answer_file : Text → Option Text → Response
  answer_file path none = not_found
  answer_file path (some content) = record {
    code = 200;
    body = static_file (content_type path) content;
  }

  unfoldable pub handle_static : Handler
  unfolding has_prefix
  handle_static r d =
      let path = server.static_path (if r.path == codes "/" then codes "/index.html" else r.path) in
      if path == codes "." || path == codes "static" || not (has_prefix path (codes "static/"))
      then (not_found, d)
      else (answer_file path (server.embedded path), d)

  unfoldable pub handle_auth : Handler
  unfolding extract_token validate
  handle_auth r d =
      if validate (extract_token r) server.auth
      then (write_json (object ((codes "valid", codes "true") ∷ [])), d)
      else (record { code = 401; body = object ((codes "error", codes "invalid token") ∷ []) }, d)

  unfoldable pub with_local_ip : Handler → Handler
  unfolding is_local_ip
  with_local_ip next r d =
      if is_local_ip server r then next r d else (record { code = 403; body = forbidden }, d)

  unfoldable pub with_token : Handler → Handler
  unfolding extract_token validate
  with_token next r d = if validate (extract_token r) server.auth then next r d else (
    record { code = 401; body = object ((codes "error", codes "invalid or missing token") ∷ []) },
    d,
  )

  -- The mux of Start: the longest pattern that matches; `/` matches all other paths.
  unfoldable pub route : Text → Route
  route path =
      if path == codes "/api/health"
      then open_route (handle_health server)
      else if path == codes "/api/auth"
      then open_route handle_auth
      else if path == codes "/api/status"
      then guarded_route (handle_status server)
      else if path == codes "/api/logs"
      then guarded_route (handle_logs server)
      else if path == codes "/api/events"
      then guarded_route (handle_events server)
      else if path == codes "/api/pause"
      then guarded_route (handle_pause server)
      else if path == codes "/api/resume"
      then guarded_route (handle_resume server)
      else if path == codes "/api/projects"
      then guarded_route (handle_projects server)
      else if path == codes "/api/projects/start"
      then guarded_route (handle_project_start server)
      else if path == codes "/api/projects/stop"
      then guarded_route (handle_project_stop server)
      else if path == codes "/api/projects/restart"
      then guarded_route (handle_project_restart server)
      else if path == codes "/api/projects/reset"
      then guarded_route (handle_project_reset server)
      else if path == codes "/api/config"
      then guarded_route (handle_config server)
      else if path == codes "/api/restart"
      then guarded_route handle_restart
      else open_route handle_static

  abbrev pub run_route : Route → Handler
  run_route (open_route next) = with_local_ip next
  run_route (guarded_route next) = with_local_ip (with_token next)

  unfoldable pub serve : Handler
  unfolding route with_local_ip with_token
  serve r d = run_route (route r.path) r d
