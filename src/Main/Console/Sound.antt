-- ===== src/Main/Console/Sound.antt =====
-- The guardians of a daemon that works: over every route of internal/web/server.go, over the ticks
-- of the loops, and from its start.
use daemon_go.Prelude.{
  ◌≤◌, ◌≡◌, refl, sym, Bool, Bool-cases, true, false, inl, inr, none, List, [], ◌∷◌, All, Text,
  Dict, codes, subst, ◌==◌, insert, if◌then◌else◌, arith,
}
use daemon_go.Prelude.Int.{pos_part, max_int}
use daemon_go.Os.{Disk, World}
use daemon_go.Config.{DaemonConfig, Project}
use daemon_go.Events.{EventStore}
use daemon_go.Guardian.{ProjectGuardian, new_guardian}
use daemon_go.Guardian.Run.{ticked, operate}
use daemon_go.Manager.{Daemon, new_manager, start_loop, start, set_all_paused}
use daemon_go.Web.Server.{
  Server, Response, is_local_ip, extract_token, handle_health, handle_status, handle_logs,
  handle_events, handle_projects,
}
use daemon_go.Web.Server.Routes.{
  Route, open_route, guarded_route, route, with_local_ip, with_token, run_route, serve,
  handle_restart, restart_later, handle_static, handle_auth,
}
use daemon_go.Main.Console.{
  DaemonEvent, loop_ticked, requested, elsewhere, tick_of, take_event, take_events,
}
use daemon_go.Main.Console.Guardians.{AllValid, AllValid-insert, IsSoundDaemon}
use daemon_go.Main.Console.Handlers.{
  operated-IsSoundDaemon, IsSoundAnswer, IsSoundHandler, if-IsSoundAnswer, when_post-IsSoundAnswer,
  handle_project_start-IsSoundDaemon, handle_project_stop-IsSoundDaemon,
  handle_project_restart-IsSoundDaemon, handle_project_reset-IsSoundDaemon,
  handle_pause-IsSoundDaemon, handle_config-IsSoundDaemon, handle_resume-IsSoundDaemon,
}
use daemon_go.Web.Server.Guards.{handle_auth_safe, handle_static_safe}
use daemon_go.Guardian.Tick.{tick}
use daemon_go.Main.{start_daemon}
use daemon_go.Config.Files.{load_state, paused}
use daemon_go.Auth.{validate}

abbrev IsSoundRoute : Route → Type 0
IsSoundRoute (open_route h) = IsSoundHandler h
IsSoundRoute (guarded_route h) = IsSoundHandler h

if-IsSoundRoute :
    (b : Bool) (x y : Route) → IsSoundRoute x → IsSoundRoute y → IsSoundRoute (if b then x else y)
if-IsSoundRoute true x y hx hy = hx
if-IsSoundRoute false x y hx hy = hy

unchanged : (x : Response × Daemon) (d : Daemon) → x.1 ≡ d → IsSoundDaemon d → IsSoundAnswer x
unchanged x d e h = record {
  all = subst (λ (c : Daemon). AllValid c.manager.guardians) (sym e) h.all;
}

module _ (server : Server) where
  handle_static-IsSoundDaemon : IsSoundHandler (handle_static server)
  handle_static-IsSoundDaemon r d h = unchanged _ d (handle_static_safe server r d) h

  handle_auth-IsSoundDaemon : IsSoundHandler (handle_auth server)
  handle_auth-IsSoundDaemon r d h = unchanged _ d (handle_auth_safe server r d) h

  handle_restart-IsSoundDaemon : IsSoundHandler (handle_restart server)
  unfolding handle_restart restart_later
  handle_restart-IsSoundDaemon r d h = when_post-IsSoundAnswer r d _ h (record { all = h.all })

  route-IsSoundRoute : (path : Text) → IsSoundRoute (route server path)
  unfolding route handle_health handle_status handle_projects handle_logs handle_events
  route-IsSoundRoute path =
      if-IsSoundRoute (path == codes "/api/health") _ _ (λ r d h. record { all = h.all })
        (if-IsSoundRoute (path == codes "/api/auth") _ _ handle_auth-IsSoundDaemon (
          if-IsSoundRoute (path == codes "/api/status") _ _ (λ r d h. record { all = h.all })
            (if-IsSoundRoute (path == codes "/api/logs") _ _ (λ r d h. record { all = h.all })
              (if-IsSoundRoute (path == codes "/api/events") _ _ (λ r d h. record { all = h.all })
                (if-IsSoundRoute (path == codes "/api/pause") _ _
                  (handle_pause-IsSoundDaemon server)
                  (if-IsSoundRoute (path == codes "/api/resume") _ _
                    (handle_resume-IsSoundDaemon server)
                    (if-IsSoundRoute (path == codes "/api/projects") _ _
                      (λ r d h. record { all = h.all })
                      (if-IsSoundRoute (path == codes "/api/projects/start") _ _
                        (handle_project_start-IsSoundDaemon server)
                        (if-IsSoundRoute (path == codes "/api/projects/stop") _ _
                          (handle_project_stop-IsSoundDaemon server)
                          (if-IsSoundRoute (path == codes "/api/projects/restart") _ _
                            (handle_project_restart-IsSoundDaemon server)
                            (if-IsSoundRoute (path == codes "/api/projects/reset") _ _
                              (handle_project_reset-IsSoundDaemon server)
                              (if-IsSoundRoute (path == codes "/api/config") _ _
                                (handle_config-IsSoundDaemon server)
                                (if-IsSoundRoute (path == codes "/api/restart") _ _
                                  handle_restart-IsSoundDaemon
                                  handle_static-IsSoundDaemon)))))))))))))

  run_route-IsSoundDaemon : (x : Route) → IsSoundRoute x → IsSoundHandler (run_route server x)
  unfolding with_local_ip with_token
  run_route-IsSoundDaemon (open_route f) k r d h =
      if-IsSoundAnswer (is_local_ip server r) _ _ (k r d h) (record { all = h.all })
  run_route-IsSoundDaemon (guarded_route f) k r d h =
      if-IsSoundAnswer (is_local_ip server r) _ _
        (if-IsSoundAnswer (validate (extract_token r) server.auth) _ _ (k r d h)
          (record { all = h.all }))
        (record { all = h.all })

  serve-IsSoundDaemon : IsSoundHandler (serve server)
  unfolding serve
  serve-IsSoundDaemon r d h =
      run_route-IsSoundDaemon (route server r.path) (route-IsSoundRoute r.path) r d h

  take_event-IsSoundDaemon :
      (e : DaemonEvent) (d : Daemon) → IsSoundDaemon d → IsSoundDaemon (take_event server e d)
  unfolding take_event tick_of operate
  take_event-IsSoundDaemon (loop_ticked name) d h =
      operated-IsSoundDaemon server ticked (λ setup s. (none, tick setup s)) (λ setup s. refl) name
        d h
  take_event-IsSoundDaemon (requested r) d h = record { all = (serve-IsSoundDaemon r d h).all }
  take_event-IsSoundDaemon (elsewhere world store) d h = record { all = h.all }

  take_events-IsSoundDaemon :
      (es : List DaemonEvent) (d : Daemon)
      → IsSoundDaemon d
      → IsSoundDaemon (take_events server es d)
  unfolding take_events
  take_events-IsSoundDaemon [] d h = h
  take_events-IsSoundDaemon (e ∷ es) d h =
      take_events-IsSoundDaemon es (take_event server e d) (take_event-IsSoundDaemon e d h)

AllValid-start_loop :
    (ps : List Project) (gs : Dict ProjectGuardian)
    → All (λ (p : Project). pos_part p.max_restart_attempts ≤ max_int) ps
    → AllValid gs
    → AllValid (start_loop ps gs)
unfolding start_loop new_guardian
AllValid-start_loop [] gs fits h = h
AllValid-start_loop (p ∷ ps) gs (fit, fits) h = elim (Bool-cases p.enabled) [
  | inr off ↦ simp off (AllValid-start_loop ps gs fits h)
  | inl on ↦ simp on (
      AllValid-start_loop ps (insert p.name (new_guardian p) gs) fits
        (AllValid-insert p.name (new_guardian p) gs (ground arith) h))
]

start_daemon-IsSoundDaemon :
    (cfg : DaemonConfig) (disk : Disk) (w : World) (store : EventStore)
    → All (λ (p : Project). pos_part p.max_restart_attempts ≤ max_int) cfg.projects
    → IsSoundDaemon (record {
      manager = (start_daemon (new_manager cfg) disk).manager;
      world = w;
      store = store;
    })
unfolding start_daemon set_all_paused start new_manager
start_daemon-IsSoundDaemon cfg disk w store fits =
    elim (Bool-cases (cfg.instance_name == codes "a")) [
      | inr other ↦ rw other (record { all = tt })
      | inl this ↦ elim (Bool-cases (load_state cfg disk == paused)) [
        | inl still ↦ rw (this, still) (record { all = tt })
        | inr go_on ↦
            rw (this, go_on) (record { all = AllValid-start_loop cfg.projects [] fits tt })
      ]
    ]

-- After any ticks of the guard loops and any requests to the console, in any order and with anything
-- done to the world and the event store in between, every guardian of a daemon that was started is
-- valid, if the limits of the configuration are int64: its failure count lies between 0 and its
-- limit, its process id is not negative, it is never left starting; a running project has a start
-- time, and a stopped one has neither start time nor process id.
pub take_events_new-IsSoundDaemon :
    (server : Server) (cfg : DaemonConfig) (disk : Disk) (w : World) (store : EventStore)
    (es : List DaemonEvent)
    → All (λ (p : Project). pos_part p.max_restart_attempts ≤ max_int) cfg.projects
    → IsSoundDaemon (
        take_events server es (record {
          manager = (start_daemon (new_manager cfg) disk).manager;
          world = w;
          store = store;
        }))
take_events_new-IsSoundDaemon server cfg disk w store es fits =
    take_events-IsSoundDaemon server es _ (start_daemon-IsSoundDaemon cfg disk w store fits)
