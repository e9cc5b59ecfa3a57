-- ===== src/Web/Server/Guards.antt =====
-- internal/web/server.go: who may change the daemon through the console.
use daemon_go.Prelude.{
  Bool, true, false, ◌≡◌, ◌≢◌, if◌then◌else◌, ◌⊎◌, inl, inr, refl, [], Text, codes, ◌==◌, eq_iff,
  arith, Bool-cases,
}
use daemon_go.Auth.{validate}
use daemon_go.Auth.Kept.{validate_iff}
use daemon_go.Manager.{Daemon}
use daemon_go.Web.Server.{
  Server, Request, Response, Handler, is_post, when_post, extract_token, is_local_ip, handle_health,
  handle_status, handle_logs, handle_events, handle_pause, handle_resume, handle_projects,
  handle_project_start, handle_project_stop, handle_project_restart, handle_project_reset,
}
use daemon_go.Web.Server.Save.{handle_config}
use daemon_go.Web.Server.Routes.{
  Route, open_route, guarded_route, route, with_local_ip, with_token, run_route, serve,
  handle_restart, handle_static, handle_auth,
}

-- a handler that changes nothing but on a POST
IsSafe : Handler → Type 0
IsSafe h = (r : Request) (d : Daemon) → ((h r d).1 ≡ d) ⊎ (is_post r ≡ true)

-- A guarded route is safe, and an open one changes nothing.
abbrev IsSafeRoute : Route → Type 0
IsSafeRoute (open_route h) = (r : Request) (d : Daemon) → (h r d).1 ≡ d
IsSafeRoute (guarded_route h) = IsSafe h

when_post_safe :
    (r : Request) (d : Daemon) (answer : Response × Daemon)
    → ((when_post r d answer).1 ≡ d) ⊎ (is_post r ≡ true)
when_post_safe r d answer = elim (Bool-cases (is_post r)) [
  | inl post ↦ inr post
  | inr other ↦ inl (rw other refl)
]

if-IsSafeRoute :
    (b : Bool) (x y : Route) → IsSafeRoute x → IsSafeRoute y → IsSafeRoute (if b then x else y)
if-IsSafeRoute true x y hx hy = hx
if-IsSafeRoute false x y hx hy = hy

module _ (server : Server) where
  handle_config-IsSafe : IsSafe (handle_config server)
  unfolding IsSafe handle_config
  handle_config-IsSafe r d = ground (arith, eq_iff r.method (codes "GET"))

  pub handle_auth_safe : (r : Request) (d : Daemon) → (handle_auth server r d).1 ≡ d
  unfolding handle_auth
  handle_auth_safe r d = ground arith

  pub handle_static_safe : (r : Request) (d : Daemon) → (handle_static server r d).1 ≡ d
  unfolding handle_static
  handle_static_safe r d = ground arith

  route-IsSafeRoute : (path : Text) → IsSafeRoute (route server path)
  unfolding route IsSafe handle_health handle_status handle_pause handle_resume handle_projects
      handle_project_start handle_project_stop handle_project_restart handle_project_reset
      handle_restart handle_logs handle_events
  route-IsSafeRoute path =
      if-IsSafeRoute (path == codes "/api/health") _ _ (λ r d. refl)
        (if-IsSafeRoute (path == codes "/api/auth") _ _ handle_auth_safe (
          if-IsSafeRoute (path == codes "/api/status") _ _ (λ r d. inl refl)
            (if-IsSafeRoute (path == codes "/api/logs") _ _ (λ r d. inl refl)
              (if-IsSafeRoute (path == codes "/api/events") _ _ (λ r d. inl refl)
                (if-IsSafeRoute (path == codes "/api/pause") _ _ (λ r d. when_post_safe r d _)
                  (if-IsSafeRoute (path == codes "/api/resume") _ _ (λ r d. when_post_safe r d _)
                    (if-IsSafeRoute (path == codes "/api/projects") _ _ (λ r d. inl refl)
                      (if-IsSafeRoute (path == codes "/api/projects/start") _ _
                        (λ r d. when_post_safe r d _)
                        (if-IsSafeRoute (path == codes "/api/projects/stop") _ _
                          (λ r d. when_post_safe r d _)
                          (if-IsSafeRoute (path == codes "/api/projects/restart") _ _
                            (λ r d. when_post_safe r d _)
                            (if-IsSafeRoute (path == codes "/api/projects/reset") _ _
                              (λ r d. when_post_safe r d _)
                              (if-IsSafeRoute (path == codes "/api/config") _ _ handle_config-IsSafe
                                (if-IsSafeRoute (path == codes "/api/restart") _ _
                                  (λ r d. when_post_safe r d _) handle_static_safe)))))))))))))

  -- what a request needs to change anything
  pub record IsAuthorized (r : Request) : Type 0 where
    pub local : is_local_ip server r ≡ true
    pub token : (extract_token r ≡ server.auth.token) × (extract_token r ≢ [])
    pub post : is_post r ≡ true

  run_route_guarded :
      (x : Route)
      → IsSafeRoute x
      → (r : Request) (d : Daemon) → ((run_route server x r d).1 ≡ d) ⊎ IsAuthorized r
  unfolding IsSafe with_local_ip with_token
  run_route_guarded (open_route h) safe r d = elim (Bool-cases (is_local_ip server r)) [
    | inl local ↦ inl (rw local (safe r d))
    | inr remote ↦ inl (rw remote refl)
  ]
  run_route_guarded (guarded_route h) safe r d = elim (Bool-cases (is_local_ip server r)) [
    | inr remote ↦ inl (rw remote refl)
    | inl local ↦ elim (Bool-cases (validate (extract_token r) server.auth)) [
      | inr bad ↦ inl (rw (local, bad) refl)
      | inl good ↦ elim (safe r d) [
        | inl same ↦ inl (rw (local, good) same)
        | inr post ↦ inr (record {
          local = local;
          token = (validate_iff (extract_token r) server.auth).0 good;
          post = post;
        })
      ]
    ]
  ]

  -- A request changes the daemon, its projects, files and world only if it comes from a local
  -- address, carries the console's token and is a POST.
  pub serve_guarded : (r : Request) (d : Daemon) → ((serve server r d).1 ≡ d) ⊎ IsAuthorized r
  unfolding serve
  serve_guarded r d = run_route_guarded (route server r.path) (route-IsSafeRoute r.path) r d
