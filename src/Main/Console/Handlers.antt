-- ===== src/Main/Console/Handlers.antt =====
-- The guardians over the handlers of internal/web/server.go.
use daemon_go.Prelude.{
  ◌⊎◌, inl, inr, ◌≡◌, refl, sym, Bool, true, false, inl, inr, Option, Option-cases, none, some, [],
  Text, codes, subst, ◌==◌, lookup, if◌then◌else◌, arith,
}
use daemon_go.Prelude.Int.{pos}
use daemon_go.Os.{Error, Disk}
use daemon_go.Events.{EventType}
use daemon_go.Guardian.{Setup, ProjectGuardian, Scene, set_paused}
use daemon_go.Guardian.Start.{start_by_hand, stop_by_hand, restart_by_hand}
use daemon_go.Guardian.Run.{Operation, by_hand_start, by_hand_stop, by_hand_restart, operate}
use daemon_go.Guardian.Run.Invariant.{IsValid, operate-IsValid}
use daemon_go.Manager.{
  Daemon, set_all_paused, on_guardian, setup_of, manual_start_of, manual_stop_of, manual_restart_of,
  reset_fail_count_of, reset_all,
}
use daemon_go.Web.Server.{
  Server, Request, Response, Handler, answer_named, when_post, is_post, method_not_allowed,
  write_error, when_named, after_state, handle_pause, handle_resume, handle_project_start,
  handle_project_stop, handle_project_restart, handle_project_reset,
}
use daemon_go.Config.{DaemonConfig}
use daemon_go.Web.Dto.{ConfigDto, dto_to_config}
use daemon_go.Web.Server.Save.{handle_config, save_config, save_body, save_dto, after_save}
use daemon_go.Main.Console.Guardians.{
  AllValid, AllValid-insert, AllValid-lookup, AllValid-map_guardians, IsSoundDaemon,
  on_guardian-IsSoundDaemon,
}

-- After an answer every guardian is valid.
pub record IsSoundAnswer (x : Response × Daemon) : Type 0 where
  pub all : AllValid x.1.manager.guardians

abbrev pub IsSoundHandler : Handler → Type 0
IsSoundHandler h = (r : Request) (d : Daemon) → IsSoundDaemon d → IsSoundAnswer (h r d)

pub if-IsSoundAnswer :
    (b : Bool) (x y : Response × Daemon)
    → IsSoundAnswer x
    → IsSoundAnswer y
    → IsSoundAnswer (if b then x else y)
if-IsSoundAnswer true x y hx hy = hx
if-IsSoundAnswer false x y hx hy = hy

pub when_post-IsSoundAnswer :
    (r : Request) (d : Daemon) (x : Response × Daemon)
    → IsSoundDaemon d
    → IsSoundAnswer x
    → IsSoundAnswer (when_post r d x)
when_post-IsSoundAnswer r d x h hx =
    if-IsSoundAnswer (is_post r) x (method_not_allowed, d) hx (record { all = h.all })

answer_named-IsSoundAnswer :
    (result name : Text) (x : Option Error × Daemon)
    → IsSoundDaemon x.1
    → IsSoundAnswer (answer_named result name x)
answer_named-IsSoundAnswer result name (none, d) h = record { all = h.all }
answer_named-IsSoundAnswer result name (some err, d) h = record { all = h.all }

when_named-IsSoundAnswer :
    (result : Text) (r : Request) (d : Daemon) (x : Option Error × Daemon)
    → IsSoundDaemon d
    → IsSoundDaemon x.1
    → IsSoundAnswer (when_post r d (when_named r d (answer_named result r.query_name x)))
when_named-IsSoundAnswer result r d x h hx =
    let named = answer_named-IsSoundAnswer result r.query_name x hx in
    let unnamed : Response × Daemon = (write_error (codes "name is required"), d) in
    when_post-IsSoundAnswer r d _ h (
      if-IsSoundAnswer (r.query_name == []) unnamed (answer_named result r.query_name x)
        (record { all = h.all }) named)

module _ (server : Server) where
  pub operated-IsSoundDaemon :
      (o : Operation) (f : Setup → Scene → Option Error × Scene)
      → ((setup : Setup) (s : Scene) → (f setup s).1.guardian ≡ (operate setup o s).guardian)
      → (name : Text) (d : Daemon) → IsSoundDaemon d
      → IsSoundDaemon (on_guardian (f (setup_of server.json server.platform d.manager)) name d).1
  operated-IsSoundDaemon o f k name d h =
      let setup = setup_of server.json server.platform d.manager in
      on_guardian-IsSoundDaemon (f setup)
        (λ s v. subst IsValid (sym (k setup s)) (operate-IsValid setup o s v)) name d h

  pub handle_project_start-IsSoundDaemon : IsSoundHandler (handle_project_start server)
  unfolding handle_project_start manual_start_of operate
  handle_project_start-IsSoundDaemon r d h =
      when_named-IsSoundAnswer (codes "started") r d _ h
        (operated-IsSoundDaemon by_hand_start start_by_hand (λ setup s. refl) r.query_name d h)

  pub handle_project_stop-IsSoundDaemon : IsSoundHandler (handle_project_stop server)
  unfolding handle_project_stop manual_stop_of operate
  handle_project_stop-IsSoundDaemon r d h =
      when_named-IsSoundAnswer (codes "stopped") r d _ h
        (operated-IsSoundDaemon by_hand_stop stop_by_hand (λ setup s. refl) r.query_name d h)

  pub handle_project_restart-IsSoundDaemon : IsSoundHandler (handle_project_restart server)
  unfolding handle_project_restart manual_restart_of operate
  handle_project_restart-IsSoundDaemon r d h =
      when_named-IsSoundAnswer (codes "restarted") r d _ h
        (operated-IsSoundDaemon by_hand_restart restart_by_hand (λ setup s. refl) r.query_name d h)

  zeroed-IsValid : (g : ProjectGuardian) → IsValid g → IsValid (record g { fail_count = pos 0 })
  zeroed-IsValid g v = ground arith

  reset_fail_count_of-IsSoundDaemon :
      (name : Text) (d : Daemon)
      → IsSoundDaemon d
      → IsSoundDaemon (reset_fail_count_of server.json server.platform name d).1
  unfolding reset_fail_count_of
  reset_fail_count_of-IsSoundDaemon name d h =
      elim (Option-cases (lookup name d.manager.guardians)) [
        | inl unknown ↦ rw unknown h
        | inr (g, known) ↦ rw known (record {
          all =
              AllValid-insert name (record g { fail_count = pos 0 }) d.manager.guardians
                (zeroed-IsValid g (AllValid-lookup name g d.manager.guardians h.all known)) h.all;
        })
      ]

  pub handle_project_reset-IsSoundDaemon : IsSoundHandler (handle_project_reset server)
  unfolding handle_project_reset reset_all
  handle_project_reset-IsSoundDaemon r d h = when_post-IsSoundAnswer r d _ h (
      if-IsSoundAnswer (r.query_name == []) _ _
        (record {
          all =
              AllValid-map_guardians (λ g. record g { fail_count = pos 0 }) zeroed-IsValid
                d.manager.guardians h.all;
        })
        (answer_named-IsSoundAnswer (codes "reset") r.query_name
          (reset_fail_count_of server.json server.platform r.query_name d)
          (reset_fail_count_of-IsSoundDaemon r.query_name d h)))

  set_paused-IsValid : (b : Bool) (g : ProjectGuardian) → IsValid g → IsValid (set_paused b g)
  unfolding set_paused
  set_paused-IsValid true g v = ground arith
  set_paused-IsValid false g v = ground arith

  after_state-IsSoundAnswer :
      (b : Bool) (state : Text) (kind : EventType) (message : Text) (d : Daemon)
      (r : Option Error × Disk)
      → IsSoundDaemon d
      → IsSoundAnswer (after_state server b state kind message d r)
  unfolding set_all_paused
  after_state-IsSoundAnswer b state kind message d (some err, disk) h = record { all = h.all }
  after_state-IsSoundAnswer b state kind message d (none, disk) h = record {
    all = AllValid-map_guardians (set_paused b) (set_paused-IsValid b) d.manager.guardians h.all;
  }

  pub handle_pause-IsSoundDaemon : IsSoundHandler (handle_pause server)
  unfolding handle_pause
  handle_pause-IsSoundDaemon r d h =
      when_post-IsSoundAnswer r d _ h (after_state-IsSoundAnswer true _ _ _ d _ h)

  pub handle_resume-IsSoundDaemon : IsSoundHandler (handle_resume server)
  unfolding handle_resume
  handle_resume-IsSoundDaemon r d h =
      when_post-IsSoundAnswer r d _ h (after_state-IsSoundAnswer false _ _ _ d _ h)

  after_save-IsSoundAnswer :
      (d : Daemon) (r : Option Error × Disk)
      → IsSoundDaemon d
      → IsSoundAnswer (after_save server d r)
  after_save-IsSoundAnswer d (some err, disk) h = record { all = h.all }
  after_save-IsSoundAnswer d (none, disk) h = record { all = h.all }

  save_config-IsSoundAnswer :
      (d : Daemon) (c : Error ⊎ DaemonConfig)
      → IsSoundDaemon d
      → IsSoundAnswer (save_config server d c)
  unfolding save_config
  save_config-IsSoundAnswer d (inl err) h = record { all = h.all }
  save_config-IsSoundAnswer d (inr cfg) h = after_save-IsSoundAnswer d _ h

  save_dto-IsSoundAnswer :
      (d : Daemon) (o : Option ConfigDto) → IsSoundDaemon d → IsSoundAnswer (save_dto server d o)
  save_dto-IsSoundAnswer d none h = record { all = h.all }
  save_dto-IsSoundAnswer d (some dto) h = save_config-IsSoundAnswer d (dto_to_config dto) h

  save_body-IsSoundAnswer :
      (d : Daemon) (o : Option Text) → IsSoundDaemon d → IsSoundAnswer (save_body server d o)
  save_body-IsSoundAnswer d none h = record { all = h.all }
  save_body-IsSoundAnswer d (some body) h = save_dto-IsSoundAnswer d (server.unmarshal body) h

  pub handle_config-IsSoundDaemon : IsSoundHandler (handle_config server)
  unfolding handle_config
  handle_config-IsSoundDaemon r d h =
      if-IsSoundAnswer (r.method == codes "GET") _ _ (record { all = h.all })
        (if-IsSoundAnswer (r.method == codes "POST") _ _ (save_body-IsSoundAnswer d r.body h)
          (record { all = h.all }))
