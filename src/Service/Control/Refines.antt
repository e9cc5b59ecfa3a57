-- ===== src/Service/Control/Refines.antt =====
-- internal/service/service.go: the commands on Windows services, seen as operations on a database.
use daemon_go.Prelude.{◌≡◌, refl, ◌∙◌, true, Option, none, some, List, ◌++◌, Text, codes}
use daemon_go.Os.{Error}
use daemon_go.Service.{ServiceState}
use daemon_go.Service.Control.{
  Reply, got, refused, ServiceApi, queried, with_manager, with_service, wrap_error, delete_found,
  after_delete, after_create, install_if_absent, install_service, uninstall_service, start_service,
  stop_service, query_service_status,
}
use daemon_go.Service.Control.Database.{
  Entry, Database, IsRegistered, register, ask, to_start, to_stop, Answers, Commits, connected,
  opened, ServiceLaws,
}
use daemon_go.Service.Control.Brackets.{
  managed-Commits, serviced-Commits, opened_reply, closes, managed-view, serviced-view,
}

module _ (api : ServiceApi) (laws : ServiceLaws api) where
  open api use {System, Manager, Handle}
  open laws use {view, name_of}

  allow :
      {Allowed : Type 0}
      → Allowed
      → (d target : Database) (r : Option Error) (d' : Database) → Commits (Unit {0}) d target r d'
      → Commits Allowed d target r d'
  allow a d target none d' h = (a, h.1)
  allow a d target (some e) d' h = h

  -- while the manager and a service are open
  abbrev inside : Database → Database
  inside d = opened (connected d)

  wrap_error-Commits :
      (Allowed : Type 0) (d target : Database) (what : Text) (r : Option Error × System)
      → Commits Allowed d target r.0 (view r.1)
      → let r' = wrap_error api what r in Commits Allowed d target r'.0 (view r'.1)
  wrap_error-Commits Allowed d target what (none, t) h = h
  wrap_error-Commits Allowed d target what (some e, t) h = h

  module _ (name : Text) (s : System) where
    -- what a service that is opened under the name goes through
    with_service-Commits :
        (target : Database) (fail fail' : Error → Error)
        (body : Handle → System → Option Error × System)
        → ((h : Handle) (t : System)
            → name_of h ≡ name
            → view t ≡ inside (view s)
            → Commits (Unit {0}) (inside (view s)) (inside target) (body h t).0 (view (body h t).1))
        → let r =
            with_manager api
              (λ e. some (fail e))
              (with_service api name (λ e. some (fail' e)) body)
              s in
          Commits (IsRegistered name (view s)) (view s) target r.0 (view r.1)
    with_service-Commits target fail fail' body step =
        managed-Commits api laws (IsRegistered name (view s)) (view s) target fail
          (with_service api name (λ e. some (fail' e)) body) (api.connect s) (laws.connect_lem s)
          (λ m t e.
            serviced-Commits api laws (IsRegistered name (view s)) (connected (view s))
              (connected target) fail' body (api.open_service m name t)
              (opened_reply api laws m name t e)
              (λ h u n there e'. allow there _ _ _ _ (step h u n e')))

    -- A service is asked to start once, or nothing changes.
    pub start_service-Commits :
        let r = start_service api name s in
        Commits (IsRegistered name (view s)) (view s) (ask (to_start name) (view s)) r.0 (view r.1)
    unfolding start_service
    start_service-Commits =
        with_service-Commits (ask (to_start name) (view s)) (λ e. e) (λ e. e) _
          (λ h t n e.
            wrap_error-Commits (Unit {0}) _ _ (codes "start service") (api.start h t)
              (rw (e, n) at (laws.start_lem h t)))

    -- A service is asked to stop once, or nothing changes.
    pub stop_service-Commits :
        let r = stop_service api name s in
        Commits (IsRegistered name (view s)) (view s) (ask (to_stop name) (view s)) r.0 (view r.1)
    unfolding stop_service
    stop_service-Commits =
        with_service-Commits (ask (to_stop name) (view s)) (λ e. e) (λ e. e) _
          (λ h t n e.
            wrap_error-Commits (Unit {0}) _ _ (codes "stop service") (api.stop h t)
              (rw (e, n) at (laws.stop_lem h t)))

    deleted :
        (d target : Database) (r : Option Error × System)
        → Commits (Unit {0}) d target r.0 (view r.1)
        → let r' = after_delete api name r in Commits (Unit {0}) d target r'.0 (view r'.1)
    deleted d target (some e, t) h = h
    deleted d target (none, t) h = (tt, laws.remove_event_source_lem name t ∙ h.1)

    pub uninstall_service-Commits :
        let r = uninstall_service api name s in
        Commits (IsRegistered name (view s)) (view s) (register name none (view s)) r.0 (view r.1)
    unfolding uninstall_service
    uninstall_service-Commits =
        with_service-Commits (register name none (view s)) _ _ (delete_found api name)
          (λ h t n e. deleted _ _ (api.delete h t) (rw (e, n) at (laws.delete_lem h t)))

    queried-view : (r : Reply ServiceState × System) → view (queried api r).2 ≡ view r.1
    queried-view (got state, t) = refl
    queried-view (refused err, t) = refl

    pub query_service_status-view : view (query_service_status api name s).2 ≡ view s
    unfolding query_service_status
    query_service_status-view =
        queried-view (with_manager api refused (with_service api name refused api.query) s)
        ∙ managed-view api laws refused (with_service api name refused api.query) (api.connect s)
            (laws.connect_lem s)
            (λ m t e.
              serviced-view api laws name refused api.query (api.open_service m name t)
                (opened_reply api laws m name t e) laws.query_lem)

    module _ (display_name description exe_path : Text) (args : List Text) where
      abbrev pub new_entry : Entry
      new_entry = record {
        exe_path = exe_path;
        config = record {
          display_name = display_name;
          description = description;
          automatic = true;
        };
        args = args;
      }

      created :
          (d : Database) (r : Reply Handle × System)
          → let target = register name (some new_entry) d in
            Answers
              (λ h. (name_of h ≡ name) × (d.entries name ≡ none))
              d
              (opened target)
              r.0
              (view r.1)
            → let r' = after_create api name r in
              Commits (d.entries name ≡ none) d target r'.0 (view r'.1)
      created d (refused err, t) h = h
      created d (got h, t) ((_, fresh), e) = (
        fresh,
        closes api laws h (api.add_event_source name t) (laws.add_event_source_lem name t ∙ e),
      )

      absent :
          (d : Database) (m : Manager) (r : Reply Handle × System)
          → Answers (λ h. (name_of h ≡ name) × IsRegistered name d) d (opened d) r.0 (view r.1)
          → let r' = install_if_absent api name display_name description exe_path args m r in
            Commits (d.entries name ≡ none) d (register name (some new_entry) d) r'.0 (view r'.1)
      absent d m (got h, t) (_, e) = closes api laws h t e
      absent d m (refused err, t) e =
          created d (api.create_service m name exe_path new_entry.config args t)
            (rw e at (laws.create_service_lem m name exe_path new_entry.config args t))

      pub install_service-Commits :
          let r = install_service api name display_name description exe_path args s in
          Commits
            ((view s).entries name ≡ none)
            (view s)
            (register name (some new_entry) (view s))
            r.0
            (view r.1)
      unfolding install_service
      install_service-Commits =
          managed-Commits api laws ((view s).entries name ≡ none) (view s)
            (register name (some new_entry) (view s))
            (λ e. codes "connect to service manager failed: " ++ e) _ (api.connect s)
            (laws.connect_lem s)
            (λ m t e.
              absent (connected (view s)) m (api.open_service m name t)
                (opened_reply api laws m name t e))
