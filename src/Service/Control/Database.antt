-- ===== src/Service/Control/Database.antt =====
-- The Windows service manager as a database, and what internal/service/service.go relies on of
-- packages mgr and eventlog.
use daemon_go.Prelude.{
  ℕ, ◌+◌, ◌-◌, ◌≡◌, ◌≢◌, Option, none, some, List, [], ◌∷◌, ◌++◌, Text, ◌==◌, if◌then◌else◌,
}
use daemon_go.Os.{Error}
use daemon_go.Service.Control.{Reply, got, refused, ServiceConfig, ServiceApi}

pub record Entry : Type 0 where
  pub exe_path : Text
  pub config : ServiceConfig
  pub args : List Text

-- what the service manager was asked to do with a service
pub data Asked : Type 0 where
  to_start to_stop : Text → Asked

-- The registered services, the requests that were accepted, and what is still open.
pub record Database : Type 0 where
  pub entries : Text → Option Entry
  pub asked : List Asked
  pub managers : ℕ
  pub handles : ℕ

abbrev pub register : Text → Option Entry → Database → Database
register name entry d = record d { entries = λ j. if name == j then entry else d.entries j }

abbrev pub IsRegistered : Text → Database → Type 0
IsRegistered name d = d.entries name ≢ none

abbrev pub ask : Asked → Database → Database
ask a d = record d { asked = d.asked ++ a ∷ [] }

abbrev pub opened : Database → Database
opened d = record d { handles = d.handles + 1 }

abbrev pub connected : Database → Database
connected d = record d { managers = d.managers + 1 }

-- A call that fails leaves the database alone.
abbrev pub Answers {ℓ} :
    {A : Type ℓ} → (A → Type 0) → Database → Database → Reply A → Database → Type 0
Answers Good d target (got a) d' = Good a × (d' ≡ target)
Answers Good d target (refused e) d' = d' ≡ d

abbrev pub Commits : Type 0 → Database → Database → Option Error → Database → Type 0
Commits Allowed d target none d' = Allowed × (d' ≡ target)
Commits Allowed d target (some e) d' = d' ≡ d

module _ (api : ServiceApi) where
  open api use {
    System, Manager, Handle, connect, disconnect, open_service, create_service, close, delete,
    start, stop, query, add_event_source, remove_event_source,
  }

  -- What the code relies on of package mgr.
  pub record ServiceLaws : Type 0 where
    pub view : System → Database
    pub name_of : Handle → Text
    pub connect_lem :
        (s : System)
        → Answers (λ m. Unit {0}) (view s) (connected (view s)) (connect s).0 (view (connect s).1)
    pub disconnect_lem :
        (m : Manager) (s : System)
        → view (disconnect m s) ≡ record (view s) { managers = (view s).managers - 1 }
    pub open_service_lem :
        (m : Manager) (name : Text) (s : System)
        → let r = open_service m name s in
          Answers
            (λ h. (name_of h ≡ name) × IsRegistered name (view s))
            (view s)
            (opened (view s))
            r.0
            (view r.1)
    pub create_service_lem :
        (m : Manager) (name exe_path : Text) (config : ServiceConfig) (args : List Text)
        (s : System)
        → let r = create_service m name exe_path config args s in
          Answers
            (λ h. (name_of h ≡ name) × ((view s).entries name ≡ none))
            (view s)
            (opened (
              register name
                (some (record { exe_path = exe_path; config = config; args = args }))
                (view s)))
            r.0
            (view r.1)
    pub close_lem :
        (h : Handle) (s : System)
        → view (close h s) ≡ record (view s) { handles = (view s).handles - 1 }
    pub delete_lem :
        (h : Handle) (s : System)
        → Commits
            (Unit {0})
            (view s)
            (register (name_of h) none (view s))
            (delete h s).0
            (view (delete h s).1)
    pub start_lem :
        (h : Handle) (s : System)
        → Commits
            (Unit {0})
            (view s)
            (ask (to_start (name_of h)) (view s))
            (start h s).0
            (view (start h s).1)
    pub stop_lem :
        (h : Handle) (s : System)
        → Commits
            (Unit {0})
            (view s)
            (ask (to_stop (name_of h)) (view s))
            (stop h s).0
            (view (stop h s).1)
    pub query_lem : (h : Handle) (s : System) → view (query h s).1 ≡ view s
    pub add_event_source_lem : (name : Text) (s : System) → view (add_event_source name s) ≡ view s
    pub remove_event_source_lem :
        (name : Text) (s : System) → view (remove_event_source name s) ≡ view s
