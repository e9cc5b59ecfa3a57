-- ===== src/Tests/Services.antt =====
-- A service manager that never fails without a reason, and the commands on it.
use daemon_go.Prelude.{
  ◌-◌, ◌≡◌, refl, Option, none, some, List, [], ◌∷◌, Text, codes, true, false, Bool, ◌==◌,
}
use daemon_go.Service.{service_stopped}
use daemon_go.Service.Control.{Reply, got, refused, ServiceApi}
use daemon_go.Service.Control.Database.{
  Entry, Database, IsRegistered, register, ask, to_start, to_stop, Answers, Commits, connected,
  opened, ServiceLaws,
}
use daemon_go.Service.Command.{DaemonService, install, ServiceHost, run_service, command_of}
use daemon_go.Service.Command.Refines.{Permits, perform, run_service-Commits}

abbrev pub found : Text → Database → Option Entry → Reply Text × Database
found name d none = (refused (codes "no such service"), d)
found name d (some e) = (got name, opened d)

abbrev pub made : Text → Entry → Database → Option Entry → Reply Text × Database
made name e d none = (got name, opened (register name (some e) d))
made name e d (some other) = (refused (codes "service exists"), d)

abbrev pub table : ServiceApi
table = record {
  System = Database;
  Manager = Unit {0};
  Handle = Text;
  connect = λ d. (got tt, connected d);
  disconnect = λ m d. record d { managers = d.managers - 1 };
  open_service = λ m name d. found name d (d.entries name);
  create_service = λ m name exe_path config args d.
      made name (record { exe_path = exe_path; config = config; args = args }) d (d.entries name);
  close = λ h d. record d { handles = d.handles - 1 };
  delete = λ h d. (none, register h none d);
  start = λ h d. (none, ask (to_start h) d);
  stop = λ h d. (none, ask (to_stop h) d);
  query = λ h d. (got service_stopped, d);
  add_event_source = λ name d. d;
  remove_event_source = λ name d. d;
}

pub found-Answers :
    (name : Text) (d : Database) (e : Option Entry)
    → d.entries name ≡ e
    → Answers
        (λ h. (h ≡ name) × IsRegistered name d)
        d
        (opened d)
        (found name d e).0
        (found name d e).1
found-Answers name d none h = refl
found-Answers name d (some e) h = ((refl, λ n. cc), refl)

pub made-Answers :
    (name : Text) (x : Entry) (d : Database) (e : Option Entry)
    → d.entries name ≡ e
    → Answers
        (λ h. (h ≡ name) × (d.entries name ≡ none))
        d
        (opened (register name (some x) d))
        (made name x d e).0
        (made name x d e).1
made-Answers name x d none h = ((refl, h), refl)
made-Answers name x d (some e) h = refl

abbrev pub table_laws : ServiceLaws table
table_laws = record {
  view = λ d. d;
  name_of = λ h. h;
  connect_lem = λ d. (tt, refl);
  disconnect_lem = λ m d. refl;
  open_service_lem = λ m name d. found-Answers name d (d.entries name) refl;
  create_service_lem = λ m name exe_path config args d. made-Answers name _ d (d.entries name) refl;
  close_lem = λ h d. refl;
  delete_lem = λ h d. (tt, refl);
  start_lem = λ h d. (tt, refl);
  stop_lem = λ h d. (tt, refl);
  query_lem = λ h d. refl;
  add_event_source_lem = λ name d. refl;
  remove_event_source_lem = λ name d. refl;
}

abbrev pub no_services : Database
no_services = record { entries = λ name. none; asked = []; managers = 0; handles = 0 }

abbrev service_a : DaemonService
service_a = record {
  name = codes "ProcessGuard-a";
  display_name = codes "ProcessGuard Service a";
  description = codes "Process guard instance a";
  exe_path = codes "C:\\guard\\daemon.exe";
  args = codes "--instance" ∷ codes "a" ∷ [];
}

-- a daemon that is nothing but the number of its starts and stops
abbrev counting : ServiceHost (List Bool)
counting = record {
  start = λ d. (none, true ∷ d);
  stop = λ d. (none, false ∷ d);
  session = got true;
  await = λ d. d;
  dispatch = λ name d. (none, d);
}

run_service-Commits_example :
    let r = run_service table counting service_a (codes "install") no_services [] in
    Commits
      (Permits no_services service_a install)
      no_services
      (perform service_a install no_services)
      r.0
      r.1
    × (r.2 ≡ [])
unfolding command_of ◌==◌
run_service-Commits_example =
    run_service-Commits table table_laws service_a counting (codes "install") install no_services []
      refl

-- The install succeeds, and a second one is refused.
installs_once :
    let once = run_service table counting service_a (codes "install") no_services [] in
    let twice = run_service table counting service_a (codes "install") once.1 [] in
    (once.0 ≡ none)
    × (twice.0 ≡ some (codes "service ProcessGuard-a already exists"))
    × (twice.1.handles ≡ 0)
unfolding run_service ◌==◌
installs_once = (refl, refl, refl)

-- Without a command the daemon runs in the foreground: it is started and then stopped.
runs_in_foreground :
    run_service table counting service_a [] no_services [] ≡ (none, no_services, false ∷ true ∷ [])
unfolding run_service ◌==◌
runs_in_foreground = refl
