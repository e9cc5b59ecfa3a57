-- ===== src/Tests/Files.antt =====
-- The theorems on files, configurations, events and managers at concrete inputs.
use mathlib.Core.Option
use Prim.Native.Nat.{min}
use daemon_go.Prelude.{
  ◌≤◌, ◌≡◌, ◌≢◌, eq_iff, refl, true, false, Option, some, List, All, map, [], ◌∷◌, ◌++◌, Text,
  codes, ◌==◌, lookup, arith, last, length,
}
use daemon_go.Prelude.Int.{pos, pos_part}
use daemon_go.Os.{Disk}
use daemon_go.Os.Scan.{byte_len}
use daemon_go.Events.{join_path, encode, new_event_store, add_all, capacity, recent}
use daemon_go.Logger.Create.{new_logger}
use daemon_go.Logger.Output.{log_lines, close_logger}
use daemon_go.Logger.Output.Session.{IsHeld, HoldsFile, log_session}
use daemon_go.Logger.Buffer.{shown_lines}
use daemon_go.Logger.Create.Kept.{new_logger_restart}
use daemon_go.Logger.Clean.{DirEntry}
use daemon_go.Events.Memory.{session_window}
use daemon_go.Guardian.{ProjectGuardian, new_guardian, set_paused}
use daemon_go.Manager.{new_manager, start, set_all_paused, scene_of}
use daemon_go.Manager.Lookup.{manual_restart_call, run_call, SameFor, run_call-SameFor}
use daemon_go.Manager.Pause.{as_initial, pause_resume_lem}
use daemon_go.Guardian.Tick.{ticks}
use daemon_go.Logger.{recent_logs}
use daemon_go.Logger.Gathered.{Gathered}
use daemon_go.Logger.Rotate.{RotateWriter, write_logs}
use daemon_go.Logger.Rotate.NoLoss.{write_logs_keep}
use daemon_go.Tests.Wire.{wire, shift, kind_code}
use daemon_go.Tests.Fixtures.{
  api_project, plain_setup, small_daemon, empty_disk, plain_platform, start_event, down_event,
}

abbrev events_path : Text
events_path = join_path (codes "logs") (codes "events-" ++ codes "a" ++ codes ".jsonl")

-- The file of an earlier run with one event.
abbrev old_disk : Disk
old_disk = record empty_disk { files = (events_path, encode wire (start_event ∷ [])) ∷ [] }

abbrev listed_none : Disk → Option (List DirEntry)
listed_none d = some []

new_logger_restart_example :
    let (l, d₁) =
      new_logger wire (codes "logs") (codes "a") (codes "2024-05-01") 7 listed_none old_disk in
    let (t, d₂) = add_all wire (down_event ∷ start_event ∷ []) (l.store, d₁) in
    (new_logger wire
      (codes "logs")
      (codes "a")
      (codes "2024-05-02")
      9
      listed_none
      d₂).0.store.events
    ≡ t.events
unfolding lookup ◌==◌ byte_len shift kind_code
new_logger_restart_example =
    new_logger_restart wire (codes "logs") (codes "a") (start_event ∷ [])
      (down_event ∷ start_event ∷ []) (codes "2024-05-01") (codes "2024-05-02") 7 9 listed_none
      old_disk refl refl refl (omega arith, tt) (omega arith, (omega arith, tt))

abbrev three_lines : List (Text × Text)
three_lines =
    (codes "20240101", codes "first\n")
    ∷ (codes "20240101", codes "\n")
    ∷ (codes "20240102", codes "second\n")
    ∷ []

log_session_example :
    let (l, d₁) =
      log_lines three_lines
        (new_logger wire (codes "logs") (codes "a") (codes "20240101") 7 listed_none old_disk) in
    let (m, d₂) = log_lines ((codes "20240102", codes "third\n") ∷ []) (close_logger l, d₁) in
    All (λ (q : Text × Text). IsHeld d₂ q.1) three_lines
    × (recent_logs m.buffer ≡ last 20 (shown_lines (map (λ q. q.1) three_lines)))
    × (d₂ ≡ d₁)
    × HoldsFile m
log_session_example =
    log_session wire (codes "logs") (codes "a") (codes "20240101") 7 listed_none old_disk
      three_lines ((codes "20240102", codes "third\n") ∷ []) (λ path. refl)

session_window_example :
    let (s, d') = new_event_store wire (codes "logs") (codes "a") (pos 1) old_disk in
    let t = (add_all wire (down_event ∷ []) (s, d')).0 in
    (t.events ≡ last (capacity (pos 1)) (s.events ++ down_event ∷ []))
    × (length t.events ≤ capacity (pos 1))
    × (recent (pos 5) t
        ≡ last (min (pos_part (pos 5)) (capacity (pos 1))) (s.events ++ down_event ∷ []))
session_window_example =
    session_window wire (codes "logs") (codes "a") (pos 1) (pos 5) (down_event ∷ []) old_disk

other_name : codes "web" ≢ codes "api"
unfolding ◌==◌
other_name e = let h : false ≡ true = (eq_iff (codes "web") (codes "api")).1 e in cc

run_call-SameFor_example :
    SameFor
      (codes "web")
      small_daemon
      (run_call wire plain_platform manual_restart_call (codes "api") small_daemon).1
run_call-SameFor_example =
    run_call-SameFor (codes "api") (codes "web") other_name small_daemon wire plain_platform
      manual_restart_call

abbrev paused_api : ProjectGuardian
paused_api = set_paused true (new_guardian api_project)

pause_resume_lem_example :
    (ticks plain_setup 4 (scene_of small_daemon paused_api) ≡ scene_of small_daemon paused_api)
    × (lookup
          (codes "api")
          (set_all_paused false (set_all_paused true small_daemon.manager)).guardians
        ≡ Option.map as_initial (lookup (codes "api") small_daemon.manager.guardians))
unfolding lookup ◌==◌ set_all_paused start new_manager
pause_resume_lem_example = pause_resume_lem plain_setup 4 (codes "api") small_daemon paused_api refl

-- A log directory with the events of two instances and a log file.
abbrev two_disk : Disk
two_disk = record empty_disk {
  files =
      (codes "logs/events-a.jsonl", encode wire (down_event ∷ []))
      ∷ (codes "logs/events-b.jsonl", encode wire (start_event ∷ []))
      ∷ [];
}

abbrev log_names : List Text
log_names = codes "daemon-a.log" ∷ codes "events-a.jsonl" ∷ codes "events-b.jsonl" ∷ []

-- A full log file of one day, and one write on that day and one on the next.
abbrev full_writer : RotateWriter
full_writer = record {
  log_dir = codes "logs";
  base_name = codes "daemon-a";
  current_day = codes "20240101";
  file = some (codes "logs/daemon-a-20240101.log");
  size = 5;
  max_size_mb = 0;
}

abbrev full_disk : Disk
full_disk = record empty_disk { files = (codes "logs/daemon-a-20240101.log", codes "first") ∷ [] }

abbrev two_writes : List (Text × Text)
two_writes = (codes "20240101", codes "second") ∷ (codes "20240102", codes "third") ∷ []

write_logs_keep_example :
    (kept : Text) × ((rest : Text) × (lookup kept
          (write_logs two_writes full_writer full_disk).1.files
        ≡ some (codes "first" ++ rest)))
unfolding lookup ◌==◌
write_logs_keep_example =
    write_logs_keep two_writes full_writer full_disk (codes "logs/daemon-a-20240101.log")
      (codes "first") refl
