-- ===== src/Tests/Stop.antt =====
-- Stopping the small daemon, and cleaning a log directory.
use daemon_go.Prelude.{
  ◌⊎◌, ◌+◌, ◌*◌, ◌≤◌, ◌≡◌, ◌⊎◌, ◌↔◌, refl, Bool, true, false, none, some, [], ◌∷◌, List, All, codes,
  lookup, ◌==◌,
}
use daemon_go.Prelude.Int.{pos}
use daemon_go.Os.{Disk, second}
use daemon_go.Guardian.{new_guardian}
use daemon_go.Manager.{Daemon, start, new_manager}
use daemon_go.Manager.Stop.{ten_seconds, stop_manager}
use daemon_go.Manager.Stop.Once.{AllOpen, AllStopped, stop_manager_once}
use daemon_go.Main.Stop.{Lapses, Running, stop_parts}
use daemon_go.Main.Stop.Bounded.{stop_parts_bounded}
use daemon_go.Logger.Rotate.{RotateWriter}
use daemon_go.Logger.Clean.{DirEntry, day, clean_old}
use daemon_go.Logger.Clean.Removed.{Listed, lookup-clean_old}
use daemon_go.Tests.Fixtures.{small_daemon, empty_disk}

small_daemon-AllOpen : AllOpen small_daemon.world.calls small_daemon.manager.guardians
unfolding start new_manager new_guardian
small_daemon-AllOpen = (refl, tt)

stop_manager_once_example :
    (done : Bool) × (e : Daemon) × (stop_manager (λ name. 7) small_daemon ≡ some (done, e))
    × AllStopped small_daemon.world.calls e.manager.guardians
    × (e.world.now ≤ small_daemon.world.now + ten_seconds)
    × ((small_daemon.manager.guardians ≡ []) ⊎ (stop_manager (λ name. 7) e ≡ none))
    × ((done ≡ true) ↔ All (λ g. 7 ≤ ten_seconds) small_daemon.manager.guardians)
stop_manager_once_example = stop_manager_once (λ name. 7) small_daemon small_daemon-AllOpen

abbrev slow : Lapses
slow = record { shutdown = 60 * second; loops = λ name. 60 * second; watch = 60 * second }

abbrev all_running : Running
all_running = record { serving = true; watching = true; watch_closed = false }

stop_parts_bounded_example :
    (e : Daemon) × (stop_parts 3 slow all_running small_daemon ≡ some e)
    × AllStopped small_daemon.world.calls e.manager.guardians
    × (e.world.now ≤ small_daemon.world.now + 15 * second)
stop_parts_bounded_example =
    stop_parts_bounded 3 slow all_running small_daemon small_daemon-AllOpen refl

abbrev log_writer : RotateWriter
log_writer = record {
  log_dir = codes "logs";
  base_name = codes "daemon-a";
  current_day = codes "20240202";
  file = none;
  size = 0;
  max_size_mb = 10;
}

abbrev listed : List DirEntry
listed =
    record { name = codes "daemon-a-1.log"; is_dir = false; mod_time = some 5 }
    ∷ record { name = codes "events-a.jsonl"; is_dir = false; mod_time = some 5 }
    ∷ []

abbrev two_logs : Disk
two_logs = record empty_disk {
  files =
      (codes "logs/daemon-a-1.log", codes "old") ∷ (codes "logs/events-a.jsonl", codes "kept") ∷ [];
}

lookup-clean_old_example :
    let path = codes "logs/daemon-a-1.log" in
    let d' = clean_old (pos 30) (40 * day) log_writer (some listed) two_logs in
    (Listed (pos 30) (40 * day) log_writer path listed
      × (two_logs.writable path ≡ true)
      × (lookup path d'.files ≡ none))
    ⊎ ((¬ (Listed (pos 30) (40 * day) log_writer path listed) ⊎ (two_logs.writable path ≡ false))
        × (lookup path d'.files ≡ lookup path two_logs.files))
lookup-clean_old_example =
    lookup-clean_old (pos 30) (40 * day) log_writer listed (codes "logs/daemon-a-1.log") two_logs
      refl

-- The old log is gone, and the events are kept.
clean_old_run :
    (clean_old (pos 30) (40 * day) log_writer (some listed) two_logs).files
    ≡ (codes "logs/events-a.jsonl", codes "kept") ∷ []
unfolding clean_old ◌==◌
clean_old_run = refl
