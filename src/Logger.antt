-- ===== src/Logger.antt =====
-- internal/logger/logger.go: the buffer of recent log lines, and the events of all instances.
-- What is logged, by logrus, is left out.
pub mod Buffer
pub mod Gathered
pub mod Merged
pub mod Rotate
pub mod Clean
pub mod Create
pub mod Output
use daemon_go.Prelude.{
  ℕ, zero, suc, Bool, true, false, not, Option, none, some, List, [], ◌∷◌, ◌++◌, ◌-◌, ◌&&◌, Text,
  codes, ◌==◌, length, drop, last, leb, has_prefix, trim_space, if◌then◌else◌,
}
use daemon_go.Os.{Disk, read_file}
use daemon_go.Os.Scan.{scan_lines}
use daemon_go.Events.{Event, Json, decode, join_path}

pub record LogBuffer : Type 0 where
  pub lines : List Text
  pub max_size : ℕ

unfoldable pub new_log_buffer : ℕ → LogBuffer
new_log_buffer max_size = record { lines = []; max_size = max_size }

-- logBuffer.Write: if len(lines) > maxSize { lines = lines[len(lines)-maxSize:] }
unfoldable pub write : Text → LogBuffer → LogBuffer
unfolding trim_space
write p b =
    let line = trim_space p in
    if line == [] then b else record b { lines = last b.max_size (b.lines ++ line ∷ []) }

unfoldable pub write_all : List Text → LogBuffer → LogBuffer
unfolding write
write_all [] b = b
write_all (p ∷ ps) b = write_all ps (write p b)

-- logBuffer.Get and RecentLogs
unfoldable pub recent_logs : LogBuffer → List Text
recent_logs b = b.lines

-- strings.HasSuffix
abbrev pub has_suffix : Text → Text → Bool
has_suffix s p = drop (length s - length p) s == p

abbrev pub is_event_file : Text → Bool
is_event_file name = has_prefix name (codes "events-") && has_suffix name (codes ".jsonl")

-- the events of one file; a file that cannot be opened has none
abbrev pub events_of : Json → Option Text → List Event
events_of json none = []
events_of json (some text) = decode json (scan_lines text)

-- The loop over the entries of the directory; `names` are those of its files.
unfoldable pub collect : Json → Text → List Text → Disk → List Event
unfolding has_prefix read_file scan_lines decode
collect json log_dir [] d = []
collect json log_dir (name ∷ names) d =
    let rest = collect json log_dir names d in
    if is_event_file name
    then events_of json (read_file (join_path log_dir name) d) ++ rest
    else rest

unfoldable pub insert_event : Event → List Event → List Event
insert_event e [] = e ∷ []
insert_event e (f ∷ fs) =
    let rest = insert_event e fs in if leb e.time f.time then e ∷ f ∷ fs else f ∷ rest

-- sort.Slice by time; of events with the same time it may return any order, here the one they have
unfoldable pub sort_events : List Event → List Event
unfolding insert_event
sort_events [] = []
sort_events (e ∷ es) = insert_event e (sort_events es)

-- if n > 0 && len(all) > n { all = all[len(all)-n:] }
abbrev pub latest : ℕ → List Event → List Event
latest zero es = es
latest (suc n) es = last (suc n) es

-- LoadAllRecentEvents; `names` is what os.ReadDir lists, `none` an error
unfoldable pub load_all_recent_events : Json → Text → Option (List Text) → ℕ → Disk → List Event
unfolding collect sort_events
load_all_recent_events json log_dir none n d = []
load_all_recent_events json log_dir (some names) n d =
    latest n (sort_events (collect json log_dir names d))
