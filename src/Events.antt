-- ===== src/Events.antt =====
-- internal/logger/event.go: the key events, kept in memory and in a file of one JSON line each.
-- Package encoding/json is the parameter `Json`. The mutex makes each method one step.
pub mod Memory
pub mod Durable
use daemon_go.Prelude.{
  ℕ, ◌/◌, ◌≡◌, ◌≢◌, Option, none, some, List, [], ◌∷◌, ◌++◌, map, Text, codes, length, last, leb,
  ltb, eqb, All, if◌then◌else◌,
}
use daemon_go.Prelude.Int.{ℤ, pos, negsuc}
use daemon_go.Os.{Disk, read_file, stat_file, write_file, append_file}
use daemon_go.Os.Scan.{newline, lines, byte_len, drop_cr, scan_lines}

pub data EventType : Type 0 where
  peer_down peer_recover project_down project_stop project_start project_started : EventType
  project_failed daemon_pause daemon_resume service_restart config_saved : EventType
  manual_start manual_stop manual_restart : EventType

pub record Event : Type 0 where
  pub time : ℕ
  pub kind : EventType
  pub target : Text
  pub message : Text
  pub detail : Text

-- json.Marshal and json.Unmarshal for this struct: what was written is read back, and the text
-- has no line break, at its end neither (JSON escapes control characters and closes the object).
pub record Json : Type 0 where
  pub marshal : Event → Text
  pub unmarshal : Text → Option Event
  pub unmarshal-marshal : (e : Event) → unmarshal (marshal e) ≡ some e
  pub unbroken : (e : Event) → All (λ c. c ≢ newline) (marshal e)
  pub plain : (e : Event) → drop_cr (marshal e) ≡ marshal e

pub record EventStore : Type 0 where
  pub path : Text
  pub max_size : ℕ
  pub events : List Event
  pub instance_name : Text

-- if len(events) > maxSize { events = events[len(events)-maxSize:] }
abbrev pub trim : EventStore → EventStore
trim s = record s { events = last s.max_size s.events }

-- the loop of `load` over the scanner's lines
unfoldable pub decode : Json → List Text → List Event
decode json [] = []
decode json (l ∷ ls) = elim (json.unmarshal l) [
  | none ↦ decode json ls
  | some e ↦ e ∷ decode json ls
]

abbrev pub encode : Json → List Event → Text
encode json es = lines (map json.marshal es)

unfoldable pub rewrite_locked : Json → EventStore → Disk → Disk
rewrite_locked json s d = (write_file s.path (encode json s.events) d).1

-- the newest event, which `persistLocked` writes
abbrev pub newest : List Event → List Event
newest es = last 1 es

unfoldable pub persist_locked : Json → EventStore → Disk → Disk
persist_locked json s d = (append_file s.path (encode json (newest s.events)) d).1

-- one more event, from the fields that an `Add` writes
abbrev pub entry : EventType → Text → Text → Text → ℕ → Event
entry kind target message detail now = record {
  time = now;
  kind = kind;
  target = target;
  message = message;
  detail = detail;
}

-- the test on `len` of `load`
abbrev pub load_trim : Json → EventStore → Disk → EventStore × Disk
load_trim json s d =
    if ltb s.max_size (length s.events) then (trim s, rewrite_locked json (trim s) d) else (s, d)

abbrev pub load_text : Json → EventStore → Disk → Option Text → EventStore × Disk
load_text json s d none = (s, d)
load_text json s d (some text) =
    load_trim json (record s { events = s.events ++ decode json (scan_lines text) }) d

unfoldable pub load : Json → EventStore → Disk → EventStore × Disk
load json s d = load_text json s d (read_file s.path d)

-- if maxSize <= 0 { maxSize = 100 }
abbrev pub capacity : ℤ → ℕ
capacity (pos n) = if eqb n 0 then 100 else n
capacity (negsuc _) = 100

-- filepath.Join(dir, name) for a clean directory and a plain name
abbrev pub join_path : Text → Text → Text
join_path [] name = name
join_path (c ∷ dir) name = c ∷ dir ++ codes "/" ++ name

-- the literal of `NewEventStore`
abbrev pub blank_store : Text → Text → ℤ → EventStore
blank_store log_dir instance_name max_size = record {
  path = join_path log_dir (codes "events-" ++ instance_name ++ codes ".jsonl");
  max_size = capacity max_size;
  events = [];
  instance_name = instance_name;
}

unfoldable pub new_event_store : Json → Text → Text → ℤ → Disk → EventStore × Disk
unfolding load
new_event_store json log_dir instance_name max_size d =
    load json (blank_store log_dir instance_name max_size) d

-- the sum over the events of len(b) + 1
abbrev total_size : Json → List Event → ℕ
total_size json es = byte_len (encode json es)

abbrev average : ℕ → ℕ
average avg = if eqb avg 0 then 200 else avg

abbrev estimate : Json → EventStore → ℕ → ℕ
estimate json s size =
    if eqb (length s.events) 0
    then 0
    else size / average (total_size json s.events / length s.events)

abbrev count_text : Json → EventStore → Option Text → ℕ
count_text json s none = length s.events
count_text json s (some text) =
    if eqb (byte_len text) 0 then length s.events else estimate json s (byte_len text)

unfoldable pub persisted_count : Json → EventStore → Disk → ℕ
persisted_count json s d = count_text json s (stat_file s.path d)

-- `now` is what time.Now() returned
unfoldable pub add :
    Json → EventType → Text → Text → Text → ℕ → EventStore → Disk → EventStore × Disk
add json kind target message detail now s d =
    let e = entry kind target message detail now in
    let s' = trim (record s { events = s.events ++ e ∷ [] }) in
    let d' = persist_locked json s' d in
    (s', if leb 1000 (persisted_count json s' d') then rewrite_locked json s' d' else d')

-- `Add` with the fields of `e`
abbrev pub add_event : Json → Event → EventStore × Disk → EventStore × Disk
add_event json e (s, d) = add json e.kind e.target e.message e.detail e.time s d

-- a session: calls of `Add`, one after another
unfoldable pub add_all : Json → List Event → EventStore × Disk → EventStore × Disk
add_all json [] sd = sd
add_all json (e ∷ es) sd = add_all json es (add_event json e sd)

unfoldable pub recent : ℤ → EventStore → List Event
recent (pos n) s = last n s.events
recent (negsuc _) s = []

unfoldable pub all : EventStore → List Event
all s = s.events
