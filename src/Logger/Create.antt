-- ===== src/Logger/Create.antt =====
-- internal/logger/logger.go: New, which opens the log file, removes old ones, and loads the events.
-- The set-up of logrus is left out; `today` and `now` are time.Now(), and `read_dir` is os.ReadDir.
pub mod Kept
use daemon_go.Prelude.{ℕ, Bool, false, Option, none, some, List, [], Text}
use daemon_go.Prelude.Int.{pos}
use daemon_go.Os.{Error, Disk}
use daemon_go.Events.{EventStore, Json, new_event_store}
use daemon_go.Logger.{LogBuffer, new_log_buffer}
use daemon_go.Logger.Rotate.{RotateWriter, new_rotate_writer}
use daemon_go.Logger.Clean.{DirEntry, clean_old}

pub record Logger : Type 0 where
  pub writer : Option RotateWriter  -- the first of the two writers of the output
  pub discarded : Bool  -- the output is io.Discard
  pub buffer : LogBuffer
  pub store : EventStore

-- the writers but the buffer, and the cleaning
abbrev pub cleaned :
    ℕ
    → (Disk → Option (List DirEntry))
    → Option Error × RotateWriter × Disk
    → Option RotateWriter × Disk
cleaned now read_dir (some err, w, d) = (none, d)
cleaned now read_dir (none, w, d) = (some w, clean_old (pos 30) now w (read_dir d) d)

-- New
unfoldable pub new_logger :
    Json → Text → Text → Text → ℕ → (Disk → Option (List DirEntry)) → Disk → Logger × Disk
unfolding new_rotate_writer clean_old new_log_buffer new_event_store
new_logger json log_dir instance_name today now read_dir d =
    let (w, d₁) = cleaned now read_dir (new_rotate_writer log_dir instance_name 10 today d) in
    let (store, d₂) = new_event_store json log_dir instance_name (pos 100) d₁ in
    (record { writer = w; discarded = false; buffer = new_log_buffer 20; store = store }, d₂)

-- NewWithWriter, but for what the given writer gets; the event file has no directory
unfoldable pub new_with_writer : Json → Text → Disk → Logger × Disk
unfolding new_log_buffer new_event_store
new_with_writer json instance_name d =
    let (store, d₁) = new_event_store json [] instance_name (pos 100) d in
    (record { writer = none; discarded = false; buffer = new_log_buffer 20; store = store }, d₁)
