-- ===== src/Logger/Output/Session.antt =====
-- internal/logger/logger.go: what is logged between New and Close, and after it.
use daemon_go.Prelude.{
  ℕ, ◌≡◌, refl, ap, ◌∙◌, Bool, Bool-cases, inl, inr, true, false, Option, none, some, List, [], ◌∷◌,
  ◌++◌, All, map, last, ltb, length, Text, lookup,
}
use daemon_go.Prelude.Int.{pos}
use daemon_go.Os.{Error, Disk, read_file}
use daemon_go.Os.Files.{SameAccess, write_file-SameAccess}
use daemon_go.Events.{
  EventStore, Json, load_text, load, new_event_store, blank_store, trim, rewrite_locked, encode,
  decode,
}
use daemon_go.Os.Scan.{scan_lines}
use daemon_go.Logger.{write, write_all, recent_logs}
use daemon_go.Logger.Buffer.{shown_lines, recent_logs_window}
use daemon_go.Logger.Clean.{DirEntry}
use daemon_go.Logger.Rotate.{RotateWriter, new_rotate_writer, write_log}
use daemon_go.Logger.Rotate.NoLoss.{NoLoss, NoLoss-refl, NoLoss-trans, write_log-NoLoss}
use daemon_go.Logger.Rotate.Written.{
  IsFree, IsFree-SameAccess, IsWritten, write_log-IsWritten, new_rotate_writer-IsOpen,
}
use daemon_go.Logger.Create.{Logger, cleaned, new_logger}
use daemon_go.Logger.Create.Kept.{new_rotate_writer-Keeps}
use daemon_go.Logger.Output.{after_file, log_line, log_lines, close_logger}

-- The text stands in a file of the disk.
abbrev pub IsHeld : Disk → Text → Type 0
IsHeld d p =
    (path : Text) × ((before : Text) × ((after : Text) × (lookup path d.files
          ≡ some (before ++ p ++ after))))

-- The log file of the logger is open.
abbrev pub HoldsFile : Logger → Type 0
HoldsFile l = (w : RotateWriter) × ((path : Text) × ((l.writer ≡ some w) × (w.file ≡ some path)))

-- The logger has its file open, and the disk lets every file be written.
record IsReady (s : Logger × Disk) : Type 0 where
  shown : s.0.discarded ≡ false
  writer : RotateWriter
  first : s.0.writer ≡ some writer
  path : Text
  file : writer.file ≡ some path
  free : IsFree s.1

-- What a line does to a logger that is ready.
record IsLogged (p : Text) (s t : Logger × Disk) : Type 0 where
  ready : IsReady t
  buffer : t.0.buffer ≡ write p s.0.buffer
  kept : NoLoss s.1 t.1
  path : Text
  before : Text
  holds : lookup path t.1.files ≡ some (before ++ p)

after_file-IsLogged :
    (p : Text) (l : Logger) (d : Disk) (r : Option Error × RotateWriter × Disk)
    → l.discarded ≡ false
    → IsWritten p r
    → NoLoss d r.2
    → IsLogged p (l, d) (after_file p l r)
after_file-IsLogged p l d (some err, w, e) on h k = let bad = h.still.ok in cc
after_file-IsLogged p l d (none, w, e) on h k = record {
  ready = record {
    shown = on;
    writer = w;
    first = refl;
    path = h.still.path;
    file = h.still.file;
    free = h.still.free;
  };
  buffer = refl;
  kept = k;
  path = h.path;
  before = h.before;
  holds = h.holds;
}

log_line-IsLogged :
    (today p : Text) (s : Logger × Disk) → IsReady s → IsLogged p s (log_line today p s)
unfolding log_line
log_line-IsLogged today p (l, d) h =
    simp (h.shown, h.first)
      (after_file-IsLogged p l d (write_log today p h.writer d) h.shown
        (write_log-IsWritten today p h.writer d h.path h.file h.free)
        (write_log-NoLoss today p h.writer d))

-- What lines do to a logger that is ready.
record IsSession (ps : List (Text × Text)) (s t : Logger × Disk) : Type 0 where
  ready : IsReady t
  buffer : t.0.buffer ≡ write_all (map (λ q. q.1) ps) s.0.buffer
  kept : NoLoss s.1 t.1
  held : All (λ (q : Text × Text). IsHeld t.1 q.1) ps

log_lines-IsSession :
    (ps : List (Text × Text)) (s : Logger × Disk) → IsReady s → IsSession ps s (log_lines ps s)
unfolding log_lines write_all
log_lines-IsSession [] s h = record { ready = h; buffer = refl; kept = NoLoss-refl s.1; held = tt }
log_lines-IsSession ((today, p) ∷ ps) s h =
    let one = log_line-IsLogged today p s h in
    let t = log_line today p s in
    let more = log_lines-IsSession ps t one.ready in
    let (path, (after, found)) = more.kept one.path (one.before ++ p) one.holds in
    record {
      ready = more.ready;
      buffer = more.buffer ∙ ap (write_all (map (λ q. q.1) ps)) one.buffer;
      kept = NoLoss-trans s.1 t.1 (log_lines ps t).1 one.kept more.kept;
      held = ((path, (one.before, (after, found))), more.held);
    }

load_text-SameAccess :
    (json : Json) (s : EventStore) (d : Disk) (o : Option Text)
    → SameAccess d (load_text json s d o).1
unfolding rewrite_locked
load_text-SameAccess json s d none = record { readable = refl; writable = refl; movable = refl }
load_text-SameAccess json s d (some text) =
    let t : EventStore = record s { events = s.events ++ decode json (scan_lines text) } in
    elim (Bool-cases (ltb t.max_size (length t.events))) [
      | inl over ↦ rw over (write_file-SameAccess t.path (encode json (trim t).events) d)
      | inr fits ↦ rw fits (record { readable = refl; writable = refl; movable = refl })
    ]

cleaned-writer :
    (now : ℕ) (read_dir : Disk → Option (List DirEntry)) (r : Option Error × RotateWriter × Disk)
    → r.0 ≡ none
    → (cleaned now read_dir r).0 ≡ some r.1
cleaned-writer now read_dir (none, w, d) e = refl
cleaned-writer now read_dir (some err, w, d) e = cc

new_logger-IsReady :
    (json : Json) (log_dir x today : Text) (now : ℕ) (read_dir : Disk → Option (List DirEntry))
    (d : Disk)
    → IsFree d
    → IsReady (new_logger json log_dir x today now read_dir d)
unfolding new_logger new_event_store load
new_logger-IsReady json log_dir x today now read_dir d free =
    let r = new_rotate_writer log_dir x 10 today d in
    let open_writer = new_rotate_writer-IsOpen log_dir x 10 today d free in
    let e = (cleaned now read_dir r).1 in
    let blank = blank_store log_dir x (pos 100) in
    record {
      shown = refl;
      writer = r.1;
      first = cleaned-writer now read_dir r open_writer.ok;
      path = open_writer.path;
      file = open_writer.file;
      free =
          IsFree-SameAccess e _ (load_text-SameAccess json blank e (read_file blank.path e))
            (λ path.
              ap (λ (f : Text → Bool). f path)
                (new_rotate_writer-Keeps log_dir x today now read_dir d).writable
              ∙ free path);
    }

log_lines-discarded :
    (ps : List (Text × Text)) (s : Logger × Disk) → s.0.discarded ≡ true → log_lines ps s ≡ s
unfolding log_lines log_line
log_lines-discarded [] s h = refl
log_lines-discarded ((today, p) ∷ ps) (l, d) h = simp (h) (log_lines-discarded ps (l, d) h)

-- A logger is created, lines are logged on any days, the logger is closed, and more lines are
-- logged. If the disk lets every file be written, each line that was logged before the close stands
-- in a file in the end, the recent logs are the last twenty of those lines, trimmed and without the
-- blank ones, the lines after the close change no file,
-- and the log file is still open.
pub log_session :
    (json : Json) (log_dir x today : Text) (now : ℕ) (read_dir : Disk → Option (List DirEntry))
    (d : Disk) (ps qs : List (Text × Text))
    → IsFree d
    → let (l, d₁) = log_lines ps (new_logger json log_dir x today now read_dir d) in
      let (m, d₂) = log_lines qs (close_logger l, d₁) in
      All (λ (q : Text × Text). IsHeld d₂ q.1) ps
      × (recent_logs m.buffer ≡ last 20 (shown_lines (map (λ q. q.1) ps)))
      × (d₂ ≡ d₁)
      × HoldsFile m
unfolding close_logger recent_logs new_logger
log_session json log_dir x today now read_dir d ps qs free =
    let s = new_logger json log_dir x today now read_dir d in
    let h =
      log_lines-IsSession ps s (new_logger-IsReady json log_dir x today now read_dir d free) in
    let (l, d₁) = log_lines ps s in
    let silent = log_lines-discarded qs (close_logger l, d₁) refl in
    rw silent (
      h.held,
      ap recent_logs h.buffer ∙ recent_logs_window 20 (map (λ q. q.1) ps),
      refl,
      (h.ready.writer, (h.ready.path, (h.ready.first, h.ready.file))),
    )
