-- ===== src/Logger/Create/Kept.antt =====
-- internal/logger/logger.go: a new logger leaves the events alone.
use daemon_go.Prelude.{
  ℕ, ◌≡◌, ◌≢◌, refl, ap, ◌∙◌, true, Option, none, some, List, [], ◌++◌, All, Text, codes, lookup,
  arith,
}
use daemon_go.Prelude.Int.{ℤ, pos}
use daemon_go.Os.{Error, Disk, read_file, append_file, or_empty}
use daemon_go.Events.{
  Event, EventStore, Json, join_path, new_event_store, load_text, blank_store, add_all, encode,
}
use daemon_go.Events.Durable.{Fits}
use daemon_go.Events.Durable.Restart.{restart_keeps_events}
use daemon_go.Logger.Rotate.{RotateWriter, new_rotate_writer, open_file, current_path, opened}
use daemon_go.Logger.Clean.{DirEntry}
use daemon_go.Logger.Create.{cleaned, new_logger}
use daemon_go.Logger.Clean.Spared.{
  Keeps, Keeps-trans, event_path, first, append_file-Keeps, clean_old-Keeps,
}

module _ (log_dir x : Text) where
  cleaned-Keeps :
      (now : ℕ) (read_dir : Disk → Option (List DirEntry)) (w : RotateWriter)
      (r : Option Error × Disk) (d : Disk)
      → w.base_name ≡ codes "daemon-" ++ x
      → w.log_dir ≡ log_dir
      → Keeps (event_path log_dir x) d r.1
      → Keeps (event_path log_dir x) d (cleaned now read_dir (opened w r)).1
  cleaned-Keeps now read_dir w (some err, e) d b l k = k
  cleaned-Keeps now read_dir w (none, e) d b l k =
      Keeps-trans k (clean_old-Keeps log_dir x (pos 30) now _ (read_dir e) e b l)

  log_file-ne :
      (today : Text)
      → codes "daemon-" ++ x ++ codes "-" ++ today ++ codes ".log"
        ≢ codes "events-" ++ x ++ codes ".jsonl"
  log_file-ne today e = absurd (omega (arith, ap first e))

  pub new_rotate_writer-Keeps :
      (today : Text) (now : ℕ) (read_dir : Disk → Option (List DirEntry)) (d : Disk)
      → Keeps
          (event_path log_dir x)
          d
          (cleaned now read_dir (new_rotate_writer log_dir x 10 today d)).1
  unfolding new_rotate_writer open_file current_path
  new_rotate_writer-Keeps today now read_dir d =
      cleaned-Keeps now read_dir _
        (append_file
          (join_path log_dir (codes "daemon-" ++ x ++ codes "-" ++ today ++ codes ".log")) [] d)
        d refl refl
        (append_file-Keeps log_dir x (codes "daemon-" ++ x ++ codes "-" ++ today ++ codes ".log") []
          d (log_file-ne today))

  load_text-0 :
      (json : Json) (s : EventStore) (d e : Disk) (o : Option Text)
      → (load_text json s e o).0 ≡ (load_text json s d o).0
  load_text-0 json s d e none = refl
  load_text-0 json s d e (some text) = ground arith

  read_file-Keeps :
      {d e : Disk}
      → Keeps (event_path log_dir x) d e
      → read_file (event_path log_dir x) e ≡ read_file (event_path log_dir x) d
  unfolding read_file
  read_file-Keeps k = rw (k.readable, k.file) refl

  module _ (json : Json) (m : ℤ) where
    new_event_store-Keeps :
        (d e : Disk)
        → Keeps (event_path log_dir x) d e
        → (new_event_store json log_dir x m e).0 ≡ (new_event_store json log_dir x m d).0
    unfolding new_event_store
    new_event_store-Keeps d e k =
        ap (λ o. (load_text json (blank_store log_dir x m) e o).0) (read_file-Keeps k)
        ∙ load_text-0 json (blank_store log_dir x m) d e (read_file (event_path log_dir x) d)

-- Events survive a restart of the daemon: a logger is created on an event file that holds event
-- lines (or nothing), events are added, and a logger is created again, at any later time and with
-- any files in the directory. Its store then holds exactly the events that the first one held at the
-- end, if the event file may be read and written and every event's line fits the scanner's 64 KB.
pub new_logger_restart :
    (json : Json) (log_dir x : Text) (old es : List Event) (today today' : Text) (now now' : ℕ)
    (read_dir : Disk → Option (List DirEntry)) (d : Disk)
    → let path = join_path log_dir (codes "events-" ++ x ++ codes ".jsonl") in
      d.writable path ≡ true
      → d.readable path ≡ true
      → or_empty (lookup path d.files) ≡ encode json old
      → All (Fits json) old
      → All (Fits json) es
      → let (l, d₁) = new_logger json log_dir x today now read_dir d in
        let (t, d₂) = add_all json es (l.store, d₁) in
        (new_logger json log_dir x today' now' read_dir d₂).0.store.events ≡ t.events
unfolding new_logger
new_logger_restart json log_dir x old es today today' now now' read_dir d w r f fits more =
    let k = new_rotate_writer-Keeps log_dir x today now read_dir d in
    let e = (cleaned now read_dir (new_rotate_writer log_dir x 10 today d)).1 in
    let d₂ = (add_all json es (new_event_store json log_dir x (pos 100) e)).1 in
    ap (λ (s : EventStore). s.events)
      (new_event_store-Keeps log_dir x json (pos 100) d₂ _
        (new_rotate_writer-Keeps log_dir x today' now' read_dir d₂))
    ∙ restart_keeps_events json log_dir x (pos 100) old es e (rw k.writable w) (rw k.readable r)
        (ap or_empty k.file ∙ f) fits more
