-- ===== src/Events/Durable/Restart.antt =====
-- What a restart finds of the events.
use daemon_go.Prelude.{
  if◌then◌else◌, ◌<◌, ◌≡◌, refl, sym, ap, ◌∙◌, true, Bool-cases, inl, inr, Option, none, some, List,
  [], ◌∷◌, ◌++◌, Text, codes, All, length, last, last_of_length-le, lookup, Option-cases, ltb,
  subst, arith,
}
use daemon_go.Prelude.Int.{ℤ}
use daemon_go.Os.{Disk, read_file, or_empty}
use daemon_go.Os.Scan.{scan_lines}
use daemon_go.Events.{
  Event, EventStore, Json, decode, encode, load, load_trim, load_text, join_path, blank_store,
  new_event_store, add_event, add_all,
}
use daemon_go.Events.Memory.{capacity_pos, SameShape, SameShape-trans, add-SameShape}
use daemon_go.Events.Durable.{
  Fits, decode-encode, IsDurable, rewrite_locked-IsDurable, add_all-IsDurable,
}

module _ (json : Json) where
  load_text_lem :
      (s : EventStore) (d : Disk) (found : Option Text)
      → s.events ≡ []
      → (load_text json s d found).0.events
        ≡ last s.max_size (decode json (scan_lines (or_empty found)))
  unfolding decode scan_lines
  load_text_lem s d none empty = empty ∙ sym (last_of_length-le s.max_size [] (omega arith))
  load_text_lem s d (some text) empty =
      ground (arith, last_of_length-le s.max_size (decode json (scan_lines text)))

  -- A store opened on a durable file holds what the memory held.
  reopen :
      (history : List Event) (s t : EventStore) (d : Disk)
      → IsDurable json history s d
      → t.events ≡ []
      → t.path ≡ s.path
      → t.max_size ≡ s.max_size
      → (load json t d).0.events ≡ s.events
  unfolding load read_file
  reopen history s t d h empty path size =
      load_text_lem t d (if d.readable t.path then lookup t.path d.files else none) empty
      ∙ rw (path, size, h.readable, h.file, decode-encode json history h.fits) (sym h.window)

  load_trim-IsDurable :
      (old : List Event) (s : EventStore) (d : Disk)
      → d.writable s.path ≡ true
      → d.readable s.path ≡ true
      → or_empty (lookup s.path d.files) ≡ encode json old
      → 0 < s.max_size
      → All (Fits json) old
      → s.events ≡ old
      → let (s', d') = load_trim json s d in (history : List Event) × IsDurable json history s' d'
  load_trim-IsDurable old s d w r f size fits e =
      let trimmed = record s { events = last s.max_size s.events } in
      let h : IsDurable json old trimmed d = record {
        writable = w;
        readable = r;
        file = f;
        window = ap (last s.max_size) e;
        size = size;
        fits = fits;
      } in
      elim (Bool-cases (ltb s.max_size (length s.events))) [
        | inl long ↦ rw long (trimmed.events, rewrite_locked-IsDurable json old trimmed d h)
        | inr short ↦ rw short (
          old,
          subst (λ es. IsDurable json old (record s { events = es }) d)
              (last_of_length-le s.max_size s.events (ground arith)) h,
        )
      ]

  load-IsDurable :
      (old : List Event) (s : EventStore) (d : Disk)
      → d.writable s.path ≡ true
      → d.readable s.path ≡ true
      → or_empty (lookup s.path d.files) ≡ encode json old
      → 0 < s.max_size
      → All (Fits json) old
      → s.events ≡ []
      → let (s', d') = load json s d in (history : List Event) × IsDurable json history s' d'
  unfolding load read_file
  load-IsDurable old s d w r f size fits e = elim (Option-cases (lookup s.path d.files)) [
    | inl missing ↦
        rw (r, missing)
          (
            [],
            record {
              writable = w;
              readable = r;
              file = ap or_empty missing;
              window = e ∙ sym (last_of_length-le s.max_size [] (omega arith));
              size = size;
              fits = tt;
            },
          )
    | inr (text, found) ↦
        rw (r, found)
          (load_trim-IsDurable old (record s { events = s.events ++ decode json (scan_lines text) })
            d w r f size fits (cc (e, sym (ap or_empty found) ∙ f, decode-encode json old fits)))
  ]

  load_text-SameShape :
      (s : EventStore) (d : Disk) (found : Option Text) → SameShape s (load_text json s d found).0
  load_text-SameShape s d none = record { path = refl; max_size = refl; instance_name = refl }
  load_text-SameShape s d (some text) = ground arith

  add_all-SameShape :
      (es : List Event) (s : EventStore) (d : Disk) → SameShape s (add_all json es (s, d)).0
  unfolding add_all
  add_all-SameShape [] s d = record { path = refl; max_size = refl; instance_name = refl }
  add_all-SameShape (e ∷ es) s d =
      let (s', d') = add_event json e (s, d) in
      SameShape-trans (add-SameShape json e s d) (add_all-SameShape es s' d')

  -- Events survive a restart: a store is opened on a file of event lines (or on none), events are
  -- added, and the store is opened again. It then holds exactly the events that the first store
  -- held at the end, if the file may be read and written and every event's line fits the
  -- scanner's 64 KB.
  pub restart_keeps_events :
      (log_dir instance_name : Text) (m : ℤ) (old es : List Event) (d : Disk)
      → let path = join_path log_dir (codes "events-" ++ instance_name ++ codes ".jsonl") in
        d.writable path ≡ true
        → d.readable path ≡ true
        → or_empty (lookup path d.files) ≡ encode json old
        → All (Fits json) old
        → All (Fits json) es
        → let (s, d₁) = new_event_store json log_dir instance_name m d in
          let (t, d₂) = add_all json es (s, d₁) in
          (new_event_store json log_dir instance_name m d₂).0.events ≡ t.events
  unfolding new_event_store
  restart_keeps_events log_dir instance_name m old es d w r f fits more =
      let blank = blank_store log_dir instance_name m in
      let (s, d₁) = load json blank d in
      let (t, d₂) = add_all json es (s, d₁) in
      let (history, h) = load-IsDurable old blank d w r f (capacity_pos m) fits refl in
      let (history', h') = add_all-IsDurable json es history s d₁ h more in
      let same =
        SameShape-trans (unfold load in load_text-SameShape blank d (read_file blank.path d))
          (add_all-SameShape es s d₁) in
      reopen history' t blank d₂ h' refl (sym same.path) (sym same.max_size)
