-- ===== src/Events/Durable.antt =====
-- What the event file holds while events are added.
pub mod Restart
use mathlib.Core.List.{map-append}
use Prim.Native.Nat.{min}
use daemon_go.Prelude.{
  last-last, last-concat, All-drop, if◌then◌else◌, ℕ, ◌-◌, ◌<◌, ◌≡◌, refl, sym, ap, ◌∙◌, true, Bool,
  Bool-cases, inl, inr, Option, none, some, List, [], ◌∷◌, ◌++◌, map, Text, codes, All, All-append,
  length, last, last_of_length-le, length-last, last-append-last, lookup, Option-cases, ltb, subst,
  leb, arith,
}
use daemon_go.Prelude.Int.{ℤ}
use daemon_go.Os.{Disk, read_file, or_empty}
use daemon_go.Os.Files.{
  write_file-SameAccess, append_file-SameAccess, lookup-write_file, lookup-append_file,
}
use daemon_go.Os.Scan.{byte_len, max_token, scan_lines, IsLine, scan_lines-lines, lines-append}
use daemon_go.Events.{
  Event, EventStore, Json, decode, encode, newest, load, load_trim, load_text, join_path,
  blank_store, rewrite_locked, persist_locked, persisted_count, new_event_store, add, add_event,
  add_all,
}
use daemon_go.Events.Memory.{capacity_pos, SameShape, SameShape-trans, add-SameShape}

-- The event's line fits the scanner's limit of 64 KB.
abbrev pub Fits : Json → Event → Type 0
Fits json e = byte_len (json.marshal e) < max_token

module _ (json : Json) where
  pub All-IsLine : (es : List Event) → All (Fits json) es → All IsLine (map json.marshal es)
  All-IsLine [] h = tt
  All-IsLine (e ∷ es) (h, hs) =
      (record { unbroken = json.unbroken e; fits = h; plain = json.plain e }, All-IsLine es hs)

  pub decode-map : (es : List Event) → decode json (map json.marshal es) ≡ es
  unfolding decode
  decode-map [] = refl
  decode-map (e ∷ es) = ground (arith, json.unmarshal-marshal e, decode-map es)

  pub decode-encode :
      (es : List Event) → All (Fits json) es → decode json (scan_lines (encode json es)) ≡ es
  decode-encode es h = rw (scan_lines-lines (map json.marshal es) (All-IsLine es h)) (decode-map es)

  pub encode-append :
      (es fs : List Event) → encode json (es ++ fs) ≡ encode json es ++ encode json fs
  encode-append es fs = rw map-append (lines-append (map json.marshal es) (map json.marshal fs))

  -- The file holds the lines of `history`, and the memory the latest of them.
  pub record IsDurable (history : List Event) (s : EventStore) (d : Disk) : Type 0 where
    pub writable : d.writable s.path ≡ true
    pub readable : d.readable s.path ≡ true
    pub file : or_empty (lookup s.path d.files) ≡ encode json history
    pub window : s.events ≡ last s.max_size history
    pub size : 0 < s.max_size
    pub fits : All (Fits json) history

  pub newest-trim :
      (m : ℕ) (es : List Event) (e : Event) → 0 < m → newest (last m (es ++ e ∷ [])) ≡ e ∷ []
  newest-trim m es e h =
      let one : min 1 m ≡ 1 = omega arith in
      last-last m 1 (es ++ e ∷ []) ∙ ap (λ k. last k (es ++ e ∷ [])) one ∙ last-concat es e

  pub last-IsDurable :
      (history : List Event) (s : EventStore) (d : Disk)
      → IsDurable history s d
      → last s.max_size s.events ≡ s.events
  last-IsDurable history s d h =
      last_of_length-le s.max_size s.events
        (omega (arith, ap (length {0}) h.window, length-last {0} s.max_size history))

  -- the line that `persistLocked` appends
  pub persist_locked-IsDurable :
      (history : List Event) (e : Event) (s : EventStore) (d : Disk)
      → IsDurable history s d
      → Fits json e
      → let s' = record s { events = last s.max_size (s.events ++ e ∷ []) } in
        IsDurable (history ++ e ∷ []) s' (persist_locked json s' d)
  unfolding persist_locked
  persist_locked-IsDurable history e s d h fits =
      let line = encode json (newest (last s.max_size (s.events ++ e ∷ []))) in
      let access = append_file-SameAccess s.path line d in
      record {
        writable = ap (λ (f : Text → Bool). f s.path) access.writable ∙ h.writable;
        readable = ap (λ (f : Text → Bool). f s.path) access.readable ∙ h.readable;
        file =
            ap or_empty (lookup-append_file s.path line d h.writable)
            ∙ ap (λ t. t ++ line) h.file
            ∙ ap (λ es. encode json history ++ encode json es)
                (newest-trim s.max_size s.events e h.size)
            ∙ sym (encode-append history (e ∷ []));
        window =
            ap (λ l. last s.max_size (l ++ e ∷ [])) h.window
            ∙ last-append-last s.max_size history (e ∷ []);
        size = h.size;
        fits = All-append (Fits json) history (e ∷ []) h.fits (fits, tt);
      }

  pub rewrite_locked-IsDurable :
      (history : List Event) (s : EventStore) (d : Disk)
      → IsDurable history s d
      → IsDurable s.events s (rewrite_locked json s d)
  unfolding rewrite_locked
  rewrite_locked-IsDurable history s d h =
      let access = write_file-SameAccess s.path (encode json s.events) d in
      record {
        writable = ap (λ (f : Text → Bool). f s.path) access.writable ∙ h.writable;
        readable = ap (λ (f : Text → Bool). f s.path) access.readable ∙ h.readable;
        file = ap or_empty (lookup-write_file s.path (encode json s.events) d h.writable);
        window = sym (last-IsDurable history s d h);
        size = h.size;
        fits = rw h.window (All-drop (Fits json) (length history - s.max_size) history h.fits);
      }

  -- what the file holds after an `Add`
  pub kept : List Event → Event → EventStore → Disk → List Event
  kept history e s d =
      let s' = record s { events = last s.max_size (s.events ++ e ∷ []) } in
      if leb 1000 (persisted_count json s' (persist_locked json s' d))
      then s'.events
      else history ++ e ∷ []

  pub add-IsDurable :
      (history : List Event) (e : Event) (s : EventStore) (d : Disk)
      → IsDurable history s d
      → Fits json e
      → let (s', d') = add_event json e (s, d) in IsDurable (kept history e s d) s' d'
  unfolding add kept
  add-IsDurable history e s d h fits =
      let s' = record s { events = last s.max_size (s.events ++ e ∷ []) } in
      let d' = persist_locked json s' d in
      let h' = persist_locked-IsDurable history e s d h fits in
      elim (Bool-cases (leb 1000 (persisted_count json s' d'))) [
        | inl full ↦ rw full (rewrite_locked-IsDurable (history ++ e ∷ []) s' d' h')
        | inr room ↦ rw room h'
      ]

  pub add_all-IsDurable :
      (es history : List Event) (s : EventStore) (d : Disk)
      → IsDurable history s d
      → All (Fits json) es
      → let (s', d') = add_all json es (s, d) in (history' : List Event) × IsDurable history' s' d'
  unfolding add_all
  add_all-IsDurable [] history s d h fits = (history, h)
  add_all-IsDurable (e ∷ es) history s d h (fit, fits) =
      let (s', d') = add_event json e (s, d) in
      add_all-IsDurable es (kept history e s d) s' d' (add-IsDurable history e s d h fit) fits
