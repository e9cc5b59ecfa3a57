-- ===== src/Events/Memory.antt =====
-- The events in memory over additions.
use Prim.Native.Nat.{min}
use daemon_go.Prelude.{
  ◌≤◌, ◌<◌, ◌≡◌, refl, sym, ap, ◌∙◌, List, [], Option, none, some, ◌∷◌, ◌++◌, append_assoc,
  append-nil, Text, length, last, last_of_length-le, length-last, last-append-last, last-last,
  drop-length, arith,
}
use native.Mathlib.Nat.{sub-zero}
use daemon_go.Prelude.Int.{ℤ, pos, negsuc, pos_part}
use daemon_go.Os.{Disk, read_file}
use daemon_go.Os.Scan.{scan_lines}
use daemon_go.Events.{
  Event, EventStore, Json, capacity, load_text, new_event_store, add, add_event, add_all, recent,
  decode,
}

pub capacity_pos : (m : ℤ) → 0 < capacity m
capacity_pos m = ground arith

-- what `Add` leaves alone
pub record SameShape (s t : EventStore) : Type 0 where
  pub path : t.path ≡ s.path
  pub max_size : t.max_size ≡ s.max_size
  pub instance_name : t.instance_name ≡ s.instance_name

pub SameShape-trans : {s t u : EventStore} → SameShape s t → SameShape t u → SameShape s u
SameShape-trans h k = record {
  path = k.path ∙ h.path;
  max_size = k.max_size ∙ h.max_size;
  instance_name = k.instance_name ∙ h.instance_name;
}

recent-last : (n : ℤ) (t : EventStore) → recent n t ≡ last (pos_part n) t.events
unfolding recent
recent-last (pos n) t = refl
recent-last (negsuc n) t = sym (rw sub-zero (drop-length t.events))

module _ (json : Json) where
  pub events-add :
      (e : Event) (s : EventStore) (d : Disk)
      → (add_event json e (s, d)).0.events ≡ last s.max_size (s.events ++ e ∷ [])
  unfolding add
  events-add e s d = refl

  pub add-SameShape :
      (e : Event) (s : EventStore) (d : Disk) → SameShape s (add_event json e (s, d)).0
  unfolding add
  add-SameShape e s d = record { path = refl; max_size = refl; instance_name = refl }

  events-add_all_of :
      (es history : List Event) (s : EventStore) (d : Disk)
      → s.events ≡ last s.max_size history
      → (add_all json es (s, d)).0.events ≡ last s.max_size (history ++ es)
  unfolding add_all
  events-add_all_of [] history s d h = rw append-nil h
  events-add_all_of (e ∷ es) history s d h =
      let (s', d') = add_event json e (s, d) in
      let same = add-SameShape e s d in
      let step : s'.events ≡ last s'.max_size (history ++ e ∷ []) =
        events-add e s d
        ∙ ap (λ l. last s.max_size (l ++ e ∷ [])) h
        ∙ last-append-last s.max_size history (e ∷ [])
        ∙ ap (λ m. last m (history ++ e ∷ [])) (sym same.max_size) in
      events-add_all_of es (history ++ e ∷ []) s' d' step
      ∙ ap (λ m. last m ((history ++ e ∷ []) ++ es)) same.max_size
      ∙ ap (last s.max_size) (append_assoc history (e ∷ []) es)

  load_text-trim :
      (s : EventStore) (d : Disk) (found : Option Text)
      → s.events ≡ []
      → ((load_text json s d found).0.max_size ≡ s.max_size)
        × (length (load_text json s d found).0.events ≤ s.max_size)
  load_text-trim s d none h = (refl, rw h (omega arith))
  load_text-trim s d (some text) h =
      ground (arith, length-last {0} s.max_size (s.events ++ decode json (scan_lines text)))

  new_event_store_bounded :
      (log_dir instance_name : Text) (m : ℤ) (d : Disk)
      → let s = (new_event_store json log_dir instance_name m d).0 in
        (s.max_size ≡ capacity m) × (length s.events ≤ capacity m)
  unfolding new_event_store
  new_event_store_bounded log_dir instance_name m d = load_text-trim _ d (read_file _ d) refl

  -- After any calls of `Add`, and whatever the disk allows, a new store holds the latest events of
  -- those that it loaded followed by those added, up to its size; `Recent(n)` returns the latest
  -- `n` of them, and none for a negative `n`.
  pub session_window :
      (log_dir instance_name : Text) (m n : ℤ) (es : List Event) (d : Disk)
      → let (s, d') = new_event_store json log_dir instance_name m d in
        let t = (add_all json es (s, d')).0 in
        (t.events ≡ last (capacity m) (s.events ++ es))
        × (length t.events ≤ capacity m)
        × (recent n t ≡ last (min (pos_part n) (capacity m)) (s.events ++ es))
  session_window log_dir instance_name m n es d =
      let (s, d') = new_event_store json log_dir instance_name m d in
      let (size, bounded) = new_event_store_bounded log_dir instance_name m d in
      let t = (add_all json es (s, d')).0 in
      let window : t.events ≡ last (capacity m) (s.events ++ es) =
        events-add_all_of es s.events s d'
          (sym (last_of_length-le s.max_size s.events (omega arith)))
        ∙ ap (λ k. last k (s.events ++ es)) size in
      (
        window,
        omega (arith, ap (length {0}) window, length-last {0} (capacity m) (s.events ++ es)),
        recent-last n t
            ∙ ap (last (pos_part n)) window
            ∙ last-last (capacity m) (pos_part n) (s.events ++ es),
      )
