-- ===== src/Logger/Gathered.antt =====
-- internal/logger/logger.go: the events of all files, as LoadAllRecentEvents collects them.
use daemon_go.Prelude.{
  ℕ, zero, suc, ◌-◌, ◌≡◌, ◌≢◌, refl, true, none, codes, Option-cases, has_prefix, has_prefix-split,
  has_prefix-append, drop-append, drop-length, length-append, eq_iff, ◌==◌, sym, ap, ◌∙◌, subst,
  List, [], ◌∷◌, ◌++◌, Text, length, drop, take, take-append-drop, Bool-cases, inl, inr, arith,
  some,
}
use daemon_go.Os.{Disk, read_file}
use daemon_go.Os.Scan.{scan_lines}
use daemon_go.Events.{Event, Json, decode, join_path}
use daemon_go.Logger.{is_event_file, has_suffix, collect}

-- What the lines of a file hold: each that is an event, in order, and no other.
pub data Decoded (json : Json) : List Text → List Event → Type 0 where
  ended : Decoded json [] []
  event_line :
      {line : Text} {e : Event} {lines : List Text} {es : List Event}
      → json.unmarshal line ≡ some e
      → Decoded json lines es
      → Decoded json (line ∷ lines) (e ∷ es)
  other_line :
      {line : Text} {lines : List Text} {es : List Event}
      → json.unmarshal line ≡ none
      → Decoded json lines es
      → Decoded json (line ∷ lines) es

abbrev pub event_name : Text → Text
event_name x = codes "events-" ++ x ++ codes ".jsonl"

-- The events of the files `events-*.jsonl` among the names that can be read, and of no other file.
pub data Gathered (json : Json) (log_dir : Text) (d : Disk) : List Text → List Event → Type 0 where
  no_files : Gathered json log_dir d [] []
  event_file :
      (x : Text) {text : Text} {names : List Text} {es rest : List Event}
      → read_file (join_path log_dir (event_name x)) d ≡ some text
      → Decoded json (scan_lines text) es
      → Gathered json log_dir d names rest
      → Gathered json log_dir d (event_name x ∷ names) (es ++ rest)
  unreadable :
      {name : Text} {names : List Text} {rest : List Event}
      → read_file (join_path log_dir name) d ≡ none
      → Gathered json log_dir d names rest
      → Gathered json log_dir d (name ∷ names) rest
  other_file :
      {name : Text} {names : List Text} {rest : List Event}
      → ((x : Text) → name ≢ event_name x)
      → Gathered json log_dir d names rest
      → Gathered json log_dir d (name ∷ names) rest

decode-Decoded : (json : Json) (lines : List Text) → Decoded json lines (decode json lines)
unfolding decode
decode-Decoded json [] = ended
decode-Decoded json (line ∷ lines) = elim (Option-cases (json.unmarshal line)) [
  | inl bad ↦ rw (bad, decode) (other_line bad (decode-Decoded json lines))
  | inr (e, good) ↦ rw (good, decode) (event_line good (decode-Decoded json lines))
]

abbrev first : Text → ℕ
first [] = 0
first (c ∷ s) = c

-- A text behind "events-" that ends the name in ".jsonl" does so itself.
suffix-split :
    (k : ℕ) (r : Text)
    → drop k (codes "events-" ++ r) ≡ codes ".jsonl"
    → (x : Text) × (r ≡ x ++ codes ".jsonl")
suffix-split zero r h = absurd (omega (arith, ap first h))
suffix-split (suc zero) r h = absurd (omega (arith, ap first h))
suffix-split (suc (suc zero)) r h = absurd (omega (arith, ap first h))
suffix-split (suc (suc (suc zero))) r h = absurd (omega (arith, ap first h))
suffix-split (suc (suc (suc (suc zero)))) r h = absurd (omega (arith, ap first h))
suffix-split (suc (suc (suc (suc (suc zero))))) r h = absurd (omega (arith, ap first h))
suffix-split (suc (suc (suc (suc (suc (suc zero)))))) r h = absurd (omega (arith, ap first h))
suffix-split (suc (suc (suc (suc (suc (suc (suc j))))))) r h =
    (take j r, sym (take-append-drop j r) ∙ ap (λ t. take j r ++ t) h)

is_event_file-name : (name : Text) → is_event_file name ≡ true → (x : Text) × (name ≡ event_name x)
is_event_file-name name h =
    let starts : has_prefix name (codes "events-") ≡ true = ground (arith, h) in
    let ends : (drop (length name - 6) name == codes ".jsonl") ≡ true = ground (arith, h) in
    let (r, e) = has_prefix-split name (codes "events-") starts in
    let (x, f) = suffix-split (length name - 6) r (
      ap (drop (length name - 6)) (sym e)
      ∙ (eq_iff (drop (length name - 6) name) (codes ".jsonl")).0 ends) in
    (x, e ∙ ap (λ t. codes "events-" ++ t) f)

drop-append-length : (a p : Text) → drop (length (a ++ p) - length p) (a ++ p) ≡ p
drop-append-length a p =
    let k : length (a ++ p) - length p ≡ length a = omega (arith, length-append a p) in
    rw k (drop-append (length a) a p (omega arith) ∙ rw (drop-length a) refl)

is_event_file-event_name : (x : Text) → is_event_file (event_name x) ≡ true
is_event_file-event_name x =
    let starts : has_prefix (event_name x) (codes "events-") ≡ true =
      has_prefix-append (codes "events-") (x ++ codes ".jsonl") in
    let ends : has_suffix (event_name x) (codes ".jsonl") ≡ true =
      (eq_iff _ _).1 (drop-append-length (codes "events-" ++ x) (codes ".jsonl")) in
    ground (arith, starts, ends)

pub collect-Gathered :
    (json : Json) (log_dir : Text) (names : List Text) (d : Disk)
    → Gathered json log_dir d names (collect json log_dir names d)
unfolding collect
collect-Gathered json log_dir [] d = no_files
collect-Gathered json log_dir (name ∷ names) d =
    let rest = collect-Gathered json log_dir names d in
    elim (Bool-cases (is_event_file name)) [
      | inr other ↦
          rw (other, collect) (other_file (λ x e. let bad = is_event_file-event_name x in cc) rest)
      | inl event ↦ elim (Option-cases (read_file (join_path log_dir name) d)) [
        | inl missing ↦ rw (event, missing, collect) (unreadable missing rest)
        | inr (text, found) ↦
            let (x, e) = is_event_file-name name event in
            rw (event, found, collect)
              (subst
                (λ n.
                  Gathered json log_dir d (n ∷ names)
                    (decode json (scan_lines text) ++ collect json log_dir names d))
                (sym e)
                (event_file x (ap (λ n. read_file (join_path log_dir n) d) (sym e) ∙ found)
                  (decode-Decoded json (scan_lines text)) rest))
      ]
    ]
