-- ===== src/Logger/Rotate/NoLoss.antt =====
-- internal/logger/logger.go: the files over a rotation.
use daemon_go.Prelude.{
  ℕ, zero, suc, ◌+◌, ◌*◌, ◌≡◌, refl, sym, ap, ◌∙◌, false, not, Option, none, some, List, [], ◌∷◌,
  ◌++◌, append-nil, append_assoc, Text, ◌==◌, ◌||◌, eq_iff, eq_refl, subst, Dict, insert, delete,
  lookup, leb, lookup-insert, lookup-delete, Option-cases, Bool-cases, inl, inr, if◌then◌else◌,
  arith,
}
use daemon_go.Os.{Error, Disk, stat_file, append_file, rename, or_empty}
use daemon_go.Logger.Rotate.{
  RotateWriter, current_path, rolled_path, opened, open_file, roll_loop, rotate_by_size, rotate,
  append_to, write_log, write_logs,
}

-- The text of every file is still there, at the front of a file.
abbrev pub NoLoss : Disk → Disk → Type 0
NoLoss d e =
    (path : Text) (text : Text)
    → lookup path d.files ≡ some text
    → (kept : Text) × ((rest : Text) × (lookup kept e.files ≡ some (text ++ rest)))

pub NoLoss-refl : (d : Disk) → NoLoss d d
NoLoss-refl d path text h = (path, ([], h ∙ ap some (sym (append-nil text))))

pub NoLoss-trans : (d e f : Disk) → NoLoss d e → NoLoss e f → NoLoss d f
NoLoss-trans d e f h k path text found =
    let (path₁, (rest, found₁)) = h path text found in
    let (path₂, (rest₂, found₂)) = k path₁ (text ++ rest) found₁ in
    (path₂, (rest ++ rest₂, found₂ ∙ ap some (append_assoc text rest rest₂)))

append_file-NoLoss : (target p : Text) (d : Disk) → NoLoss d (append_file target p d).1
unfolding append_file
append_file-NoLoss target p d path text found = elim (Bool-cases (d.writable target)) [
  | inr closed ↦ rw closed (NoLoss-refl d path text found)
  | inl writable ↦
      let rest : Text = if target == path then p else [] in
      rw writable (
        path,
        (
          rest,
          ground (
            arith,
            found,
            lookup-insert target path (or_empty (lookup target d.files) ++ p) d.files,
            eq_iff target path,
            append-nil text,
          ),
        ),
      )
]

-- the files after a rename that works
abbrev moved : Text → Text → Text → Dict Text → Dict Text
moved source target content files = insert target content (delete source files)

lookup-moved :
    (source target content path text : Text) (files : Dict Text)
    → lookup source files ≡ some content
    → lookup target files ≡ none
    → lookup path files ≡ some text
    → lookup (if source == path then target else path) (moved source target content files)
      ≡ some (text ++ [])
lookup-moved source target content path text files from free found =
    elim (Bool-cases (source == path)) [
      | inl same ↦
          let e : source ≡ path = (eq_iff source path).0 same in
          rw
            (
              same,
              lookup-insert target target content (delete source files),
              eq_refl target,
              append-nil text,
            )
            (sym from ∙ ap (λ k. lookup k files) e ∙ found)
      | inr other ↦
          let apart : (target == path) ≡ false = ground (arith, free, found, eq_iff target path) in
          rw
            (
              other,
              lookup-insert target path content (delete source files),
              apart,
              lookup-delete source path files,
              other,
              append-nil text,
            )
            found
    ]

rename-NoLoss :
    (source target : Text) (d : Disk)
    → lookup target d.files ≡ none
    → NoLoss d (rename source target d).1
unfolding rename
rename-NoLoss source target d free path text found = elim (Option-cases (lookup source d.files)) [
  | inl missing ↦ rw (missing, rename) (NoLoss-refl d path text found)
  | inr (content, from) ↦ elim (Bool-cases (d.movable source)) [
    | inr closed ↦ rw (from, rename, closed) (NoLoss-refl d path text found)
    | inl first ↦ elim (Bool-cases (d.movable target)) [
      | inr closed ↦ rw (from, rename, first, closed) (NoLoss-refl d path text found)
      | inl second ↦
          rw (from, rename, first, second)
            (
              (if source == path then target else path),
              ([], lookup-moved source target content path text d.files from free found),
            )
    ]
  ]
]

roll_loop-NoLoss : (fuel i : ℕ) (w : RotateWriter) (d : Disk) → NoLoss d (roll_loop fuel i w d).1
unfolding roll_loop stat_file
roll_loop-NoLoss zero i w d = NoLoss-refl d
roll_loop-NoLoss (suc fuel) i w d = elim (Option-cases (lookup (rolled_path w i) d.files)) [
  | inl free ↦ rw (free, roll_loop) (rename-NoLoss (current_path w) (rolled_path w i) d free)
  | inr (text, taken) ↦ rw (taken, roll_loop) (roll_loop-NoLoss fuel (i + 1) w d)
]

rotate_by_size-NoLoss : (w : RotateWriter) (d : Disk) → NoLoss d (rotate_by_size w d).1
unfolding rotate_by_size
rotate_by_size-NoLoss w d = elim (Option-cases (stat_file (current_path w) d)) [
  | inl missing ↦ rw (missing, rotate_by_size) (NoLoss-refl d)
  | inr (text, full) ↦ rw (full, rotate_by_size) (roll_loop-NoLoss 999 1 w d)
]

opened-disk : (w : RotateWriter) (o : Option Error × Disk) → (opened w o).2 ≡ o.1
opened-disk w (some err, d) = refl
opened-disk w (none, d) = refl

open_file-NoLoss : (w : RotateWriter) (d : Disk) → NoLoss d (open_file w d).2
unfolding open_file
open_file-NoLoss w d =
    subst (NoLoss d) (sym (opened-disk w (append_file (current_path w) [] d)))
      (append_file-NoLoss (current_path w) [] d)

rotate-NoLoss : (today : Text) (w : RotateWriter) (d : Disk) → NoLoss d (rotate today w d).2
unfolding rotate
rotate-NoLoss today w d =
    let closed : RotateWriter = record w { file = none } in
    let fresh : RotateWriter = record closed { current_day = today } in
    elim (Bool-cases (today == w.current_day)) [
      | inr later ↦ rw later (open_file-NoLoss fresh d)
      | inl same ↦
          let d₁ : Disk = (rotate_by_size closed d).1 in
          rw same (
            NoLoss-trans d d₁ (open_file fresh d₁).2 (rotate_by_size-NoLoss closed d)
              (open_file-NoLoss fresh d₁))
    ]

append_to-NoLoss :
    (p : Text) (d : Disk) (o : Option Error × RotateWriter × Disk)
    → NoLoss d o.2
    → NoLoss d (append_to p o).2
append_to-NoLoss p d (some err, w, e) h = h
append_to-NoLoss p d (none, w, e) h = elim (Option-cases w.file) [
  | inl shut ↦ rw shut h
  | inr (path, ready) ↦
      rw ready (NoLoss-trans d e (append_file path p e).1 h (append_file-NoLoss path p e))
]

pub write_log-NoLoss :
    (today p : Text) (w : RotateWriter) (d : Disk) → NoLoss d (write_log today p w d).2
unfolding write_log
write_log-NoLoss today p w d =
    elim (Bool-cases (not (today == w.current_day) || leb (w.max_size_mb * 1024 * 1024) w.size)) [
      | inl turn ↦ rw turn (append_to-NoLoss p d (rotate today w d) (rotate-NoLoss today w d))
      | inr go_on ↦ rw go_on (append_to-NoLoss p d (none, w, d) (NoLoss-refl d))
    ]

write_logs-NoLoss :
    (ps : List (Text × Text)) (w : RotateWriter) (d : Disk) → NoLoss d (write_logs ps w d).1
unfolding write_logs
write_logs-NoLoss [] w d = NoLoss-refl d
write_logs-NoLoss ((today, p) ∷ ps) w d =
    let (err, w₁, d₁) = write_log today p w d in
    NoLoss-trans d d₁ (write_logs ps w₁ d₁).1 (write_log-NoLoss today p w d)
      (write_logs-NoLoss ps w₁ d₁)

-- No writes of the log, on any days, at any size and whatever the disk allows, lose what a file
-- held: its text stands at the front of a file afterwards, of the same name or of the one to which
-- it was rolled.
pub write_logs_keep :
    (ps : List (Text × Text)) (w : RotateWriter) (d : Disk) (path text : Text)
    → lookup path d.files ≡ some text
    → (kept : Text) × ((rest : Text) × (lookup kept (write_logs ps w d).1.files
          ≡ some (text ++ rest)))
write_logs_keep ps w d path text found = write_logs-NoLoss ps w d path text found
