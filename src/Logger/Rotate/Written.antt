-- ===== src/Logger/Rotate/Written.antt =====
-- internal/logger/logger.go: a write of the log on a disk that lets every file be written.
use daemon_go.Prelude.{
  ℕ, zero, suc, ◌+◌, ◌*◌, ◌≡◌, refl, ap, ◌∙◌, Bool, true, not, Option, none, some, [], ◌++◌, Text,
  codes, ◌==◌, ◌||◌, leb, lookup, Option-cases, Bool-cases, inl, inr, arith,
}
use daemon_go.Os.{Error, Disk, stat_file, append_file, or_empty}
use daemon_go.Os.Files.{SameAccess, append_file-SameAccess, lookup-append_file, rename-SameAccess}
use daemon_go.Logger.Rotate.{
  RotateWriter, current_path, rolled_path, opened, open_file, roll_loop, rotate_by_size, rotate,
  counted, append_to, write_log, new_rotate_writer,
}

abbrev pub IsFree : Disk → Type 0
IsFree d = (path : Text) → d.writable path ≡ true

pub IsFree-SameAccess : (d e : Disk) → SameAccess d e → IsFree d → IsFree e
IsFree-SameAccess d e same free path = ap (λ (f : Text → Bool). f path) same.writable ∙ free path

-- The writer has a file open, and the disk is free.
pub record IsOpen (r : Option Error × RotateWriter × Disk) : Type 0 where
  pub ok : r.0 ≡ none
  pub path : Text
  pub file : r.1.file ≡ some path
  pub free : IsFree r.2

append_file-ok :
    (path p : Text) (d : Disk) → d.writable path ≡ true → (append_file path p d).0 ≡ none
unfolding append_file
append_file-ok path p d h = ground (arith, h)

opened-IsOpen :
    (w : RotateWriter) (r : Option Error × Disk) → r.0 ≡ none → IsFree r.1 → IsOpen (opened w r)
opened-IsOpen w (none, d) e free = record {
  ok = refl;
  path = current_path w;
  file = refl;
  free = free;
}
opened-IsOpen w (some err, d) e free = cc

open_file-IsOpen : (w : RotateWriter) (d : Disk) → IsFree d → IsOpen (open_file w d)
unfolding open_file
open_file-IsOpen w d free =
    opened-IsOpen w (append_file (current_path w) [] d) (append_file-ok _ [] d (free _))
      (IsFree-SameAccess d _ (append_file-SameAccess (current_path w) [] d) free)

roll_loop-SameAccess :
    (fuel i : ℕ) (w : RotateWriter) (d : Disk) → SameAccess d (roll_loop fuel i w d).1
unfolding roll_loop
roll_loop-SameAccess zero i w d = record { readable = refl; writable = refl; movable = refl }
roll_loop-SameAccess (suc fuel) i w d = elim (Option-cases (stat_file (rolled_path w i) d)) [
  | inl open_name ↦
      rw (open_name, roll_loop) (rename-SameAccess (current_path w) (rolled_path w i) d)
  | inr (text, taken) ↦ rw (taken, roll_loop) (roll_loop-SameAccess fuel (i + 1) w d)
]

rotate_by_size-SameAccess : (w : RotateWriter) (d : Disk) → SameAccess d (rotate_by_size w d).1
unfolding rotate_by_size
rotate_by_size-SameAccess w d = elim (Option-cases (stat_file (current_path w) d)) [
  | inl missing ↦
      rw (missing, rotate_by_size) (record { readable = refl; writable = refl; movable = refl })
  | inr (text, there) ↦ rw (there, rotate_by_size) (roll_loop-SameAccess 999 1 w d)
]

rotate-IsOpen : (today : Text) (w : RotateWriter) (d : Disk) → IsFree d → IsOpen (rotate today w d)
unfolding rotate
rotate-IsOpen today w d free =
    let closed : RotateWriter = record w { file = none } in
    let fresh : RotateWriter = record closed { current_day = today } in
    elim (Bool-cases (today == w.current_day)) [
      | inr later ↦ rw later (open_file-IsOpen fresh d free)
      | inl same ↦ rw same (
          open_file-IsOpen fresh _
            (IsFree-SameAccess d _ (rotate_by_size-SameAccess closed d) free))
    ]

-- What a write leaves: the writer is open, and a file ends in the text.
pub record IsWritten (p : Text) (r : Option Error × RotateWriter × Disk) : Type 0 where
  pub still : IsOpen r
  pub path : Text
  pub before : Text
  pub holds : lookup path r.2.files ≡ some (before ++ p)

file-counted : (p : Text) (w : RotateWriter) (err : Option Error) → (counted p w err).file ≡ w.file
file-counted p w none = refl
file-counted p w (some err) = refl

append_to-IsWritten :
    (p : Text) (r : Option Error × RotateWriter × Disk) → IsOpen r → IsWritten p (append_to p r)
append_to-IsWritten p (some err, w, d) o = cc
append_to-IsWritten p (none, w, d) o = rw o.file (record {
  still = record {
    ok = append_file-ok o.path p d (o.free o.path);
    path = o.path;
    file = file-counted p w (append_file o.path p d).0 ∙ o.file;
    free = IsFree-SameAccess d _ (append_file-SameAccess o.path p d) o.free;
  };
  path = o.path;
  before = or_empty (lookup o.path d.files);
  holds = lookup-append_file o.path p d (o.free o.path);
})

pub write_log-IsWritten :
    (today p : Text) (w : RotateWriter) (d : Disk) (path : Text)
    → w.file ≡ some path
    → IsFree d
    → IsWritten p (write_log today p w d)
unfolding write_log
write_log-IsWritten today p w d path file free =
    elim (Bool-cases (not (today == w.current_day) || leb (w.max_size_mb * 1024 * 1024) w.size)) [
      | inl turn ↦ rw turn (append_to-IsWritten p (rotate today w d) (rotate-IsOpen today w d free))
      | inr go_on ↦ rw go_on (
          append_to-IsWritten p (none, w, d)
            (record { ok = refl; path = path; file = file; free = free }))
    ]

pub new_rotate_writer-IsOpen :
    (log_dir instance_name : Text) (max_size_mb : ℕ) (today : Text) (d : Disk)
    → IsFree d
    → IsOpen (new_rotate_writer log_dir instance_name max_size_mb today d)
unfolding new_rotate_writer
new_rotate_writer-IsOpen log_dir instance_name max_size_mb today d free =
    open_file-IsOpen
      (record {
        log_dir = log_dir;
        base_name = codes "daemon-" ++ instance_name;
        current_day = today;
        file = none;
        size = 0;
        max_size_mb = max_size_mb;
      })
      d free
