-- ===== src/Logger/Rotate.antt =====
-- internal/logger/logger.go: rotateWriter, which starts a new log file each day and when the
-- present one is full. `today` is time.Now() in the layout 20060102.
pub mod NoLoss
pub mod Written
use daemon_go.Prelude.{
  ℕ, zero, suc, ◌+◌, ◌*◌, Bool, true, false, not, Option, none, some, List, [], ◌∷◌, ◌++◌, Text,
  codes, ◌==◌, ◌||◌, leb, ltb, if◌then◌else◌,
}
use daemon_go.Prelude.Int.{pos}
use daemon_go.Prelude.Atoi.{itoa}
use daemon_go.Os.{Error, Disk, stat_file, append_file, rename}
use daemon_go.Os.Scan.{byte_len}
use daemon_go.Events.{join_path}

pub record RotateWriter : Type 0 where
  pub log_dir : Text
  pub base_name : Text
  pub current_day : Text
  pub file : Option Text  -- the path that is open
  pub size : ℕ
  pub max_size_mb : ℕ

unfoldable pub current_path : RotateWriter → Text
current_path w = join_path w.log_dir (w.base_name ++ codes "-" ++ w.current_day ++ codes ".log")

-- %03d
abbrev pub three_digits : ℕ → Text
three_digits i =
    if ltb i 10
    then codes "00" ++ itoa (pos i)
    else if ltb i 100
    then codes "0" ++ itoa (pos i)
    else itoa (pos i)

unfoldable pub rolled_path : RotateWriter → ℕ → Text
unfolding itoa
rolled_path w i =
    join_path w.log_dir
      (w.base_name ++ codes "-" ++ w.current_day ++ codes "." ++ three_digits i ++ codes ".log")

abbrev pub size_of : Option Text → ℕ
size_of none = 0
size_of (some text) = byte_len text

abbrev pub opened : RotateWriter → Option Error × Disk → Option Error × RotateWriter × Disk
opened w (some err, d) = (some err, w, d)
opened w (none, d) = (
  none,
  record w { file = some (current_path w); size = size_of (stat_file (current_path w) d) },
  d,
)

-- open, after `currentDay` was set: the file is created if it is not there
unfoldable pub open_file : RotateWriter → Disk → Option Error × RotateWriter × Disk
unfolding append_file stat_file byte_len current_path
open_file w d = opened w (append_file (current_path w) [] d)

-- The loop over the numbers; `fuel` is how many are left below 1000.
unfoldable pub roll_loop : ℕ → ℕ → RotateWriter → Disk → Option Error × Disk
unfolding stat_file rename rolled_path current_path
roll_loop zero i w d = (some (codes "too many log rotations"), d)
roll_loop (suc fuel) i w d =
    let later = roll_loop fuel (i + 1) w d in
    elim (stat_file (rolled_path w i) d) [
      | none ↦ rename (current_path w) (rolled_path w i) d
      | some text ↦ later
    ]

unfoldable pub rotate_by_size : RotateWriter → Disk → Option Error × Disk
unfolding roll_loop
rotate_by_size w d = elim (stat_file (current_path w) d) [
  | none ↦ (none, d)
  | some text ↦ roll_loop 999 1 w d
]

unfoldable pub rotate : Text → RotateWriter → Disk → Option Error × RotateWriter × Disk
unfolding rotate_by_size open_file
rotate today w d =
    let closed : RotateWriter = record w { file = none } in
    let d₁ = if today == w.current_day then (rotate_by_size closed d).1 else d in
    open_file (record closed { current_day = today }) d₁

-- w.size += n
abbrev pub counted : Text → RotateWriter → Option Error → RotateWriter
counted p w none = record w { size = w.size + byte_len p }
counted p w (some err) = w

-- w.file.Write(p); a writer without a file fails
abbrev pub append_to :
    Text → Option Error × RotateWriter × Disk → Option Error × RotateWriter × Disk
append_to p (some err, w, d) = (some err, w, d)
append_to p (none, w, d) = elim w.file [
  | none ↦ (some (codes "invalid argument"), w, d)
  | some path ↦ let (err, d₁) = append_file path p d in (err, counted p w err, d₁)
]

unfoldable pub write_log : Text → Text → RotateWriter → Disk → Option Error × RotateWriter × Disk
unfolding rotate append_file byte_len
write_log today p w d =
    if not (today == w.current_day) || leb (w.max_size_mb * 1024 * 1024) w.size
    then append_to p (rotate today w d)
    else append_to p (none, w, d)

-- writes of a day and a text each, one after another; an error is the writer's caller's
unfoldable pub write_logs : List (Text × Text) → RotateWriter → Disk → RotateWriter × Disk
unfolding write_log
write_logs [] w d = (w, d)
write_logs ((today, p) ∷ ps) w d = let (err, w₁, d₁) = write_log today p w d in write_logs ps w₁ d₁

-- newRotateWriter; `none` is its error
unfoldable pub new_rotate_writer :
    Text → Text → ℕ → Text → Disk → Option Error × RotateWriter × Disk
unfolding open_file
new_rotate_writer log_dir instance_name max_size_mb today d =
    open_file
      (record {
        log_dir = log_dir;
        base_name = codes "daemon-" ++ instance_name;
        current_day = today;
        file = none;
        size = 0;
        max_size_mb = max_size_mb;
      })
      d
