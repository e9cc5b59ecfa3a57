-- ===== src/Logger/Clean.antt =====
-- internal/logger/logger.go: cleanOld, which removes the log files of an instance that are older than
-- `max_age` days, of 24 hours each.
pub mod Removed
pub mod Spared
use daemon_go.Prelude.{
  ℕ, ◌+◌, ◌*◌, ◌≡◌, refl, Bool, true, false, not, ◌&&◌, ◌||◌, Option, none, some, List, [], ◌∷◌,
  ◌++◌, Text, codes, ◌==◌, eq_iff, ltb, has_prefix, lookup, delete, lookup-delete, if◌then◌else◌,
  arith, Bool-cases, inl, inr,
}
use daemon_go.Prelude.Int.{ℤ, pos, pos_part, leb_ℤ}
use daemon_go.Os.{Disk, second}
use daemon_go.Events.{join_path}
use daemon_go.Logger.Rotate.{RotateWriter}

-- what os.ReadDir tells of a file, with its Info, `none` an error
pub record DirEntry : Type 0 where
  pub name : Text
  pub is_dir : Bool
  pub mod_time : Option ℕ

-- os.Remove, its error ignored
unfoldable pub remove_file : Text → Disk → Disk
unfolding delete
remove_file path d = if d.writable path then record d { files = delete path d.files } else d

abbrev pub day : ℕ
day = 24 * 3600 * second

abbrev pub older : ℤ → ℕ → Option ℕ → Bool
older max_age now none = false
older max_age now (some t) = ltb (t + pos_part max_age * day) now

-- the tests in the loop of cleanOld
unfoldable pub is_expired : ℤ → ℕ → RotateWriter → DirEntry → Bool
unfolding has_prefix
is_expired max_age now w e =
    not e.is_dir && has_prefix e.name (w.base_name ++ codes "-") && older max_age now e.mod_time

unfoldable pub clean_loop : ℤ → ℕ → RotateWriter → List DirEntry → Disk → Disk
clean_loop max_age now w [] d = d
clean_loop max_age now w (e ∷ es) d =
    clean_loop max_age now w es
      (if is_expired max_age now w e then remove_file (join_path w.log_dir e.name) d else d)

abbrev pub clean_listed : ℤ → ℕ → RotateWriter → Disk → Option (List DirEntry) → Disk
clean_listed max_age now w d none = d
clean_listed max_age now w d (some es) = clean_loop max_age now w es d

-- cleanOld; `entries` is what os.ReadDir returns
unfoldable pub clean_old : ℤ → ℕ → RotateWriter → Option (List DirEntry) → Disk → Disk
unfolding clean_loop is_expired remove_file
clean_old max_age now w entries d =
    if leb_ℤ max_age (pos 0) then d else clean_listed max_age now w d entries

-- some entry is expired and has the path
abbrev pub cleans : ℤ → ℕ → RotateWriter → List DirEntry → Text → Bool
cleans max_age now w [] path = false
cleans max_age now w (e ∷ es) path =
    (is_expired max_age now w e && join_path w.log_dir e.name == path)
    || cleans max_age now w es path
