-- ===== src/Config/Files.antt =====
-- The files of internal/config/config.go: config.yaml (Load, Save) and the state file (SaveState,
-- LoadState). Package yaml.v3 is the parameter `Yaml`.
use daemon_go.Prelude.{
  ◌≡◌, ◌⊎◌, true, Option, none, some, ◌++◌, [], ◌||◌, arith, Text, codes, ◌==◌, eq_iff,
  lookup-insert, eq_refl, if◌then◌else◌,
}
use daemon_go.Os.{Error, Disk, read_file, write_file}
use daemon_go.Config.{DaemonConfig, apply_defaults}

-- yaml.Marshal and yaml.Unmarshal for this struct. `AuthToken` is tagged `yaml:"-"`: it is not
-- written, and reading leaves it empty.
pub record Yaml : Type 0 where
  pub marshal : DaemonConfig → Text
  pub unmarshal : Text → Option DaemonConfig
  pub unmarshal-marshal :
      (c : DaemonConfig) → unmarshal (marshal c) ≡ some (record c { auth_token = [] })

pub data Loaded : Type 0 where
  loaded : DaemonConfig → Loaded
  read_failed parse_failed : Loaded

abbrev parsed : Option DaemonConfig → Loaded
parsed none = parse_failed
parsed (some c) = loaded (apply_defaults c)

abbrev contents : Yaml → Option Text → Loaded
contents yaml none = read_failed
contents yaml (some text) = parsed (yaml.unmarshal text)

unfoldable pub load : Yaml → Text → Disk → Loaded
load yaml path d = contents yaml (read_file path d)

unfoldable pub save : Yaml → DaemonConfig → Text → Disk → Option Error × Disk
save yaml c path d = write_file path (yaml.marshal c) d

abbrev pub paused : Text
paused = codes "PAUSED"

abbrev pub running : Text
running = codes "RUNNING"

unfoldable pub save_state : DaemonConfig → Text → Disk → Option Error × Disk
save_state c state d = write_file c.state_file (state ++ codes "\n") d

abbrev state_of : Option Text → Text
state_of none = running
state_of (some s) = if s == paused ++ codes "\n" || s == paused then paused else running

unfoldable pub load_state : DaemonConfig → Disk → Text
load_state c d = state_of (read_file c.state_file d)

-- Loading a file that was saved gives the configuration back with the defaults filled in and
-- without its token, if the file can be written and read.
pub load-save :
    (yaml : Yaml) (c : DaemonConfig) (path : Text) (d : Disk)
    → d.writable path ≡ true
    → d.readable path ≡ true
    → load yaml path (save yaml c path d).1 ≡ loaded (apply_defaults (record c { auth_token = [] }))
unfolding load save read_file write_file
load-save yaml c path d w r = ground (
  arith,
  lookup-insert path path (yaml.marshal c) d.files,
  eq_refl path,
  yaml.unmarshal-marshal c,
)

-- A state that the daemon saved, `PAUSED` or `RUNNING`, is read back, if the state file can be
-- written and read.
pub load_state-save_state :
    (c : DaemonConfig) (state : Text) (d : Disk)
    → (state ≡ paused) ⊎ (state ≡ running)
    → d.writable c.state_file ≡ true
    → d.readable c.state_file ≡ true
    → load_state c (save_state c state d).1 ≡ state
unfolding load_state save_state read_file write_file
load_state-save_state c state d s w r = ground (
  arith,
  lookup-insert c.state_file c.state_file (state ++ codes "\n") d.files,
  eq_refl c.state_file,
  eq_iff (state ++ codes "\n") (paused ++ codes "\n"),
  eq_iff (state ++ codes "\n") paused,
)

-- A state file that cannot be written leaves the stored state as it was, and the caller has an error.
pub load_state-save_state_denied :
    (c : DaemonConfig) (state : Text) (d : Disk) {e : Error}
    → (save_state c state d).0 ≡ some e
    → load_state c (save_state c state d).1 ≡ load_state c d
unfolding save_state write_file
load_state-save_state_denied c state d h = ground arith
