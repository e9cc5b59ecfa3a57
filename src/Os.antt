-- ===== src/Os.antt =====
-- What the sources use of packages os, os/exec, net, time and bufio: files, external commands,
-- TCP probes and the clock. The world answers the n-th call as it likes; an error is its message.
pub mod Scan
pub mod Files
pub mod Oracle
use daemon_go.Prelude.{
  ℕ, ◌+◌, Bool, Option, none, some, List, [], ◌∷◌, ◌++◌, Text, Dict, lookup, insert, delete, codes,
  if◌then◌else◌,
}
use daemon_go.Prelude.Int.{ℤ, pos_part}

abbrev pub Error : Type 0
Error = Text

-- The files, and what may be opened for reading and for writing.
pub record Disk : Type 0 where
  pub files : Dict Text
  pub readable : Text → Bool
  pub writable : Text → Bool
  pub movable : Text → Bool  -- as a name of os.Rename

-- os.ReadFile, and os.Open with a read to the end; `none` is an error
unfoldable pub read_file : Text → Disk → Option Text
unfolding lookup
read_file path d = if d.readable path then lookup path d.files else none

-- os.Stat of a file: the text whose length it reports
unfoldable pub stat_file : Text → Disk → Option Text
unfolding lookup
stat_file path d = lookup path d.files

-- os.WriteFile, and os.OpenFile with O_TRUNC; nothing is written where the open fails
unfoldable pub write_file : Text → Text → Disk → Option Error × Disk
unfolding insert
write_file path content d =
    if d.writable path
    then (none, record d { files = insert path content d.files })
    else (some (codes "open: access denied"), d)

abbrev pub or_empty : Option Text → Text
or_empty none = []
or_empty (some s) = s

-- os.OpenFile with O_CREATE and O_APPEND, and writes to the file
unfoldable pub append_file : Text → Text → Disk → Option Error × Disk
unfolding insert lookup
append_file path content d =
    if d.writable path
    then (
      none,
      record d { files = insert path (or_empty (lookup path d.files) ++ content) d.files },
    )
    else (some (codes "open: access denied"), d)

-- os.Rename, which may work where a file cannot be written, and fail where it can
unfoldable pub rename : Text → Text → Disk → Option Error × Disk
unfolding lookup insert delete
rename source target d = elim (lookup source d.files) [
  | none ↦ (some (codes "rename: no such file"), d)
  | some content ↦
      if d.movable source
      then if d.movable target
        then (none, record d { files = insert target content (delete source d.files) })
        else (some (codes "rename: access denied"), d)
      else (some (codes "rename: access denied"), d)
]

-- exec.Command(argv...) with its working directory
pub record Cmd : Type 0 where
  pub argv : List Text
  pub dir : Text

-- what CombinedOutput returns
pub record Output : Type 0 where
  pub out : Text
  pub err : Option Error

pub record World : Type 0 where
  pub now : ℕ  -- nanoseconds
  pub calls : ℕ  -- how many calls were made
  pub lapse : ℕ → ℕ  -- the time that a call takes, in nanoseconds
  pub reply : ℕ → Cmd → Output
  pub listens : ℕ → Text → ℤ → Bool
  pub exists : ℕ → Text → Bool
  pub ran : List Cmd  -- the commands that were started, the latest last
  pub disk : Disk

abbrev pub spend : ℕ → World → World
spend ns w = record w { now = w.now + ns + w.lapse w.calls; calls = w.calls + 1 }

-- cmd.CombinedOutput() and cmd.Run()
unfoldable pub run_cmd : Cmd → World → Output × World
run_cmd c w = (w.reply w.calls c, record (spend 0 w) { ran = w.ran ++ c ∷ [] })

-- cmd.Start()
unfoldable pub start_cmd : Cmd → World → Option Error × World
start_cmd c w = ((w.reply w.calls c).err, record (spend 0 w) { ran = w.ran ++ c ∷ [] })

-- net.DialTimeout("tcp", ...), closed at once
unfoldable pub dial : Text → ℤ → World → Bool × World
dial host port w = (w.listens w.calls host port, spend 0 w)

-- os.Stat(path), for its error alone
unfoldable pub stat : Text → World → Bool × World
stat path w = (w.exists w.calls path, spend 0 w)

-- time.Sleep and <-time.After: at least the duration, and at once if it is negative
unfoldable pub sleep : ℤ → World → World
sleep ns w = spend (pos_part ns) w

abbrev pub millisecond : ℕ
millisecond = 1_000_000

abbrev pub second : ℕ
second = 1_000_000_000
