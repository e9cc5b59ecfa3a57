-- ===== src/Logger/Output.antt =====
-- internal/logger/logger.go: the output of a logger, which is an io.MultiWriter of the log file, if
-- it could be opened, and the buffer of recent lines; and Close. A line is an entry as logrus has
-- formatted it, with the day on which it is written.
pub mod Session
use daemon_go.Prelude.{Bool, true, false, Option, none, some, List, [], ◌∷◌, Text, if◌then◌else◌}
use daemon_go.Os.{Error, Disk}
use daemon_go.Logger.{write}
use daemon_go.Logger.Rotate.{RotateWriter, write_log}
use daemon_go.Logger.Create.{Logger}

-- io.MultiWriter stops at the first writer that fails.
abbrev pub after_file : Text → Logger → Option Error × RotateWriter × Disk → Logger × Disk
after_file p l (some err, w, d) = (record l { writer = some w }, d)
after_file p l (none, w, d) = (record l { writer = some w; buffer = write p l.buffer }, d)

unfoldable pub log_line : Text → Text → Logger × Disk → Logger × Disk
unfolding write write_log
log_line today p (l, d) = if l.discarded then (l, d) else elim l.writer [
  | none ↦ (record l { buffer = write p l.buffer }, d)
  | some w ↦ after_file p l (write_log today p w d)
]

unfoldable pub log_lines : List (Text × Text) → Logger × Disk → Logger × Disk
unfolding log_line
log_lines [] s = s
log_lines ((today, p) ∷ ps) s = log_lines ps (log_line today p s)

-- Close: the output has been replaced when it is asked whether it can be closed, and io.Discard
-- cannot.
unfoldable pub close_logger : Logger → Logger
close_logger l = record l { discarded = true }

-- rotateWriter.Close
unfoldable pub close_writer : RotateWriter → RotateWriter
close_writer w = record w { file = none }
