-- ===== src/Guardian/Race/Alone.antt =====
-- Moves of one thread while the others wait.
use daemon_go.Prelude.{ℕ, Bool, true, false, []}
use daemon_go.Guardian.{ProjectGuardian}
use daemon_go.Guardian.Race.{Place, idle, Move, System, Reach, idlers}
use daemon_go.Guardian.Race.Overlap.{both, loop_moves, caller_moves}

-- The moves of one thread while the others wait.
pub data Moves (looping : Bool) (g : ProjectGuardian) (p : Place)
    : ProjectGuardian → Place → Type 0 where
  still : Moves looping g p g p
  and_then :
      {h k : ProjectGuardian} {q r : Place}
      → Moves looping g p h q
      → Move looping h q k r
      → Moves looping g p k r

infixl 30 ◌>>◌
abbrev pub ◌>>◌ :
    {looping : Bool} {g h k : ProjectGuardian} {p q r : Place}
    → Moves looping g p h q
    → Move looping h q k r
    → Moves looping g p k r
m >> n = and_then m n

module _ (callers : ℕ) where
  -- the loop, one caller that is busy, and others
  abbrev pub of_loop : ProjectGuardian → Place → System
  of_loop g p = both [] (idlers callers) g p idle

  abbrev pub of_caller : ProjectGuardian → Place → System
  of_caller g p = both [] (idlers callers) g idle p

  pub loop-Reach :
      {s : System} {g : ProjectGuardian} {p : Place} {h : ProjectGuardian} {q : Place}
      → Moves true g p h q
      → Reach s (of_loop g p)
      → Reach s (of_loop h q)
  loop-Reach still r = r
  loop-Reach (and_then m n) r = loop_moves [] (idlers callers) idle (loop-Reach m r) n

  pub caller-Reach :
      {s : System} {g : ProjectGuardian} {p : Place} {h : ProjectGuardian} {q : Place}
      → Moves false g p h q
      → Reach s (of_caller g p)
      → Reach s (of_caller h q)
  caller-Reach still r = r
  caller-Reach (and_then m n) r = caller_moves [] (idlers callers) idle (caller-Reach m r) n
