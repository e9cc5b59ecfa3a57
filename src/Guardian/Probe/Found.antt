-- ===== src/Guardian/Probe/Found.antt =====
-- internal/project/guardian.go and pid.go: findPid, and the polls of waitForStartup.
use native.Mathlib.Nat.{zero-add, suc-add}
use daemon_go.Prelude.{
  ℕ, zero, suc, ◌+◌, ◌*◌, ◌≤◌, ◌≡◌, refl, ap, ◌∙◌, false, Bool, List, [], ◌∷◌, Text, ltb, arith,
}
use daemon_go.Prelude.Int.{ℤ, pos, negsuc, neg_part, times}
use daemon_go.Os.{World, second, sleep, run_cmd, dial}
use daemon_go.Actions.Scripts.{check_port, check_process}
use daemon_go.Config.{MonitorConfig}
use daemon_go.Guardian.{Scene}
use daemon_go.Guardian.Probe.{
  port_pid_loop, name_pid_loop, output_lines, find_pid_by_name, try_port, try_name, find_pid, wmic,
  is_alive, pause_ns, add_duration, after_round, probe, wait_round, wait_loop, wait_fuel,
  wait_for_startup,
}

port_pid_loop-nonneg : (lines : List Text) → neg_part (port_pid_loop lines) ≡ 0
unfolding port_pid_loop
port_pid_loop-nonneg [] = refl
port_pid_loop-nonneg (line ∷ lines) = ground (arith, port_pid_loop-nonneg lines)

name_pid_loop-nonneg : (lines : List Text) → neg_part (name_pid_loop lines) ≡ 0
unfolding name_pid_loop
name_pid_loop-nonneg [] = refl
name_pid_loop-nonneg (line ∷ lines) = ground (arith, name_pid_loop-nonneg lines)

find_pid_by_name-nonneg : (name : Text) (w : World) → neg_part (find_pid_by_name name w).0 ≡ 0
unfolding find_pid_by_name
find_pid_by_name-nonneg name w =
    name_pid_loop-nonneg (output_lines (run_cmd (record { argv = wmic name; dir = [] }) w).0)

try_name-nonneg : (m : MonitorConfig) (pid : ℤ) (w : World) → neg_part (try_name m (pid, w)).0 ≡ 0
unfolding try_name
try_name-nonneg m pid w = ground (arith, find_pid_by_name-nonneg m.process_name w)

-- `findPid` never returns a negative process id, whatever the commands print.
pub find_pid-nonneg : (m : MonitorConfig) (w : World) → neg_part (find_pid m w).0 ≡ 0
unfolding find_pid
find_pid-nonneg m w = let (pid, w') = try_port m w in try_name-nonneg m pid w'

-- Enough rounds are left for the time until the deadline.
abbrev Enough : ℕ → ℕ → Scene → Type 0
Enough f deadline s = deadline ≤ s.world.now + f * pause_ns

now-probe : (m : MonitorConfig) (w : World) → w.now ≤ (probe m w).1.now
unfolding probe check_port check_process run_cmd dial
now-probe m w = ground arith

now-after_round : (s : Scene) → s.world.now + pause_ns ≤ (after_round s).world.now
unfolding is_alive sleep
now-after_round s = omega (arith, now-probe s.guardian.cfg.monitor s.world)

late :
    (deadline : ℕ) (s : Scene) (rest : Bool × Scene)
    → deadline ≤ s.world.now
    → wait_round deadline s rest ≡ is_alive s
unfolding wait_round
late deadline s rest h = let past : ltb s.world.now deadline ≡ false = ground arith in rw past

wait_loop-suc :
    (f deadline : ℕ) (s : Scene)
    → Enough f deadline s
    → wait_loop (suc f) deadline s ≡ wait_loop f deadline s
unfolding wait_loop
wait_loop-suc zero deadline s h = late deadline s _ (omega arith)
wait_loop-suc (suc f) deadline s h =
    ap (wait_round deadline s)
      (wait_loop-suc f deadline (after_round s) (omega (arith, now-after_round s)))

enough : (timeout : ℤ) (s : Scene) → Enough (wait_fuel timeout) (add_duration s.world.now timeout) s
enough (pos n) s = omega arith
enough (negsuc n) s = omega arith

pub wait_loop-add :
    (k f deadline : ℕ) (s : Scene)
    → Enough f deadline s
    → wait_loop (k + f) deadline s ≡ wait_loop f deadline s
wait_loop-add zero f deadline s h = rw zero-add
wait_loop-add (suc k) f deadline s h =
    rw suc-add (wait_loop-suc (k + f) deadline s (grind arith) ∙ wait_loop-add k f deadline s h)

-- The wait for a start ends: with any number of rounds from `wait_fuel` on, the loop returns the
-- same, so its fuel never cuts it short; each round takes two seconds of the timeout.
pub wait_loop_fuel :
    (k : ℕ) (s : Scene)
    → let timeout = times s.guardian.cfg.startup_timeout second in
      let deadline = add_duration s.world.now timeout in
      wait_loop (k + wait_fuel timeout) deadline s ≡ wait_for_startup s
unfolding wait_for_startup
wait_loop_fuel k s =
    let timeout = times s.guardian.cfg.startup_timeout second in
    wait_loop-add k (wait_fuel timeout) (add_duration s.world.now timeout) s (enough timeout s)
