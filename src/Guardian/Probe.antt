-- ===== src/Guardian/Probe.antt =====
-- isAlive, waitForStartup and findPid of internal/project/guardian.go, and
-- internal/project/pid.go.
pub mod Found
use daemon_go.Prelude.{
  ℕ, zero, suc, ◌+◌, ◌-◌, ◌*◌, ◌/◌, Bool, true, false, not, ◌&&◌, ◌||◌, Option, none, some, List,
  [], ◌∷◌, ◌++◌, Text, codes, ◌==◌, has_prefix, trim_space, split_from, drop, ltb, if◌then◌else◌,
}
use daemon_go.Prelude.Int.{ℤ, pos, negsuc, ltb_ℤ, times, pos_part}
use daemon_go.Prelude.Atoi.{atoi, itoa}
use daemon_go.Os.{Error, Output, World, run_cmd, sleep, second}
use daemon_go.Config.{MonitorConfig}
use daemon_go.Actions.Kill.{netstat, listening_pid}
use daemon_go.Actions.Scripts.{check_port, check_process}
use daemon_go.Guardian.{ProjectGuardian, Scene}

abbrev pub port_kind : Text
port_kind = codes "port"

abbrev pub process_kind : Text
process_kind = codes "process"

abbrev pub mixed_kind : Text
mixed_kind = codes "mixed"

-- the guards of the two tests of isAlive
abbrev pub wants_port : MonitorConfig → Bool
wants_port m = (m.kind == port_kind || m.kind == mixed_kind) && ltb_ℤ (pos 0) m.port

abbrev pub wants_process : MonitorConfig → Bool
wants_process m = (m.kind == process_kind || m.kind == mixed_kind) && not (m.process_name == [])

-- the first test of isAlive
unfoldable pub probe_port : MonitorConfig → World → Bool × World
unfolding check_port
probe_port m w = if wants_port m then check_port m.host m.port w else (false, w)

-- the second test, made where the first did not find the project alive
unfoldable pub probe_process : MonitorConfig → Bool × World → Bool × World
unfolding check_process
probe_process m (true, w) = (true, w)
probe_process m (false, w) = if wants_process m then check_process m.process_name w else (false, w)

unfoldable pub probe : MonitorConfig → World → Bool × World
unfolding probe_port probe_process
probe m w = probe_process m (probe_port m w)

unfoldable pub is_alive : Scene → Bool × Scene
unfolding probe
is_alive s =
    let (alive, world) = probe s.guardian.cfg.monitor s.world in
    (alive, record s { guardian = record s.guardian { last_alive = alive }; world = world })

-- time.Now().Add(d)
abbrev pub add_duration : ℕ → ℤ → ℕ
add_duration now (pos n) = now + n
add_duration now (negsuc n) = now - suc n

abbrev pub pause_ns : ℕ
pause_ns = 2 * second

-- isStopped
abbrev pub is_stopped : Scene → Bool
is_stopped s = s.guardian.stop_ch s.world.calls

-- the scene after a round that found nothing and waited
abbrev pub after_round : Scene → Scene
after_round s = let s₁ = (is_alive s).1 in record s₁ { world = sleep (pos pause_ns) s₁.world }

-- A round of the loop of waitForStartup; `rest` is what the next rounds return. A stop during the
-- two seconds is seen at their end.
unfoldable pub wait_round : ℕ → Scene → Bool × Scene → Bool × Scene
unfolding is_alive sleep
wait_round deadline s rest =
    let (alive, s₁) = is_alive s in
    if ltb s.world.now deadline
    then if alive
      then (true, s₁)
      else if is_stopped s₁
      then (false, s₁)
      else if is_stopped (after_round s)
      then (false, after_round s)
      else rest
    else is_alive s

-- The loop of waitForStartup. The fuel bounds the rounds, and `wait_fuel` of them are enough.
unfoldable pub wait_loop : ℕ → ℕ → Scene → Bool × Scene
unfolding wait_round
wait_loop zero deadline s = is_alive s
wait_loop (suc f) deadline s =
    let rest = wait_loop f deadline (after_round s) in wait_round deadline s rest

abbrev pub wait_fuel : ℤ → ℕ
wait_fuel timeout = pos_part timeout / pause_ns + 1

unfoldable pub wait_for_startup : Scene → Bool × Scene
unfolding wait_loop
wait_for_startup s =
    let timeout = times s.guardian.cfg.startup_timeout second in
    wait_loop (wait_fuel timeout) (add_duration s.world.now timeout) s

-- pid, err := strconv.Atoi(text); err == nil && pid > 0
abbrev pub positive_pid : Option ℤ → Option ℤ
positive_pid none = none
positive_pid (some n) = if ltb_ℤ (pos 0) n then some n else none

abbrev pub or_first : Option ℤ → ℤ → ℤ
or_first none rest = rest
or_first (some n) rest = n

abbrev pub pid_of : Option Text → Option ℤ
pid_of none = none
pid_of (some text) = positive_pid (atoi text)

-- the loop of findPidByPort
unfoldable pub port_pid_loop : List Text → ℤ
unfolding listening_pid atoi
port_pid_loop [] = pos 0
port_pid_loop (line ∷ lines) = or_first (pid_of (listening_pid line)) (port_pid_loop lines)

-- a line of wmic's output that names a process
abbrev pub wmic_pid : Text → Option Text
wmic_pid line =
    let trimmed = trim_space line in
    if has_prefix trimmed (codes "ProcessId=") then some (drop 10 trimmed) else none

-- the loop of findPidByName
unfoldable pub name_pid_loop : List Text → ℤ
unfolding has_prefix trim_space atoi
name_pid_loop [] = pos 0
name_pid_loop (line ∷ lines) = or_first (pid_of (wmic_pid line)) (name_pid_loop lines)

-- the lines of a command that succeeded and printed something
abbrev pub output_lines : Output → List Text
output_lines o = elim o.err [
  | some _ ↦ []
  | none ↦ elim o.out [ [] ↦ [] | c ∷ out ↦ split_from 10 [] (c ∷ out) ]
]

unfoldable pub find_pid_by_port : ℤ → World → ℤ × World
unfolding run_cmd port_pid_loop split_from itoa
find_pid_by_port port w =
    let (o, w') = run_cmd (record { argv = netstat (itoa port); dir = [] }) w in
    (port_pid_loop (output_lines o), w')

abbrev pub wmic : Text → List Text
wmic name =
    codes "wmic"
    ∷ codes "process"
    ∷ codes "where"
    ∷ (codes "name='" ++ name ++ codes "'")
    ∷ codes "get"
    ∷ codes "processid"
    ∷ codes "/value"
    ∷ []

unfoldable pub find_pid_by_name : Text → World → ℤ × World
unfolding run_cmd name_pid_loop split_from
find_pid_by_name name w =
    let (o, w') = run_cmd (record { argv = wmic name; dir = [] }) w in
    (name_pid_loop (output_lines o), w')

-- the first half of findPid
unfoldable pub try_port : MonitorConfig → World → ℤ × World
unfolding find_pid_by_port
try_port m w =
    if m.kind == port_kind && ltb_ℤ (pos 0) m.port then find_pid_by_port m.port w else (pos 0, w)

-- the second half, where the first found nothing
unfoldable pub try_name : MonitorConfig → ℤ × World → ℤ × World
unfolding find_pid_by_name
try_name m (pid, w) =
    if ltb_ℤ (pos 0) pid
    then (pid, w)
    else if not (m.process_name == [])
    then find_pid_by_name m.process_name w
    else (pos 0, w)

unfoldable pub find_pid : MonitorConfig → World → ℤ × World
unfolding try_port try_name
find_pid m w = try_name m (try_port m w)
