-- ===== src/Guardian/Tick.antt =====
-- The guard loop of internal/project/guardian.go, one step for a tick, and Status.
pub mod Idle
use daemon_go.Prelude.{
  ℕ, zero, suc, Bool, true, false, not, Option, none, some, [], ◌++◌, Text, codes, if◌then◌else◌,
}
use daemon_go.Prelude.Int.{ℤ, pos, is_zero, leb_ℤ, times}
use daemon_go.Os.{World, second}
use daemon_go.Events.{project_down}
use daemon_go.Guardian.{Setup, ProjectGuardian, Scene, State, running, emit, set_state, is_failed}
use daemon_go.Guardian.Probe.{is_alive, find_pid}
use daemon_go.Guardian.Start.{start_project}

abbrev pub or_now : Option ℕ → ℕ → Option ℕ
or_now none now = some now
or_now (some t) now = some t

unfoldable pub ensure_start_info : Scene → Scene
unfolding find_pid
ensure_start_info s =
    let g = record s.guardian { start_time = or_now s.guardian.start_time s.world.now } in
    if is_zero g.pid
    then (let (pid, world) = find_pid g.cfg.monitor s.world in
        record s { guardian = record g { pid = pid }; world = world })
    else record s { guardian = g }

abbrev pub announce_down : Setup → Scene → Scene
announce_down setup s =
    emit setup project_down (codes "项目 " ++ s.guardian.cfg.name ++ codes " 掉线，准备重启") [] s

-- what follows the probe
abbrev pub after_probe : Setup → Bool × Scene → Scene
after_probe setup (true, s) = ensure_start_info (set_state running s)
after_probe setup (false, s) = (start_project setup (announce_down setup s)).1

-- the `ticker.C` case
unfoldable pub tick : Setup → Scene → Scene
unfolding is_alive ensure_start_info start_project
tick setup s =
    if s.guardian.paused
    then s
    else if not s.guardian.cfg.enabled
    then s
    else if is_failed s.guardian
    then s
    else after_probe setup (is_alive s)

-- ticks of the loop, one after another
unfoldable pub ticks : Setup → ℕ → Scene → Scene
unfolding tick
ticks setup zero s = s
ticks setup (suc n) s = ticks setup n (tick setup s)

-- time.NewTicker panics on a period that is not positive; `none` is the panic.
unfoldable pub ticker_period : ProjectGuardian → Option ℤ
ticker_period g =
    let period = times g.cfg.check_interval second in
    if leb_ℤ period (pos 0) then none else some period

-- Status; the formatting of the start time is left out
pub record ProjectStatus : Type 0 where
  pub name : Text
  pub state : State
  pub enabled : Bool
  pub pid : ℤ
  pub start_time : Option ℕ
  pub fail_count : ℤ

unfoldable pub status : ProjectGuardian → ProjectStatus
status g = record {
  name = g.cfg.name;
  state = g.state;
  enabled = g.cfg.enabled;
  pid = g.pid;
  start_time = g.start_time;
  fail_count = g.fail_count;
}
