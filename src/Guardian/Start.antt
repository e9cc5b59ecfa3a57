-- ===== src/Guardian/Start.antt =====
-- startProject, stopProject and logFailCount of internal/project/guardian.go, and the manual
-- operations.
pub mod Outcome
pub mod ByHand
use daemon_go.Prelude.{
  ℕ, Bool, true, false, Option, none, some, List, [], ◌∷◌, ◌++◌, Text, codes, ◌==◌, if◌then◌else◌,
}
use daemon_go.Prelude.Int.{ℤ, pos, increment, leb_ℤ}
use daemon_go.Prelude.Atoi.{itoa}
use daemon_go.Os.{Error, World, sleep}
use daemon_go.Config.{ActionConfig}
use daemon_go.Events.{
  project_start, project_started, project_failed, project_stop, manual_start, manual_stop,
  manual_restart,
}
use daemon_go.Actions.Allowed.{Platform}
use daemon_go.Actions.Registry.{Registry, execute}
use daemon_go.Actions.Scripts.{run_start_script, run_stop_script}
use daemon_go.Guardian.{
  Setup, ProjectGuardian, Scene, State, running, stopped, starting, failed, emit, set_state,
  reset_fail_count, is_failed,
}
use daemon_go.Guardian.Probe.{pause_ns, wait_for_startup, find_pid}

-- The loops over the pre and post actions; a failing action is only logged.
unfoldable pub run_actions : Setup → List ActionConfig → World → World
run_actions setup [] w = w
run_actions setup (a ∷ actions) w =
    run_actions setup actions (execute setup.platform setup.registry a w).1

unfoldable pub log_fail_count : Setup → Scene → Scene
log_fail_count setup s =
    let name = s.guardian.cfg.name in
    let most = s.guardian.cfg.max_restart_attempts in
    if leb_ℤ most s.guardian.fail_count
    then emit setup project_failed
        (codes "项目 " ++ name ++ codes " 连续失败 " ++ itoa most ++ codes " 次，停止自动重启，请人工检查") [] s
    else s

-- g.setState(StateFailed); g.failCount++; g.logFailCount(); return err
unfoldable pub fail_start : Setup → Error → Scene → Option Error × Scene
unfolding log_fail_count increment
fail_start setup err s =
    let s₁ = set_state failed s in
    let count = increment s.guardian.fail_count in
    let s₂ = record s₁ { guardian = record s₁.guardian { fail_count = count } } in
    (some err, log_fail_count setup s₂)

-- what startProject does when the project came up
unfoldable pub finish_start : Setup → Scene → Option Error × Scene
unfolding find_pid run_actions itoa
finish_start setup s =
    let (pid, world) = find_pid s.guardian.cfg.monitor s.world in
    let name = s.guardian.cfg.name in
    let s₁ = record s {
      guardian = record s.guardian {
        state = running;
        fail_count = pos 0;
        start_time = some s.world.now;
        pid = pid;
      };
      world = world;
    } in
    let s₂ =
      emit setup project_started (codes "项目 " ++ name ++ codes " 启动成功") (codes "PID: " ++ itoa pid)
        s₁ in
    (none, record s₂ { world = run_actions setup s.guardian.cfg.post_actions s₂.world })

abbrev pub after_wait : Setup → Bool × Scene → Option Error × Scene
after_wait setup (true, s) = finish_start setup s
after_wait setup (false, s) =
    fail_start setup (codes "project " ++ s.guardian.cfg.name ++ codes " startup timeout") s

abbrev pub after_script : Setup → Option Error → Scene → Option Error × Scene
after_script setup (some err) s = fail_start setup err s
after_script setup none s = after_wait setup (wait_for_startup s)

-- from the start script on
unfoldable pub launch : Setup → Scene → Option Error × Scene
unfolding fail_start finish_start wait_for_startup run_start_script
launch setup s =
    let cfg = s.guardian.cfg in
    let script = cfg.start_script in
    if script == []
    then fail_start setup (codes "project " ++ cfg.name ++ codes " start script is empty") s
    else (let (err, world) =
          run_start_script setup.platform script (setup.platform.dir script)
            (cfg.start_mode == codes "sync") s.world in
        after_script setup err (record s { world = world }))

-- the state and the event with which a start begins
abbrev pub announce_project_start : Setup → Scene → Scene
announce_project_start setup s =
    emit setup project_start (codes "项目 " ++ s.guardian.cfg.name ++ codes " 开始启动")
      (codes "脚本: " ++ s.guardian.cfg.start_script) (set_state starting s)

unfoldable pub start_project : Setup → Scene → Option Error × Scene
unfolding launch run_actions
start_project setup s =
    let cfg = s.guardian.cfg in
    if is_failed s.guardian
    then (some (codes "max restart attempts reached"), set_state failed s)
    else (let s₁ = announce_project_start setup s in
        launch setup (record s₁ { world = run_actions setup cfg.pre_actions s₁.world }))

unfoldable pub stop_project : Setup → Scene → Option Error × Scene
unfolding run_stop_script
stop_project setup s =
    let cfg = s.guardian.cfg in
    let s₁ = emit setup project_stop (codes "手动停止项目 " ++ cfg.name) [] s in
    let (err, world) = run_stop_script setup.platform cfg.stop_script [] s₁.world in
    (
      err,
      record s₁ {
        guardian = record s₁.guardian { state = stopped; pid = pos 0; start_time = none };
        world = world;
      },
    )

-- the reset and the event with which ManualStart begins
abbrev pub announce_start : Setup → Scene → Scene
announce_start setup s =
    emit setup manual_start (codes "手动启动项目 " ++ s.guardian.cfg.name) [] (reset_fail_count s)

-- ManualStart
unfoldable pub start_by_hand : Setup → Scene → Option Error × Scene
unfolding start_project
start_by_hand setup s = start_project setup (announce_start setup s)

abbrev pub announce_stop : Setup → Scene → Scene
announce_stop setup s = emit setup manual_stop (codes "手动停止项目 " ++ s.guardian.cfg.name) [] s

-- ManualStop
unfoldable pub stop_by_hand : Setup → Scene → Option Error × Scene
unfolding stop_project
stop_by_hand setup s = stop_project setup (announce_stop setup s)

-- ManualRestart up to its start: the stop's error is ignored
unfoldable pub before_restart : Setup → Scene → Scene
unfolding stop_project sleep
before_restart setup s =
    let s₁ =
      emit setup manual_restart (codes "手动重启项目 " ++ s.guardian.cfg.name) [] (reset_fail_count s) in
    let s₂ = (stop_project setup s₁).1 in
    reset_fail_count (record s₂ { world = sleep (pos pause_ns) s₂.world })

-- ManualRestart
unfoldable pub restart_by_hand : Setup → Scene → Option Error × Scene
unfolding start_project before_restart
restart_by_hand setup s = start_project setup (before_restart setup s)
