-- ===== src/Guardian/Run/Dead.antt =====
-- Probes and starts of a project that never comes up.
use daemon_go.Prelude.{
  ℕ, zero, suc, ◌≡◌, ◌≢◌, refl, ap, ◌∙◌, sym, true, false, Bool, Bool-cases, inl, inr, Option, none,
  some, List, [], ◌∷◌, Text, codes, ◌==◌, ltb, ◌++◌, subst,
}
use daemon_go.Prelude.Int.{ℤ, pos, leb_ℤ, increment, times}
use daemon_go.Os.{Error, Cmd, Output, World, run_cmd, dial, second}
use daemon_go.Os.Oracle.{
  SameOracle, SameOracle-refl, SameOracle-trans, SameOracle-run_cmd, SameOracle-dial,
  SameOracle-disk, SameOracle-sleep,
}
use daemon_go.Config.{MonitorConfig, ActionConfig}
use daemon_go.Actions.Scripts.{tasklist, listed, check_port, check_process, run_start_script}
use daemon_go.Actions.Oracle.{SameOracle-execute, SameOracle-run_start_script}
use daemon_go.Actions.Registry.{execute}
use daemon_go.Guardian.{Setup, Scene, is_failed}
use daemon_go.Guardian.Probe.{
  wants_port, wants_process, probe_port, probe_process, probe, is_stopped, add_duration, wait_fuel,
  is_alive, pause_ns, after_round, wait_round, wait_loop, wait_for_startup,
}
use daemon_go.Guardian.Start.{
  announce_project_start, run_actions, log_fail_count, fail_start, after_wait, after_script, launch,
  start_project,
}

-- what tasklist is asked for the process of a project
abbrev pub asked : MonitorConfig → Cmd
asked m = record { argv = tasklist m.process_name; dir = [] }

-- No probe that the monitor wants ever finds the project.
pub record IsDead (m : MonitorConfig) (w : World) : Type 0 where
  pub port : wants_port m ≡ true → (n : ℕ) → w.listens n m.host m.port ≡ false
  pub process :
      wants_process m ≡ true → (n : ℕ) → listed m.process_name (w.reply n (asked m)) ≡ false

pub IsDead-SameOracle :
    (m : MonitorConfig) (w w' : World) → SameOracle w w' → IsDead m w → IsDead m w'
IsDead-SameOracle m w w' same h = record {
  port = λ t n. ap (λ (f : ℕ → Text → ℤ → Bool). f n m.host m.port) same.listens ∙ h.port t n;
  process = λ t n.
      ap (λ (f : ℕ → Cmd → Output). listed m.process_name (f n (asked m))) same.reply
      ∙ h.process t n;
}

-- A result that found nothing, in a world that answers as before.
abbrev Missed : World → Bool × World → Type 0
Missed w r = (r.0 ≡ false) × SameOracle w r.1

module _ (m : MonitorConfig) where
  probe_port-Missed : (w : World) → IsDead m w → Missed w (probe_port m w)
  unfolding probe_port check_port dial
  probe_port-Missed w h = elim (Bool-cases (wants_port m)) [
    | inl t ↦ rw t (h.port t w.calls, SameOracle-dial w m.host m.port)
    | inr f ↦ rw f (refl, SameOracle-refl w)
  ]

  probe_process-Missed : (w : World) → IsDead m w → Missed w (probe_process m (false, w))
  unfolding probe_process check_process run_cmd
  probe_process-Missed w h = elim (Bool-cases (wants_process m)) [
    | inl t ↦ rw t (
      h.process t w.calls,
      SameOracle-run_cmd w (record { argv = tasklist m.process_name; dir = [] }),
    )
    | inr f ↦ rw f (refl, SameOracle-refl w)
  ]

  pub probe-Missed : (w : World) → IsDead m w → Missed w (probe m w)
  unfolding probe
  probe-Missed w h =
      let (alive, w') = probe_port m w in
      let (missed, same) = probe_port-Missed w h in
      let (missed', same') = probe_process-Missed w' (IsDead-SameOracle m w w' same h) in
      subst (λ b. Missed w (probe_process m (b, w'))) (sym missed)
        (missed', SameOracle-trans same same')

-- The scene's project is dead.
abbrev pub Dead : Scene → Type 0
Dead s = IsDead s.guardian.cfg.monitor s.world

-- A result that found nothing or failed, in a scene whose world answers as before.
abbrev MissedAll : Scene → Bool × Scene → Type 0
MissedAll s r = (r.0 ≡ false) × SameOracle s.world r.1.world

is_alive-MissedAll : (s : Scene) → Dead s → MissedAll s (is_alive s)
unfolding is_alive
is_alive-MissedAll s h = probe-Missed s.guardian.cfg.monitor s.world h

after_round-SameOracle : (s : Scene) → Dead s → SameOracle s.world (after_round s).world
unfolding is_alive
after_round-SameOracle s h =
    SameOracle-trans (is_alive-MissedAll s h).1 (SameOracle-sleep _ (pos pause_ns))

wait_round-MissedAll :
    (deadline : ℕ) (s : Scene) (rest : Bool × Scene)
    → Dead s
    → MissedAll s rest
    → MissedAll s (wait_round deadline s rest)
unfolding wait_round
wait_round-MissedAll deadline s rest h r =
    let (missed, same) = is_alive-MissedAll s h in
    let s₁ = (is_alive s).1 in
    elim (Bool-cases (ltb s.world.now deadline)) [
      | inr late ↦ rw late (missed, same)
      | inl early ↦ elim (Bool-cases (is_stopped s₁)) [
        | inl stop ↦ rw (early, missed, stop) (refl, same)
        | inr go ↦ elim (Bool-cases (is_stopped (after_round s))) [
          | inl stop ↦ rw (early, missed, go, stop) (refl, after_round-SameOracle s h)
          | inr on ↦ rw (early, missed, go, on) r
        ]
      ]
    ]

wait_loop-MissedAll : (f deadline : ℕ) (s : Scene) → Dead s → MissedAll s (wait_loop f deadline s)
unfolding wait_loop
wait_loop-MissedAll zero deadline s h = is_alive-MissedAll s h
wait_loop-MissedAll (suc f) deadline s h =
    let same = after_round-SameOracle s h in
    let m = s.guardian.cfg.monitor in
    let (missed, same') =
      wait_loop-MissedAll f deadline (after_round s) (IsDead-SameOracle m s.world _ same h) in
    wait_round-MissedAll deadline s (wait_loop f deadline (after_round s)) h
      (missed, SameOracle-trans same same')

-- A start that failed, in a scene whose world answers as before.
abbrev pub Failed : World → Option Error × Scene → Type 0
Failed w r = (r.0 ≢ none) × SameOracle w r.1.world

module _ (setup : Setup) where
  fail_start-Failed : (err : Error) (s : Scene) → Failed s.world (fail_start setup err s)
  unfolding fail_start log_fail_count
  fail_start-Failed err s =
      let most = leb_ℤ s.guardian.cfg.max_restart_attempts (increment s.guardian.fail_count) in
      (
        (λ e. cc),
        elim (Bool-cases most) [
          | inl t ↦ rw t (SameOracle-disk s.world _)
          | inr f ↦ rw f (SameOracle-refl s.world)
        ],
      )

  pub SameOracle-run_actions :
      (actions : List ActionConfig) (w : World) → SameOracle w (run_actions setup actions w)
  unfolding run_actions
  SameOracle-run_actions [] w = SameOracle-refl w
  SameOracle-run_actions (a ∷ actions) w =
      SameOracle-trans (SameOracle-execute w setup.platform setup.registry a)
        (SameOracle-run_actions actions (execute setup.platform setup.registry a w).1)

  after_wait-Failed :
      (w : World) (s : Scene) (alive : Bool)
      → alive ≡ false
      → SameOracle w s.world
      → Failed w (after_wait setup (alive, s))
  after_wait-Failed w s true e same = cc
  after_wait-Failed w s false e same =
      let (err, same') =
        fail_start-Failed (codes "project " ++ s.guardian.cfg.name ++ codes " startup timeout") s in
      (err, SameOracle-trans same same')

  pub after_script-Failed :
      (err : Option Error) (s : Scene) → Dead s → Failed s.world (after_script setup err s)
  unfolding wait_for_startup
  after_script-Failed (some err) s h = fail_start-Failed err s
  after_script-Failed none s h =
      let (alive, s') = wait_for_startup s in
      let timeout = times s.guardian.cfg.startup_timeout second in
      let (missed, same) =
        wait_loop-MissedAll (wait_fuel timeout) (add_duration s.world.now timeout) s h in
      after_wait-Failed s.world s' alive missed same

  launch-Failed : (s : Scene) → Dead s → Failed s.world (launch setup s)
  unfolding launch
  launch-Failed s h = elim (Bool-cases (s.guardian.cfg.start_script == [])) [
    | inl blank ↦ rw blank (
        fail_start-Failed
          (codes "project " ++ s.guardian.cfg.name ++ codes " start script is empty") s)
    | inr named ↦
        let cfg = s.guardian.cfg in
        let dir = setup.platform.dir cfg.start_script in
        let sync = cfg.start_mode == codes "sync" in
        let (err, w) = run_start_script setup.platform cfg.start_script dir sync s.world in
        let same = SameOracle-run_start_script s.world setup.platform cfg.start_script dir sync in
        let (failed, same') =
          after_script-Failed err (record s { world = w })
            (IsDead-SameOracle cfg.monitor s.world w same h) in
        rw named (failed, SameOracle-trans same same')
  ]

  -- Below its limit a dead project's start returns an error.
  pub start_project-Failed :
      (s : Scene) → Dead s → is_failed s.guardian ≡ false → Failed s.world (start_project setup s)
  unfolding start_project
  start_project-Failed s h fewer =
      let s₁ = announce_project_start setup s in
      let w = run_actions setup s.guardian.cfg.pre_actions s₁.world in
      let same =
        SameOracle-trans (SameOracle-disk s.world s₁.world.disk)
          (SameOracle-run_actions s.guardian.cfg.pre_actions s₁.world) in
      let (failed, same') =
        launch-Failed (record s₁ { world = w })
          (IsDead-SameOracle s.guardian.cfg.monitor s.world w same h) in
      rw fewer (failed, SameOracle-trans same same')
