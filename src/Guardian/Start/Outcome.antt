-- ===== src/Guardian/Start/Outcome.antt =====
-- The three ways in which startProject ends.
use daemon_go.Prelude.{
  ℕ, zero, suc, ◌≡◌, ◌≢◌, ◌⊎◌, refl, ap, ◌∙◌, true, false, Bool, Bool-cases, inl, inr, Option, none,
  some, [], codes, ◌==◌, arith,
}
use daemon_go.Prelude.Int.{ℤ, pos, increment, leb_ℤ, neg_part}
use daemon_go.Os.{Error, sleep}
use daemon_go.Guardian.{
  Setup, ProjectGuardian, Scene, State, running, failed, starting, set_state, is_failed,
}
use daemon_go.Guardian.Probe.{pause_ns, is_alive, wait_loop, wait_for_startup, find_pid}
use daemon_go.Guardian.Probe.Found.{find_pid-nonneg}
use daemon_go.Guardian.Start.{
  log_fail_count, fail_start, finish_start, after_wait, after_script, launch, start_project,
}

pub guardian-wait_loop :
    (f deadline : ℕ) (s : Scene)
    → let (alive, s') = wait_loop f deadline s in
      s'.guardian ≡ record s.guardian { last_alive = alive }
unfolding wait_loop
guardian-wait_loop zero deadline s = refl
guardian-wait_loop (suc f) deadline s =
    let s₁ = (is_alive s).1 in
    let s₂ = record s₁ { world = sleep (pos pause_ns) s₁.world } in
    ground (arith, guardian-wait_loop f deadline s₂)

-- How a start ends, as the guardian shows it.
pub data Outcome (g : ProjectGuardian) (r : Option Error × Scene) : Type 0 where
  came_up :
      (pid : ℤ) (now : ℕ)
      → neg_part pid ≡ 0
      → r.0 ≡ none
      → r.1.guardian ≡ record g {
        state = running;
        fail_count = pos 0;
        start_time = some now;
        pid = pid;
        last_alive = true;
      }
      → Outcome g r
  gave_up :
      (alive : Bool)
      → (alive ≡ false) ⊎ (alive ≡ g.last_alive)
      → r.0 ≢ none
      → r.1.guardian
        ≡ record g { state = failed; fail_count = increment g.fail_count; last_alive = alive }
      → Outcome g r

module _ (setup : Setup) where
  guardian-log_fail_count : (s : Scene) → (log_fail_count setup s).guardian ≡ s.guardian
  unfolding log_fail_count
  guardian-log_fail_count s =
      elim (Bool-cases (leb_ℤ s.guardian.cfg.max_restart_attempts s.guardian.fail_count)) [
        | inl most ↦ rw most
        | inr fewer ↦ rw fewer
      ]

  module _ (g : ProjectGuardian) (s : Scene) where
    fail_start-Outcome :
        (err : Error) (alive : Bool) (st : State)
        → (alive ≡ false) ⊎ (alive ≡ g.last_alive)
        → s.guardian ≡ record g { last_alive = alive; state = st }
        → Outcome g (fail_start setup err s)
    unfolding fail_start
    fail_start-Outcome err alive st seen h =
        gave_up alive seen (λ e. cc)
          (guardian-log_fail_count _
            ∙ ap
                (λ (x : ProjectGuardian). record x {
                  state = failed;
                  fail_count = increment x.fail_count;
                })
                h)

    finish_start-Outcome :
        (st : State)
        → s.guardian ≡ record g { last_alive = true; state = st }
        → Outcome g (finish_start setup s)
    unfolding finish_start
    finish_start-Outcome st h =
        let pid = (find_pid s.guardian.cfg.monitor s.world).0 in
        came_up pid s.world.now (find_pid-nonneg s.guardian.cfg.monitor s.world) refl (
          ap
            (λ (x : ProjectGuardian). record x {
              state = running;
              fail_count = pos 0;
              start_time = some s.world.now;
              pid = pid;
            })
            h)

    after_wait-Outcome :
        (alive : Bool) (st : State)
        → s.guardian ≡ record g { last_alive = alive; state = st }
        → Outcome g (after_wait setup (alive, s))
    after_wait-Outcome true st h = finish_start-Outcome st h
    after_wait-Outcome false st h = fail_start-Outcome _ false st (inl refl) h

  after_script-Outcome :
      (err : Option Error) (g : ProjectGuardian) (st : State) (s : Scene)
      → s.guardian ≡ record g { state = st }
      → Outcome g (after_script setup err s)
  unfolding wait_for_startup
  after_script-Outcome (some err) g st s h = fail_start-Outcome g s err g.last_alive st (inr refl) h
  after_script-Outcome none g st s h =
      let (alive, s') = wait_for_startup s in
      after_wait-Outcome g s' alive st
        (guardian-wait_loop _ _ s ∙ ap (λ (x : ProjectGuardian). record x { last_alive = alive }) h)

  launch-Outcome :
      (g : ProjectGuardian) (st : State) (s : Scene)
      → s.guardian ≡ record g { state = st }
      → Outcome g (launch setup s)
  unfolding launch
  launch-Outcome g st s h = elim (Bool-cases (s.guardian.cfg.start_script == [])) [
    | inl blank ↦ rw blank (fail_start-Outcome g s _ g.last_alive st (inr refl) h)
    | inr script ↦ rw script (after_script-Outcome _ g st _ h)
  ]

  -- At the limit a start is refused, marks the project failed and does nothing else.
  pub start_project_refused :
      (s : Scene)
      → is_failed s.guardian ≡ true
      → start_project setup s ≡ (some (codes "max restart attempts reached"), set_state failed s)
  unfolding start_project
  start_project_refused s h = rw h

  -- Below the limit a start either returns no error, and the project is running with no failures
  -- counted and with its start time and process id set anew; or it returns an error, and the
  -- project is failed with one more failure counted and the rest as it was.
  pub start_project-Outcome :
      (s : Scene) → is_failed s.guardian ≡ false → Outcome s.guardian (start_project setup s)
  unfolding start_project
  start_project-Outcome s h = rw h (launch-Outcome s.guardian starting _ refl)
