-- ===== src/Guardian/Start/ByHand.antt =====
-- Manual starts and restarts, also of a project at its limit of failures.
use daemon_go.Prelude.{◌≡◌, true, none, arith}
use daemon_go.Prelude.Int.{pos, ltb_ℤ}
use daemon_go.Guardian.{Setup, Scene, stopped}
use daemon_go.Guardian.Start.{announce_start, before_restart, start_by_hand, restart_by_hand}
use daemon_go.Guardian.Start.Outcome.{Outcome, start_project-Outcome}

module _ (setup : Setup) (s : Scene)
    (attempts : ltb_ℤ (pos 0) s.guardian.cfg.max_restart_attempts ≡ true) where
  -- A manual start of a project, at its limit or not, ends as a start with no failures counted:
  -- it is running, or failed with one failure, if at least one attempt is configured.
  pub start_by_hand-Outcome :
      Outcome (record s.guardian { fail_count = pos 0 }) (start_by_hand setup s)
  unfolding start_by_hand
  start_by_hand-Outcome = start_project-Outcome setup (announce_start setup s) (ground arith)

  -- A manual restart, whether its stop script works or not, ends as a start of the stopped project
  -- with no failures counted, if at least one attempt is configured.
  pub restart_by_hand-Outcome :
      Outcome
        (record s.guardian { state = stopped; pid = pos 0; start_time = none; fail_count = pos 0 })
        (restart_by_hand setup s)
  unfolding restart_by_hand before_restart
  restart_by_hand-Outcome = start_project-Outcome setup (before_restart setup s) (ground arith)
