-- ===== src/Guardian/Run/Invariant.antt =====
-- What holds of a guardian between two operations.
use daemon_go.Prelude.{
  ◌≤◌, ◌≡◌, ◌≢◌, ◌⊎◌, true, false, Bool, Bool-cases, inl, inr, Option, none, List, [], ◌∷◌, arith,
}
use daemon_go.Prelude.Int.{pos, neg_part, pos_part, max_int, increment}
use daemon_go.Os.{Error, World}
use daemon_go.Config.{Project}
use daemon_go.Events.{EventStore}
use daemon_go.Guardian.{
  Setup, ProjectGuardian, Scene, running, stopped, starting, set_state, set_paused, is_failed,
  new_guardian,
}
use daemon_go.Guardian.Probe.{is_alive}
use daemon_go.Guardian.Probe.Found.{find_pid-nonneg}
use daemon_go.Guardian.Start.{
  announce_start, announce_stop, before_restart, start_project, stop_project, start_by_hand,
  stop_by_hand, restart_by_hand,
}
use daemon_go.Guardian.Start.Outcome.{
  Outcome, came_up, gave_up, start_project-Outcome, start_project_refused,
}
use daemon_go.Guardian.Tick.{announce_down, after_probe, ensure_start_info, tick}
use daemon_go.Guardian.Run.{
  Operation, ticked, by_hand_start, by_hand_stop, by_hand_restart, reset, mark_failed, pause,
  operate, operate_all,
}

pub record IsValid (g : ProjectGuardian) : Type 0 where
  pub in_range : pos_part g.cfg.max_restart_attempts ≤ max_int
  pub nonneg : neg_part g.fail_count ≡ 0
  pub capped : pos_part g.fail_count ≤ pos_part g.cfg.max_restart_attempts
  pub pid_nonneg : neg_part g.pid ≡ 0
  pub settled : g.state ≢ starting
  pub dated : (g.state ≢ running) ⊎ (g.start_time ≢ none)
  pub cleared : (g.state ≢ stopped) ⊎ (g.pid ≡ pos 0) × (g.start_time ≡ none)

increment_below :
    (g : ProjectGuardian)
    → IsValid g
    → is_failed g ≡ false
    → (neg_part (increment g.fail_count) ≡ 0)
      × (pos_part (increment g.fail_count) ≤ pos_part g.cfg.max_restart_attempts)
unfolding increment
increment_below g v f = ground arith

Outcome-IsValid :
    (g : ProjectGuardian) (r : Option Error × Scene)
    → IsValid g
    → is_failed g ≡ false
    → Outcome g r
    → IsValid r.1.guardian
Outcome-IsValid g r v f (came_up pid now n ok e) = rw e (ground arith)
Outcome-IsValid g r v f (gave_up alive seen n e) = rw e (ground (arith, increment_below g v f))

module _ (setup : Setup) where
  start_project-IsValid :
      (s : Scene) → IsValid s.guardian → IsValid (start_project setup s).1.guardian
  start_project-IsValid s v = elim (Bool-cases (is_failed s.guardian)) [
    | inl most ↦ rw (start_project_refused setup s most) (ground arith)
    | inr fewer ↦ Outcome-IsValid s.guardian _ v fewer (start_project-Outcome setup s fewer)
  ]

  stop_project-IsValid :
      (s : Scene) → IsValid s.guardian → IsValid (stop_project setup s).1.guardian
  unfolding stop_project
  stop_project-IsValid s v = ground arith

  ensure_start_info-IsValid :
      (s : Scene) → IsValid s.guardian → IsValid (ensure_start_info (set_state running s)).guardian
  unfolding ensure_start_info
  ensure_start_info-IsValid s v = ground (arith, find_pid-nonneg s.guardian.cfg.monitor s.world)

  after_probe-IsValid :
      (alive : Bool) (s : Scene)
      → IsValid s.guardian
      → IsValid (after_probe setup (alive, s)).guardian
  after_probe-IsValid true s v = ensure_start_info-IsValid s v
  after_probe-IsValid false s v = start_project-IsValid (announce_down setup s) v

  probed-IsValid :
      (s : Scene) → IsValid s.guardian → IsValid (after_probe setup (is_alive s)).guardian
  unfolding is_alive
  probed-IsValid s v = after_probe-IsValid (is_alive s).0 (is_alive s).1 (ground arith)

  tick-IsValid : (s : Scene) → IsValid s.guardian → IsValid (tick setup s).guardian
  unfolding tick
  tick-IsValid s v = ground (arith, probed-IsValid s v)

  before_restart-IsValid :
      (s : Scene) → IsValid s.guardian → IsValid (before_restart setup s).guardian
  unfolding before_restart
  before_restart-IsValid s v = ground arith

  pub operate-IsValid :
      (o : Operation) (s : Scene) → IsValid s.guardian → IsValid (operate setup o s).guardian
  unfolding operate start_by_hand stop_by_hand restart_by_hand set_paused
  operate-IsValid ticked s v = tick-IsValid s v
  operate-IsValid by_hand_start s v = start_project-IsValid (announce_start setup s) (ground arith)
  operate-IsValid by_hand_stop s v = stop_project-IsValid (announce_stop setup s) v
  operate-IsValid by_hand_restart s v =
      start_project-IsValid (before_restart setup s) (before_restart-IsValid s v)
  operate-IsValid reset s v = ground arith
  operate-IsValid mark_failed s v = ground arith
  operate-IsValid (pause true) s v = ground arith
  operate-IsValid (pause false) s v = ground arith

  -- From a valid guardian every sequence of ticks, manual operations, resets and pauses leads to a
  -- valid one.
  operate_all-IsValid :
      (os : List Operation) (s : Scene)
      → IsValid s.guardian
      → IsValid (operate_all setup os s).guardian
  unfolding operate_all
  operate_all-IsValid [] s v = v
  operate_all-IsValid (o ∷ os) s v =
      operate_all-IsValid os (operate setup o s) (operate-IsValid o s v)

  -- A new guardian whose limit is an int64 is valid after every sequence of ticks, manual starts,
  -- stops and restarts, resets and pauses: its failure count lies between 0 and the limit, so the
  -- count never overflows; its process id is not negative; it is never left starting; a running
  -- project has a start time, and a stopped one has neither start time nor process id.
  pub operate_all_new-IsValid :
      (cfg : Project) (os : List Operation) (w : World) (store : EventStore)
      → pos_part cfg.max_restart_attempts ≤ max_int
      → IsValid
          (operate_all setup os
            (record { guardian = new_guardian cfg; world = w; store = store })).guardian
  unfolding new_guardian
  operate_all_new-IsValid cfg os w store h =
      operate_all-IsValid os (record { guardian = new_guardian cfg; world = w; store = store })
        (ground arith)
