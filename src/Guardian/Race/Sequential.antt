-- ===== src/Guardian/Race/Sequential.antt =====
-- The operations of Guardian/Run, one at a time, are runs of the threads.
use daemon_go.Prelude.{
  ℕ, suc, ◌≡◌, inl, inr, refl, Bool, Bool-cases, true, false, List, [], ◌∷◌, Option, arith,
}
use daemon_go.Prelude.Int.{ℤ, pos, negsuc, neg_part}
use daemon_go.Os.{Error, World}
use daemon_go.Config.{Project}
use daemon_go.Events.{EventStore}
use daemon_go.Guardian.{Setup, ProjectGuardian, Scene, is_failed, running, new_guardian}
use daemon_go.Guardian.Probe.{is_alive, probe}
use daemon_go.Guardian.Probe.Found.{find_pid-nonneg}
use daemon_go.Guardian.Tick.Idle.{tick_idle, tick_probes}
use daemon_go.Guardian.Start.{
  announce_start, announce_stop, before_restart, start_project, stop_project, start_by_hand,
  stop_by_hand, restart_by_hand,
}
use daemon_go.Guardian.Start.Outcome.{
  Outcome, came_up, gave_up, start_project-Outcome, start_project_refused,
}
use daemon_go.Guardian.Tick.{announce_down, after_probe, ensure_start_info, tick}
use daemon_go.Guardian.Run
use daemon_go.Guardian.Run.{
  Operation, by_hand_start, by_hand_stop, by_hand_restart, reset, pause, operate, operate_all,
}
use daemon_go.Guardian.Race.Alone.{Moves, still, ◌>>◌, of_loop, loop-Reach, caller-Reach}
use daemon_go.Guardian.Race.{
  Place, idle, probing, entering, stopping, skip, begin_tick, at_limit, below_limit, finds_alive,
  finds_dead, mark, ensure, refuse, mark_refused, admit, announce, script_fails, times_out,
  comes_up, mark_failing, mark_up, read_count, write_count, clear, date, locate, call_start,
  call_stop, call_restart, call_reset, call_mark, call_pause, reset_start, reset_restart, halt,
  halt_restart, wake, System, Reach, here, idlers, new_system, with_state, seen, ensured,
}

-- whether the loop does it
abbrev by_loop : Operation → Bool
by_loop Run.ticked = true
by_loop by_hand_start = false
by_loop by_hand_stop = false
by_loop by_hand_restart = false
by_loop reset = false
by_loop Run.mark_failed = false
by_loop (pause b) = false

module _ {looping : Bool} {g₀ g : ProjectGuardian} {p : Place} where
  launched :
      (r : Option Error × Scene)
      → is_failed g ≡ false
      → Outcome g r
      → Moves looping g₀ p g entering
      → Moves looping g₀ p r.1.guardian idle
  launched r below (came_up (pos pid) now n ok e) m =
      rw e (m >> admit below >> announce >> comes_up >> mark_up >> clear >> date now >> locate pid)
  launched r below (came_up (negsuc pid) now n ok e) m = absurd (omega arith)
  launched r below (gave_up now_alive (inl f) n e) m =
      rw (e, f)
        (m
          >> admit below
          >> announce
          >> times_out
          >> mark_failing
          >> read_count
          >> write_count g.fail_count)
  launched r below (gave_up now_alive (inr f) n e) m =
      rw (e, f)
        (m
          >> admit below
          >> announce
          >> script_fails
          >> mark_failing
          >> read_count
          >> write_count g.fail_count)

nonneg-pos : (z : ℤ) → neg_part z ≡ 0 → (n : ℕ) × (z ≡ pos n)
nonneg-pos (pos n) h = (n, refl)
nonneg-pos (negsuc n) h = absurd (omega arith)

ensure_start_info-ensured :
    (s : Scene) → (pid : ℕ) × ((ensure_start_info s).guardian ≡ ensured pid s.world.now s.guardian)
unfolding ensure_start_info
ensure_start_info-ensured s =
    let (pid, e) = nonneg-pos _ (find_pid-nonneg s.guardian.cfg.monitor s.world) in
    (pid, ground (arith, e))

module _ (setup : Setup) where
  started :
      {looping : Bool} {g₀ : ProjectGuardian} {p : Place} (s : Scene)
      → Moves looping g₀ p s.guardian entering
      → Moves looping g₀ p (start_project setup s).1.guardian idle
  started s m = elim (Bool-cases (is_failed s.guardian)) [
    | inl most ↦ rw (start_project_refused setup s most) (m >> refuse most >> mark_refused)
    | inr fewer ↦ launched _ fewer (start_project-Outcome setup s fewer) m
  ]

  probed :
      (b : Bool) (w : World) (s : Scene)
      → Moves true s.guardian idle s.guardian probing
      → Moves true s.guardian idle
          (after_probe setup (b, record s { guardian = seen b s.guardian; world = w })).guardian
          idle
  probed true w s m =
      let s' : Scene = record s {
        guardian = with_state running (seen true s.guardian);
        world = w;
      } in
      let (pid, e) = ensure_start_info-ensured s' in
      rw e (m >> finds_alive >> mark >> ensure pid w.now)
  probed false w s m =
      started (announce_down setup (record s { guardian = seen false s.guardian; world = w }))
        (m >> finds_dead)

  alive_probed :
      (s : Scene)
      → Moves true s.guardian idle s.guardian probing
      → Moves true s.guardian idle (after_probe setup (is_alive s)).guardian idle
  unfolding is_alive
  alive_probed s m = let (b, w) = probe s.guardian.cfg.monitor s.world in probed b w s m

  tick_Moves : (s : Scene) → Moves true s.guardian idle (tick setup s).guardian idle
  tick_Moves s = elim (Bool-cases s.guardian.paused) [
    | inl asleep ↦ rw (tick_idle setup s (inl asleep)) (still >> skip refl (inl asleep))
    | inr active ↦ elim (Bool-cases s.guardian.cfg.enabled) [
      | inr off ↦ rw (tick_idle setup s (inr (inl off))) (still >> skip refl (inr off))
      | inl on ↦
          let begun = still >> begin_tick refl active on in
          elim (Bool-cases (is_failed s.guardian)) [
            | inl most ↦ rw (tick_idle setup s (inr (inr most))) (begun >> at_limit most)
            | inr below ↦
                rw (tick_probes setup s active on below)
                  (alive_probed s (begun >> below_limit below))
          ]
    ]
  ]

  stopped_Moves :
      {looping : Bool} {g₀ : ProjectGuardian} {p : Place} (s : Scene)
      → Moves looping g₀ p s.guardian (stopping false)
      → Moves looping g₀ p (stop_project setup s).1.guardian idle
  unfolding stop_project
  stopped_Moves s m = m >> halt

  restart_Moves :
      (s : Scene) → Moves false s.guardian idle (before_restart setup s).guardian entering
  unfolding before_restart stop_project
  restart_Moves s = still >> call_restart refl >> reset_restart >> halt_restart >> wake

  operate-Moves :
      (o : Operation) (s : Scene)
      → Moves (by_loop o) s.guardian idle (operate setup o s).guardian idle
  unfolding operate start_by_hand stop_by_hand restart_by_hand
  operate-Moves Run.ticked s = tick_Moves s
  operate-Moves by_hand_start s =
      started (announce_start setup s) (still >> call_start refl >> reset_start)
  operate-Moves by_hand_stop s = stopped_Moves (announce_stop setup s) (still >> call_stop refl)
  operate-Moves by_hand_restart s = started (before_restart setup s) (restart_Moves s)
  operate-Moves reset s = still >> call_reset refl
  operate-Moves Run.mark_failed s = still >> call_mark refl
  operate-Moves (pause b) s = still >> call_pause refl b

module _ (callers : ℕ) where
  either-Reach :
      (looping : Bool) {s : System} {g h : ProjectGuardian}
      → Moves looping g idle h idle
      → Reach s (of_loop callers g idle)
      → Reach s (of_loop callers h idle)
  either-Reach true m r = loop-Reach callers m r
  either-Reach false m r = caller-Reach callers m r

  operate_all-reached :
      (setup : Setup) (os : List Operation) (s : Scene) {start : System}
      → Reach start (of_loop callers s.guardian idle)
      → Reach start (of_loop callers (operate_all setup os s).guardian idle)
  unfolding operate_all
  operate_all-reached setup [] s r = r
  operate_all-reached setup (o ∷ os) s r =
      operate_all-reached setup os (operate setup o s)
        (either-Reach (by_loop o) (operate-Moves setup o s) r)

-- The methods as functions are one schedule of the threads: every sequence of ticks, manual
-- operations, resets and pauses, each carried out whole, is a run of the loop's thread and a
-- caller's, whatever the world answers, and ends with all threads idle.
pub operate_all-Reach :
    (setup : Setup) (os : List Operation) (cfg : Project) (w : World) (store : EventStore)
    (callers : ℕ)
    → let s : Scene = record { guardian = new_guardian cfg; world = w; store = store } in
      Reach (new_system cfg (suc callers)) (record {
        guardian = (operate_all setup os s).guardian;
        threads = idlers (suc (suc callers));
      })
operate_all-Reach setup os cfg w store callers = operate_all-reached callers setup os _ here
