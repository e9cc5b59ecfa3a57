-- ===== src/Tests/Race.antt =====
-- Threads around the guardian of the fixtures.
use daemon_go.Prelude.{All, ◌≤◌, ◌≡◌, refl, true, false, [], ◌∷◌, arith}
use daemon_go.Prelude.Int.{pos, neg_part, pos_part, increment}
use daemon_go.Guardian.{ProjectGuardian, running, new_guardian, is_failed, failed}
use daemon_go.Guardian.Run.{operate_all, ticked, by_hand_restart, pause}
use daemon_go.Guardian.Race.{
  idle, launching, resting, begin_tick, below_limit, finds_dead, admit, announce, script_fails,
  mark_failing, read_count, write_count, call_stop, halt, halted, stopping, moves, call_start,
  reset_start, Place, Move, System, Reach, here, idlers, new_system,
}
use daemon_go.Guardian.Race.Bound.{ReachUnstarted, at_rest, onward, fail_count_bounded}
use daemon_go.Guardian.Race.Overlap.{both, loop_moves, caller_moves, starts_twice, pause_overtaken}
use daemon_go.Guardian.Race.Paused.{
  is_calm, is_called, IsUncalled, since, further, paused_unstarted,
}
use daemon_go.Guardian.Race.Sequential.{operate_all-Reach}
use daemon_go.Tests.Fixtures.{api_project, dead_world, plain_setup, empty_store, fresh_scene}

abbrev after_some : System
after_some = record {
  guardian =
      (operate_all plain_setup (ticked ∷ by_hand_restart ∷ pause true ∷ [])
        (fresh_scene dead_world)).guardian;
  threads = idlers 2;
}

operate_all-Reach_example : Reach (new_system api_project 1) after_some
operate_all-Reach_example =
    operate_all-Reach plain_setup (ticked ∷ by_hand_restart ∷ pause true ∷ []) api_project
      dead_world empty_store 0

starts_twice_example :
    (h : ProjectGuardian) × Reach
      (both [] [] (new_guardian api_project) idle resting)
      (both [] [] h launching launching)
unfolding new_guardian
starts_twice_example = starts_twice [] [] (new_guardian api_project) refl refl refl

pause_overtaken_example :
    (h : ProjectGuardian) × Reach
      (both [] [] (new_guardian api_project) launching idle)
      (both [] [] h idle idle)
    × (h.paused ≡ true)
    × (h.state ≡ running)
pause_overtaken_example = pause_overtaken [] [] (new_guardian api_project)

-- A paused guardian whose project is stopped by hand.
abbrev paused_at : Place → ProjectGuardian → System
paused_at p g = both [] [] g idle p

abbrev paused_guardian : ProjectGuardian
paused_guardian = record (new_guardian api_project) { paused = true }

paused_at-IsUncalled :
    (p : Place) (g : ProjectGuardian)
    → is_called p ≡ false
    → g.paused ≡ true
    → IsUncalled (paused_at p g)
paused_at-IsUncalled p g h paused = record { paused = paused; called = (refl, (h, tt)) }

paused_unstarted_example :
    All (λ p. is_calm p ≡ true) (paused_at idle (halted paused_guardian)).threads
paused_unstarted_example =
    paused_unstarted (paused_at idle paused_guardian) (paused_at idle (halted paused_guardian))
      (refl, (refl, tt))
      (further
        (further (since (paused_at-IsUncalled idle paused_guardian refl refl))
          (moves (idle ∷ []) [] idle (stopping false) paused_guardian refl (call_stop refl) refl)
          (paused_at-IsUncalled (stopping false) paused_guardian refl refl))
        (moves (idle ∷ []) [] (stopping false) idle (halted paused_guardian) refl halt refl)
        (paused_at-IsUncalled idle (halted paused_guardian) refl refl))

-- A tick whose start fails.
failed_tick :
    {s : System} {g : ProjectGuardian}
    → Reach s (both [] [] g idle launching)
    → g.paused ≡ false
    → g.cfg.enabled ≡ true
    → is_failed g ≡ false
    → Reach s (
        both [] []
          (record g { state = failed; last_alive = false; fail_count = increment g.fail_count })
          idle
          launching)
failed_tick {s} {g} r active on below =
    go
      (go
        (go
          (go
            (go
              (go (go (go (go r (begin_tick refl active on)) (below_limit below)) finds_dead)
                (admit below))
              announce)
            script_fails)
          mark_failing)
        read_count)
      (write_count g.fail_count)
  where
    go :
        {h h' : ProjectGuardian} {p p' : Place}
        → Reach s (both [] [] h p launching)
        → Move true h p h' p'
        → Reach s (both [] [] h' p' launching)
    go r' m = loop_moves [] [] launching r' m

-- With one caller the count can pass the limit of 2: its start fails after two of the loop's.
limit_passed : (s : System) × Reach (new_system api_project 1) s × (s.guardian.fail_count ≡ pos 3)
unfolding new_guardian increment
limit_passed =
    let called =
      caller_moves [] [] idle (caller_moves [] [] idle here (call_start refl)) reset_start in
    let let_in = caller_moves [] [] idle (caller_moves [] [] idle called (admit refl)) announce in
    let twice = failed_tick (failed_tick let_in refl refl refl) refl refl refl in
    let marked =
      caller_moves [] [] idle (caller_moves [] [] idle twice script_fails) mark_failing in
    let loaded = caller_moves [] [] idle marked read_count in
    (_, caller_moves [] [] idle loaded (write_count (pos 2)), refl)

-- A tick whose start fails while a caller's thread is idle, step by step.
abbrev one_failed : System
one_failed =
    both [] [] (record (new_guardian api_project) { state = failed; fail_count = pos 1 }) idle idle

failed_once : ReachUnstarted (new_system api_project 1) one_failed
unfolding new_guardian increment
failed_once =
    go
      (go
        (go
          (go
            (go
              (go
                (go (go (go at_rest (begin_tick refl refl refl) refl) (below_limit refl) refl)
                  finds_dead refl)
                (admit refl) refl)
              announce refl)
            script_fails refl)
          mark_failing refl)
        read_count refl)
      (write_count (pos 0)) refl
  where
    go :
        {s : System} {h h' : ProjectGuardian} {p p' : Place}
        → ReachUnstarted s (both [] [] h p idle)
        → Move true h p h' p'
        → is_called p' ≡ false
        → ReachUnstarted s (both [] [] h' p' idle)
    go {s} {h} {h'} {p} {p'} r m e =
        onward r (moves [] (idle ∷ []) p p' h' refl m refl) (e, (refl, tt))

fail_count_bounded_example :
    (neg_part one_failed.guardian.fail_count ≡ 0)
    × (pos_part one_failed.guardian.fail_count ≤ pos_part api_project.max_restart_attempts)
unfolding new_guardian
fail_count_bounded_example = fail_count_bounded api_project 1 one_failed (omega arith) failed_once
