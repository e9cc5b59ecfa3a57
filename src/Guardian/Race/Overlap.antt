-- ===== src/Guardian/Race/Overlap.antt =====
-- Operations on one guardian of internal/project/guardian.go that overlap.
use daemon_go.Prelude.{◌≡◌, refl, true, false, List, [], ◌∷◌, ◌++◌, arith}
use daemon_go.Prelude.Int.{pos, ltb_ℤ, leb_ℤ}
use daemon_go.Guardian.{ProjectGuardian, running, set_paused}
use daemon_go.Guardian.Race.{
  Place, idle, launching, resting, Move, begin_tick, below_limit, finds_dead, admit, announce,
  comes_up, mark_up, clear, date, locate, call_pause, wake, System, moves, Reach, here, next,
}

module _ (before after : List Place) where
  -- the loop at `p`, and a caller at `q` behind some others
  abbrev pub both : ProjectGuardian → Place → Place → System
  both h p q = record { guardian = h; threads = p ∷ (before ++ q ∷ after) }

  pub loop_moves :
      {s : System} {h h' : ProjectGuardian} {p p' : Place} (q : Place)
      → Reach s (both h p q)
      → Move true h p h' p'
      → Reach s (both h' p' q)
  loop_moves {h} {h'} {p} {p'} q r m = next r (moves [] (before ++ q ∷ after) p p' h' refl m refl)

  pub caller_moves :
      {s : System} {h h' : ProjectGuardian} (p : Place) {q q' : Place}
      → Reach s (both h p q)
      → Move false h q h' q'
      → Reach s (both h' p q')
  caller_moves {h} {h'} p {q} {q'} r m = next r (moves (p ∷ before) after q q' h' refl m refl)

  module _ (g : ProjectGuardian) where
    -- While a manual restart of an enabled project that is not paused rests between its stop and its
    -- start, a tick can start the project too, if at least one attempt is configured: both threads are
    -- then past their checks and about to run the start script.
    pub starts_twice :
        g.paused ≡ false
        → g.cfg.enabled ≡ true
        → ltb_ℤ (pos 0) g.cfg.max_restart_attempts ≡ true
        → (h : ProjectGuardian) × Reach (both g idle resting) (both h launching launching)
    starts_twice active enabled attempts =
        let below : leb_ℤ g.cfg.max_restart_attempts (pos 0) ≡ false = ground arith in
        let asleep = caller_moves idle here wake in
        let called = caller_moves idle (caller_moves idle asleep (admit below)) announce in
        let ticked = loop_moves launching called (begin_tick refl active enabled) in
        let probed = loop_moves launching ticked (below_limit below) in
        let down = loop_moves launching probed finds_dead in
        (_, loop_moves launching (loop_moves launching down (admit below)) announce)

    -- A start that is under way when the guardian is paused goes on: with the script done, it leaves a
    -- project that is paused, and whose state is RUNNING.
    pub pause_overtaken :
        (h : ProjectGuardian) × Reach (both g launching idle) (both h idle idle)
        × (h.paused ≡ true)
        × (h.state ≡ running)
    unfolding set_paused
    pause_overtaken =
        let paused = caller_moves launching here (call_pause refl true) in
        let started = loop_moves idle (loop_moves idle paused comes_up) mark_up in
        let dated = loop_moves idle (loop_moves idle started clear) (date 0) in
        (_, loop_moves idle dated (locate 0), refl, refl)
