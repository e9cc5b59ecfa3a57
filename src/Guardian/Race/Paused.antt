-- ===== src/Guardian/Race/Paused.antt =====
-- A guardian of internal/project/guardian.go that is paused, with all its threads.
use daemon_go.Prelude.{◌≡◌, not, Bool, true, false, List, [], ◌∷◌, ◌++◌, All, arith}
use daemon_go.Guardian.{ProjectGuardian, set_paused}
use daemon_go.Guardian.Race.{
  Place, unpaused, probing, entering, admitted, launching, by_hand, restarting, stopping, resting,
  Move, begin_tick, System, Step, moves, no_threads,
}

-- on no way to a start
abbrev pub is_calm : Place → Bool
is_calm unpaused = false
is_calm probing = false
is_calm entering = false
is_calm admitted = false
is_calm launching = false
is_calm by_hand = false
is_calm restarting = false
is_calm (stopping again) = not again
is_calm resting = false
is_calm _ = true

-- in a manual start or restart that has just been called
abbrev pub is_called : Place → Bool
is_called by_hand = true
is_called restarting = true
is_called _ = false

-- The guardian is paused, and no thread has just been called for a start.
pub record IsUncalled (s : System) : Type 0 where
  pub paused : s.guardian.paused ≡ true
  pub called : All (λ p. is_called p ≡ false) s.threads

-- A run on which the guardian stays paused, and no manual start or restart is called.
pub data ReachPaused (s : System) : System → Type 0 where
  since : IsUncalled s → ReachPaused s s
  further : {t u : System} → ReachPaused s t → Step t u → IsUncalled u → ReachPaused s u

Move-calm :
    (looping : Bool) (g g' : ProjectGuardian) (p p' : Place)
    → Move looping g p g' p'
    → g.paused ≡ true
    → is_calm p ≡ true
    → is_called p' ≡ false
    → is_calm p' ≡ true
unfolding set_paused
Move-calm looping g g' p p' (begin_tick _ active _) paused calm called = cc
Move-calm looping g g' p p' m paused calm called = ground arith

-- A predicate of threads over the step of one of them.
module _ (P : Place → Type 0) where
  pub All-middle :
      (before after : List Place) (p p' : Place)
      → All P (before ++ p ∷ after)
      → (P p × (P p' → All P (before ++ p' ∷ after)))
  All-middle [] after p p' (h, hs) = (h, λ h'. (h', hs))
  All-middle (q ∷ before) after p p' (h, hs) =
      let (here, back) = All-middle before after p p' hs in (here, λ h'. (h, back h'))

ReachPaused-IsUncalled : {s : System} {t : System} → ReachPaused s t → IsUncalled t
ReachPaused-IsUncalled (since h) = h
ReachPaused-IsUncalled (further r st h) = h

Step-calm :
    {s t : System}
    → Step s t
    → s.guardian.paused ≡ true
    → IsUncalled t
    → All (λ p. is_calm p ≡ true) s.threads
    → All (λ p. is_calm p ≡ true) t.threads
Step-calm {s} {t} (moves before after p p' g e m e') paused h calm =
    let (here, back) = All-middle (λ p. is_calm p ≡ true) before after p p' (rw e at calm) in
    let called = (All-middle (λ p. is_called p ≡ false) before after p' p (rw e' at h.called)).0 in
    rw e' (back (Move-calm (no_threads before) s.guardian g p p' m paused here called))

-- While a guardian is paused, and no manual start or restart is called, no thread comes near the
-- start script, in whatever order the loop, manual stops, resets and pauses make their accesses, if
-- no start was under way at the beginning.
pub paused_unstarted :
    (s t : System)
    → All (λ p. is_calm p ≡ true) s.threads
    → ReachPaused s t
    → All (λ p. is_calm p ≡ true) t.threads
paused_unstarted s t calm (since h) = calm
paused_unstarted s t calm (further r st h) =
    Step-calm st (ReachPaused-IsUncalled r).paused h (paused_unstarted s _ calm r)
