-- ===== src/Guardian/Race/Bound.antt =====
-- How far the failure count of internal/project/guardian.go goes when a guardian's guard loop runs
-- beside manual stops, resets and pauses.
use daemon_go.Prelude.{
  ℕ, suc, zero, ◌+◌, ◌≤◌, ◌≡◌, ◌⊎◌, inl, inr, refl, Bool, true, false, List, [], ◌∷◌, All, arith,
}
use daemon_go.Prelude.Int.{ℤ, pos, pos_part, neg_part, max_int, increment}
use daemon_go.Config.{Project}
use daemon_go.Guardian.{ProjectGuardian, set_paused, new_guardian}
use daemon_go.Guardian.Race.{
  Place, idle, admitted, launching, failing, counting, tallied, stopping, Move, admit, read_count,
  begin_tick, write_count, call_reset, call_pause, System, Step, moves, idlers, new_system,
}
use daemon_go.Guardian.Race.Paused.{is_called, All-middle}

-- No thread has just been called for a start by hand.
abbrev pub IsUnstarted : List Place → Type 0
IsUnstarted ps = All (λ p. is_called p ≡ false) ps

-- A run on which no manual start or restart is called.
pub data ReachUnstarted (s : System) : System → Type 0 where
  at_rest : ReachUnstarted s s
  onward :
      {t u : System} → ReachUnstarted s t → Step t u → IsUnstarted u.threads → ReachUnstarted s u

-- a caller's thread that is in no start
abbrev is_quiet : Place → Bool
is_quiet idle = true
is_quiet (stopping false) = true
is_quiet _ = false

-- a start that was let in and may still be counted as a failure
abbrev weight : Place → ℕ
weight admitted = 1
weight launching = 1
weight failing = 1
weight counting = 1
weight (tallied n) = 1
weight _ = 0

-- the count to which a failed start will add
abbrev base : ProjectGuardian → Place → ℤ
base g (tallied n) = n
base g _ = g.fail_count

-- What holds of a guardian while the thread of its loop is at `p`.
record IsWithin (cfg : Project) (g : ProjectGuardian) (p : Place) : Type 0 where
  same : g.cfg ≡ cfg
  nonneg : neg_part g.fail_count ≡ 0
  loaded : neg_part (base g p) ≡ 0
  within : pos_part g.fail_count ≤ pos_part cfg.max_restart_attempts
  fits : pos_part (base g p) + weight p ≤ pos_part cfg.max_restart_attempts

module _ (cfg : Project) (room : pos_part cfg.max_restart_attempts ≤ max_int) where
  -- a move of the loop
  Move-IsWithin :
      (looping : Bool) (g g' : ProjectGuardian) (p p' : Place)
      → Move looping g p g' p'
      → IsWithin cfg g p
      → IsWithin cfg g' p'
  unfolding increment set_paused
  Move-IsWithin looping g g' p p' (admit below) h = ground arith
  Move-IsWithin looping g g' p p' read_count h = ground arith
  Move-IsWithin looping g g' p p' (write_count n) h = ground arith
  Move-IsWithin looping g g' p p' (call_pause _ true) h = ground arith
  Move-IsWithin looping g g' p p' (call_pause _ false) h = ground arith
  Move-IsWithin looping g g' p p' m h = ground arith

-- What a caller's thread that is in no start does.
record IsHarmless (g g' : ProjectGuardian) (p' : Place) : Type 0 where
  same : g'.cfg ≡ g.cfg
  count : (g'.fail_count ≡ g.fail_count) ⊎ (g'.fail_count ≡ pos 0)
  quiet : is_quiet p' ≡ true

Move-IsHarmless :
    (looping : Bool) (g g' : ProjectGuardian) (p p' : Place)
    → Move looping g p g' p'
    → is_quiet p ≡ true
    → looping ≡ false
    → is_called p' ≡ false
    → IsHarmless g g' p'
unfolding set_paused
Move-IsHarmless looping g g' p p' (call_pause _ true) quiet l called = record {
  same = refl;
  count = inl refl;
  quiet = refl;
}
Move-IsHarmless looping g g' p p' (call_pause _ false) quiet l called = record {
  same = refl;
  count = inl refl;
  quiet = refl;
}
Move-IsHarmless looping g g' p p' (call_reset _) quiet l called = record {
  same = refl;
  count = inr refl;
  quiet = refl;
}
Move-IsHarmless looping g g' p p' (begin_tick l' _ _) quiet l called = cc
Move-IsHarmless looping g g' p p' m quiet l called = ground arith

IsHarmless-IsWithin :
    (cfg : Project) (g g' : ProjectGuardian) (p p' : Place)
    → IsHarmless g g' p'
    → IsWithin cfg g p
    → IsWithin cfg g' p
IsHarmless-IsWithin cfg g g' (tallied n) p' m h = ground arith
IsHarmless-IsWithin cfg g g' p p' m h = ground arith

-- The loop's thread and the others.
IsBounded : Project → ProjectGuardian → List Place → Type 0
IsBounded cfg g [] = IsWithin cfg g idle
IsBounded cfg g (p ∷ ps) = IsWithin cfg g p × All (λ q. is_quiet q ≡ true) ps

module _ (cfg : Project) (room : pos_part cfg.max_restart_attempts ≤ max_int) where
  Step-IsBounded :
      {s t : System}
      → Step s t
      → IsUnstarted t.threads
      → IsBounded cfg s.guardian s.threads
      → IsBounded cfg t.guardian t.threads
  unfolding IsBounded
  Step-IsBounded {s} {t} (moves [] after p p' g e m e') u b =
      let (here, there) = rw e at b in
      rw e' (Move-IsWithin cfg room true s.guardian g p p' m here, there)
  Step-IsBounded {s} {t} (moves (q ∷ before) after p p' g e m e') u b =
      let (here, there) = rw e at b in
      let (quiet, back) = All-middle (λ q'. is_quiet q' ≡ true) before after p p' there in
      let called =
        (All-middle (λ q'. is_called q' ≡ false) (q ∷ before) after p' p (rw e' at u)).0 in
      let harmless = Move-IsHarmless false s.guardian g p p' m quiet refl called in
      rw e' (IsHarmless-IsWithin cfg s.guardian g q p' harmless here, back harmless.quiet)

  ReachUnstarted-IsBounded :
      {s t : System}
      → IsBounded cfg s.guardian s.threads
      → ReachUnstarted s t
      → IsBounded cfg t.guardian t.threads
  ReachUnstarted-IsBounded b at_rest = b
  ReachUnstarted-IsBounded b (onward r st u) = Step-IsBounded st u (ReachUnstarted-IsBounded b r)

IsBounded-IsWithin :
    (cfg : Project) (g : ProjectGuardian) (ps : List Place)
    → IsBounded cfg g ps
    → (p : Place) × IsWithin cfg g p
unfolding IsBounded
IsBounded-IsWithin cfg g [] b = (idle, b)
IsBounded-IsWithin cfg g (p ∷ ps) (h, hs) = (p, h)

idlers-quiet : (n : ℕ) → All (λ q. is_quiet q ≡ true) (idlers n)
idlers-quiet zero = tt
idlers-quiet (suc n) = (refl, idlers-quiet n)

-- While nobody calls for a start by hand, the failure count of a new guardian is never negative and
-- never above the limit, in whatever order the guard loop and `callers` threads with manual stops,
-- resets and pauses make their accesses, the load and the store of failCount++ among them, if the
-- limit is an int64.
pub fail_count_bounded :
    (cfg : Project) (callers : ℕ) (s : System)
    → pos_part cfg.max_restart_attempts ≤ max_int
    → ReachUnstarted (new_system cfg callers) s
    → (neg_part s.guardian.fail_count ≡ 0)
      × (pos_part s.guardian.fail_count ≤ pos_part cfg.max_restart_attempts)
unfolding new_guardian IsBounded
fail_count_bounded cfg callers s room r =
    let (p, h) =
      IsBounded-IsWithin cfg s.guardian s.threads (ReachUnstarted-IsBounded cfg room start r) in
    (h.nonneg, h.within)
  where
    start : IsBounded cfg (new_system cfg callers).guardian (new_system cfg callers).threads
    start = (
      record {
        same = refl;
        nonneg = refl;
        loaded = refl;
        within = omega arith;
        fits = omega arith;
      },
      idlers-quiet callers,
    )
