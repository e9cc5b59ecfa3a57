-- ===== src/Manager/Stop/Once.antt =====
-- internal/project/manager.go: stopping, and waits that a stop ends.
use daemon_go.Prelude.{
  ℕ, zero, suc, ◌+◌, ◌≤◌, ◌≡◌, ◌↔◌, ◌≢◌, ◌⊎◌, inl, inr, refl, Bool, true, false, ◌||◌, Option, none,
  some, [], ◌∷◌, All, Text, Dict, leb, arith,
}
use mathlib.Core.Option
use daemon_go.Os.{World, run_cmd, dial}
use daemon_go.Config.{MonitorConfig}
use daemon_go.Guardian.{ProjectGuardian, Scene}
use daemon_go.Guardian.Probe.{is_alive, wait_for_startup, wait_loop, wait_round, is_stopped, probe}
use daemon_go.Actions.Scripts.{check_port, check_process}
use daemon_go.Manager.{Daemon}
use daemon_go.Manager.Stop.{
  waited, consed, close_stop, close_all, longest, ten_seconds, stop_manager,
}

-- the channel of a guardian is closed
abbrev pub IsStopped : ℕ → ProjectGuardian → Type 0
IsStopped calls g = (n : ℕ) → calls ≤ n → g.stop_ch n ≡ true

calls-probe : (m : MonitorConfig) (w : World) → w.calls ≤ (probe m w).1.calls
unfolding probe check_port check_process run_cmd dial
calls-probe m w = ground arith

wait_round-IsStopped :
    (deadline : ℕ) (s : Scene) (rest : Bool × Scene)
    → is_stopped (is_alive s).1 ≡ true
    → wait_round deadline s rest ≡ is_alive s
unfolding wait_round
wait_round-IsStopped deadline s rest h = ground (arith, h)

is_alive-IsStopped :
    (s : Scene) → IsStopped s.world.calls s.guardian → is_stopped (is_alive s).1 ≡ true
unfolding is_alive
is_alive-IsStopped s h =
    h (probe s.guardian.cfg.monitor s.world).1.calls (calls-probe s.guardian.cfg.monitor s.world)

wait_loop-IsStopped :
    (f deadline : ℕ) (s : Scene)
    → IsStopped s.world.calls s.guardian
    → wait_loop f deadline s ≡ is_alive s
unfolding wait_loop
wait_loop-IsStopped zero deadline s h = refl
wait_loop-IsStopped (suc f) deadline s h =
    wait_round-IsStopped deadline s _ (is_alive-IsStopped s h)

-- In a guardian that was stopped, waitForStartup probes once and returns what it saw, however long
-- the startup timeout is.
pub wait_for_startup-IsStopped :
    (s : Scene) → IsStopped s.world.calls s.guardian → wait_for_startup s ≡ is_alive s
unfolding wait_for_startup
wait_for_startup-IsStopped s h = wait_loop-IsStopped _ _ s h

-- no channel of a guardian is closed
abbrev pub AllOpen : ℕ → Dict ProjectGuardian → Type 0
AllOpen calls = All (λ e. e.1.stop_ch calls ≡ false)

abbrev pub AllStopped : ℕ → Dict ProjectGuardian → Type 0
AllStopped calls = All (λ e. IsStopped calls e.1)

close_all-AllOpen :
    (calls : ℕ) (gs : Dict ProjectGuardian)
    → AllOpen calls gs
    → (gs' : Dict ProjectGuardian) × (close_all calls gs ≡ some gs') × AllStopped calls gs'
unfolding close_all
close_all-AllOpen calls [] h = ([], refl, tt)
close_all-AllOpen calls ((name, g) ∷ gs) (closed, rest) =
    let (gs', e, stopped) = close_all-AllOpen calls gs rest in
    (
      (name, record g { stop_ch = λ n. g.stop_ch n || leb calls n }) ∷ gs',
      rw (closed, e) refl,
      ((λ n h. ground (arith, h)), stopped),
    )

longest-le :
    (returns : Text → ℕ) (t : ℕ) (gs : Dict ProjectGuardian)
    → (leb (longest returns gs) t ≡ true) ↔ All (λ g. returns g.0 ≤ t) gs
unfolding longest
longest-le returns t [] = ((λ h. tt), (λ h. ground arith))
longest-le returns t ((name, g) ∷ gs) =
    let ih = longest-le returns t gs in
    ((λ h. ((ground (arith, h)), ih.0 (ground (arith, h)))), (λ h. ground (arith, h.0, ih.1 h.1)))

consed-ne-nil :
    (name : Text) (o : Option ProjectGuardian) (os : Option (Dict ProjectGuardian))
    → consed name o os ≢ some []
consed-ne-nil name none os e = cc
consed-ne-nil name (some g) none e = cc
consed-ne-nil name (some g) (some gs) e = cc

again :
    (calls : ℕ) (gs gs' : Dict ProjectGuardian)
    → close_all calls gs ≡ some gs'
    → AllStopped calls gs'
    → (gs ≡ []) ⊎ (close_all calls gs' ≡ none)
unfolding close_all
again calls [] gs' e h = inl refl
again calls ((name, g) ∷ gs) [] e h =
    absurd (consed-ne-nil name (close_stop calls g) (close_all calls gs) e)
again calls ((name, g) ∷ gs) ((name', g') ∷ gs') e (h, rest) = inr (rw (h calls (omega arith)) refl)

map-none_or {ℓ κ μ} :
    {A : Type ℓ} {B : Type κ} {P : Type μ} (f : A → B) (o : Option A)
    → P ⊎ (o ≡ none)
    → P ⊎ (Option.map f o ≡ none)
map-none_or f o (inl p) = inl p
map-none_or f o (inr e) = inr (rw e refl)

-- The first Stop of a manager, with every channel open, closes the channel of every guardian, takes at most ten seconds, and
-- says that all have stopped exactly if each loop returns within ten seconds. A second Stop panics,
-- unless there is no guardian.
pub stop_manager_once :
    (returns : Text → ℕ) (d : Daemon)
    → AllOpen d.world.calls d.manager.guardians
    → (done : Bool) × (e : Daemon) × (stop_manager returns d ≡ some (done, e))
      × AllStopped d.world.calls e.manager.guardians
      × (e.world.now ≤ d.world.now + ten_seconds)
      × ((d.manager.guardians ≡ []) ⊎ (stop_manager returns e ≡ none))
      × ((done ≡ true) ↔ All (λ g. returns g.0 ≤ ten_seconds) d.manager.guardians)
unfolding stop_manager
stop_manager_once returns d h =
    let (gs, e, stopped) = close_all-AllOpen d.world.calls d.manager.guardians h in
    let left = waited (longest returns d.manager.guardians) d gs in
    (
      left.0,
      left.1,
      rw e refl,
      stopped,
      omega arith,
      map-none_or _ _ (again d.world.calls d.manager.guardians gs e stopped),
      longest-le returns ten_seconds d.manager.guardians,
    )
