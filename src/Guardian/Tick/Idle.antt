-- ===== src/Guardian/Tick/Idle.antt =====
-- Ticks that do nothing.
use daemon_go.Prelude.{ℕ, zero, suc, ◌≡◌, ◌⊎◌, refl, ap, ◌∙◌, true, false, arith}
use daemon_go.Guardian.{Setup, Scene, is_failed}
use daemon_go.Guardian.Probe.{is_alive}
use daemon_go.Guardian.Tick.{after_probe, tick, ticks}

-- The guard loop leaves the project alone: paused, disabled, or at the limit of failures.
abbrev pub IsIdle : Scene → Type 0
IsIdle s =
    (s.guardian.paused ≡ true) ⊎ (s.guardian.cfg.enabled ≡ false) ⊎ (is_failed s.guardian ≡ true)

pub tick_idle : (setup : Setup) (s : Scene) → IsIdle s → tick setup s ≡ s
unfolding tick
tick_idle setup s h = ground arith

-- While a project is paused, disabled or at its limit of failures, no number of ticks changes
-- anything: nothing is probed, started or recorded.
pub ticks_idle : (setup : Setup) (n : ℕ) (s : Scene) → IsIdle s → ticks setup n s ≡ s
unfolding ticks
ticks_idle setup zero s h = refl
ticks_idle setup (suc n) s h = ap (ticks setup n) (tick_idle setup s h) ∙ ticks_idle setup n s h

-- Every other tick probes the project.
pub tick_probes :
    (setup : Setup) (s : Scene)
    → s.guardian.paused ≡ false
    → s.guardian.cfg.enabled ≡ true
    → is_failed s.guardian ≡ false
    → tick setup s ≡ after_probe setup (is_alive s)
unfolding tick
tick_probes setup s h e f = ground arith
