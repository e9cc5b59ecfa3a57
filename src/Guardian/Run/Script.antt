-- ===== src/Guardian/Run/Script.antt =====
-- The start script in a start of a project that never comes up.
use daemon_go.Prelude.{
  ℕ, zero, suc, ◌≡◌, refl, sym, ap, ◌∙◌, true, false, Bool, List, [], ◌∷◌, ◌++◌, append_assoc, Text,
  codes, ◌==◌, trim_func,
}
use daemon_go.Os.{Cmd, World, run_cmd, start_cmd, stat}
use daemon_go.Os.Oracle.{SameOracle, SameOracle-trans, SameOracle-disk}
use daemon_go.Config.{Project}
use daemon_go.Actions.Allowed.{Platform}
use daemon_go.Actions.Oracle.{SameOracle-run_start_script}
use daemon_go.Actions.Scripts.{sanitize_script_path, script_cmd, start_found, run_start_script}
use daemon_go.Guardian.{Setup, Scene, is_failed}
use daemon_go.Guardian.Start.{announce_project_start, run_actions, launch, start_project}
use daemon_go.Guardian.Run.Dead.{
  IsDead-SameOracle, Dead, after_script-Failed, SameOracle-run_actions,
}

-- The command is among those that were started in between.
abbrev pub Ran : Cmd → World → World → Type 0
Ran c w w' = (before : List Cmd) × (after : List Cmd) × (w'.ran ≡ w.ran ++ (before ++ c ∷ after))

pub Ran-later : (c : Cmd) (u v w : World) → SameOracle u v → Ran c v w → Ran c u w
Ran-later c u v w same (before, after, e) = (
  same.ran.0 ++ before,
  after,
  e
      ∙ ap (λ l. l ++ (before ++ c ∷ after)) same.ran.1
      ∙ append_assoc u.ran same.ran.0 (before ++ c ∷ after)
      ∙ ap (λ l. u.ran ++ l) (sym (append_assoc same.ran.0 before (c ∷ after))),
)

pub Ran-more : (c : Cmd) (u v w : World) → Ran c u v → SameOracle v w → Ran c u w
Ran-more c u v w (before, after, e) same = (
  before,
  after ++ same.ran.0,
  same.ran.1
      ∙ ap (λ l. l ++ same.ran.0) e
      ∙ append_assoc u.ran (before ++ c ∷ after) same.ran.0
      ∙ ap (λ l. u.ran ++ l) (append_assoc before (c ∷ after) same.ran.0),
)

-- The command was started at least so many times.
abbrev pub RanTimes : Cmd → ℕ → World → World → Type 0
RanTimes c zero w w' = (more : List Cmd) × (w'.ran ≡ w.ran ++ more)
RanTimes c (suc n) w w' = (v : World) × RanTimes c n w v × Ran c v w'

pub RanTimes-more :
    (c : Cmd) (n : ℕ) (u v w : World) → RanTimes c n u v → SameOracle v w → RanTimes c n u w
RanTimes-more c zero u v w (more, e) same = (
  more ++ same.ran.0,
  same.ran.1 ∙ ap (λ l. l ++ same.ran.0) e ∙ append_assoc u.ran more same.ran.0,
)
RanTimes-more c (suc n) u v w (x, times, last_run) same = (x, times, Ran-more c x v w last_run same)

-- The project has a start script, and its file is there at any time.
pub record HasScript (cfg : Project) (w : World) : Type 0 where
  pub named : (sanitize_script_path cfg.start_script == []) ≡ false
  pub there : (n : ℕ) → w.exists n (sanitize_script_path cfg.start_script) ≡ true

pub HasScript-SameOracle :
    (cfg : Project) (w w' : World) → SameOracle w w' → HasScript cfg w → HasScript cfg w'
HasScript-SameOracle cfg w w' same h = record {
  named = h.named;
  there = λ n.
      ap (λ (f : ℕ → Text → Bool). f n (sanitize_script_path cfg.start_script)) same.exists
      ∙ h.there n;
}

-- the command with which a project is started
abbrev pub start_script_cmd : Platform → Project → Cmd
start_script_cmd p cfg =
    script_cmd p (sanitize_script_path cfg.start_script) (p.dir cfg.start_script)

start_found-Ran :
    (p : Platform) (script dir : Text) (sync found : Bool) (w : World)
    → found ≡ true
    → Ran (script_cmd p script dir) w (start_found p script dir sync (found, w)).1
unfolding start_found run_cmd start_cmd
start_found-Ran p script dir sync false w e = cc
start_found-Ran p script dir true true w e = ([], [], refl)
start_found-Ran p script dir false true w e = ([], [], refl)

run_start_script-Ran :
    (p : Platform) (cfg : Project) (sync : Bool) (w : World)
    → HasScript cfg w
    → Ran
        (start_script_cmd p cfg)
        w
        (run_start_script p cfg.start_script (p.dir cfg.start_script) sync w).1
unfolding run_start_script stat
run_start_script-Ran p cfg sync w h =
    let script = sanitize_script_path cfg.start_script in
    rw h.named (
      start_found-Ran p script (p.dir cfg.start_script) sync (stat script w).0 (stat script w).1
        (h.there w.calls))

full_name : (script : Text) → (sanitize_script_path script == []) ≡ false → (script == []) ≡ false
unfolding sanitize_script_path trim_func ◌==◌
full_name [] h = h
full_name (c ∷ script) h = refl

module _ (setup : Setup) where
  launch-Ran :
      (s : Scene)
      → Dead s
      → HasScript s.guardian.cfg s.world
      → Ran (start_script_cmd setup.platform s.guardian.cfg) s.world (launch setup s).1.world
  unfolding launch
  launch-Ran s dead h =
      let cfg = s.guardian.cfg in
      let dir = setup.platform.dir cfg.start_script in
      let sync = cfg.start_mode == codes "sync" in
      let (err, w) = run_start_script setup.platform cfg.start_script dir sync s.world in
      let same = SameOracle-run_start_script s.world setup.platform cfg.start_script dir sync in
      let (failed, same') =
        after_script-Failed setup err (record s { world = w })
          (IsDead-SameOracle cfg.monitor s.world w same dead) in
      rw (full_name cfg.start_script h.named) (
        Ran-more (start_script_cmd setup.platform cfg) s.world w _
          (run_start_script-Ran setup.platform cfg sync s.world h) same')

  -- Below its limit a start of a dead project runs its script.
  pub start_project-Ran :
      (s : Scene)
      → Dead s
      → HasScript s.guardian.cfg s.world
      → is_failed s.guardian ≡ false
      → Ran (start_script_cmd setup.platform s.guardian.cfg) s.world (start_project setup s).1.world
  unfolding start_project
  start_project-Ran s dead h fewer =
      let cfg = s.guardian.cfg in
      let s₁ = announce_project_start setup s in
      let w = run_actions setup cfg.pre_actions s₁.world in
      let same =
        SameOracle-trans (SameOracle-disk s.world s₁.world.disk)
          (SameOracle-run_actions setup cfg.pre_actions s₁.world) in
      rw fewer (
        Ran-later (start_script_cmd setup.platform cfg) s.world w
          (launch setup (record s₁ { world = w })).1.world same
          (launch-Ran (record s₁ { world = w }) (IsDead-SameOracle cfg.monitor s.world w same dead)
            (HasScript-SameOracle cfg s.world w same h)))
