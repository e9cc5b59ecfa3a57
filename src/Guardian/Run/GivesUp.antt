-- ===== src/Guardian/Run/GivesUp.antt =====
-- The guard loop on a project that never comes up.
use daemon_go.Prelude.{ℕ, ◌<◌, ◌≡◌, false}
use daemon_go.Prelude.Int.{pos}
use daemon_go.Os.{World}
use daemon_go.Config.{Project}
use daemon_go.Guardian.{Scene, failed}
use daemon_go.Guardian.Start.Outcome.{Outcome}
use daemon_go.Actions.Allowed.{Platform}
use daemon_go.Guardian.Run.Script.{RanTimes, HasScript, start_script_cmd}
use daemon_go.Guardian.Run.Dead.{IsDead}

-- After `n` failures in a row, of at most `m`, each of which ran the start script.
record Doomed (p : Platform) (start : World) (cfg : Project) (m n : ℕ) (s : Scene) : Type 0 where
  same_cfg : s.guardian.cfg ≡ cfg
  running_on : s.guardian.paused ≡ false
  counted : s.guardian.fail_count ≡ pos n
  shown : 0 < n → s.guardian.state ≡ failed
  dead : IsDead cfg.monitor s.world
  script : HasScript cfg s.world
  ran : RanTimes (start_script_cmd p cfg) n start s.world
