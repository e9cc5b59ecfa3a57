-- ===== src/Guardian/Run.antt =====
-- Every operation on a guardian of internal/project/guardian.go, and runs of them in any order.
pub mod Invariant
pub mod Dead
pub mod GivesUp
pub mod Script
use daemon_go.Prelude.{Bool, List, [], ◌∷◌}
use daemon_go.Config.{Project}
use daemon_go.Guardian.{Setup, Scene, failed, set_state, set_paused, reset_fail_count, new_guardian}
use daemon_go.Guardian.Start.{start_by_hand, stop_by_hand, restart_by_hand}
use daemon_go.Guardian.Tick.{tick}

pub data Operation : Type 0 where
  ticked by_hand_start by_hand_stop by_hand_restart reset mark_failed : Operation
  pause : Bool → Operation

unfoldable pub operate : Setup → Operation → Scene → Scene
operate setup ticked s = tick setup s
operate setup by_hand_start s = (start_by_hand setup s).1
operate setup by_hand_stop s = (stop_by_hand setup s).1
operate setup by_hand_restart s = (restart_by_hand setup s).1
operate setup reset s = reset_fail_count s
operate setup mark_failed s = set_state failed s
operate setup (pause paused) s = record s { guardian = set_paused paused s.guardian }

unfoldable pub operate_all : Setup → List Operation → Scene → Scene
operate_all setup [] s = s
operate_all setup (o ∷ os) s = operate_all setup os (operate setup o s)
