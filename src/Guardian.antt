-- ===== src/Guardian.antt =====
-- internal/project/guardian.go: one guarded project. A method is a function on a `Scene`: the
-- guardian, the world and the event store that it shares. Methods run one at a time
-- but in `Race`; log lines are left out.
pub mod Probe
pub mod Start
pub mod Tick
pub mod Run
pub mod Race
use daemon_go.Prelude.{
  ℕ, Bool, true, false, Option, none, some, List, [], ◌∷◌, ◌++◌, Text, codes, if◌then◌else◌,
}
use daemon_go.Prelude.Int.{ℤ, pos, leb_ℤ}
use daemon_go.Os.{Error, World}
use daemon_go.Config.{Project}
use daemon_go.Events.{EventType, EventStore, Json, add}
use daemon_go.Actions.Allowed.{Platform}
use daemon_go.Actions.Registry.{Registry}

pub data State : Type 0 where
  init running stopped starting failed paused_state : State

-- what a guardian is built with and never changes
pub record Setup : Type 0 where
  pub json : Json
  pub platform : Platform
  pub registry : Registry

pub record ProjectGuardian : Type 0 where
  pub cfg : Project
  pub state : State
  pub paused : Bool
  pub pid : ℤ
  pub start_time : Option ℕ  -- `none` is the zero time
  pub fail_count : ℤ
  pub last_alive : Bool
  pub stop_ch : ℕ → Bool  -- whether `stopCh` is closed when the world's n-th call is made

pub record Scene : Type 0 where
  pub guardian : ProjectGuardian
  pub world : World
  pub store : EventStore

unfoldable pub new_guardian : Project → ProjectGuardian
new_guardian cfg = record {
  cfg = cfg;
  state = init;
  paused = false;
  pid = pos 0;
  start_time = none;
  fail_count = pos 0;
  last_alive = false;
  stop_ch = λ n. false;
}

-- g.logger.Events.Add(kind, target, message, detail)
abbrev pub emit_to :
    Setup → EventType → Text → Text → Text → World → EventStore → EventStore × World
emit_to setup kind target message detail w store =
    let (store', disk) = add setup.json kind target message detail w.now store w.disk in
    (store', record w { disk = disk })

abbrev pub emit : Setup → EventType → Text → Text → Scene → Scene
emit setup kind message detail s =
    let (store, world) = emit_to setup kind s.guardian.cfg.name message detail s.world s.store in
    record s { store = store; world = world }

abbrev pub set_state : State → Scene → Scene
set_state st s = record s { guardian = record s.guardian { state = st } }

abbrev pub reset_fail_count : Scene → Scene
reset_fail_count s = record s { guardian = record s.guardian { fail_count = pos 0 } }

unfoldable pub set_paused : Bool → ProjectGuardian → ProjectGuardian
set_paused paused g = record g { paused = paused; state = if paused then paused_state else init }

-- isFailedLocked
abbrev pub is_failed : ProjectGuardian → Bool
is_failed g = leb_ℤ g.cfg.max_restart_attempts g.fail_count
