-- ===== src/Main.antt =====
-- cmd/daemon/main.go: the configuration of an instance, and what the handler of the service starts.
pub mod Guarded
pub mod Flags
pub mod Console
pub mod Boot
pub mod Stop
use daemon_go.Prelude.{Bool, true, false, not, List, [], ◌∷◌, Text, codes, ◌==◌, if◌then◌else◌}
use daemon_go.Os.{Disk}
use daemon_go.Config.{DaemonConfig, PeerConfig}
use daemon_go.Config.Files.{load_state, paused}
use daemon_go.Manager.{Manager, set_all_paused, start, reset_all}

-- cfg.Instance, cfg.Peer.InstanceID and cfg.AuthToken, as main sets them
unfoldable pub instance_config : Text → Text → DaemonConfig → DaemonConfig
instance_config instance_name token cfg = record cfg {
  instance_name = instance_name;
  peer = record cfg.peer {
    instance_id = if instance_name == codes "a" then codes "b" else codes "a";
  };
  auth_token = token;
}

-- what runs once the service is up
pub record Started : Type 0 where
  pub manager : Manager
  pub watching : Bool  -- the peer watcher's loop

-- daemonHandler.Start with PeerWatcher.Start; each guardian in the manager has its loop
unfoldable pub start_daemon : Manager → Disk → Started
unfolding load_state set_all_paused start
start_daemon m disk = record {
  manager =
      if m.cfg.instance_name == codes "a"
      then if load_state m.cfg disk == paused then set_all_paused true m else start m
      else m;
  watching = not (m.cfg.peer.instance_id == []);
}

-- what the console does to all projects
pub data GlobalCall : Type 0 where
  pause_call resume_call reset_call : GlobalCall

unfoldable pub run_global : GlobalCall → Manager → Manager
unfolding set_all_paused reset_all
run_global pause_call m = set_all_paused true m
run_global resume_call m = set_all_paused false m
run_global reset_call m = reset_all m

unfoldable pub run_globals : List GlobalCall → Manager → Manager
unfolding run_global
run_globals [] m = m
run_globals (c ∷ cs) m = run_globals cs (run_global c m)
