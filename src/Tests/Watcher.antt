-- ===== src/Tests/Watcher.antt =====
-- The theorems on the peer watcher at concrete inputs.
use daemon_go.Prelude.{
  ◌≡◌, refl, true, false, some, [], ◌∷◌, ◌++◌, codes, ◌==◌, contains, has_prefix,
}
use daemon_go.Os.{World}
use daemon_go.Watcher.{WatchSetup, PeerWatcher, is_peer_alive, check_and_recover, query_cmd}
use daemon_go.Watcher.Edges.{Checked, check_and_recover-Checked}
use daemon_go.Watcher.Quiet.{
  new_peer_watcher, Announced, IsUp, ticked, stopped, start_watching, repeat, start_watching_quiet,
}
use daemon_go.Tests.Wire.{wire}
use daemon_go.Tests.Fixtures.{small_config, dead_world, quiet_world, empty_store}

abbrev plain_watch : WatchSetup
plain_watch = record { json = wire; cfg = small_config; health = λ n url. some 200 }

-- The peer was alive, and its service is in no known state.
abbrev fallen : PeerWatcher
fallen = record { last_alive = true; world = dead_world; store = empty_store }

check_and_recover-Checked_example :
    Checked plain_watch fallen
      (is_peer_alive plain_watch fallen.world).0
      (check_and_recover plain_watch fallen)
check_and_recover-Checked_example = check_and_recover-Checked plain_watch fallen

-- A watch from instance b over instance a.
abbrev calm_watch : WatchSetup
calm_watch = record plain_watch {
  cfg = record small_config { peer = record small_config.peer { instance_id = codes "a" } };
}

abbrev calm : World
calm = quiet_world (codes "STATE : 4 RUNNING")

calm-IsUp : IsUp calm_watch calm
unfolding ◌==◌ contains has_prefix
calm-IsUp = record { runs = λ n. refl; healthy = λ n. refl }

peer_named : (calm_watch.cfg.peer.instance_id == []) ≡ false
unfolding ◌==◌
peer_named = refl

start_watching_quiet_example :
    let q =
      start_watching calm_watch
        (repeat 2 ticked ++ stopped ∷ ticked ∷ [])
        (new_peer_watcher calm empty_store) in
    (q.world.ran ≡ calm.ran ++ repeat 3 (query_cmd calm_watch))
    × Announced calm_watch empty_store q.store
start_watching_quiet_example =
    start_watching_quiet calm_watch 2 (ticked ∷ []) calm empty_store peer_named calm-IsUp
