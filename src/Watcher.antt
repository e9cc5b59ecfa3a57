-- ===== src/Watcher.antt =====
-- internal/watcher/watcher.go: the watch over the peer instance. A check is a function on the
-- watcher with the world and the event store; log lines are left out.
pub mod Edges
pub mod Recorded
pub mod Quiet
use daemon_go.Prelude.{
  ℕ, zero, suc, ◌+◌, ◌-◌, ◌*◌, Bool, true, false, not, Option, none, some, List, [], ◌∷◌, ◌++◌, map,
  Text, codes, ◌==◌, contains, eqb, leb, ◌&&◌, if◌then◌else◌,
}
use daemon_go.Prelude.Int.{ℤ, pos, leb_ℤ, times}
use daemon_go.Prelude.Atoi.{itoa}
use daemon_go.Os.{Error, Cmd, Output, World, run_cmd, second, spend}
use daemon_go.Config.{DaemonConfig, peer_service_name}
use daemon_go.Events.{EventType, EventStore, Json, add, peer_down, peer_recover}

-- What a watcher does not change. `health n url` is the status code that the n-th call of the
-- world gets for a GET of the address within three seconds, `none` an error.
pub record WatchSetup : Type 0 where
  pub json : Json
  pub cfg : DaemonConfig
  pub health : ℕ → Text → Option ℕ

pub record PeerWatcher : Type 0 where
  pub last_alive : Bool
  pub world : World
  pub store : EventStore

-- strings.ToUpper, as far as its result has ASCII letters
abbrev to_upper : ℕ → ℕ
to_upper c =
    if leb 97 c && leb c 122
    then c - 32
    else if eqb c 0x131
    then 73
    else if eqb c 0x17F
    then 83
    else c

pub data ServiceStatus : Type 0 where
  service_running service_stopped service_start_pending service_unknown : ServiceStatus

abbrev pub status_of_output : Output → ServiceStatus
status_of_output o = elim o.err [
  | some _ ↦ service_unknown
  | none ↦
      let output = map to_upper o.out in
      if contains output (codes "RUNNING")
      then service_running
      else if contains output (codes "STOPPED")
      then service_stopped
      else if contains output (codes "START_PENDING")
      then service_start_pending
      else service_unknown
]

abbrev pub here : List Text → Cmd
here argv = record { argv = argv; dir = [] }

module _ (setup : WatchSetup) where
  abbrev pub query_cmd : Cmd
  query_cmd = here (codes "sc" ∷ codes "query" ∷ peer_service_name setup.cfg ∷ [])

  abbrev pub start_cmd : Cmd
  start_cmd = here (codes "sc" ∷ codes "start" ∷ peer_service_name setup.cfg ∷ [])

  abbrev pub script_cmd : Cmd
  script_cmd = here (codes "cmd" ∷ codes "/c" ∷ setup.cfg.peer.start_script ∷ [])

  unfoldable pub query_service_status : World → ServiceStatus × World
  unfolding run_cmd contains
  query_service_status w = let (o, w') = run_cmd query_cmd w in (status_of_output o, w')

  abbrev pub is_ok : Option ℕ → Bool
  is_ok none = false
  is_ok (some code) = eqb code 200

  abbrev pub health_url : Text
  health_url =
      codes "http://"
      ++ setup.cfg.web_host
      ++ codes ":"
      ++ itoa setup.cfg.web_port
      ++ codes "/api/health"

  abbrev pub check_health : ServiceStatus × World → Bool × World
  check_health (service_running, w) =
      if setup.cfg.peer.instance_id == codes "a"
      then (is_ok (setup.health w.calls health_url), spend 0 w)
      else (true, w)
  check_health (service_stopped, w) = (false, w)
  check_health (service_start_pending, w) = (false, w)
  check_health (service_unknown, w) = (false, w)

  unfoldable pub is_peer_alive : World → Bool × World
  unfolding query_service_status itoa
  is_peer_alive w = check_health (query_service_status w)

  abbrev pub emit_peer : EventType → Text → Text → PeerWatcher → PeerWatcher
  emit_peer kind message detail p =
      let (store, disk) =
        add setup.json kind setup.cfg.instance_name message detail p.world.now p.store
          p.world.disk in
      record p { store = store; world = record p.world { disk = disk } }

  abbrev pub about_peer : Text → Text
  about_peer what =
      codes "本端 "
      ++ setup.cfg.instance_name
      ++ codes " 检测到对端 "
      ++ setup.cfg.peer.instance_id
      ++ what

  abbrev pub announce_recover : PeerWatcher → PeerWatcher
  announce_recover = emit_peer peer_recover (about_peer (codes " 已恢复")) setup.cfg.peer.instance_id

  abbrev pub announce_down : PeerWatcher → PeerWatcher
  announce_down = emit_peer peer_down (about_peer (codes " 掉线")) setup.cfg.peer.instance_id

  -- what follows `sc start`
  abbrev pub after_start : Output → PeerWatcher → PeerWatcher
  after_start o p = elim o.err [
    | none ↦ p
    | some _ ↦
        let p₁ = emit_peer peer_down (about_peer (codes " 恢复失败")) o.out p in
        if setup.cfg.peer.start_script == []
        then p₁
        else record p₁ { world = (run_cmd script_cmd p₁.world).1 }
  ]

  unfoldable pub recover_peer : PeerWatcher → PeerWatcher
  unfolding run_cmd
  recover_peer p =
      let (o, world) = run_cmd start_cmd p.world in after_start o (record p { world = world })

  -- what follows isPeerAlive
  abbrev pub after_alive : PeerWatcher → Bool × World → PeerWatcher
  after_alive p (true, world) =
      let q : PeerWatcher = record p { world = world } in
      if p.last_alive then q else announce_recover (record q { last_alive = true })
  after_alive p (false, world) =
      let q : PeerWatcher = record p { world = world } in
      recover_peer (if p.last_alive then announce_down (record q { last_alive = false }) else q)

  unfoldable pub check_and_recover : PeerWatcher → PeerWatcher
  unfolding is_peer_alive recover_peer
  check_and_recover p = after_alive p (is_peer_alive p.world)

  -- the first check of the loop and one for each tick
  unfoldable pub checks : ℕ → PeerWatcher → PeerWatcher
  unfolding check_and_recover
  checks zero p = check_and_recover p
  checks (suc n) p = checks n (check_and_recover p)

-- the period of the loop's ticker
unfoldable pub watch_period : DaemonConfig → ℤ
watch_period cfg =
    let period = times cfg.peer.check_interval second in
    if leb_ℤ period (pos 0) then pos (10 * second) else period
