-- ===== src/Watcher/Recorded.antt =====
-- internal/watcher/watcher.go: the event that a change of the peer leaves.
use daemon_go.Prelude.{
  ◌<◌, ◌≡◌, ap, sym, ◌∙◌, subst, not, Bool, true, false, [], ◌∷◌, map, Text, codes, ◌==◌,
  if◌then◌else◌, Bool-cases, Option-cases, inl, inr,
}
use daemon_go.Os.{World, run_cmd}
use daemon_go.Events.{EventType, Event, entry, newest, peer_down, peer_recover}
use daemon_go.Events.Memory.{events-add, add-SameShape}
use daemon_go.Events.Durable.{newest-trim}
use daemon_go.Watcher.{
  WatchSetup, PeerWatcher, about_peer, start_cmd, emit_peer, announce_down, recover_peer,
  after_alive, is_peer_alive, check_and_recover,
}

-- The latest event of the watcher's store has the kind; the store has room.
abbrev Latest : EventType → PeerWatcher → Type 0
Latest kind p = (map (λ e. e.kind) (newest p.store.events) ≡ kind ∷ []) × (0 < p.store.max_size)

module _ (setup : WatchSetup) where
  emit_peer-Latest :
      (kind : EventType) (message detail : Text) (p : PeerWatcher)
      → 0 < p.store.max_size
      → Latest kind (emit_peer setup kind message detail p)
  emit_peer-Latest kind message detail p room =
      let e : Event = entry kind setup.cfg.instance_name message detail p.world.now in
      let same = add-SameShape setup.json e p.store p.world.disk in
      (
        ap (λ es. map (λ (x : Event). x.kind) (newest es))
              (events-add setup.json e p.store p.world.disk)
            ∙ ap (map (λ (x : Event). x.kind))
                (newest-trim setup.json p.store.max_size p.store.events e room),
        subst (λ n. 0 < n) (sym same.max_size) room,
      )

  recover_peer-Latest :
      (p : PeerWatcher) → Latest peer_down p → Latest peer_down (recover_peer setup p)
  unfolding recover_peer run_cmd
  recover_peer-Latest p (latest, room) =
      let (o, world) = run_cmd (start_cmd setup) p.world in
      let q : PeerWatcher = record p { world = world } in
      elim (Option-cases (p.world.reply p.world.calls (start_cmd setup)).err) [
        | inl started ↦ rw started (latest, room)
        | inr (err, failed) ↦ elim (Bool-cases (setup.cfg.peer.start_script == [])) [
          | inl missing ↦
              rw (failed, missing)
                (emit_peer-Latest peer_down (about_peer setup (codes " 恢复失败")) o.out q room)
          | inr script ↦
              rw (failed, script)
                (emit_peer-Latest peer_down (about_peer setup (codes " 恢复失败")) o.out q room)
        ]
      ]

  after_alive-Latest :
      (p : PeerWatcher) (alive : Bool) (w : World)
      → p.last_alive ≡ not alive
      → 0 < p.store.max_size
      → Latest (if alive then peer_recover else peer_down) (after_alive setup p (alive, w))
  after_alive-Latest p true w changed room = rw changed (
      emit_peer-Latest peer_recover (about_peer setup (codes " 已恢复")) setup.cfg.peer.instance_id
        (record { last_alive = true; world = w; store = p.store }) room)
  after_alive-Latest p false w changed room =
      let q : PeerWatcher = record { last_alive = false; world = w; store = p.store } in
      rw changed (
        recover_peer-Latest (announce_down setup q) (
          emit_peer-Latest peer_down (about_peer setup (codes " 掉线")) setup.cfg.peer.instance_id q
            room))

  -- When a check finds that the peer came up or went down since the check before, the latest event
  -- of the store says so: PEER_RECOVER or PEER_DOWN, also where the recovery failed, if the store
  -- has room for an event.
  pub check_and_recover_recorded :
      (p : PeerWatcher)
      → p.last_alive ≡ not (is_peer_alive setup p.world).0
      → 0 < p.store.max_size
      → map (λ (e : Event). e.kind) (newest (check_and_recover setup p).store.events)
        ≡ (if (is_peer_alive setup p.world).0 then peer_recover else peer_down) ∷ []
  unfolding check_and_recover
  check_and_recover_recorded p changed room =
      let (alive, w) = is_peer_alive setup p.world in (after_alive-Latest p alive w changed room).0
