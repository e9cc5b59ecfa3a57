-- ===== src/Watcher/Quiet.antt =====
-- internal/watcher/watcher.go: Start and the loop, and the watch over a peer that stays up.
use daemon_go.Prelude.{
  ap, last, ℕ, zero, suc, ◌≡◌, refl, ◌∙◌, ◌⊎◌, Bool, Bool-cases, inl, inr, true, false, List, [],
  ◌∷◌, ◌++◌, append_assoc, codes, sym, append-nil, ◌==◌, if◌then◌else◌,
}
use daemon_go.Os.{World, run_cmd}
use daemon_go.Events.{EventStore, entry, peer_recover, add}
use daemon_go.Watcher.{
  about_peer, WatchSetup, PeerWatcher, ServiceStatus, service_running, status_of_output, query_cmd,
  is_ok, health_url, check_health, query_service_status, is_peer_alive, after_alive,
  check_and_recover,
}

-- what the select of the loop takes
pub data LoopEvent : Type 0 where
  ticked stopped : LoopEvent

-- NewPeerWatcher, with the world and the event store that it is given
abbrev pub new_peer_watcher : World → EventStore → PeerWatcher
new_peer_watcher w store = record { last_alive = false; world = w; store = store }

module _ (setup : WatchSetup) where
  -- the select in the loop, for events as they come
  unfoldable pub watch_loop : List LoopEvent → PeerWatcher → PeerWatcher
  watch_loop [] p = p
  watch_loop (ticked ∷ es) p = watch_loop es (check_and_recover setup p)
  watch_loop (stopped ∷ es) p = p

  -- Start: the loop, with its first check, if there is a peer
  unfoldable pub start_watching : List LoopEvent → PeerWatcher → PeerWatcher
  unfolding watch_loop check_and_recover
  start_watching es p =
      if setup.cfg.peer.instance_id == [] then p else watch_loop es (check_and_recover setup p)

abbrev pub repeat {ℓ} : {A : Type ℓ} → ℕ → A → List A
repeat zero a = []
repeat (suc n) a = a ∷ repeat n a

-- The service manager says that the peer runs, and its health check answers with 200, at any time.
pub record IsUp (setup : WatchSetup) (w : World) : Type 0 where
  pub runs : (n : ℕ) → status_of_output (w.reply n (query_cmd setup)) ≡ service_running
  pub healthy : (n : ℕ) → is_ok setup (setup.health n (health_url setup)) ≡ true

-- What a check of a peer that is up does to the world.
record Queried (setup : WatchSetup) (w w' : World) : Type 0 where
  reply : w'.reply ≡ w.reply
  ran : w'.ran ≡ w.ran ++ query_cmd setup ∷ []

module _ (setup : WatchSetup) where
  check_health-up :
      (st : ServiceStatus) (w w' : World)
      → st ≡ service_running
      → IsUp setup w
      → Queried setup w w'
      → ((check_health setup (st, w')).0 ≡ true) × Queried setup w (check_health setup (st, w')).1
  check_health-up st w w' e up q = elim (Bool-cases (setup.cfg.peer.instance_id == codes "a")) [
    | inl main_peer ↦
        rw (e, main_peer) (up.healthy w'.calls, record { reply = q.reply; ran = q.ran })
    | inr other ↦ rw (e, other) (refl, q)
  ]

  is_peer_alive-up :
      (w : World)
      → IsUp setup w
      → ((is_peer_alive setup w).0 ≡ true) × Queried setup w (is_peer_alive setup w).1
  unfolding is_peer_alive query_service_status run_cmd
  is_peer_alive-up w up =
      check_health-up (query_service_status setup w).0 w (query_service_status setup w).1
        (up.runs w.calls) up (record { reply = refl; ran = refl })

  -- One event was added, that the peer has recovered.
  abbrev pub Announced : EventStore → EventStore → Type 0
  Announced s t =
      (now : ℕ) × (t.events
        ≡ last s.max_size (
            s.events
            ++ entry peer_recover setup.cfg.instance_name (about_peer setup (codes " 已恢复"))
                setup.cfg.peer.instance_id now
              ∷ []))

  -- What a check of a peer that is up leaves.
  record Calm (p q : PeerWatcher) : Type 0 where
    alive : q.last_alive ≡ true
    queried : Queried setup p.world q.world
    kept :
        ((p.last_alive ≡ true) × (q.store ≡ p.store))
        ⊎ ((p.last_alive ≡ false) × Announced p.store q.store)

  after_alive-Calm :
      (p : PeerWatcher) (alive : Bool) (w : World)
      → alive ≡ true
      → Queried setup p.world w
      → Calm p (after_alive setup p (alive, w))
  unfolding add
  after_alive-Calm p alive w e q = elim (Bool-cases p.last_alive) [
    | inl before ↦ rw (e, before) (record { alive = refl; queried = q; kept = inl (refl, refl) })
    | inr down ↦
        rw (e, down)
          (record {
            alive = refl;
            queried = record { reply = q.reply; ran = q.ran };
            kept = inr (refl, (w.now, refl));
          })
  ]

  check_and_recover-Calm :
      (p : PeerWatcher) → IsUp setup p.world → Calm p (check_and_recover setup p)
  unfolding check_and_recover
  check_and_recover-Calm p up =
      let (alive, queried) = is_peer_alive-up p.world up in
      after_alive-Calm p (is_peer_alive setup p.world).0 (is_peer_alive setup p.world).1 alive
        queried

  IsUp-Queried : (w w' : World) → IsUp setup w → Queried setup w w' → IsUp setup w'
  IsUp-Queried w w' up q = record { runs = λ n. rw q.reply (up.runs n); healthy = up.healthy }

  quiet_loop :
      (n : ℕ) (after : List LoopEvent) (p : PeerWatcher)
      → IsUp setup p.world
      → p.last_alive ≡ true
      → let q = watch_loop setup (repeat n ticked ++ stopped ∷ after) p in
        (q.world.ran ≡ p.world.ran ++ repeat n (query_cmd setup)) × (q.store ≡ p.store)
  unfolding watch_loop
  quiet_loop zero after p up alive = (sym (append-nil _), refl)
  quiet_loop (suc n) after p up alive =
      let c = check_and_recover-Calm p up in
      let (ran, store) =
        quiet_loop n after (check_and_recover setup p) (IsUp-Queried p.world _ up c.queried)
          c.alive in
      (
        ran ∙ rw c.queried.ran (append_assoc p.world.ran (query_cmd setup ∷ []) _),
        elim c.kept [ inr (down, added) ↦ cc | inl (before, kept) ↦ store ∙ kept ],
      )

  -- A watcher is created and started over a peer that is up. It asks the service manager once, and
  -- once more for each tick until it is stopped, runs no other command, and adds one event, with the
  -- first check, that the peer has recovered, whatever comes after the stop.
  pub start_watching_quiet :
      (n : ℕ) (after : List LoopEvent) (w : World) (store : EventStore)
      → (setup.cfg.peer.instance_id == []) ≡ false
      → IsUp setup w
      → let q =
          start_watching setup (repeat n ticked ++ stopped ∷ after) (new_peer_watcher w store) in
        (q.world.ran ≡ w.ran ++ repeat (suc n) (query_cmd setup)) × Announced store q.store
  unfolding start_watching
  start_watching_quiet n after w store peer up =
      let c = check_and_recover-Calm (new_peer_watcher w store) up in
      let q = check_and_recover setup (new_peer_watcher w store) in
      let (ran, same) = quiet_loop n after q (IsUp-Queried w q.world up c.queried) c.alive in
      rw peer (
        ran ∙ rw c.queried.ran (append_assoc w.ran (query_cmd setup ∷ []) _),
        elim c.kept [
          | inl (before, kept) ↦ cc
          | inr (down, (now, added)) ↦ (now, ap (λ (t : EventStore). t.events) same ∙ added)
        ],
      )
