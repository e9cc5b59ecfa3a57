-- ===== src/Watcher/Edges.antt =====
-- internal/watcher/watcher.go: what a check runs and records.
use daemon_go.Prelude.{
  ◌*◌, Bool, true, false, ◌≡◌, ◌≢◌, ◌⊎◌, inl, inr, refl, ◌∙◌, subst, sym, List, [], ◌∷◌, ◌++◌, ◌==◌,
  eq_iff, arith, Bool-cases, Option-cases, if◌then◌else◌, append_assoc,
}
use daemon_go.Prelude.Int.{ℤ, pos, negsuc, leb_ℤ, times, ◌≤ℤ◌}
use daemon_go.Os.{Cmd, World, second, run_cmd}
use daemon_go.Config.{DaemonConfig}
use daemon_go.Watcher.{
  WatchSetup, PeerWatcher, ServiceStatus, service_running, service_stopped, service_start_pending,
  service_unknown, query_cmd, start_cmd, script_cmd, query_service_status, check_health,
  is_peer_alive, recover_peer, after_alive, check_and_recover, announce_down, watch_period,
}

module _ (setup : WatchSetup) where
  check_health-ran : (s : ServiceStatus) (w : World) → (check_health setup (s, w)).1.ran ≡ w.ran
  check_health-ran service_running w = ground arith
  check_health-ran service_stopped w = refl
  check_health-ran service_start_pending w = refl
  check_health-ran service_unknown w = refl

  is_peer_alive-ran : (w : World) → (is_peer_alive setup w).1.ran ≡ w.ran ++ query_cmd setup ∷ []
  unfolding is_peer_alive query_service_status run_cmd
  is_peer_alive-ran w = let (s, w') = query_service_status setup w in check_health-ran s w'

  -- what recoverPeer runs: the start of the service, then the peer's script if that fails
  abbrev pub RecoveryRan : List Cmd → PeerWatcher → Type 0
  RecoveryRan before q =
      (q.world.ran ≡ before ++ start_cmd setup ∷ [])
      ⊎ ((setup.cfg.peer.start_script ≢ [])
          × (q.world.ran ≡ before ++ start_cmd setup ∷ script_cmd setup ∷ []))

  recover_peer-Ran :
      (p : PeerWatcher)
      → RecoveryRan p.world.ran (recover_peer setup p)
        × ((recover_peer setup p).last_alive ≡ p.last_alive)
  unfolding recover_peer run_cmd
  recover_peer-Ran p = elim (Option-cases (p.world.reply p.world.calls (start_cmd setup)).err) [
    | inl started ↦ rw started (inl refl, refl)
    | inr (err, failed) ↦ elim (Bool-cases (setup.cfg.peer.start_script == [])) [
      | inl missing ↦ rw (failed, missing) (inl refl, refl)
      | inr script ↦
          rw (failed, script)
            (
              inr (
                (λ e. ground (arith, eq_iff setup.cfg.peer.start_script [])),
                append_assoc p.world.ran (start_cmd setup ∷ []) (script_cmd setup ∷ []),
              ),
              refl,
            )
    ]
  ]

  -- what a check leaves: a peer that answers is asked once, and recorded when it was down; one
  -- that does not is started
  abbrev pub Checked : PeerWatcher → Bool → PeerWatcher → Type 0
  Checked p alive q =
      (q.last_alive ≡ alive)
      × (((alive ≡ true)
            × (q.world.ran ≡ p.world.ran ++ query_cmd setup ∷ [])
            × ((p.last_alive ≡ false) ⊎ (q.store ≡ p.store)))
          ⊎ ((alive ≡ false) × RecoveryRan (p.world.ran ++ query_cmd setup ∷ []) q))

  after_down :
      (p : PeerWatcher) (w : World) (q : PeerWatcher)
      → w.ran ≡ p.world.ran ++ query_cmd setup ∷ []
      → q.world.ran ≡ w.ran
      → q.last_alive ≡ false
      → Checked p false (recover_peer setup q)
  after_down p w q h same down =
      let (ran, kept) = recover_peer-Ran q in
      (
        kept ∙ down,
        inr (refl, subst (λ before. RecoveryRan before (recover_peer setup q)) (same ∙ h) ran),
      )

  abbrev unseen : PeerWatcher → World → PeerWatcher
  unseen p w = record p { world = w }

  after_alive-Checked :
      (p : PeerWatcher) (alive : Bool) (w : World)
      → w.ran ≡ p.world.ran ++ query_cmd setup ∷ []
      → Checked p alive (after_alive setup p (alive, w))
  after_alive-Checked p true w h = elim (Bool-cases p.last_alive) [
    | inl up ↦ rw up (refl, inl (refl, h, inr refl))
    | inr down ↦ rw down (refl, inl (refl, h, inl refl))
  ]
  after_alive-Checked p false w h =
      let q : PeerWatcher = record { last_alive = false; world = w; store = p.store } in
      elim (Bool-cases p.last_alive) [
        | inl up ↦
            subst
              (λ b.
                Checked p false
                  (recover_peer setup (if b then announce_down setup q else unseen p w)))
              (sym up) (after_down p w (announce_down setup q) h refl refl)
        | inr down ↦
            subst
              (λ b.
                Checked p false
                  (recover_peer setup (if b then announce_down setup q else unseen p w)))
              (sym down) (after_down p w (unseen p w) h refl down)
      ]

  -- A check runs `sc query` once. If the peer is alive, it runs no more, and records nothing when
  -- the peer was alive before; if it is not, it runs `sc start`, and after it the peer's start
  -- script at most. What it saw is what the next check compares with.
  pub check_and_recover-Checked :
      (p : PeerWatcher) → Checked p (is_peer_alive setup p.world).0 (check_and_recover setup p)
  unfolding check_and_recover
  check_and_recover-Checked p =
      let (alive, w) = is_peer_alive setup p.world in
      after_alive-Checked p alive w (is_peer_alive-ran p.world)

or_ten_seconds-Positive : (n : ℤ) → pos 1 ≤ℤ (if leb_ℤ n (pos 0) then pos (10 * second) else n)
or_ten_seconds-Positive (pos n) = ground arith
or_ten_seconds-Positive (negsuc n) = ground arith

-- The period of the peer's watch is positive, whatever the configuration says.
pub watch_period-Positive : (cfg : DaemonConfig) → pos 1 ≤ℤ watch_period cfg
unfolding watch_period
watch_period-Positive cfg = or_ten_seconds-Positive (times cfg.peer.check_interval second)
