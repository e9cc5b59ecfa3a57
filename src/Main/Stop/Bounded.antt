-- ===== src/Main/Stop/Bounded.antt =====
-- cmd/daemon/main.go: how long a stop of the daemon takes.
use daemon_go.Prelude.{
  zero, suc, ◌+◌, ◌*◌, ◌≤◌, ◌≡◌, refl, false, some, Bool, ℕ, arith, ◌∙◌, ap, if◌then◌else◌, subst,
  sym,
}
use Prim.Native.Nat.{min}
use daemon_go.Os.{World, second}
use daemon_go.Manager.{Daemon}
use daemon_go.Manager.Stop.Once.{AllOpen, AllStopped, stop_manager_once}
use daemon_go.Main.Stop.{
  Lapses, Running, stop_server, stop_watcher, then_end, then_watcher, with_world, pass, stop_parts,
}

stop_server-now :
    (shutdown : ℕ) (serving : Bool) (w : World)
    → ((stop_server shutdown serving w).now ≤ w.now + 3 * second)
      × ((stop_server shutdown serving w).calls ≡ w.calls)
unfolding stop_server
stop_server-now shutdown serving w = ground arith

stop_watcher-now :
    (watch : ℕ) (r : Running) (w : World)
    → r.watch_closed ≡ false
    → (w' : World) × (stop_watcher watch r w ≡ some w') × (w'.now ≤ w.now + 2 * second)
unfolding stop_watcher
stop_watcher-now watch r w h =
    (pass (if r.watching then min watch (2 * second) else 2 * second) w, rw h refl, ground arith)

-- Whether the guardians have been told to stop after so many parts of the goroutine.
abbrev pub Told : ℕ → Daemon → Daemon → Type 0
Told zero d e = e ≡ d
Told (suc zero) d e = e.manager ≡ d.manager
Told (suc (suc n)) d e = AllStopped d.world.calls e.manager.guardians

-- The goroutine that the first Stop of a daemon begins, with every channel open, and that is cut off
-- after any number of its parts, since Stop returns at once and nothing waits for it. It never
-- panics, and takes at most fifteen seconds, however long the work of the parts takes. Before its
-- first part it has changed nothing, and after that of the server the manager is as it was; from
-- the end of the manager's part on every guardian has been told to stop.
pub stop_parts_bounded :
    (parts : ℕ) (lapses : Lapses) (r : Running) (d : Daemon)
    → AllOpen d.world.calls d.manager.guardians
    → r.watch_closed ≡ false
    → (e : Daemon) × (stop_parts parts lapses r d ≡ some e)
      × Told parts d e
      × (e.world.now ≤ d.world.now + 15 * second)
unfolding stop_parts
stop_parts_bounded zero lapses r d h c = (d, refl, refl, omega arith)
stop_parts_bounded (suc zero) lapses r d h c =
    let (soon, same) = stop_server-now lapses.shutdown r.serving d.world in
    (record d { world = stop_server lapses.shutdown r.serving d.world }, refl, refl, omega arith)
stop_parts_bounded (suc (suc zero)) lapses r d h c =
    let w = stop_server lapses.shutdown r.serving d.world in
    let (soon, same) = stop_server-now lapses.shutdown r.serving d.world in
    let gs = d.manager.guardians in
    let (done, e, stops, stopped, later, again, all) =
      stop_manager_once lapses.loops (record d { world = w })
        (subst (λ k. AllOpen k gs) (sym same) h) in
    (e, ap then_end stops, subst (λ k. AllStopped k e.manager.guardians) same stopped, omega arith)
stop_parts_bounded (suc (suc (suc n))) lapses r d h c =
    let w = stop_server lapses.shutdown r.serving d.world in
    let (soon, same) = stop_server-now lapses.shutdown r.serving d.world in
    let gs = d.manager.guardians in
    let (done, e, stops, stopped, later, again, all) =
      stop_manager_once lapses.loops (record d { world = w })
        (subst (λ k. AllOpen k gs) (sym same) h) in
    let (w', watched, last) = stop_watcher-now lapses.watch r e.world c in
    (
      record e { world = w' },
      ap (then_watcher lapses r) stops ∙ ap (with_world e) watched,
      subst (λ k. AllStopped k e.manager.guardians) same stopped,
      omega arith,
    )
