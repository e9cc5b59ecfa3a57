-- ===== src/Web/Server/Effects.antt =====
-- internal/web/server.go: what pausing, resuming and saving the configuration leave behind.
use daemon_go.Prelude.{
  ℕ, Bool, true, false, ◌≡◌, inl, inr, refl, Option, none, some, [], ◌∷◌, Text, codes, ◌==◌, leb,
  ◌∙◌, ◌++◌, ap, arith, Bool-cases,
}
use daemon_go.Os.{Error, Disk, read_file, write_file}
use daemon_go.Os.Files.{read_file-write_file_ne, read_file-append_file_ne, SameAccess}
use daemon_go.Config.{DaemonConfig, apply_defaults}
use daemon_go.Config.Files.{
  Loaded, loaded, load, save, load_state, save_state, paused, running, load_state-save_state,
  load-save,
}
use daemon_go.Events.{
  EventType, EventStore, Json, config_saved, daemon_pause, daemon_resume, add, persist_locked,
  rewrite_locked, persisted_count, entry, newest, encode, trim,
}
use daemon_go.Manager.{Daemon, set_all_paused}
use daemon_go.Web.Server.{
  Server, Request, Response, is_post, after_state, handle_pause, handle_resume,
}
use daemon_go.Web.Server.Save.{config_file, back_up, after_save, save_config}
use daemon_go.Web.Server.Rollback.{back_up-SameAccess}

-- The other files after an event was added.
module _ (json : Json) (s : EventStore) (d : Disk) (other : Text)
    (ne : (s.path == other) ≡ false) where
  read_file-persist_locked : read_file other (persist_locked json s d) ≡ read_file other d
  unfolding persist_locked
  read_file-persist_locked =
      read_file-append_file_ne s.path (encode json (newest s.events)) d other ne

  read_file-rewrite_locked : read_file other (rewrite_locked json s d) ≡ read_file other d
  unfolding rewrite_locked
  read_file-rewrite_locked = read_file-write_file_ne s.path (encode json s.events) d other ne

module _ (json : Json) (kind : EventType) (target message detail : Text) (now : ℕ) (s : EventStore)
    (d : Disk) (other : Text) (ne : (s.path == other) ≡ false) where
  read_file-add :
      read_file other (add json kind target message detail now s d).1 ≡ read_file other d
  unfolding add
  read_file-add =
      let s' : EventStore =
        trim (record s { events = s.events ++ entry kind target message detail now ∷ [] }) in
      let d' : Disk = persist_locked json s' d in
      elim (Bool-cases (leb 1000 (persisted_count json s' d'))) [
        | inl full ↦ rw full (
            read_file-rewrite_locked json s' d' other ne
            ∙ read_file-persist_locked json s' d other ne)
        | inr short ↦ rw short (read_file-persist_locked json s' d other ne)
      ]

load_state_eq :
    (c : DaemonConfig) (d e : Disk)
    → read_file c.state_file e ≡ read_file c.state_file d
    → load_state c e ≡ load_state c d
unfolding load_state
load_state_eq c d e h = rw h refl

module _ (server : Server) (d : Daemon) where
  abbrev IsApart : Type 0
  IsApart =
      (d.world.disk.writable d.manager.cfg.state_file ≡ true)
      × (d.world.disk.readable d.manager.cfg.state_file ≡ true)
      × ((d.store.path == d.manager.cfg.state_file) ≡ false)

  -- what a pause or a resume leaves: the answer, the state that a restart reads, the guardians
  abbrev pub StateSaved : Bool → Text → Response × Daemon → Type 0
  StateSaved pausing state (response, d') =
      (response.code ≡ 200)
      × (load_state d.manager.cfg d'.world.disk ≡ state)
      × (d'.manager ≡ set_all_paused pausing d.manager)

  after_state-StateSaved :
      (pausing : Bool) (state : Text) (kind : EventType) (message : Text) (o : Option Error × Disk)
      → (d.store.path == d.manager.cfg.state_file) ≡ false
      → o.0 ≡ none
      → load_state d.manager.cfg o.1 ≡ state
      → StateSaved pausing state (after_state server pausing state kind message d o)
  after_state-StateSaved pausing state kind message (some err, disk) apart e h =
      absurd (ground arith)
  after_state-StateSaved pausing state kind message (none, disk) apart e h = (
    refl,
    load_state_eq d.manager.cfg disk
          (add server.json kind d.manager.cfg.instance_name message [] d.world.now d.store disk).1
          (read_file-add server.json kind d.manager.cfg.instance_name message [] d.world.now d.store
            disk d.manager.cfg.state_file apart)
        ∙ h,
    refl,
  )

  state_saved :
      (state : Text)
      → d.world.disk.writable d.manager.cfg.state_file ≡ true
      → (save_state d.manager.cfg state d.world.disk).0 ≡ none
  unfolding save_state write_file
  state_saved state w = rw w refl

  -- A POST to /api/pause is answered with success, pauses every guardian and leaves `PAUSED` as
  -- the state that a restart reads, and one to /api/resume the reverse, if the state file can be
  -- written and read and is not the file of the events.
  pub handle_pause_resume-StateSaved :
      (r : Request)
      → is_post r ≡ true
      → IsApart
      → StateSaved true paused (handle_pause server r d)
        × StateSaved false running (handle_resume server r d)
  unfolding handle_pause handle_resume
  handle_pause_resume-StateSaved r post (w, readable, apart) = (
    rw post (
        after_state-StateSaved true paused daemon_pause (codes "守护进程已暂停")
          (save_state d.manager.cfg paused d.world.disk) apart (state_saved paused w)
          (load_state-save_state d.manager.cfg paused d.world.disk (inl refl) w readable)),
    rw post (
        after_state-StateSaved false running daemon_resume (codes "守护进程已恢复")
          (save_state d.manager.cfg running d.world.disk) apart (state_saved running w)
          (load_state-save_state d.manager.cfg running d.world.disk (inr refl) w readable)),
  )

  saved_file :
      (cfg : DaemonConfig) (disk : Disk)
      → disk.writable config_file ≡ true
      → (save server.yaml cfg config_file disk).0 ≡ none
  unfolding save write_file
  saved_file cfg disk w = rw w refl

  load-after_save :
      (cfg : DaemonConfig) (o : Option Error × Disk) {result : Loaded}
      → (d.store.path == config_file) ≡ false
      → o.0 ≡ none
      → load server.yaml config_file o.1 ≡ result
      → load server.yaml config_file (after_save server d o).1.world.disk ≡ result
  unfolding load
  load-after_save cfg (some err, disk) apart e h = absurd (ground arith)
  load-after_save cfg (none, disk) apart e h =
      rw
        (read_file-add server.json config_saved d.manager.cfg.instance_name (codes "配置已更新") []
          d.world.now d.store disk config_file apart)
        h

  -- The configuration file can be written: what the next start loads is the new configuration
  -- with the defaults.
  pub load-save_config :
      (cfg : DaemonConfig)
      → d.world.disk.writable config_file ≡ true
      → d.world.disk.readable config_file ≡ true
      → (d.store.path == config_file) ≡ false
      → load server.yaml config_file (save_config server d (inr cfg)).1.world.disk
        ≡ loaded (apply_defaults (record cfg { auth_token = [] }))
  unfolding save_config
  load-save_config cfg w r apart =
      let disk : Disk = back_up d.world.disk in
      let same : SameAccess d.world.disk disk = back_up-SameAccess d.world.disk in
      load-after_save cfg (save server.yaml cfg config_file disk) apart
        (saved_file cfg disk (ap (λ f. f config_file) same.writable ∙ w))
        (load-save server.yaml cfg config_file disk (ap (λ f. f config_file) same.writable ∙ w)
          (ap (λ f. f config_file) same.readable ∙ r))
