-- ===== src/Main/Boot/Runs.antt =====
-- cmd/daemon/main.go: when a daemon is run.
use daemon_go.Prelude.{
  ◌≡◌, ◌≢◌, ◌↔◌, ◌⊎◌, inl, inr, refl, Bool-cases, true, Option, Option-cases, none, some, List, [],
  ◌++◌, Text, codes, ◌==◌, eq_iff, ◌||◌, if◌then◌else◌, arith,
}
use daemon_go.Os.{Error, Disk}
use daemon_go.Config.{DaemonConfig}
use daemon_go.Config.Files.{Loaded, loaded, read_failed, parse_failed, load}
use daemon_go.Auth.{AuthManager, Created, created, token_failed, new_auth}
use daemon_go.Service.Control.{ServiceApi}
use daemon_go.Service.Command.{Command, command_of}
use daemon_go.Main.Flags.{Flags, accepted, help_shown, flag_error, parse_flags, last_command}
use daemon_go.Main.Boot.{
  MutexReply, owned, already_exists, mutex_refused, Process, Host, change_to_exe_dir, with_config,
  run_for_daemon, in_exe_dir, after_flags, main, already_running, exit, by_command, Ended, ended,
  with_auth, run_process,
}

module _ (api : ServiceApi) (host : Host) (d : Disk) (s : api.System) where
  -- What a daemon needs to be run for the instance `x`.
  pub record Runs (x : Text) (rest : List Text) : Type 0 where
    pub flags : parse_flags (codes "a") host.args ≡ accepted x rest
    pub instance_ok : (x ≡ codes "a") ⊎ (x ≡ codes "b")
    pub moved : change_to_exe_dir api host ≡ none
    pub no_command : command_of (last_command [] rest) ≡ none
    pub unseen : host.create_mutex (codes "Global\\ProcessGuard-" ++ x) ≢ already_exists
    pub cfg : DaemonConfig
    pub configured : load host.yaml (codes "config.yaml") d ≡ loaded cfg
    pub token : AuthManager
    pub token_disk : Disk
    pub authorized : new_auth (codes ".") host.random d ≡ (created token, token_disk)

  -- what is needed behind the mutex
  record Ready (m : MutexReply) (l : Loaded) (c : Created × Disk) : Type 0 where
    unseen : m ≢ already_exists
    cfg : DaemonConfig
    configured : l ≡ loaded cfg
    token : AuthManager
    token_disk : Disk
    authorized : c ≡ (created token, token_disk)

  -- main behind the mutex
  abbrev gated : Text → MutexReply → Loaded → Ended api.System
  gated x m l =
      if already_running api host m then exit api host d s else with_config api host x m d s l

  with_auth-Ready :
      (x : Text) (m : MutexReply) (cfg : DaemonConfig) (c : Created × Disk) {p : Process}
      → m ≢ already_exists
      → (with_auth api host x m cfg s c).process ≡ some p
      → Ready m (loaded cfg) c
  with_auth-Ready x m cfg (token_failed err, d') u h = cc
  with_auth-Ready x m cfg (created a, d') u h = record {
    unseen = u;
    cfg = cfg;
    configured = refl;
    token = a;
    token_disk = d';
    authorized = refl;
  }

  with_config-Ready :
      (x : Text) (m : MutexReply) (l : Loaded) {p : Process}
      → m ≢ already_exists
      → (with_config api host x m d s l).process ≡ some p
      → Ready m l (new_auth (codes ".") host.random d)
  with_config-Ready x m (loaded cfg) u h = with_auth-Ready x m cfg _ u h
  with_config-Ready x m read_failed u h = cc
  with_config-Ready x m parse_failed u h = cc

  gated-Ready :
      (x : Text) (m : MutexReply) (l : Loaded) {p : Process}
      → (gated x m l).process ≡ some p
      → Ready m l (new_auth (codes ".") host.random d)
  gated-Ready x owned l h = with_config-Ready x owned l (λ e. cc) h
  gated-Ready x mutex_refused l h = with_config-Ready x mutex_refused l (λ e. cc) h
  gated-Ready x already_exists l h = cc

  ended-process :
      (m : MutexReply) (r : Option Error × api.System × Process)
      → (ended api host m r).process ≢ none
  ended-process m (none, s', p) e = cc
  ended-process m (some err, s', p) e = cc

  Ready-gated :
      (x : Text) (m : MutexReply) (l : Loaded)
      → Ready m l (new_auth (codes ".") host.random d)
      → (gated x m l).process ≢ none
  unfolding run_process
  Ready-gated x already_exists l r = absurd (r.unseen refl)
  Ready-gated x owned l r = rw (r.configured, r.authorized) (ended-process owned _)
  Ready-gated x mutex_refused l r = rw (r.configured, r.authorized) (ended-process mutex_refused _)

  run_for_daemon-gated :
      (x : Text)
      → run_for_daemon api host x d s
        ≡ gated x
            (host.create_mutex (codes "Global\\ProcessGuard-" ++ x))
            (load host.yaml (codes "config.yaml") d)
  unfolding run_for_daemon
  run_for_daemon-gated x = refl

  by_command-Runs :
      (x cmd : Text) (c : Option Command) {p : Process}
      → (by_command api host x cmd d s c).process ≡ some p
      → (c ≡ none) × ((run_for_daemon api host x d s).process ≡ some p)
  by_command-Runs x cmd none h = (refl, h)
  by_command-Runs x cmd (some c) h = cc

  in_exe_dir-Runs :
      (x : Text) (rest : List Text) (moved : Option Error) {p : Process}
      → (in_exe_dir api host x rest d s moved).process ≡ some p
      → (moved ≡ none)
        × (command_of (last_command [] rest) ≡ none)
        × ((run_for_daemon api host x d s).process ≡ some p)
  in_exe_dir-Runs x rest (some err) h = cc
  in_exe_dir-Runs x rest none h =
      let (absent, g) = by_command-Runs x (last_command [] rest) _ h in (refl, absent, g)

  valid_instance :
      (x : Text) → (x == codes "a" || x == codes "b") ≡ true → (x ≡ codes "a") ⊎ (x ≡ codes "b")
  valid_instance x h = ground (arith, eq_iff x (codes "a"), eq_iff x (codes "b"))

  after_flags-Runs :
      (f : Flags) {p : Process}
      → (after_flags api host f d s).process ≡ some p
      → (x : Text) × (rest : List Text) × (f ≡ accepted x rest)
        × ((x ≡ codes "a") ⊎ (x ≡ codes "b"))
        × ((in_exe_dir api host x rest d s (change_to_exe_dir api host)).process ≡ some p)
  after_flags-Runs help_shown h = cc
  after_flags-Runs flag_error h = cc
  after_flags-Runs (accepted x rest) h = elim (Bool-cases (x == codes "a" || x == codes "b")) [
    | inl valid ↦ (x, rest, refl, valid_instance x valid, rw valid at h)
    | inr bad ↦ ground (arith, bad)
  ]

  process-Runs :
      {p : Process}
      → (main api host d s).process ≡ some p
      → (x : Text) × (rest : List Text) × Runs x rest
  unfolding main
  process-Runs h =
      let (x, rest, f, v, g) = after_flags-Runs _ h in
      let (moved, absent, k) = in_exe_dir-Runs x rest _ g in
      let r = gated-Ready x _ _ (rw (run_for_daemon-gated x) at k) in
      (
        x,
        rest,
        record {
          flags = f;
          instance_ok = v;
          moved = moved;
          no_command = absent;
          unseen = r.unseen;
          cfg = r.cfg;
          configured = r.configured;
          token = r.token;
          token_disk = r.token_disk;
          authorized = r.authorized;
        },
      )

  Runs-process : (x : Text) (rest : List Text) → Runs x rest → (main api host d s).process ≢ none
  unfolding main
  Runs-process x rest r =
      let valid : (x == codes "a" || x == codes "b") ≡ true =
        ground (arith, r.instance_ok, eq_iff x (codes "a"), eq_iff x (codes "b")) in
      let e = Ready-gated x _ _ (record {
        unseen = r.unseen;
        cfg = r.cfg;
        configured = r.configured;
        token = r.token;
        token_disk = r.token_disk;
        authorized = r.authorized;
      }) in
      rw (r.flags, valid, r.moved, r.no_command, run_for_daemon-gated x) e

  -- A daemon is run exactly for instance a or b, without a command among the arguments, after the
  -- change to the program's directory, with a configuration that was read and parsed and a token,
  -- unless the system answers that the mutex of that instance exists. Where the system refuses the
  -- mutex the daemon is run as well.
  pub main-Runs :
      ((main api host d s).process ≢ none) ↔ ((x : Text) × (rest : List Text) × Runs x rest)
  main-Runs = (
    λ some_run. elim (Option-cases (main api host d s).process) [
      | inl none_run ↦ absurd (some_run none_run)
      | inr (p, runs) ↦ process-Runs runs
    ],
    λ (x, rest, r). Runs-process x rest r,
  )
