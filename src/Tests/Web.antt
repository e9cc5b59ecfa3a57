-- ===== src/Tests/Web.antt =====
-- The theorems on the token and on the console at concrete inputs.
use daemon_go.Prelude.{
  ◌≡◌, ◌⊎◌, inl, inr, refl, true, false, none, some, List, [], ◌∷◌, codes, ◌==◌, All, arith,
  trim_space, length, lookup,
}
use daemon_go.Prelude.Int.{pos, ◌≤ℤ◌}
use daemon_go.Os.{Disk}
use daemon_go.Config.{apply_defaults}
use daemon_go.Config.Files.{load, loaded, paused, running}
use daemon_go.Auth.{AuthManager, created, new_auth}
use daemon_go.Auth.Kept.{new_auth_again}
use daemon_go.Manager.{Daemon, start, new_manager}
use daemon_go.Web.Dto.{config_to_dto, dto_to_config}
use daemon_go.Web.Dto.Checks.{IsPort, IsSound, dto_to_config-IsSound}
use daemon_go.Web.Dto.RoundTrip.{IsSettled, saved, dto_to_config-config_to_dto}
use daemon_go.Web.Server.{Server, Request, handle_pause, handle_resume}
use daemon_go.Web.Server.Save.{config_file, save_config}
use daemon_go.Web.Server.Routes.{serve}
use daemon_go.Web.Server.Guards.{IsAuthorized, serve_guarded}
use daemon_go.Web.Server.Effects.{StateSaved, handle_pause_resume-StateSaved, load-save_config}
use daemon_go.Web.Server.Rollback.{Restored, save_config_denied}
use daemon_go.Main.{start_daemon}
use daemon_go.Main.Console.{DaemonEvent, loop_ticked, requested, elsewhere, take_events}
use daemon_go.Main.Console.Guardians.{IsSoundDaemon}
use daemon_go.Main.Console.Sound.{take_events_new-IsSoundDaemon}
use daemon_go.Tests.Codec.{numbers_yaml}
use daemon_go.Tests.Wire.{wire}
use daemon_go.Tests.Fixtures.{
  api_project, small_config, small_daemon, empty_disk, plain_platform, dead_world, empty_store,
}

abbrev secret : AuthManager
secret = record { token = codes "secret"; path = codes ".guard" }

-- The disk of an earlier run.
abbrev token_disk : Disk
token_disk = record empty_disk { files = (codes ".guard", codes "token = abc \n") ∷ [] }

loaded_token :
    new_auth (codes ".") none token_disk
    ≡ (created (record { token = codes "abc"; path = codes ".guard" }), token_disk)
unfolding new_auth lookup ◌==◌
loaded_token = refl

new_auth_again_example :
    new_auth (codes ".") (some (λ n. n)) token_disk
    ≡ (created (record { token = codes "abc"; path = codes ".guard" }), token_disk)
new_auth_again_example =
    new_auth_again (codes ".") none (some (λ n. n)) token_disk
      (record { token = codes "abc"; path = codes ".guard" }) refl loaded_token

abbrev plain_server : Server
plain_server = record {
  json = wire;
  yaml = numbers_yaml;
  platform = plain_platform;
  split_host_port = λ addr. some (codes "127.0.0.1");
  is_loopback = λ host. host == codes "127.0.0.1";
  unmarshal = λ body. none;
  static_path = λ path. path;
  embedded = λ path. none;
  auth = secret;
  buffer = record { lines = codes "started" ∷ []; max_size = 20 };
  read_dir = λ dir d. some (codes "events-a.jsonl" ∷ codes "daemon-a.log" ∷ []);
}

abbrev pause_request : Request
pause_request = record {
  method = codes "POST";
  path = codes "/api/pause";
  remote_addr = codes "127.0.0.1:5000";
  header_token = [];
  query_token = codes "secret";
  cookie = none;
  query_name = [];
  body = none;
}

serve_guarded_example :
    ((serve plain_server pause_request small_daemon).1 ≡ small_daemon)
    ⊎ IsAuthorized plain_server pause_request
serve_guarded_example = serve_guarded plain_server pause_request small_daemon

handle_pause_resume-StateSaved_example :
    StateSaved plain_server small_daemon true paused
      (handle_pause plain_server pause_request small_daemon)
    × StateSaved plain_server small_daemon false running
        (handle_resume plain_server pause_request small_daemon)
unfolding ◌==◌ start new_manager
handle_pause_resume-StateSaved_example =
    handle_pause_resume-StateSaved plain_server small_daemon pause_request refl (refl, refl, refl)

load-save_config_example :
    load numbers_yaml config_file
      (save_config plain_server small_daemon (inr small_config)).1.world.disk
    ≡ loaded (apply_defaults (record small_config { auth_token = [] }))
unfolding ◌==◌
load-save_config_example = load-save_config plain_server small_daemon small_config refl refl refl

-- A daemon whose configuration cannot be written, but moved.
abbrev locked_daemon : Daemon
locked_daemon = record small_daemon {
  world = record small_daemon.world {
    disk = record empty_disk {
      files = (config_file, codes "instance: a") ∷ [];
      writable = λ path. false;
    };
  };
}

save_config_denied_example :
    let (response, e) = save_config plain_server locked_daemon (inr small_config) in
    (response.code ≡ 500)
    × (e.manager ≡ locked_daemon.manager)
    × (e.store ≡ locked_daemon.store)
    × Restored (codes "instance: a") locked_daemon.world.disk e.world.disk
unfolding lookup ◌==◌
save_config_denied_example =
    save_config_denied plain_server locked_daemon small_config (codes "instance: a") refl refl

api_project-IsSettled : IsSettled api_project
unfolding trim_space
api_project-IsSettled = (
  record {
    name = λ e. cc;
    monitor = inr (inl refl, (omega arith, omega arith));
    check_interval = omega arith;
    startup_timeout = omega arith;
    max_restart_attempts = omega arith;
    restart_delay = omega arith;
    pre_actions = tt;
    post_actions = ((λ e. cc), tt);
  },
  refl,
  refl,
)

dto_to_config-config_to_dto_example :
    dto_to_config (config_to_dto small_config) ≡ inr (saved small_config)
dto_to_config-config_to_dto_example =
    dto_to_config-config_to_dto small_config (omega arith, omega arith) (omega arith)
      (api_project-IsSettled, tt)

dto_to_config-IsSound_example :
    IsPort (pos 18080)
    × (pos 1 ≤ℤ pos 10)
    × All IsSound (api_project ∷ [])
    × (length (api_project ∷ []) ≡ length (config_to_dto small_config).projects)
dto_to_config-IsSound_example =
    dto_to_config-IsSound (config_to_dto small_config) (saved small_config)
      dto_to_config-config_to_dto_example

-- A tick, a pause, a tick of an unknown project, and a request without a token.
abbrev mixed_events : List DaemonEvent
mixed_events =
    loop_ticked (codes "api")
    ∷ requested pause_request
    ∷ loop_ticked (codes "web")
    ∷ elsewhere dead_world empty_store
    ∷ requested (record pause_request { query_token = [] })
    ∷ []

take_events_new-IsSoundDaemon_example : IsSoundDaemon (
    take_events plain_server mixed_events (record {
      manager = (start_daemon (new_manager small_config) empty_disk).manager;
      world = dead_world;
      store = empty_store;
    }))
take_events_new-IsSoundDaemon_example =
    take_events_new-IsSoundDaemon plain_server small_config empty_disk dead_world empty_store
      mixed_events (omega arith, tt)
