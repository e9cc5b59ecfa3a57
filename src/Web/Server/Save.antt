-- ===== src/Web/Server/Save.antt =====
-- internal/web/server.go: the handler of the configuration. Its messages leave out what the reader
-- and package json say of the error.
use daemon_go.Prelude.{
  Option, none, some, [], ◌∷◌, ◌++◌, Text, codes, ◌==◌, ◌⊎◌, inl, inr, if◌then◌else◌,
}
use daemon_go.Os.{Error, Disk, stat_file, rename}
use daemon_go.Config.{DaemonConfig}
use daemon_go.Config.Files.{save}
use daemon_go.Events.{config_saved}
use daemon_go.Manager.{Daemon}
use daemon_go.Web.Dto.{ConfigDto, config_to_dto, dto_to_config}
use daemon_go.Web.Server.{
  Server, Response, Handler, config, object, write_json, write_error, method_not_allowed, log_event,
}

abbrev pub config_file : Text
config_file = codes "config.yaml"

abbrev pub backup_file : Text
backup_file = codes "config.yaml.bak"

-- the backup of the present configuration, whose errors are ignored
unfoldable pub back_up : Disk → Disk
unfolding stat_file rename
back_up disk = elim (stat_file config_file disk) [
  | none ↦ disk
  | some text ↦ (rename config_file backup_file disk).1
]

module _ (server : Server) where
  -- what follows `newCfg.Save`
  abbrev pub after_save : Daemon → Option Error × Disk → Response × Daemon
  after_save d (some err, disk) = (
    write_error (codes "save config failed: " ++ err),
    record d { world = record d.world { disk = (rename backup_file config_file disk).1 } },
  )
  after_save d (none, disk) = (
    write_json (
        object (
          (codes "result", codes "saved")
          ∷ (codes "message", codes "配置已保存，请重启 ProcessGuard-A 服务生效")
          ∷ [])),
    log_event server config_saved d.manager.cfg.instance_name (codes "配置已更新")
        (record d { world = record d.world { disk = disk } }),
  )

  unfoldable pub save_config : Daemon → Error ⊎ DaemonConfig → Response × Daemon
  unfolding back_up save rename
  save_config d (inl err) = (write_error (codes "invalid config: " ++ err), d)
  save_config d (inr cfg) = after_save d (save server.yaml cfg config_file (back_up d.world.disk))

  abbrev pub save_dto : Daemon → Option ConfigDto → Response × Daemon
  save_dto d none = (write_error (codes "invalid json"), d)
  save_dto d (some dto) = save_config d (dto_to_config dto)

  abbrev pub save_body : Daemon → Option Text → Response × Daemon
  save_body d none = (write_error (codes "read body failed"), d)
  save_body d (some body) = save_dto d (server.unmarshal body)

  unfoldable pub handle_config : Handler
  unfolding save_config config_to_dto dto_to_config
  handle_config r d =
      if r.method == codes "GET"
      then (write_json (config (config_to_dto d.manager.cfg)), d)
      else if r.method == codes "POST"
      then save_body d r.body
      else (method_not_allowed, d)
