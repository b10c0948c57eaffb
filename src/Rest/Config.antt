-- ===== src/Rest/Config.antt =====
-- SaveConfig of rest/config.go, on what encoding/json made of the context.
use go_devops_platform.Base.{Result, ok, err, Done, Action, if◌then◌else◌, ◌==◌}
use go_devops_platform.Base.Text.{◌+++◌}
use go_devops_platform.Storage.{Bytes, Iface}
use go_devops_platform.Users.Types.{Env}

module _ {Disk : Type 0} (storage : Iface Disk) (env : Env) where
  unfoldable pub write_config : Result Bytes → Action Disk Done
  write_config (err e) d = (err ("context marshal error: " +++ e), d)
  write_config (ok out) d =
      let (r, written) = storage.write_file (storage.config_path "config.json") out d in
      elim r [
        | err e ↦ (err ("config write error: " +++ e), written)
        | ok _ ↦ elim env.current_user [
          | err e ↦ (err ("could not get current user: " +++ e), written)
          | ok name ↦
              if name == "vpn"
              then (ok tt, written)
              else storage.ensure_ownership (storage.config_path "config.json") "vpn" written
        ]
      ]
