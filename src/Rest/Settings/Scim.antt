-- ===== src/Rest/Settings/Scim.antt =====
-- The token of SCIM (rest/setup.go, rest/context.go and auth/provisioning/scim).
use go_devops_platform.Base.{◌≡◌, ◌≢◌, refl, String, true, Result, ok, eq_iff, arith}
use go_devops_platform.Storage.{Bytes, Iface}
use go_devops_platform.Users.Types.{Env}
use go_devops_platform.Rest.Settings.{
  ScimState, Settings, ScimSetup, Reply, update_token, save_and, scim_token_step,
  scim_setup_handler,
}

-- The token of the context is that of the client, and there is one where SCIM is enabled.
abbrev pub IsReady : ScimState → Type 0
IsReady s = (s.client_token ≡ s.token) × (s.enable_scim ≡ true → s.token ≢ "")

module _ {Certificate Disk : Type 0} (storage : Iface Disk) (env : Env)
    (marshal_config : Settings Certificate Disk → Result Bytes) where
  save_and_scim :
      (what : String) (reply : Reply) (s : Settings Certificate Disk)
      → (save_and storage env marshal_config what reply s).1.scim ≡ s.scim
  unfolding save_and
  save_and_scim what reply s = refl

  -- The setup of SCIM keeps the token of the context and that of the client the same, and leaves
  -- SCIM enabled only with a token, if the random source gives a text that is not empty.
  pub scim_setup_handler-IsReady :
      (http_method fresh : String) (request : ScimSetup) (s : Settings Certificate Disk)
      → fresh ≢ ""
      → IsReady s.scim
      → IsReady
          (scim_setup_handler storage env marshal_config http_method (ok fresh) request s).1.scim
  unfolding scim_setup_handler scim_token_step update_token save_and
  scim_setup_handler-IsReady http_method fresh request s named (same, some_token) =
      ground (arith, same, some_token, named, eq_iff s.scim.token "")
