-- ===== src/Rest/Settings.antt =====
-- The settings of rest/setup.go: setupHandler and scimSetupHandler, with UpdateToken of
-- auth/provisioning/scim/update.go, SetEnabled of auth/oidc/store/renewal/new.go, the SCIM part of
-- newContextWithParams in rest/context.go, and licenseHandler of rest/license.go.
pub mod SamlProviders
pub mod Checked
pub mod Scim
use go_devops_platform.Base.{
  ℕ, suc, String, Bool, true, false, List, Option, none, some, Result, ok, err, not, ◌&&◌, ◌||◌,
  if◌then◌else◌, ◌==◌,
}
use go_devops_platform.Base.Int.{ℤ}
use go_devops_platform.Base.Text.{◌+++◌}
use go_devops_platform.Storage.{Bytes, Iface}
use go_devops_platform.Users.Types.{World, Env}
use go_devops_platform.Users.Change.{user_count}
use go_devops_platform.Saml.{Provider}
use go_devops_platform.Saml.ServiceProvider.{Saml}
use go_devops_platform.Rest.Config.{write_config}
use go_devops_platform.Licensing.Host.{Host}
use go_devops_platform.Licensing.Limits.{refresh_license, get_license_key}

-- The SCIM part of `Context`, with the token of its client.
pub record ScimState : Type 0 where
  pub enable_scim : Bool
  pub token : String
  pub client_token : String

-- The part of `Context` that the settings read and write. The SAML service holds pointers to the
-- hostname, the protocol and the SAML providers. `tls_signals` counts what was sent on
-- enableTLSWaiter.
pub record Settings (Certificate Disk : Type 0) : Type 0 where
  pub world : World Disk
  pub saml : Saml Certificate
  pub scim : ScimState
  pub enable_tls : Bool
  pub redirect_to_https : Bool
  pub local_auth_disabled : Bool
  pub enable_oidc_token_renewal : Bool
  pub renewal_enabled : Bool
  pub tls_waiter_completed : Bool
  pub tls_signals : ℕ
  pub license_user_count : ℤ
  pub cloud_type : String

pub record GeneralSetupRequest : Type 0 where
  pub hostname : String
  pub enable_tls : Bool
  pub redirect_to_https : Bool
  pub disable_local_auth : Bool
  pub enable_oidc_token_renewal : Bool

pub record ScimSetup : Type 0 where
  pub enabled : Bool
  pub regenerate_token : Bool
  pub token : String
  pub base_url : String

pub record LicenseResponse : Type 0 where
  pub license_user_count : ℤ
  pub current_user_count : ℕ
  pub cloud_type : String
  pub key : String

pub data Reply : Type 0 where
  refused : ℕ → String → Reply
  general : GeneralSetupRequest → Reply
  scim_setup : ScimSetup → Reply
  saml_providers : List Provider → Reply
  saml_provider : Provider → Reply
  license : LicenseResponse → Reply
  deleted : String → Reply

abbrev pub same_bool : Bool → Bool → Bool
same_bool a b = if a then b else not b

module _ {Certificate Disk : Type 0} where
  unfoldable pub general_setup : Settings Certificate Disk → GeneralSetupRequest
  general_setup s = record {
    hostname = s.saml.hostname;
    enable_tls = s.enable_tls;
    redirect_to_https = s.redirect_to_https;
    disable_local_auth = s.local_auth_disabled;
    enable_oidc_token_renewal = s.enable_oidc_token_renewal;
  }

  -- The changes of setupHandler, in their order; `can_enable_tls` is canEnableTLS, which looks the
  -- new hostname up.
  unfoldable pub apply_setup :
      (String → Bool) → GeneralSetupRequest → Settings Certificate Disk → Settings Certificate Disk
  apply_setup can_enable_tls request s =
      let signals : Bool =
        not s.enable_tls
        && (request.enable_tls
            && (not s.tls_waiter_completed && can_enable_tls request.hostname)) in
      let switched : Bool =
        not (same_bool s.enable_oidc_token_renewal request.enable_oidc_token_renewal) in
      record s {
        saml = record s.saml { hostname = request.hostname };
        redirect_to_https = request.redirect_to_https;
        enable_tls = request.enable_tls;
        tls_signals = if signals then suc s.tls_signals else s.tls_signals;
        local_auth_disabled = request.disable_local_auth;
        enable_oidc_token_renewal = request.enable_oidc_token_renewal;
        renewal_enabled = if switched then request.enable_oidc_token_renewal else s.renewal_enabled;
      }

  -- The SCIM setup as it is shown.
  unfoldable pub shown_scim : Settings Certificate Disk → ScimSetup
  shown_scim s =
      let base : String = s.saml.protocol +++ "://" +++ s.saml.hostname +++ "/api/scim/v2/" in
      record {
        enabled = s.scim.enable_scim;
        regenerate_token = false;
        token = if s.scim.enable_scim then s.scim.token else "";
        base_url = if s.scim.enable_scim then base else "";
      }

-- A new token for the context and for the client.
unfoldable pub update_token : String → ScimState → ScimState
update_token token s = record s { token = token; client_token = token }

-- What newContextWithParams makes of the SCIM part of the configuration, and of a client.
unfoldable pub scim_of_config : Option ScimState → (client_token : String) → ScimState
scim_of_config none client_token = record {
  enable_scim = false;
  token = "";
  client_token = client_token;
}
scim_of_config (some stored) client_token = record stored { client_token = client_token }

module _ {Certificate Disk : Type 0} (storage : Iface Disk) (env : Env)
    (marshal_config : Settings Certificate Disk → Result Bytes) where
  -- SaveConfig, and the answer if there is no error.
  unfoldable pub save_and :
      String → Reply → Settings Certificate Disk → Reply × Settings Certificate Disk
  unfolding write_config
  save_and what reply s =
      let (r, d) = write_config storage env (marshal_config s) s.world.disk in
      let answer : Reply = elim r [ err e ↦ refused 400 (what +++ e) | ok _ ↦ reply ] in
      (answer, record s { world = record s.world { disk = d } })

  -- setupHandler; `request` is what decoding the body left in the request, whose error is dropped.
  unfoldable pub setup_handler :
      (String → Bool)
      → (http_method : String) → GeneralSetupRequest
      → Settings Certificate Disk
      → Reply × Settings Certificate Disk
  unfolding general_setup apply_setup save_and
  setup_handler can_enable_tls http_method request s =
      if http_method == "GET"
      then (general (general_setup s), s)
      else if http_method == "POST"
      then save_and "could not save config to disk: " (general request)
          (apply_setup can_enable_tls request s)
      else (refused 400 "method not supported", s)

  -- The code of scimSetupHandler after the switch, `saving` where it has changed; `fresh` is a
  -- random text in base64.
  unfoldable pub scim_token_step :
      Result String
      → (saving : Bool) → ScimSetup
      → Settings Certificate Disk
      → Reply × Settings Certificate Disk
  unfolding update_token save_and
  scim_token_step fresh saving request s =
      if request.regenerate_token || (request.enabled && s.scim.token == "")
      then elim fresh [
        | err e ↦ (refused 400 ("could not enable scim: " +++ e), s)
        | ok token ↦
            save_and "could not save config to disk: "
              (scim_setup (record request { token = token }))
              (record s { scim = update_token token s.scim })
      ]
      else if saving
      then save_and "could not save config to disk: " (scim_setup request) s
      else (scim_setup request, s)

  -- scimSetupHandler
  unfoldable pub scim_setup_handler :
      (http_method : String)
      → Result String
      → ScimSetup
      → Settings Certificate Disk
      → Reply × Settings Certificate Disk
  unfolding shown_scim scim_token_step
  scim_setup_handler http_method fresh request s =
      if http_method == "GET"
      then (scim_setup (shown_scim s), s)
      else if http_method == "POST"
      then scim_token_step fresh (not (same_bool request.enabled s.scim.enable_scim)) request
          (record s { scim = record s.scim { enable_scim = request.enabled } })
      else (refused 400 "method not supported", s)

  -- licenseHandler, with what comes from the machine and the license server.
  unfoldable pub license_handler :
      Host → (action : String) → Settings Certificate Disk → Reply × Settings Certificate Disk
  unfolding refresh_license get_license_key user_count
  license_handler host action s =
      let count = user_count storage env s.world in
      let (fresh, d) =
        refresh_license host storage s.cloud_type s.license_user_count s.world.disk in
      let (key, d') = get_license_key host storage s.cloud_type d in
      let reply = λ (n : ℤ) (k : String). license (record {
        license_user_count = n;
        current_user_count = count;
        cloud_type = s.cloud_type;
        key = k;
      }) in
      if action == "get-more"
      then (
        reply fresh key,
        record s { license_user_count = fresh; world = record s.world { disk = d' } },
      )
      else (reply s.license_user_count "", s)
