-- ===== src/Tests/Settings.antt =====
-- The settings at concrete inputs.
use go_devops_platform.Base.{ℕ, ◌≡◌, refl, String, true, false, [], ◌∷◌, Result, ok, All, is_ok}
use go_devops_platform.Base.Int.{pos}
use go_devops_platform.Storage.{Bytes}
use go_devops_platform.Storage.Memory.{memory, MemoryStorage}
use go_devops_platform.Saml.{Provider}
use go_devops_platform.Saml.Metadata.{has_valid_metadata_url}
use go_devops_platform.Rest.Settings.{Settings, ScimState, ScimSetup, scim_setup_handler}
use go_devops_platform.Rest.Settings.SamlProviders.{saml_setup_handler}
use go_devops_platform.Rest.Settings.Scim.{IsReady, scim_setup_handler-IsReady}
use go_devops_platform.Rest.Settings.Checked.{saml_setup_handler-HasChecked}
use go_devops_platform.Tests.Data.{ann, env, world}
use go_devops_platform.Tests.Saml.{saml, saml_provider, network}

abbrev scim : ScimState
scim = record { enable_scim = true; token = "old"; client_token = "old" }

scim-IsReady : IsReady scim
scim-IsReady = (refl, λ e f. absurd (cc f))

abbrev settings : Settings ℕ MemoryStorage
settings = record {
  world = world (ann ∷ []);
  saml = saml;
  scim = scim;
  enable_tls = false;
  redirect_to_https = false;
  local_auth_disabled = false;
  enable_oidc_token_renewal = false;
  renewal_enabled = false;
  tls_waiter_completed = false;
  tls_signals = 0;
  license_user_count = pos 3;
  cloud_type = "";
}

abbrev marshal_config : Settings ℕ MemoryStorage → Result Bytes
marshal_config s = ok []

abbrev setup : ScimSetup
setup = record { enabled = true; regenerate_token = true; token = ""; base_url = "" }

scim_setup_handler-IsReady_example :
    IsReady (scim_setup_handler memory env marshal_config "POST" (ok "fresh") setup settings).1.scim
scim_setup_handler-IsReady_example =
    scim_setup_handler-IsReady memory env marshal_config "POST" "fresh" setup settings
      (λ f. absurd (cc f)) scim-IsReady

-- The URL of a provider is checked.
abbrev IsChecked : String → Type 0
IsChecked url = is_ok (has_valid_metadata_url (network true) url).0 ≡ true

saml_setup_handler-HasChecked_example :
    All
      (λ (p : Provider). IsChecked p.metadata_url)
      (saml_setup_handler memory env marshal_config
        (network true)
        "POST"
        "new"
        (ok (saml_provider true))
        settings).1.saml.providers
unfolding has_valid_metadata_url
saml_setup_handler-HasChecked_example =
    saml_setup_handler-HasChecked memory env marshal_config (network true) IsChecked (λ url e. e)
      "POST" "new" (ok (saml_provider true)) settings (refl, tt)
