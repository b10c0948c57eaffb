-- ===== src/Rest/Start.antt =====
-- The start of a server: rest/context.go and GetConfig of rest/config.go. A goroutine that is
-- started shows only as what it is given.
pub mod Restart
use go_devops_platform.Base.{
  ℕ, String, Bool, true, false, List, [], Option, none, some, Result, ok, err, Run, returns, panics,
  if◌then◌else◌, not,
}
use go_devops_platform.Base.Int.{ℤ, pos}
use go_devops_platform.Base.Text.{◌+++◌}
use go_devops_platform.Storage.{Bytes, Iface}
use go_devops_platform.Oidc.Types.{OidcProvider, Store}
use go_devops_platform.Oidc.Store.{new_store, empty_store}
use go_devops_platform.Saml.{Provider}
use go_devops_platform.Rest.Settings.{ScimState, scim_of_config}
use go_devops_platform.Rest.Keys.{JwtKeys, KeySource, Codec, get_jwt_keys}

-- Context, with nil as `none`, but for what a start takes over as it is given (the user store, the
-- applications and the storage), the renewal, the client of SAML and the attempts to log in.
pub record Context (PrivateKey PublicKey : Type 0) : Type 0 where
  pub app_dir : String
  pub server_type : String
  pub setup_completed : Bool
  pub hostname : String
  pub protocol : String
  pub local_auth_disabled : Bool
  pub enable_tls : Bool
  pub redirect_to_https : Bool
  pub enable_oidc_token_renewal : Bool
  pub token_renewal_time_minutes : ℤ
  pub log_level : ℤ
  pub jwt_keys : Option (JwtKeys PrivateKey PublicKey)
  pub jwt_keys_kid : String
  pub oidc_store : Store
  pub oidc_providers : List OidcProvider
  pub license_user_count : ℤ
  pub cloud_type : String
  pub scim : Option ScimState
  pub saml_providers : Option (List Provider)

-- getEmptyContext; `random` is GetRandomString(64).
unfoldable pub get_empty_context :
    {PrivateKey PublicKey : Type 0}
    → (random : Result String) → (app_dir : String) → Result (Context PrivateKey PublicKey)
get_empty_context (err e) app_dir = err "couldn't generate random string for local kid"
get_empty_context (ok kid) app_dir = ok (record {
  app_dir = app_dir;
  server_type = "";
  setup_completed = false;
  hostname = "";
  protocol = "";
  local_auth_disabled = false;
  enable_tls = false;
  redirect_to_https = false;
  enable_oidc_token_renewal = false;
  token_renewal_time_minutes = pos 60;
  log_level = pos 1;
  jwt_keys = none;
  jwt_keys_kid = kid;
  oidc_store = empty_store;
  oidc_providers = [];
  license_user_count = pos 0;
  cloud_type = "";
  scim = some (record { enable_scim = false; token = ""; client_token = "" });
  saml_providers = some [];
})

module _ {Disk PrivateKey PublicKey : Type 0} (storage : Iface Disk)
    (decode : Bytes → Result (Option (Context PrivateKey PublicKey))) where
  -- GetConfig; `app_dir` is GetPath. A decoder that reads `null` leaves the pointer nil.
  unfoldable pub get_config :
      Result String → String → Disk → Run (Result (Context PrivateKey PublicKey))
  unfolding get_empty_context
  get_config random app_dir d =
      if not (storage.file_exists (storage.config_path "config.json") d)
      then returns (get_empty_context random app_dir)
      else elim (storage.read_file (storage.config_path "config.json") d) [
        | err e ↦ returns (err ("config read error: " +++ e))
        | ok content ↦ elim (decode content) [
          | err e ↦ returns (err ("decode input error: " +++ e))
          | ok none ↦ panics "invalid memory address or nil pointer dereference"
          | ok (some c) ↦ returns (ok (record c { app_dir = app_dir }))
        ]
      ]

  module _ (codec : Codec PrivateKey PublicKey) (unmarshal : Bytes → Result Store)
      (server_type cloud_type client_token : String) (license_user_count : ℤ) where
    -- The code after the keys are there.
    abbrev pub complete :
        Context PrivateKey PublicKey
        → JwtKeys PrivateKey PublicKey
        → Disk
        → Result (Context PrivateKey PublicKey)
    complete c keys d = elim (new_store storage unmarshal d) [
      | err e ↦ err ("getOIDCStore error: " +++ e)
      | ok store ↦ ok (record c {
        server_type = server_type;
        jwt_keys = some keys;
        oidc_store = store;
        license_user_count = license_user_count;
        cloud_type = cloud_type;
        scim = some (scim_of_config c.scim client_token);
        saml_providers = elim c.saml_providers [ none ↦ some [] | some ps ↦ some ps ];
      })
    ]

    -- newContextWithParams; `client_token` is that of the client of SCIM.
    unfoldable pub new_context_with_params :
        Result String
        → KeySource PrivateKey
        → String
        → Disk
        → Run (Result (Context PrivateKey PublicKey)) × Disk
    unfolding get_config
    new_context_with_params random source app_dir d = elim (get_config random app_dir d) [
      | panics e ↦ (panics e, d)
      | returns (err e) ↦ (returns (err ("getConfig error: " +++ e)), d)
      | returns (ok c) ↦
          let (read, d') = get_jwt_keys storage codec source d in
          elim read [
            | err e ↦ (returns (err ("getJWTKeys error: " +++ e)), d')
            | ok keys ↦ (returns (complete c keys d'), d')
          ]
    ]
