-- ===== src/Tests/Keys.antt =====
-- The keys of the server at concrete inputs.
use go_devops_platform.Base.{
  String, Option, some, Run, ℕ, ◌≡◌, ◌≢◌, refl, false, [], ◌∷◌, Result, ok, err, is_ok, eq_iff,
}
use go_devops_platform.Base.Map.{lookup, insert}
use go_devops_platform.Storage.{Bytes}
use go_devops_platform.Storage.Memory.{
  memory, MemoryStorage, empty, config_path, file_exists, ensure_path, write_file, read_file,
}
use go_devops_platform.Storage.Memory.View.{IsValid}
use go_devops_platform.Storage.Memory.Stores.{memory-IsStorage, memory-IsSeparate}
use go_devops_platform.Tests.Saml.{empty-IsValid}
use go_devops_platform.Base.Int.{pos}
use go_devops_platform.Oidc.Types.{Store}
use go_devops_platform.Oidc.Store.{empty_store, new_store}
use go_devops_platform.Rest.Settings.{scim_of_config}
use go_devops_platform.Rest.Start.{Context, get_empty_context, get_config, new_context_with_params}
use go_devops_platform.Rest.Start.Restart.{restart_keeps_keys}
use go_devops_platform.Rest.Keys.{
  save_public_pem_key, KeySource, Codec, private_file, public_file, save_pem_key, create_jwt_keys,
  read_jwt_keys, get_jwt_keys,
}
use go_devops_platform.Rest.Keys.Stuck.{get_jwt_keys_stuck}

-- A key is a number, and its text has this number alone.
abbrev codec : Result Bytes → Codec ℕ ℕ
codec public_text = record {
  public_of = λ k. k;
  marshal_private_key = λ k. k ∷ [];
  marshal_public_key = λ k. public_text;
  pem_encode = λ kind b. ok b;
  parse_private_key = λ b. ok 7;
  parse_public_key = λ b. ok 7;
  dir = λ name. "config/pki";
}

abbrev source : ℕ → KeySource ℕ
source k = record { generate_key = ok k }

abbrev sound : Codec ℕ ℕ
sound = codec (ok (7 ∷ []))

-- Keys that are made are read back.
get_jwt_keys_made :
    (get_jwt_keys memory sound (source 7) empty).0 ≡ ok (record { private_key = 7; public_key = 7 })
unfolding get_jwt_keys create_jwt_keys save_pem_key read_jwt_keys config_path file_exists
    ensure_path write_file read_file lookup insert
get_jwt_keys_made = refl

keys_differ : public_file memory sound ≢ private_file memory sound
unfolding config_path
keys_differ e = absurd (cc ((eq_iff (public_file memory sound) (private_file memory sound)).1 e))

-- No configuration is stored, so the decoders are not called.
abbrev decode : Bytes → Result (Option (Context ℕ ℕ))
decode b = err "json"

abbrev unmarshal : Bytes → Result Store
unmarshal b = err "json"

abbrev started : String → Context ℕ ℕ
started kid = record {
  app_dir = "/vpn";
  server_type = "vpn";
  setup_completed = false;
  hostname = "";
  protocol = "";
  local_auth_disabled = false;
  enable_tls = false;
  redirect_to_https = false;
  enable_oidc_token_renewal = false;
  token_renewal_time_minutes = pos 60;
  log_level = pos 1;
  jwt_keys = some (record { private_key = 7; public_key = 7 });
  jwt_keys_kid = kid;
  oidc_store = empty_store;
  oidc_providers = [];
  license_user_count = pos 3;
  cloud_type = "aws";
  scim = some (record { enable_scim = false; token = ""; client_token = "" });
  saml_providers = some [];
}

abbrev start : String → ℕ → MemoryStorage → Run (Result (Context ℕ ℕ)) × MemoryStorage
start kid k d =
    new_context_with_params memory decode sound unmarshal "vpn" "aws" "" (pos 3) (ok kid) (source k)
      "/vpn" d

restart_keeps_keys_example :
    ((started "later").jwt_keys ≡ (started "first").jwt_keys)
    × ((start "later" 8 (start "first" 7 empty).1).1 ≡ (start "first" 7 empty).1)
unfolding new_context_with_params get_config get_empty_context scim_of_config new_store get_jwt_keys
    create_jwt_keys save_pem_key save_public_pem_key read_jwt_keys config_path file_exists
    ensure_path write_file read_file lookup insert
restart_keeps_keys_example =
    restart_keeps_keys memory decode sound unmarshal "vpn" "aws" "" (pos 3) "/vpn" IsValid
      memory-IsStorage memory-IsSeparate keys_differ refl refl (ok "first") (ok "later") (source 7)
      (source 8) empty (started "first") (started "later") empty-IsValid refl refl

abbrev broken : Codec ℕ ℕ
broken = codec (err "asn1")

files_differ : public_file memory broken ≢ private_file memory broken
unfolding config_path
files_differ e = absurd (cc ((eq_iff (public_file memory broken) (private_file memory broken)).1 e))

get_jwt_keys_stuck_example :
    let d' = (get_jwt_keys memory broken (source 7) empty).1 in
    (is_ok (get_jwt_keys memory broken (source 8) d').0 ≡ false)
    × ((get_jwt_keys memory broken (source 8) d').1 ≡ d')
unfolding get_jwt_keys create_jwt_keys save_pem_key config_path file_exists ensure_path write_file
    read_file lookup insert
get_jwt_keys_stuck_example =
    get_jwt_keys_stuck memory broken IsValid memory-IsStorage memory-IsSeparate (source 7)
      (source 8) empty 7 "file does not exist" empty-IsValid files_differ refl refl refl refl refl
      refl refl
