-- ===== src/Tests/Server.antt =====
-- The handlers of the server at concrete inputs.
use go_devops_platform.Base.{
  ◌/◌, ◌≡◌, ◌⊎◌, refl, String, true, false, [], ◌∷◌, some, Result, ok, leb, find, any, arith,
  eq_iff,
}
use go_devops_platform.Base.Int.{pos}
use go_devops_platform.Base.Map.{lookup}
use go_devops_platform.Storage.Memory.{MemoryStorage, memory}
use go_devops_platform.Users.Types.{User, no_user, has_login}
use go_devops_platform.Users.Save.{hash_password, saved}
use go_devops_platform.Users.Model.{add_user, auth_user, list_users, get_user_by_id}
use go_devops_platform.Users.Change.{update_user, update_password, user_count}
use go_devops_platform.Users.Auth.{Hashes}
use go_devops_platform.Login.Attempts.{check_too_many_logins, count_recent, attempts_of}
use go_devops_platform.Login.Authenticate.{
  LoginRequest, LoginResponse, no_response, authenticate, respond, grant,
}
use go_devops_platform.Login.Granted.{passes}
use go_devops_platform.Totp.{
  Crypto, verify, get_token, verify_multiple_intervals, truncate, read_uint32, six_digits,
}
use go_devops_platform.Oidc.Store.{second}
use go_devops_platform.Scim.{UserHooks}
use go_devops_platform.Rest.Server.{Server, Answer, return_error, is_alpha_numeric}
use go_devops_platform.Rest.Login.{Attempt, auth_handler}
use go_devops_platform.Rest.Lockout.{posted, auth_handler_locks, auth_handler_sound}
use go_devops_platform.Rest.Accounts.{
  NewUserRequest, new_user_error, post_users, patch_user, add_or_modify_external_user,
}
use go_devops_platform.Rest.AccountLaws.{
  auth_user-post_users, patch_user_password, find-add_or_modify_external_user,
}
use go_devops_platform.Rest.Profile.{FactorRequest, factor_error, post_factor, find-post_factor}
use go_devops_platform.Tests.Data.{ann, bob, env, world}

abbrev server : Server MemoryStorage
server = record {
  world = world (ann ∷ bob ∷ []);
  login_attempts = [];
  local_auth_disabled = false;
  license_user_count = pos 3;
}

-- An HMAC that is 20 zeros.
abbrev crypto : Crypto
crypto = record {
  decode = λ secret. ok [];
  hmac = λ key message.
      0 ∷ 0 ∷ 0 ∷ 0 ∷ 0 ∷ 0 ∷ 0 ∷ 0 ∷ 0 ∷ 0 ∷ 0 ∷ 0 ∷ 0 ∷ 0 ∷ 0 ∷ 0 ∷ 0 ∷ 0 ∷ 0 ∷ 0 ∷ [];
}

abbrev sign : String → String → Result String
sign login role = ok "token"

abbrev request : LoginRequest
request = record {
  login = "ann";
  password = "secret";
  factor_response = record { name = ""; code = "" };
}

abbrev handle : Attempt → Server MemoryStorage → Answer × Server MemoryStorage
handle = auth_handler memory env crypto sign

abbrev locked : Server MemoryStorage
locked =
    (handle (posted 3 (record request { password = "c" }))
      (handle (posted 2 (record request { password = "b" }))
        (handle (posted 1 (record request { password = "a" })) server).1).1).1

auth_handler_locks_example :
    (handle (posted 4 request) locked
      ≡ (return_error 429 "too many login failures, try again later", locked))
    × (locked.world ≡ server.world)
unfolding lookup auth_user
auth_handler_locks_example =
    auth_handler_locks memory env crypto sign 1 2 3 4 request "a" "b" "c" server refl refl refl refl
      refl (omega arith) (omega arith) (omega arith)

abbrev granted : LoginResponse
granted = record no_response { authenticated = true; token = "token" }

auth_handler_sound_example :
    (true ≡ true)
    × (false ≡ false)
    × (leb 3 (count_recent 4 (attempts_of (lookup "ann" server.login_attempts))) ≡ false)
    × ((auth_user memory env "ann" "secret" server.world).1 ≡ true)
    × ((auth_user memory env "ann" "secret" server.world).0.suspended ≡ false)
    × (sign "ann" "admin" ≡ ok "token")
    × (((auth_user memory env "ann" "secret" server.world).0.factors ≡ [])
        ⊎ (any
              (passes (verify crypto (4 / second)) request.factor_response)
              (auth_user memory env "ann" "secret" server.world).0.factors
            ≡ true))
unfolding auth_handler lookup auth_user authenticate respond grant check_too_many_logins update_user
    saved
auth_handler_sound_example =
    auth_handler_sound memory env crypto sign (posted 4 request) request granted server refl refl
      refl

env-Hashes : Hashes env
env-Hashes n p h e = ground (arith, e, eq_iff h h)

abbrev carl : NewUserRequest
carl = record { login = "carl"; role = "user"; password = "pw" }

auth_user-post_users_example :
    auth_user memory env "carl" "pw" (post_users memory env (ok carl) server).1.world
    ≡ (record no_user { id = "u0"; login = "carl"; role = "user"; password = "#pw" }, true)
unfolding post_users new_user_error is_alpha_numeric add_user hash_password saved list_users
    user_count
auth_user-post_users_example =
    auth_user-post_users memory env carl
      (record no_user { id = "u0"; login = "carl"; role = "user"; password = "#pw" }) server
      env-Hashes refl

abbrev hooks : UserHooks MemoryStorage
hooks = record {
  disable_func = λ u d. (ok tt, d);
  reactivate_func = λ u d. (ok tt, d);
  delete_func = λ u d. (ok tt, d);
}

-- A new password for Bob, sent to the address of Ann.
abbrev body : User
body = record no_user { id = "2"; password = "new" }

patch_user_password_example :
    (auth_user memory env "bob" "new" (patch_user memory env hooks "1" (ok body) server).1.world).1
    ≡ true
unfolding patch_user get_user_by_id update_password hash_password saved
patch_user_password_example =
    patch_user_password memory env hooks "1" body ann bob (record ann { password = "" }) server
      env-Hashes refl refl refl refl (λ e. ground (arith, e, eq_iff "new" "")) refl

find-add_or_modify_external_user_example :
    find
      (has_login "ann")
      (add_or_modify_external_user memory env hooks 7 "ann" "saml" "s"
        (world (ann ∷ bob ∷ []))).1.users
    ≡ some (record ann { saml_id = "s"; last_login = 7 })
find-add_or_modify_external_user_example =
    find-add_or_modify_external_user memory env hooks 7 "ann" "saml" "s" "ann" ann
      (world (ann ∷ bob ∷ [])) refl

abbrev eve : User
eve = record no_user { id = "u0"; login = "eve"; role = "user"; oidc_id = "o"; last_login = 7 }

abbrev phone : FactorRequest
phone = record { name = "phone"; kind = "totp"; secret = "S"; code = "000000" }

find-post_factor_example :
    find
      (has_login "ann")
      (post_factor memory env crypto 1000 ann (ok phone) (world (ann ∷ bob ∷ []))).1.users
    ≡ some (record ann { factors = record { name = "phone"; kind = "totp"; secret = "S" } ∷ [] })
unfolding factor_error verify_multiple_intervals get_token truncate read_uint32 six_digits
find-post_factor_example =
    find-post_factor memory env crypto 1000 ann ann phone (world (ann ∷ bob ∷ [])) "ann" refl
