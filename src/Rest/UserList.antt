-- ===== src/Rest/UserList.antt =====
-- What rest/users.go shows of the users: the list of all of them and the user of a request, with
-- UsersResponse and UserInfoResponse of rest/types.go.
pub mod Renewed
use go_devops_platform.Base.{
  ℕ, String, Bool, List, [], ◌∷◌, map, none, some, Result, ok, err, eqb, if◌then◌else◌, ◌==◌,
}
use go_devops_platform.Base.Map.{lookup}
use go_devops_platform.Base.Text.{◌+++◌}
use go_devops_platform.Storage.{Bytes, Iface}
use go_devops_platform.Users.Types.{User, World, Env}
use go_devops_platform.Users.Model.{list_users}
use go_devops_platform.Oidc.Types.{Store}

-- A zero `last_token_renewal` is the zero time.
pub record UsersResponse : Type 0 where
  pub id : String
  pub login : String
  pub role : String
  pub oidc_id : String
  pub saml_id : String
  pub provisioned : Bool
  pub suspended : Bool
  pub connections_disabled_on_auth_failure : Bool
  pub last_token_renewal : ℕ
  pub last_login : String

pub record UserInfoResponse : Type 0 where
  pub login : String
  pub role : String
  pub user_type : String

-- The bytes of the answer, or its status and error.
pub data Listing : Type 0 where
  shown : Bytes → Listing
  refused : ℕ → String → Listing

-- The loop over the entries for one user, who begins with `shown_time`; `order` is the order in
-- which Go ranges over them.
unfoldable pub renewal_of : List String → String → Store → ℕ → ℕ
renewal_of [] oidc_id store shown_time = shown_time
renewal_of (key ∷ order) oidc_id store shown_time =
    let rest = renewal_of order oidc_id store in
    elim (lookup key store.oauth2_data) [
      | none ↦ rest shown_time
      | some e ↦ if e.id == oidc_id then rest e.last_token_renewal else rest shown_time
    ]

-- `order` gives the order of the loop that is made for a user; `format` writes a time in UTC as
-- RFC 3339.
unfoldable pub user_response :
    (format : ℕ → String) (order : User → List String) → Store → User → UsersResponse
unfolding renewal_of
user_response format order store user = record {
  id = user.id;
  login = user.login;
  role = user.role;
  oidc_id = user.oidc_id;
  saml_id = user.saml_id;
  provisioned = user.provisioned;
  suspended = user.suspended;
  connections_disabled_on_auth_failure = user.connections_disabled_on_auth_failure;
  last_token_renewal = renewal_of (order user) user.oidc_id store 0;
  last_login = if eqb user.last_login 0 then "" else format user.last_login;
}

-- usersHandler, for GET; `marshal` is encoding/json.
unfoldable pub get_users :
    {Disk : Type 0}
    → Iface Disk
    → Env
    → (marshal : List UsersResponse → Result Bytes) → (format : ℕ → String)
    → (order : User → List String) → Store
    → World Disk
    → Listing
unfolding list_users user_response
get_users storage env marshal format order store w =
    elim (marshal (map (user_response format order store) (list_users storage env w))) [
      | err e ↦ refused 400 ("could not marshal SetupRequest: " +++ e)
      | ok out ↦ shown out
    ]

abbrev pub user_info : User → UserInfoResponse
user_info user = record {
  login = user.login;
  role = user.role;
  user_type = if user.oidc_id == "" then "local" else "oidc";
}

-- userinfoHandler, for the user that the middleware has put into the request.
unfoldable pub userinfo_handler : (marshal : UserInfoResponse → Result Bytes) → User → Listing
userinfo_handler marshal user = elim (marshal (user_info user)) [
  | err e ↦ refused 400 ("cannot marshal userinfo response: " +++ e)
  | ok out ↦ shown out
]
