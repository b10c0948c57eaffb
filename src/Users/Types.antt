-- ===== src/Users/Types.antt =====
-- users/types.go, and what package users takes from outside. Package bcrypt, package uuid, the JSON
-- encoding and package os/user are parameters.
use go_devops_platform.Base.{ℕ, String, Bool, false, List, [], ◌∷◌, ◌++◌, Result, ◌==◌}
use go_devops_platform.Base.Int.{ℤ}
use go_devops_platform.Storage.{Bytes}

pub record Factor : Type 0 where
  pub name : String
  pub kind : String
  pub secret : String

-- `last_login` is in seconds; zero is the zero time.
pub record User : Type 0 where
  pub id : String
  pub login : String
  pub role : String
  pub oidc_id : String
  pub saml_id : String
  pub provisioned : Bool
  pub password : String
  pub suspended : Bool
  pub connections_disabled_on_auth_failure : Bool
  pub factors : List Factor
  pub external_id : String
  pub last_login : ℕ

-- User{}
abbrev pub no_user : User
no_user = record {
  id = "";
  login = "";
  role = "";
  oidc_id = "";
  saml_id = "";
  provisioned = false;
  password = "";
  suspended = false;
  connections_disabled_on_auth_failure = false;
  factors = [];
  external_id = "";
  last_login = 0;
}

-- The store with the disk behind its storage; `draws` counts what was taken from the random source.
pub record World (Disk : Type 0) : Type 0 where
  pub users : List User
  pub auto_save : Bool
  pub max_users : ℤ
  pub disk : Disk
  pub draws : ℕ

-- `uuid` and `generate` read the random source: the argument is the number of earlier draws.
-- `generate` is bcrypt.GenerateFromPassword, `compare_hash h p` is
-- `bcrypt.CompareHashAndPassword(h, p) == nil`, `marshal` and `unmarshal` are encoding/json on a
-- list of users, `current_user` is os/user.
pub record Env : Type 0 where
  pub uuid : ℕ → String
  pub generate : ℕ → String → Result String
  pub compare_hash : String → String → Bool
  pub marshal : List User → Result Bytes
  pub unmarshal : Bytes → Result (List User)
  pub current_user : Result String

abbrev pub filename : String
filename = "users.json"

abbrev pub has_login : String → User → Bool
has_login login u = u.login == login

abbrev pub has_id : String → User → Bool
has_id id u = u.id == id

abbrev pub blanked : User → User
blanked u = record u { password = "" }

abbrev pub appended : {Disk : Type 0} → User → World Disk → World Disk
appended u w = record w { users = w.users ++ u ∷ [] }
