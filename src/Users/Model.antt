-- ===== src/Users/Model.antt =====
-- users/localusers.go and users/oidcusers.go: adding and finding users.
use go_devops_platform.Base.{
  suc, String, Bool, true, false, List, [], ◌∷◌, ◌++◌, map, none, some, Result, ok, err, Action,
  ◌&&◌, if◌then◌else◌, ◌==◌, find, any,
}
use go_devops_platform.Base.Text.{◌+++◌}
use go_devops_platform.Storage.{Iface}
use go_devops_platform.Users.Types.{User, no_user, World, Env, has_login, has_id, blanked, appended}
use go_devops_platform.Users.Save.{saved, hash_password}

module _ {Disk : Type 0} (storage : Iface Disk) (env : Env) where
  -- Every field but the password.
  unfoldable pub list_users : World Disk → List User
  list_users w = map blanked w.users

  unfoldable pub add_user : User → Action (World Disk) User
  unfolding list_users
  add_user user w =
      if user.login == ""
      then (err "login cannot be empty", w)
      else if any (has_login user.login) (list_users w)
      then (err ("user with login '" +++ user.login +++ "' already exists"), w)
      else let identified : User = record user { id = env.uuid w.draws } in
        let drawn : World Disk = record w { draws = suc w.draws } in
        if identified.password == ""
        then saved storage env identified (appended identified drawn)
        else let (r, w') = hash_password env identified.password drawn in
          elim r [
            | err e ↦ (err ("HashPassword error: " +++ e), w')
            | ok h ↦
                let hashed : User = record identified { password = h } in
                saved storage env hashed (appended hashed w')
          ]

  -- The loop of `AddUsers`; `existing` is `existingUsers`. The users that were appended before an
  -- error stay in the store.
  unfoldable pub add_users_from :
      List User → List User → List User → Action (World Disk) (List User)
  add_users_from existing created [] w = (ok created, w)
  add_users_from existing created (user ∷ rest) w =
      if any (has_login user.login) existing
      then (err ("user with login '" +++ user.login +++ "' already exists"), w)
      else let (r, w') = hash_password env user.password (record w { draws = suc w.draws }) in
        elim r [
          | err e ↦ (err ("HashPassword error: " +++ e), w')
          | ok h ↦
              let hashed : User = record user { id = env.uuid w.draws; password = h } in
              add_users_from (existing ++ hashed ∷ []) (created ++ hashed ∷ []) rest
                (appended hashed w')
        ]

  unfoldable pub add_users : List User → Action (World Disk) (List User)
  unfolding list_users
  add_users users w =
      let (r, w') = add_users_from (list_users w) [] users w in
      elim r [ err e ↦ (err e, w') | ok created ↦ saved storage env created w' ]

  unfoldable pub get_user_by_id : String → World Disk → Result User
  get_user_by_id id w = elim (find (has_id id) w.users) [
    | none ↦ err "User not found"
    | some u ↦ ok (blanked u)
  ]

  unfoldable pub get_user_by_login : String → World Disk → Result User
  get_user_by_login login w = elim (find (has_login login) w.users) [
    | none ↦ err "User not found"
    | some u ↦ ok (blanked u)
  ]

  -- The password stays in the result.
  unfoldable pub get_user_by_oidc_ids : List String → World Disk → Result User
  get_user_by_oidc_ids ids w = elim (find (λ u. any (λ id. u.oidc_id == id) ids) w.users) [
    | none ↦ err "User not found"
    | some u ↦ ok u
  ]

  unfoldable pub login_exists : String → World Disk → Bool
  login_exists login w = any (has_login login) w.users

  -- The first user with the login whose password fits; `User{}` otherwise.
  unfoldable pub auth_user : String → String → World Disk → User × Bool
  auth_user login password w =
      elim (find (λ u. has_login login u && env.compare_hash u.password password) w.users) [
        | some u ↦ (u, true)
        | none ↦ (no_user, false)
      ]
