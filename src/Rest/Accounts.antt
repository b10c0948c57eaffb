-- ===== src/Rest/Accounts.antt =====
-- The handlers of users of rest/users.go.
use go_devops_platform.Base.{
  ℕ, String, Bool, false, Option, none, some, Result, ok, err, Done, Action, not, ◌&&◌, ◌||◌,
  if◌then◌else◌, ◌==◌,
}
use go_devops_platform.Base.Int.{pos, leb_ℤ}
use go_devops_platform.Base.Text.{◌+++◌}
use go_devops_platform.Storage.{Iface}
use go_devops_platform.Users.Types.{User, no_user, World, Env}
use go_devops_platform.Users.Model.{add_user, get_user_by_id, get_user_by_login, login_exists}
use go_devops_platform.Users.Change.{delete_user_by_id, update_user, update_password, user_count}
use go_devops_platform.Scim.{UserHooks}
use go_devops_platform.Rest.Server.{
  Server, Answer, return_error, write, account, deleted, is_alpha_numeric,
}

pub record NewUserRequest : Type 0 where
  pub login : String
  pub role : String
  pub password : String

-- What the checks of a new user say, in their order.
unfoldable pub new_user_error : NewUserRequest → Option String
unfolding is_alpha_numeric
new_user_error request =
    if not (is_alpha_numeric request.login)
    then some "login not valid"
    else if request.login == ""
    then some "login is empty"
    else if request.password == ""
    then some "password is empty"
    else if not (request.role == "user") && not (request.role == "admin")
    then some "invalid role"
    else none

module _ {Disk : Type 0} (storage : Iface Disk) (env : Env) where
  -- usersHandler, for POST
  unfoldable pub post_users : Result NewUserRequest → Server Disk → Answer × Server Disk
  unfolding new_user_error add_user user_count
  post_users (err e) s = (return_error 400 ("decode input error: " +++ e), s)
  post_users (ok request) s = elim (new_user_error request) [
    | some e ↦ (return_error 400 e, s)
    | none ↦
        if leb_ℤ s.license_user_count (pos (user_count storage env s.world))
        then (return_error 400 "no more licenses available", s)
        else (let (r, w) =
              add_user storage env
                (record no_user {
                  login = request.login;
                  password = request.password;
                  role = request.role;
                })
                s.world in
            elim r [
              | err e ↦ (return_error 400 ("add user error: " +++ e), record s { world = w })
              | ok user ↦ (write (account user), record s { world = w })
            ])
  ]

  module _ (hooks : UserHooks Disk) where
    -- userHandler, for DELETE: the hook is called after the user is gone, on its ID alone.
    unfoldable pub delete_user : String → Server Disk → Answer × Server Disk
    unfolding delete_user_by_id
    delete_user id s =
        let (r, w) = delete_user_by_id storage env id s.world in
        elim r [
          | err e ↦ (return_error 400 ("delete user error: " +++ e), record s { world = w })
          | ok _ ↦
              let (called, d) = hooks.delete_func (record no_user { id = id }) w.disk in
              let s' : Server Disk = record s { world = record w { disk = d } } in
              elim called [
                | err e ↦ (return_error 400 ("could not delete all clients: " +++ e), s')
                | ok _ ↦ (write (deleted id), s')
              ]
        ]

    -- The hook that a change of the user calls, on the user of the body.
    abbrev pub patch_hook : User → User → Action Disk Done
    patch_hook stored user =
        if stored.suspended && not user.suspended
        then hooks.reactivate_func user
        else if not stored.suspended && user.suspended
        then hooks.disable_func user
        else λ d. (ok tt, d)

    -- The stored user with the role and the suspension of the body.
    abbrev pub patched : User → User → User
    patched stored user = record stored {
      role = if user.role == "" then stored.role else user.role;
      suspended = user.suspended;
    }

    abbrev same_bool : Bool → Bool → Bool
    same_bool a b = if a then b else not b

    abbrev pub needs_update : User → User → Bool
    needs_update stored user =
        (not (user.role == "") && not (stored.role == user.role))
        || not (same_bool stored.suspended user.suspended)

    -- `if c { err = … ; if err != nil { return } }`
    abbrev pub when : Bool → Action (World Disk) Done → Action (World Disk) Done
    when c action w = if c then action w else (ok tt, w)

    -- userHandler, for PATCH: the password is that of the ID in the body.
    unfoldable pub patch_user : String → Result User → Server Disk → Answer × Server Disk
    unfolding get_user_by_id update_user update_password
    patch_user id body s = elim (get_user_by_id storage env id s.world) [
      | err e ↦ (return_error 400 ("user not found: " +++ e), s)
      | ok stored ↦ elim body [
        | err e ↦ (return_error 400 ("decode input error: " +++ e), s)
        | ok user ↦
            let (called, d) = patch_hook stored user s.world.disk in
            let hooked : World Disk = record s.world { disk = d } in
            elim called [
              | err e ↦ (
                return_error 400 ("the clients could not be changed: " +++ e),
                record s { world = hooked },
              )
              | ok _ ↦
                  let (updated, w) =
                    when (needs_update stored user) (update_user storage env (patched stored user))
                      hooked in
                  elim updated [
                    | err e ↦
                        (return_error 400 ("update user error: " +++ e), record s { world = w })
                    | ok _ ↦
                        let (changed, w') =
                          when (not (user.password == ""))
                            (update_password storage env user.id user.password) w in
                        elim changed [
                          | err e ↦ (
                            return_error 400 ("update password error: " +++ e),
                            record s { world = w' },
                          )
                          | ok _ ↦ (write (account (patched stored user)), record s { world = w' })
                        ]
                  ]
            ]
      ]
    ]

    -- The user with the id of an external login of this type.
    abbrev pub linked : String → String → User → User
    linked auth_type external_id user = record user {
      oidc_id = if auth_type == "oidc" then external_id else user.oidc_id;
      saml_id = if auth_type == "saml" then external_id else user.saml_id;
    }

    -- `now` is in seconds.
    unfoldable pub add_or_modify_external_user :
        ℕ → String → String → String → Action (World Disk) User
    unfolding login_exists get_user_by_login update_user add_user
    add_or_modify_external_user now login auth_type external_id w =
        if not (login_exists storage env login w)
        then add_user storage env
            (linked auth_type external_id
              (record no_user { login = login; role = "user"; last_login = now }))
            w
        else elim (get_user_by_login storage env login w) [
          | err e ↦ (err ("couldn't find existing user in database: " +++ login), w)
          | ok existing ↦
              let user : User = linked auth_type external_id existing in
              let (called, d) =
                if user.connections_disabled_on_auth_failure
                then hooks.reactivate_func user w.disk
                else (ok tt, w.disk) in
              let hooked : World Disk = record w { disk = d } in
              elim called [
                | err e ↦ (err ("could not reactivate all clients: " +++ e), hooked)
                | ok _ ↦
                    let seen : User = record user {
                      connections_disabled_on_auth_failure = false;
                      last_login = now;
                    } in
                    let (r, w') = update_user storage env seen hooked in
                    elim r [
                      | err e ↦ (err ("couldn't update user: " +++ login), w')
                      | ok _ ↦ (ok seen, w')
                    ]
              ]
        ]
