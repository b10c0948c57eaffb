-- ===== src/Scim/Update.antt =====
-- Suspending, reactivating and renaming a user by a PUT request:
-- auth/provisioning/scim/users.go.
use go_devops_platform.Base.{
  ◌≡◌, ◌≢◌, String, false, List, [], ◌∷◌, some, ok, is_ok, not, ◌&&◌, if◌then◌else◌, ◌==◌, eq_iff,
  arith, Result-cases, inl, inr, any, find, find-any-false,
}
use go_devops_platform.Storage.{Iface}
use go_devops_platform.Users.Types.{User, World, Env, has_id, has_login, blanked}
use go_devops_platform.Users.Model.{get_user_by_id, login_exists}
use go_devops_platform.Users.Change.{update_user}
use go_devops_platform.Users.Unique.{IsUnique}
use go_devops_platform.Users.Auth.{find-update_user}
use go_devops_platform.Scim.{UserHooks, PostUserRequest, get_username, put_user_handler, hook}

any-find :
    (id login : String) (u : User) (us : List User)
    → find (has_id id) us ≡ some u
    → any (has_login login) us ≡ false
    → (u.login == login) ≡ false
any-find id login u [] e h = cc
any-find id login u (v ∷ us) e h = ground (arith, e, h, any-find id login u us)

-- Where logins are not shared, the first user with an id is the first with its login.
find-has_login :
    (id : String) (u : User) (us : List User)
    → IsUnique us
    → find (has_id id) us ≡ some u
    → find (has_login u.login) us ≡ some u
find-has_login id u [] h e = cc
find-has_login id u (v ∷ us) (q, h) e = ground (
  arith,
  e,
  q,
  find-has_login id u us h,
  any-find id v.login u us,
  eq_iff v.login u.login,
  eq_iff u.login v.login,
  eq_iff v.login v.login,
)

module _ {Disk : Type 0} (storage : Iface Disk) (env : Env) (hooks : UserHooks Disk) where
  -- Where logins are not shared, a PUT request for a known id that names the user's own login
  -- suspends or reactivates that user and changes nothing else of it, the password included, once
  -- the hook for the change has succeeded; when the hook fails, no user changes. No other login is
  -- affected. The hook is called on the user without its password.
  pub put_user_handler_suspends :
      (id : String) (request : PostUserRequest) (u : User) (w : World Disk) (login : String)
      → IsUnique w.users
      → find (has_id id) w.users ≡ some u
      → get_username request ≡ u.login
      → find (has_login login) (put_user_handler storage env hooks id (ok request) w).1.users ≡ (
          if is_ok (hook storage env hooks request.active (blanked u) w.disk).0 && u.login == login
          then some (record u { suspended = not request.active })
          else find (has_login login) w.users)
  unfolding put_user_handler get_user_by_id
  put_user_handler_suspends id request u w login unique found same =
      let (called, d) = hook storage env hooks request.active (blanked u) w.disk in
      let hooked : World Disk = record w { disk = d } in
      let user : User = record (blanked u) { suspended = not request.active } in
      elim (Result-cases called) [
        | inl (done, e) ↦ ground (
          arith,
          found,
          same,
          e,
          eq_iff u.login (get_username request),
          eq_iff u.login login,
          find-update_user storage env user hooked login,
          find-has_login id u w.users unique found,
        )
        | inr (message, e) ↦ ground (arith, found, same, e)
      ]

  -- A PUT request that gives a known user a free login is answered with the status 400 and changes
  -- no user, although the hook has been called by then.
  pub put_user_handler_rename :
      (id : String) (request : PostUserRequest) (u : User) (w : World Disk)
      → find (has_id id) w.users ≡ some u
      → get_username request ≢ u.login
      → any (has_login (get_username request)) w.users ≡ false
      → let (response, w') = put_user_handler storage env hooks id (ok request) w in
        (response.status ≡ 400)
        × (w'.users ≡ w.users)
        × (w'.disk ≡ (hook storage env hooks request.active (blanked u) w.disk).1)
  unfolding put_user_handler get_user_by_id login_exists update_user
  put_user_handler_rename id request u w found new free =
      let (called, d) = hook storage env hooks request.active (blanked u) w.disk in
      elim (Result-cases called) [
        | inl (done, e) ↦ ground (
          arith,
          found,
          free,
          e,
          eq_iff u.login (get_username request),
          new,
          find-any-false (has_login (get_username request)) w.users free,
        )
        | inr (message, e) ↦ ground (arith, found, e)
      ]
