-- ===== src/Rest/AccountLaws.antt =====
-- What the handlers of users do to the store: rest/users.go.
use go_devops_platform.Base.{
  ℕ, suc, ◌≡◌, ◌≢◌, refl, String, Bool, true, false, List, [], ◌∷◌, none, some, Result, ok, err,
  is_ok, ◌&&◌, if◌then◌else◌, ◌==◌, eq_iff, arith, find, find-passes, any, length, Result-cases,
  Bool-cases, inl, inr,
}
use go_devops_platform.Base.Int.{pos, ◌≤ℤ◌}
use go_devops_platform.Storage.{Iface}
use go_devops_platform.Users.Types.{User, no_user, World, Env, has_login, has_id, blanked, appended}
use go_devops_platform.Users.Model.{
  add_user, auth_user, get_user_by_id, get_user_by_login, login_exists,
}
use go_devops_platform.Users.Change.{update_password, user_count}
use go_devops_platform.Users.Auth.{
  Hashes, returning-saved, auth_user-add_user, auth_user-update_password, find-update_user,
}
use go_devops_platform.Scim.{UserHooks}
use go_devops_platform.Scim.Seats.{add_user-grows}
use go_devops_platform.Rest.Server.{Server, write, account}
use go_devops_platform.Rest.Accounts.{
  NewUserRequest, new_user_error, post_users, patch_user, linked, add_or_modify_external_user,
}

pub any-find-some :
    (p : User → Bool) (us : List User) (u : User) → find p us ≡ some u → any p us ≡ true
any-find-some p [] u e = cc
any-find-some p (v ∷ us) u e = ground (arith, e, any-find-some p us u)

any-find-none : (p : User → Bool) (us : List User) → find p us ≡ none → any p us ≡ false
any-find-none p [] e = refl
any-find-none p (v ∷ us) e = ground (arith, e, any-find-none p us)

module _ {Disk : Type 0} (storage : Iface Disk) (env : Env) where
  -- The user that is added.
  abbrev requested : NewUserRequest → User
  requested request = record no_user {
    login = request.login;
    password = request.password;
    role = request.role;
  }

  -- A user whom an admin has added can log in with the password of the request, and is then the
  -- user of the answer, whose password is not blanked but is the stored hash.
  pub auth_user-post_users :
      (request : NewUserRequest) (u : User) (s : Server Disk)
      → Hashes env
      → (post_users storage env (ok request) s).0 ≡ write (account u)
      → auth_user storage env request.login request.password
          (post_users storage env (ok request) s).1.world
        ≡ (u, true)
  unfolding post_users new_user_error
  auth_user-post_users request u s hashes e =
      elim (Result-cases (add_user storage env (requested request) s.world).0) [
        | inr (message, r) ↦ absurd (ground (arith, r, e))
        | inl (created, r) ↦ ground (
          arith,
          r,
          e,
          eq_iff request.password "",
          auth_user-add_user storage env (requested request) created s.world hashes,
        )
      ]

  -- Adding users through the API keeps their number within that of the license.
  post_users_fits :
      (body : Result NewUserRequest) (s : Server Disk)
      → pos (length s.world.users) ≤ℤ s.license_user_count
      → let s' = (post_users storage env body s).1 in
        pos (length s'.world.users) ≤ℤ s'.license_user_count
  unfolding post_users user_count
  post_users_fits (err e) s h = h
  post_users_fits (ok request) s h =
      ground (arith, h, add_user-grows storage env (requested request) s.world)

  module _ (hooks : UserHooks Disk) where
    -- A PATCH request that is answered with success, and changes neither role nor suspension of the
    -- user of its path, gives the password of its body to the user whose ID stands in the body,
    -- whoever the user of the path is: that user can log in with it.
    pub patch_user_password :
        (id : String) (body stored other u : User) (s : Server Disk)
        → Hashes env
        → find (has_id id) s.world.users ≡ some stored
        → find (has_id body.id) s.world.users ≡ some other
        → body.role ≡ ""
        → body.suspended ≡ stored.suspended
        → body.password ≢ ""
        → (patch_user storage env hooks id (ok body) s).0 ≡ write (account u)
        → (auth_user storage env other.login body.password
            (patch_user storage env hooks id (ok body) s).1.world).1
          ≡ true
    unfolding patch_user get_user_by_id
    patch_user_password id body stored other u s hashes found target role same has e =
        let w : World Disk = s.world in
        elim (Result-cases (update_password storage env body.id body.password w).0) [
          | inr (message, r) ↦ absurd (
              ground
                (arith, found, role, same, r, e, has, eq_iff body.password "", eq_iff body.role ""))
          | inl (done, r) ↦ ground (
            arith,
            found,
            role,
            same,
            r,
            has,
            eq_iff body.password "",
            eq_iff body.role "",
            auth_user-update_password storage env body.id body.password other w hashes target,
          )
        ]

    -- The hook of a login from outside.
    abbrev pub reactivation : User → World Disk → Result (Unit {0})
    reactivation user w =
        if user.connections_disabled_on_auth_failure
        then (hooks.reactivate_func user w.disk).0
        else ok tt

    -- A login from outside by a known login links the user to it, notes the time and ends the
    -- blocking of its connections, once the hook that a blocked user needs has succeeded; otherwise
    -- it changes no user. The role, the password, the suspension and the second factors stay, and no
    -- other login is affected.
    pub find-add_or_modify_external_user :
        (now : ℕ) (login auth_type external_id other : String) (existing : User) (w : World Disk)
        → find (has_login login) w.users ≡ some existing
        → find
            (has_login other)
            (add_or_modify_external_user storage env hooks now login auth_type external_id
              w).1.users
          ≡ (if is_ok (
                  reactivation
                    (linked storage env hooks auth_type external_id (blanked existing))
                    w)
                && login == other
              then some (record (linked storage env hooks auth_type external_id existing) {
                connections_disabled_on_auth_failure = false;
                last_login = now;
              })
              else find (has_login other) w.users)
    unfolding add_or_modify_external_user get_user_by_login login_exists
    find-add_or_modify_external_user now login auth_type external_id other existing w found =
        let user : User = linked storage env hooks auth_type external_id (blanked existing) in
        let seen : User = record user {
          connections_disabled_on_auth_failure = false;
          last_login = now;
        } in
        let known : any (has_login login) w.users ≡ true =
          any-find-some (has_login login) w.users existing found in
        let named : existing.login ≡ login =
          (eq_iff existing.login login).0 (find-passes (has_login login) w.users existing found) in
        elim (Bool-cases existing.connections_disabled_on_auth_failure) [
          | inr free ↦ ground (
            arith,
            found,
            known,
            named,
            free,
            find-update_user storage env seen w other,
            eq_iff login other,
          )
          | inl blocked ↦ elim (Result-cases (hooks.reactivate_func user w.disk).0) [
            | inr (message, r) ↦ ground (arith, found, known, blocked, r)
            | inl (done, r) ↦ ground (
              arith,
              found,
              known,
              named,
              blocked,
              r,
              eq_iff login other,
              find-update_user storage env seen
                  (record w { disk = (hooks.reactivate_func user w.disk).1 }) other,
            )
          ]
        ]

    -- A login from outside by an unknown login adds a user with the role user, without a password,
    -- who is not suspended.
    pub add_or_modify_external_user_adds :
        (now : ℕ) (login auth_type external_id : String) (u : User) (w : World Disk)
        → find (has_login login) w.users ≡ none
        → (add_or_modify_external_user storage env hooks now login auth_type external_id w).0 ≡ ok u
        → (u.login ≡ login)
          × (u.role ≡ "user")
          × (u.password ≡ "")
          × (u.factors ≡ [])
          × (u.suspended ≡ false)
    unfolding add_or_modify_external_user login_exists add_user
    add_or_modify_external_user_adds now login auth_type external_id u w missing e =
        let new : User = linked storage env hooks auth_type external_id (record no_user {
          id = env.uuid w.draws;
          login = login;
          role = "user";
          last_login = now;
        }) in
        ground (
          arith,
          e,
          any-find-none (has_login login) w.users missing,
          returning-saved storage env new (appended new (record w { draws = suc w.draws })),
        )
