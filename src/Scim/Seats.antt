-- ===== src/Scim/Seats.antt =====
-- The users that an identity provider adds stay within the number that the license allows:
-- auth/provisioning/scim/users.go.
use go_devops_platform.Base.{
  suc, ◌≤◌, ◌≡◌, refl, String, Bool, true, List, [], ◌∷◌, some, Result, ok, err, arith,
  Option-cases, Result-cases, inl, inr, length, length-append,
}
use go_devops_platform.Base.Int.{pos, ◌≤ℤ◌}
use go_devops_platform.Storage.{Iface}
use go_devops_platform.Users.Types.{User, no_user, World, Env, has_id, has_login, appended}
use go_devops_platform.Users.Save.{hash_password, users-saved, users-hash_password, max_users-saved}
use go_devops_platform.Users.Model.{add_user, get_user_by_id}
use go_devops_platform.Users.Change.{
  remove_first, update_first, delete_user_by_id, update_user, user_count, get_max_users,
}
use go_devops_platform.Users.Unique.{
  IsUnique, add_user-IsUnique, update_user-IsUnique, delete_user_by_id-IsUnique,
}
use go_devops_platform.Scim.{
  UserHooks, PostUserRequest, get_username, post_users_handler, put_user_handler,
  delete_user_handler, Request, handle, refusal, serve, serve_all, hook, changed, all_users,
  one_user, elsewhere,
}

-- The users fit into the number that the license allows, and no two share a login.
abbrev pub Fits : {Disk : Type 0} → World Disk → Type 0
Fits w = (pos (length w.users) ≤ℤ w.max_users) × IsUnique w.users

length-remove_first : (p : User → Bool) (us : List User) → length (remove_first p us) ≤ length us
length-remove_first p [] = omega arith
length-remove_first p (u ∷ us) = ground (arith, length-remove_first p us)

length-update_first :
    (p : User → Bool) (f : User → User) (us : List User) → length (update_first p f us) ≡ length us
length-update_first p f [] = refl
length-update_first p f (u ∷ us) = ground (arith, length-update_first p f us)

module _ {Disk : Type 0} (storage : Iface Disk) (env : Env) where
  max_users-hash_password :
      (password : String) (w : World Disk)
      → (hash_password env password w).1.max_users ≡ w.max_users
  unfolding hash_password
  max_users-hash_password password w = ground arith

  pub add_user-grows :
      (user : User) (w : World Disk)
      → let w' = (add_user storage env user w).1 in
        (w'.max_users ≡ w.max_users) × (length w'.users ≤ suc (length w.users))
  unfolding add_user
  add_user-grows user w =
      let drawn : World Disk = record w { draws = suc w.draws } in
      let identified : User = record user { id = env.uuid w.draws } in
      elim (Result-cases (hash_password env user.password drawn).0) [
        | inl (p, e) ↦
            let hashed : User = record identified { password = p } in
            let w' : World Disk = (hash_password env user.password drawn).1 in
            ground (
              arith,
              e,
              users-hash_password env user.password drawn,
              max_users-hash_password user.password drawn,
              users-saved storage env identified (appended identified drawn),
              max_users-saved storage env identified (appended identified drawn),
              users-saved storage env hashed (appended hashed w'),
              max_users-saved storage env hashed (appended hashed w'),
              length-append w.users (identified ∷ []),
              length-append w.users (hashed ∷ []),
            )
        | inr (p, e) ↦ ground (
          arith,
          e,
          users-hash_password env user.password drawn,
          max_users-hash_password user.password drawn,
          users-saved storage env identified (appended identified drawn),
          max_users-saved storage env identified (appended identified drawn),
          length-append w.users (identified ∷ []),
        )
      ]

  post_users_handler-Fits :
      (body : Result PostUserRequest) (w : World Disk)
      → Fits w
      → Fits (post_users_handler storage env body w).1
  unfolding post_users_handler user_count get_max_users
  post_users_handler-Fits (err e) w h = h
  post_users_handler-Fits (ok request) w (h, u) =
      let user : User = record no_user {
        login = get_username request;
        role = "user";
        provisioned = true;
        external_id = request.external_id;
      } in
      ground (arith, h, u, add_user-grows user w, add_user-IsUnique storage env user w)

  update_user-Fits :
      (user : User) (w : World Disk) → Fits w → Fits (update_user storage env user w).1
  unfolding update_user
  update_user-Fits user w (h, u) =
      let us : List User =
        update_first (has_login user.login) (λ e. record user { password = e.password }) w.users in
      let w' : World Disk = record w { users = us } in
      (
        ground (
          arith,
          h,
          users-saved storage env tt w',
          max_users-saved storage env tt w',
          length-update_first (has_login user.login) (λ e. record user { password = e.password })
              w.users,
        ),
        update_user-IsUnique storage env user w u,
      )

  delete_user_by_id-Fits :
      (id : String) (w : World Disk) → Fits w → Fits (delete_user_by_id storage env id w).1
  unfolding delete_user_by_id
  delete_user_by_id-Fits id w (h, u) =
      let w' : World Disk = record w { users = remove_first (has_id id) w.users } in
      (
        ground (
          arith,
          h,
          users-saved storage env tt w',
          max_users-saved storage env tt w',
          length-remove_first (has_id id) w.users,
        ),
        delete_user_by_id-IsUnique storage env id w u,
      )

  module _ (hooks : UserHooks Disk) where
    put_user_handler-Fits :
        (id : String) (body : Result PostUserRequest) (w : World Disk)
        → Fits w
        → Fits (put_user_handler storage env hooks id body w).1
    unfolding put_user_handler
    put_user_handler-Fits id (err e) w h = ground (arith, h)
    put_user_handler-Fits id (ok request) w h =
        elim (Result-cases (get_user_by_id storage env id w)) [
          | inr (message, e) ↦ ground (arith, h, e)
          | inl (user, e) ↦
              let hooked : World Disk = record w {
                disk = (hook storage env hooks request.active user w.disk).1;
              } in
              ground (
                arith,
                h,
                e,
                update_user-Fits (changed storage env hooks request user hooked) hooked h,
              )
        ]

    delete_user_handler-Fits :
        (id : String) (w : World Disk)
        → Fits w
        → Fits (delete_user_handler storage env hooks id w).1
    unfolding delete_user_handler
    delete_user_handler-Fits id w h = elim (Result-cases (get_user_by_id storage env id w)) [
      | inr (message, e) ↦ ground (arith, h, e)
      | inl (user, e) ↦ ground (
        arith,
        h,
        e,
        delete_user_by_id-Fits user.id (record w { disk = (hooks.delete_func user w.disk).1 }) h,
      )
    ]

    handle-Fits :
        (request : Request) (w : World Disk) → Fits w → Fits (handle storage env hooks request w).1
    unfolding handle
    handle-Fits request w h = elim (Option-cases (some request.route)) [
      | inl e ↦ absurd (ground (arith, e))
      | inr (elsewhere, e) ↦ ground (arith, h, e)
      | inr (all_users, e) ↦ ground (arith, h, e, post_users_handler-Fits request.payload w h)
      | inr (one_user id, e) ↦ ground (
        arith,
        h,
        e,
        put_user_handler-Fits id request.payload w h,
        delete_user_handler-Fits id w h,
      )
    ]

    -- If at first the users are not more than the license allows and no two share a login, the
    -- same holds after any sequence of requests to the provisioning service, authorized or not.
    pub serve_all-Fits :
        (token : String) (requests : List Request) (w : World Disk)
        → Fits w
        → Fits (serve_all storage env hooks token requests w)
    unfolding serve
    serve_all-Fits token [] w h = h
    serve_all-Fits token (request ∷ requests) w h =
        serve_all-Fits token requests (serve storage env hooks token request w).1
          (ground (arith, h, handle-Fits request w h))

    -- While provisioning has no token, any sequence of requests changes nothing.
    serve_all_without_token :
        (requests : List Request) (w : World Disk) → serve_all storage env hooks "" requests w ≡ w
    unfolding serve refusal
    serve_all_without_token [] w = refl
    serve_all_without_token (request ∷ requests) w =
        let kept : (serve storage env hooks "" request w).1 ≡ w = ground arith in
        rw kept (serve_all_without_token requests w)
