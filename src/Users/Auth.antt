-- ===== src/Users/Auth.antt =====
-- Passwords: who was added can log in, and updates keep or replace the password as they should.
use go_devops_platform.Base.{
  ℕ, suc, ◌≡◌, ◌≢◌, refl, ap, String, Bool, true, false, List, [], ◌∷◌, none, some, ok, err, arith,
  any, find, find-append_none, find-any-false, find-any-true, if◌then◌else◌, ◌==◌, eq_iff,
  Bool-cases, Option-cases, Result-cases, inl, inr, ◌&&◌, ◌⊎◌,
}
use go_devops_platform.Storage.{Iface}
use go_devops_platform.Users.Types.{User, World, Env, has_login, has_id, appended}
use go_devops_platform.Users.Save.{saved, hash_password, users-saved, users-hash_password}
use go_devops_platform.Users.Model.{list_users, add_user, auth_user}
use go_devops_platform.Users.Change.{
  remove_first, update_first, delete_user_by_login, update_user, update_password,
}
use go_devops_platform.Users.Unique.{IsUnique, any-list_users}

-- A hash that bcrypt generates compares equal to its password.
abbrev pub Hashes : Env → Type 0
Hashes env = (n : ℕ) (p h : String) → env.generate n p ≡ ok h → env.compare_hash h p ≡ true

any_and :
    (login : String) (q : User → Bool) (us : List User)
    → any (has_login login) us ≡ false
    → any (λ u. has_login login u && q u) us ≡ false
any_and login q [] h = refl
any_and login q (u ∷ us) h = ground (arith, any_and login q us)

find-update_first_passes :
    (p test : User → Bool) (f : User → User) (us : List User) (u : User)
    → find p us ≡ some u
    → test (f u) ≡ true
    → any test (update_first p f us) ≡ true
find-update_first_passes p test f [] u e h = cc
find-update_first_passes p test f (v ∷ us) u e h = elim (Bool-cases (p v)) [
  | inl hit ↦
      let same : v ≡ u = ground (arith, hit, e) in
      rw hit (ground (arith, h, ap (λ x. test (f x)) same))
  | inr miss ↦ rw miss (ground (arith, find-update_first_passes p test f us u, e, miss, h))
]

find-update_first :
    (user : User) (login : String) (us : List User)
    → find
        (has_login login)
        (update_first (has_login user.login) (λ e. record user { password = e.password }) us)
      ≡ (if user.login == login
          then elim (find (has_login login) us) [
            | none ↦ none
            | some existing ↦ some (record user { password = existing.password })
          ]
          else find (has_login login) us)
find-update_first user login [] = ground arith
find-update_first user login (u ∷ us) = ground (
  arith,
  eq_iff user.login login,
  eq_iff u.login login,
  eq_iff u.login user.login,
  find-update_first user login us,
)

find-remove_first :
    (login other : String) (us : List User)
    → IsUnique us
    → find (has_login other) (remove_first (has_login login) us)
      ≡ (if login == other then none else find (has_login other) us)
find-remove_first login other [] h = ground arith
find-remove_first login other (u ∷ us) (p, h) = ground (
  arith,
  eq_iff login other,
  eq_iff u.login login,
  eq_iff u.login other,
  find-any-false (has_login u.login) us p,
  find-remove_first login other us h,
)

module _ {Disk : Type 0} (storage : Iface Disk) (env : Env) where
  auth_appended :
      (u : User) (password : String) (w : World Disk)
      → any (has_login u.login) w.users ≡ false
      → env.compare_hash u.password password ≡ true
      → auth_user storage env u.login password (saved storage env u (appended u w)).1 ≡ (u, true)
  unfolding auth_user
  auth_appended u password w fresh match = ground (
    arith,
    users-saved storage env u (appended u w),
    eq_iff u.login u.login,
    any_and u.login (λ v. env.compare_hash v.password password) w.users fresh,
    find-append_none (λ v. has_login u.login v && env.compare_hash v.password password) w.users
        (u ∷ []),
  )

  pub returning-saved :
      (u : User) (w : World Disk)
      → ((saved storage env u w).0 ≡ ok u)
        ⊎ ((message : String) × ((saved storage env u w).0 ≡ err message))
  unfolding saved
  returning-saved u w = elim (Result-cases (saved storage env u w).0) [
    | inl (v, k) ↦ inl (ground arith)
    | inr (message, k) ↦ inr (message, k)
  ]

  hash_password-compare :
      (password h : String) (w : World Disk)
      → Hashes env
      → (hash_password env password w).0 ≡ ok h
      → env.compare_hash h password ≡ true
  unfolding hash_password
  hash_password-compare password h w hashes e = ground (arith, hashes w.draws password h)

  -- A user that was added with a password can log in with that password, and is then returned as
  -- it was stored.
  pub auth_user-add_user :
      (user created : User) (w : World Disk)
      → Hashes env
      → user.password ≢ ""
      → (add_user storage env user w).0 ≡ ok created
      → auth_user storage env user.login user.password (add_user storage env user w).1
        ≡ (created, true)
  unfolding add_user list_users
  auth_user-add_user user created w hashes has e =
      let drawn : World Disk = record w { draws = suc w.draws } in
      elim (Result-cases (hash_password env user.password drawn).0) [
        | inl (h, k) ↦ ground (
          arith,
          k,
          e,
          eq_iff user.password "",
          any-list_users user.login w.users,
          users-hash_password env user.password drawn,
          returning-saved (record user { id = env.uuid w.draws; password = h })
              (appended (record user { id = env.uuid w.draws; password = h })
                (hash_password env user.password drawn).1),
          auth_appended (record user { id = env.uuid w.draws; password = h }) user.password
              (hash_password env user.password drawn).1,
          hash_password-compare user.password h drawn hashes k,
        )
        | inr (message, k) ↦
            ground (arith, k, e, eq_iff user.password "", any-list_users user.login w.users)
      ]

  -- An update of a user whose login is known replaces every field but the password, and no other
  -- login; an update of an unknown login changes no user.
  pub find-update_user :
      (user : User) (w : World Disk) (login : String)
      → find (has_login login) (update_user storage env user w).1.users ≡ (
          if user.login == login
          then elim (find (has_login login) w.users) [
            | none ↦ none
            | some existing ↦ some (record user { password = existing.password })
          ]
          else find (has_login login) w.users)
  unfolding update_user
  find-update_user user w login = elim (Option-cases (find (has_login user.login) w.users)) [
    | inl missing ↦ ground (arith, missing, eq_iff user.login login)
    | inr (existing, found) ↦ ground (
      arith,
      found,
      eq_iff user.login login,
      users-saved storage env tt (record w {
        users =
            update_first (has_login user.login) (λ e. record user { password = e.password })
              w.users;
      }),
      find-update_first user login w.users,
    )
  ]

  -- Where logins are not shared, a user that was deleted by its login is gone, and nobody else is.
  pub find-delete_user_by_login :
      (login other : String) (w : World Disk)
      → IsUnique w.users
      → find (has_login other) (delete_user_by_login storage env login w).1.users
        ≡ (if login == other then none else find (has_login other) w.users)
  unfolding delete_user_by_login
  find-delete_user_by_login login other w unique =
      elim (Option-cases (find (has_login login) w.users)) [
        | inl missing ↦ ground (arith, missing, eq_iff login other)
        | inr (u, found) ↦ ground (
          arith,
          found,
          users-saved storage env tt (record w { users = remove_first (has_login login) w.users }),
          find-remove_first login other w.users unique,
        )
      ]

  auth_user_passes :
      (login password : String) (w : World Disk)
      → any (λ v. has_login login v && env.compare_hash v.password password) w.users ≡ true
      → (auth_user storage env login password w).1 ≡ true
  unfolding auth_user
  auth_user_passes login password w h = ground (
    arith,
    find-any-true (λ v. has_login login v && env.compare_hash v.password password) w.users h,
  )

  -- After a successful change of the password of an id, the login of the first user with that id is
  -- accepted with the new password.
  pub auth_user-update_password :
      (id password : String) (u : User) (w : World Disk)
      → Hashes env
      → find (has_id id) w.users ≡ some u
      → (update_password storage env id password w).0 ≡ ok tt
      → (auth_user storage env u.login password (update_password storage env id password w).1).1
        ≡ true
  unfolding update_password
  auth_user-update_password id password u w hashes found e =
      elim (Result-cases (hash_password env password w).0) [
        | inl (h, k) ↦
            let w' : World Disk = (hash_password env password w).1 in
            let test : User → Bool =
              λ v. has_login u.login v && env.compare_hash v.password password in
            ground (
              arith,
              k,
              found,
              users-hash_password env password w,
              users-saved storage env tt (record w' {
                users = update_first (has_id id) (λ v. record v { password = h }) w'.users;
              }),
              hash_password-compare password h w hashes k,
              eq_iff u.login u.login,
              find-update_first_passes (has_id id) test (λ v. record v { password = h }) w.users u
                  found,
              auth_user_passes u.login password (update_password storage env id password w).1,
            )
        | inr (message, k) ↦ ground (arith, k, found, e)
      ]
