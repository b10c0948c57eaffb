-- ===== src/Users/Change.antt =====
-- users/localusers.go, users/maxusers.go and users/store.go: deleting and updating users, and
-- opening the store.
use go_devops_platform.Base.{
  ℕ, String, Bool, true, List, [], ◌∷◌, none, some, Result, ok, err, Done, Action, not,
  if◌then◌else◌, find, length,
}
use go_devops_platform.Base.Int.{ℤ}
use go_devops_platform.Base.Text.{◌+++◌}
use go_devops_platform.Storage.{Iface}
use go_devops_platform.Users.Types.{User, World, Env, filename, has_login, has_id}
use go_devops_platform.Users.Save.{saved, hash_password}

module _ {ℓ} {A : Type ℓ} where
  -- `append(us[:k], us[k+1:]...)` at the first k that passes the test
  abbrev pub remove_first : (A → Bool) → List A → List A
  remove_first p [] = []
  remove_first p (x ∷ xs) = if p x then xs else x ∷ remove_first p xs

  -- `us[k] = f(us[k])` at the first k that passes the test
  abbrev pub update_first : (A → Bool) → (A → A) → List A → List A
  update_first p f [] = []
  update_first p f (x ∷ xs) = if p x then f x ∷ xs else x ∷ update_first p f xs

module _ {Disk : Type 0} (storage : Iface Disk) (env : Env) where
  delete_user : (User → Bool) → Action (World Disk) Done
  delete_user p w = elim (find p w.users) [
    | none ↦ (err "User not found", w)
    | some u ↦ saved storage env tt (record w { users = remove_first p w.users })
  ]

  unfoldable pub delete_user_by_login : String → Action (World Disk) Done
  unfolding delete_user
  delete_user_by_login login = delete_user (has_login login)

  unfoldable pub delete_user_by_id : String → Action (World Disk) Done
  unfolding delete_user
  delete_user_by_id id = delete_user (has_id id)

  -- The user with the same login is replaced, and keeps its password.
  unfoldable pub update_user : User → Action (World Disk) Done
  update_user user w = elim (find (has_login user.login) w.users) [
    | none ↦ (err ("user not found in database: " +++ user.login), w)
    | some _ ↦ saved storage env tt (record w {
      users =
          update_first (has_login user.login)
            (λ existing. record user { password = existing.password }) w.users;
    })
  ]

  unfoldable pub update_password : String → String → Action (World Disk) Done
  update_password user_id password w = elim (find (has_id user_id) w.users) [
    | none ↦ (err ("user not found in database: userID " +++ user_id), w)
    | some _ ↦
        let (r, w') = hash_password env password w in
        elim r [
          | err e ↦ (err ("HashPassword error: " +++ e), w')
          | ok h ↦ saved storage env tt (record w' {
            users = update_first (has_id user_id) (λ u. record u { password = h }) w'.users;
          })
        ]
  ]

  unfoldable pub user_count : World Disk → ℕ
  user_count w = length w.users

  unfoldable pub get_max_users : World Disk → ℤ
  get_max_users w = w.max_users

  unfoldable pub empty : Action (World Disk) Done
  empty w = saved storage env tt (record w { users = [] })

  -- A store over a disk; the second part of the result is the error.
  unfoldable pub new_user_store : ℤ → ℕ → Disk → World Disk × Result Done
  new_user_store max_users draws d =
      let fresh : World Disk = record {
        users = [];
        auto_save = true;
        max_users = max_users;
        disk = d;
        draws = draws;
      } in
      if not (storage.file_exists (storage.config_path filename) d)
      then (fresh, ok tt)
      else elim (storage.read_file (storage.config_path filename) d) [
        | err e ↦ (fresh, err ("config read error: " +++ e))
        | ok content ↦ elim (env.unmarshal content) [
          | err e ↦ (fresh, err ("decode input error: " +++ e))
          | ok us ↦ (record fresh { users = us }, ok tt)
        ]
      ]
