-- ===== src/Users/Save.antt =====
-- users/save.go: writing the users to the storage, and the hashing of passwords.
use go_devops_platform.Base.{
  arith, ◌≡◌, suc, String, ok, err, Done, Action, returning, if◌then◌else◌, ◌==◌,
}
use go_devops_platform.Base.Text.{◌+++◌}
use go_devops_platform.Storage.{Iface}
use go_devops_platform.Users.Types.{World, Env, filename}

module _ {Disk : Type 0} (env : Env) where
  -- HashPassword
  unfoldable pub hash_password : String → Action (World Disk) String
  hash_password password w = elim (env.generate w.draws password) [
    | ok h ↦ (ok h, record w { draws = suc w.draws })
    | err e ↦ (err ("unable to set password: " +++ e), record w { draws = suc w.draws })
  ]

  pub users-hash_password :
      (password : String) (w : World Disk) → (hash_password password w).1.users ≡ w.users
  unfolding hash_password
  users-hash_password password w = ground arith

module _ {Disk : Type 0} (storage : Iface Disk) (env : Env) where
  -- The ownership is set unless the process runs as vpn.
  unfoldable pub ensure_owner : Action (World Disk) Done
  ensure_owner w = elim env.current_user [
    | err e ↦ (err ("could not get current user: " +++ e), w)
    | ok name ↦
        if name == "vpn"
        then (ok tt, w)
        else let (r, d) = storage.ensure_ownership (storage.config_path filename) "vpn" w.disk in
          elim r [
            | ok _ ↦ (ok tt, record w { disk = d })
            | err e ↦ (err ("ensure ownership error (userstore): " +++ e), record w { disk = d })
          ]
  ]

  unfoldable pub save_users : Action (World Disk) Done
  unfolding ensure_owner
  save_users w = elim (env.marshal w.users) [
    | err e ↦ (err ("user store marshal error: " +++ e), w)
    | ok out ↦
        let (r, d) = storage.write_file (storage.config_path filename) out w.disk in
        elim r [
          | err e ↦ (err ("user store write error: " +++ e), record w { disk = d })
          | ok _ ↦ ensure_owner (record w { disk = d })
        ]
  ]

  -- `if u.autoSave { return user, u.SaveUsers() }; return user, nil`
  unfoldable pub saved : {A : Type 0} → A → Action (World Disk) A
  saved a w = let (r, w') = save_users w in if w.auto_save then (returning a r, w') else (ok a, w)

  -- Saving touches the disk alone.
  pub users-ensure_owner : (w : World Disk) → (ensure_owner w).1.users ≡ w.users
  unfolding ensure_owner
  users-ensure_owner w = ground arith

  pub users-save_users : (w : World Disk) → (save_users w).1.users ≡ w.users
  unfolding save_users
  users-save_users w = ground arith

  pub users-saved : {A : Type 0} (a : A) (w : World Disk) → (saved a w).1.users ≡ w.users
  unfolding saved
  users-saved a w = ground (arith, users-save_users w)

  pub max_users-saved :
      {A : Type 0} (a : A) (w : World Disk) → (saved a w).1.max_users ≡ w.max_users
  unfolding saved save_users ensure_owner
  max_users-saved a w = ground arith
