-- ===== src/Users/Persist.antt =====
-- Saving the users and opening the store again.
use go_devops_platform.Base.{ℕ, ◌≡◌, String, List, ok, arith, Result-cases, inl, inr}
use go_devops_platform.Base.Int.{ℤ}
use go_devops_platform.Storage.{Bytes, Iface, IsStorage}
use go_devops_platform.Users.Types.{User, World, Env, filename}
use go_devops_platform.Users.Save.{ensure_owner, save_users}
use go_devops_platform.Users.Change.{new_user_store}

-- encoding/json reads back the list of users that it wrote.
abbrev pub Decodes : Env → Type 0
Decodes env = (us : List User) (b : Bytes) → env.marshal us ≡ ok b → env.unmarshal b ≡ ok us

module _ {Disk : Type 0} (storage : Iface Disk) (env : Env) (laws : IsStorage storage) where
  -- Over a storage that keeps its files and a JSON encoding that reads back what it wrote, a store
  -- that is opened after a successful save has the users that were saved.
  pub new_user_store-save_users :
      (w : World Disk) (max_users : ℤ) (draws : ℕ)
      → Decodes env
      → (save_users storage env w).0 ≡ ok tt
      → let (w', r) =
          new_user_store storage env max_users draws (save_users storage env w).1.disk in
        (r ≡ ok tt) × (w'.users ≡ w.users)
  unfolding save_users ensure_owner new_user_store
  new_user_store-save_users w max_users draws decodes e =
      elim (Result-cases (env.marshal w.users)) [
        | inl (out, m) ↦
            let name : String = storage.config_path filename in
            let d' : Disk = (storage.write_file name out w.disk).1 in
            ground (
              arith,
              decodes w.users out m,
              laws.exists-write name out w.disk,
              laws.read-write name out w.disk,
              laws.exists-ensure_ownership name "vpn" name d',
              laws.read-ensure_ownership name "vpn" name d',
            )
        | inr (message, m) ↦ ground (arith, m)
      ]
