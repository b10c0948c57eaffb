-- ===== src/Tests/Users.antt =====
-- The store of users at concrete inputs.
use go_devops_platform.Base.{◌≡◌, refl, true, List, [], ◌∷◌, ok, eq_iff, arith}
use go_devops_platform.Base.Int.{pos}
use go_devops_platform.Storage.Memory.{memory, write_file}
use go_devops_platform.Storage.Memory.Stores.{memory-IsStorage}
use go_devops_platform.Users.Types.{no_user}
use go_devops_platform.Users.Save.{hash_password, saved, save_users, ensure_owner}
use go_devops_platform.Users.Model.{add_user, list_users, auth_user}
use go_devops_platform.Users.Change.{new_user_store}
use go_devops_platform.Users.Unique.{IsUnique, Call, after_all, after_all-IsUnique}
use go_devops_platform.Users.Auth.{Hashes, auth_user-add_user}
use go_devops_platform.Users.Persist.{Decodes, new_user_store-save_users}
use go_devops_platform.Tests.Data.{ann, bob, env, world, is_ann_lem}

abbrev calls : List Call
calls =
    Call.adds (record ann { login = "eve" })
    ∷ Call.adds ann
    ∷ Call.updates (record bob { role = "admin" })
    ∷ Call.deletes_login "ann"
    ∷ Call.sets_password "2" "new"
    ∷ []

after_all-IsUnique_example : IsUnique (after_all memory env calls (world (ann ∷ bob ∷ []))).users
after_all-IsUnique_example =
    after_all-IsUnique memory env calls (world (ann ∷ bob ∷ [])) (refl, (refl, tt))

env-Hashes : Hashes env
env-Hashes n p h e = ground (arith, e, eq_iff h h)

auth_user-add_user_example :
    auth_user memory env "carl" "pw"
      (add_user memory env
        (record no_user { login = "carl"; password = "pw" })
        (world (ann ∷ []))).1
    ≡ (record no_user { id = "u0"; login = "carl"; password = "#pw" }, true)
unfolding add_user hash_password saved list_users
auth_user-add_user_example =
    auth_user-add_user memory env (record no_user { login = "carl"; password = "pw" })
      (record no_user { id = "u0"; login = "carl"; password = "#pw" }) (world (ann ∷ [])) env-Hashes
      (λ e. cc) refl

env-Decodes : Decodes env
env-Decodes [] b e = cc
env-Decodes (u ∷ []) b e = ground (arith, e, is_ann_lem u)
env-Decodes (u ∷ v ∷ us) b e = cc

new_user_store-save_users_example :
    let (w, r) =
      new_user_store memory env (pos 3) 0 (save_users memory env (world (ann ∷ []))).1.disk in
    (r ≡ ok tt) × (w.users ≡ ann ∷ [])
unfolding save_users ensure_owner write_file
new_user_store-save_users_example =
    new_user_store-save_users memory env memory-IsStorage (world (ann ∷ [])) (pos 3) 0 env-Decodes
      refl
