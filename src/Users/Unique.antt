-- ===== src/Users/Unique.antt =====
-- No two users of the store share a login, whatever is done to it.
use go_devops_platform.Base.{
  suc, ◌≡◌, sym, Result-cases, refl, String, Bool, true, false, List, [], ◌∷◌, ◌++◌, map, arith,
  any, any-append, eq_iff, Bool-cases, inl, inr,
}
use go_devops_platform.Storage.{Iface}
use go_devops_platform.Users.Types.{User, World, Env, has_login, has_id, blanked, appended}
use go_devops_platform.Users.Save.{saved, hash_password, users-saved, users-hash_password}
use go_devops_platform.Users.Model.{list_users, add_user, add_users_from, add_users}
use go_devops_platform.Users.Change.{
  remove_first, update_first, delete_user_by_login, delete_user_by_id, update_user, update_password,
  empty,
}

-- No login is listed twice.
abbrev pub IsUnique : List User → Type 0
IsUnique [] = Unit
IsUnique (u ∷ us) = (any (has_login u.login) us ≡ false) × IsUnique us

pub any-list_users :
    (login : String) (us : List User)
    → any (has_login login) (map blanked us) ≡ any (has_login login) us
any-list_users login [] = refl
any-list_users login (u ∷ us) = ground (arith, any-list_users login us)

append-IsUnique :
    (us : List User) (u : User)
    → IsUnique us
    → any (has_login u.login) us ≡ false
    → IsUnique (us ++ u ∷ [])
append-IsUnique [] u h k = (refl, tt)
append-IsUnique (v ∷ us) u (p, h) k = ground (
  arith,
  append-IsUnique us u h,
  any-append (has_login v.login) us (u ∷ []),
  eq_iff u.login v.login,
  eq_iff v.login u.login,
)

module _ (p : User → Bool) where
  any-remove_first :
      (login : String) (us : List User)
      → any (has_login login) us ≡ false
      → any (has_login login) (remove_first p us) ≡ false
  any-remove_first login [] h = refl
  any-remove_first login (v ∷ us) h = ground (arith, any-remove_first login us)

  remove_first-IsUnique : (us : List User) → IsUnique us → IsUnique (remove_first p us)
  remove_first-IsUnique [] h = tt
  remove_first-IsUnique (v ∷ us) (q, h) =
      ground (arith, remove_first-IsUnique us h, any-remove_first v.login us q)

-- A change that keeps the logins.
module _ (p : User → Bool) (f : User → User)
    (keeps : (u : User) → p u ≡ true → (f u).login ≡ u.login) where
  any-update_first :
      (login : String) (us : List User)
      → any (has_login login) (update_first p f us) ≡ any (has_login login) us
  any-update_first login [] = refl
  any-update_first login (v ∷ us) = elim (Bool-cases (p v)) [
    | inl hit ↦ rw hit (rw (keeps v hit) refl)
    | inr miss ↦ rw miss (rw (any-update_first login us) refl)
  ]

  update_first-IsUnique : (us : List User) → IsUnique us → IsUnique (update_first p f us)
  update_first-IsUnique [] h = tt
  update_first-IsUnique (v ∷ us) (q, h) = elim (Bool-cases (p v)) [
    | inl hit ↦ rw hit (rw (keeps v hit) q, h)
    | inr miss ↦ rw miss (rw (any-update_first v.login us) q, update_first-IsUnique us h)
  ]

pub data Call : Type 0 where
  adds : User → Call
  adds_all : List User → Call
  deletes_login deletes_id : String → Call
  updates : User → Call
  sets_password : String → String → Call
  empties : Call

module _ {Disk : Type 0} (storage : Iface Disk) (env : Env) where
  -- One call, whatever it returns.
  abbrev pub after : Call → World Disk → World Disk
  after (adds user) w = (add_user storage env user w).1
  after (adds_all users) w = (add_users storage env users w).1
  after (deletes_login login) w = (delete_user_by_login storage env login w).1
  after (deletes_id id) w = (delete_user_by_id storage env id w).1
  after (updates user) w = (update_user storage env user w).1
  after (sets_password id password) w = (update_password storage env id password w).1
  after empties w = (empty storage env w).1

  abbrev pub after_all : List Call → World Disk → World Disk
  after_all [] w = w
  after_all (c ∷ cs) w = after_all cs (after c w)

  saved-IsUnique :
      {A : Type 0} (a : A) (w : World Disk)
      → IsUnique w.users
      → IsUnique (saved storage env a w).1.users
  saved-IsUnique a w h = rw (users-saved storage env a w) h

  saved-append :
      (u : User) (w : World Disk)
      → IsUnique w.users
      → any (has_login u.login) w.users ≡ false
      → IsUnique (saved storage env u (appended u w)).1.users
  saved-append u w h k = saved-IsUnique u (appended u w) (append-IsUnique w.users u h k)

  pub add_user-IsUnique :
      (user : User) (w : World Disk)
      → IsUnique w.users
      → IsUnique (add_user storage env user w).1.users
  unfolding add_user list_users
  add_user-IsUnique user w h =
      elim (Result-cases (hash_password env user.password (record w { draws = suc w.draws })).0) [
        | inl (p, e) ↦ ground (
          arith,
          e,
          any-list_users user.login w.users,
          users-hash_password env user.password (record w { draws = suc w.draws }),
          saved-append (record user { id = env.uuid w.draws }) (record w { draws = suc w.draws }) h,
          saved-append (record user { id = env.uuid w.draws; password = p })
              (hash_password env user.password (record w { draws = suc w.draws })).1,
        )
        | inr (p, e) ↦ ground (
          arith,
          e,
          any-list_users user.login w.users,
          users-hash_password env user.password (record w { draws = suc w.draws }),
          saved-append (record user { id = env.uuid w.draws }) (record w { draws = suc w.draws }) h,
        )
      ]

  add_users_from-IsUnique :
      (existing created rest : List User) (w : World Disk)
      → ((login : String) → any (has_login login) existing ≡ any (has_login login) w.users)
      → IsUnique w.users
      → IsUnique (add_users_from storage env existing created rest w).1.users
  unfolding add_users_from
  add_users_from-IsUnique existing created [] w same h = h
  add_users_from-IsUnique existing created (user ∷ rest) w same h =
      elim (Result-cases (hash_password env user.password (record w { draws = suc w.draws })).0) [
        | inl (p, e) ↦
            let w' : World Disk =
              (hash_password env user.password (record w { draws = suc w.draws })).1 in
            let u : User = record user { id = env.uuid w.draws; password = p } in
            let same_users : w'.users ≡ w.users =
              users-hash_password env user.password (record w { draws = suc w.draws }) in
            ground (
              arith,
              e,
              same user.login,
              same_users,
              add_users_from-IsUnique (existing ++ u ∷ []) (created ++ u ∷ []) rest (appended u w')
                  (λ login. ground (
                    arith,
                    same login,
                    same_users,
                    any-append (has_login login) existing (u ∷ []),
                    any-append (has_login login) w.users (u ∷ []),
                  )),
              append-IsUnique w.users u h,
            )
        | inr (p, e) ↦
            ground
              (arith, e, users-hash_password env user.password (record w { draws = suc w.draws }))
      ]

  saved-add_users :
      (users : List User) (w : World Disk)
      → IsUnique w.users
      → (created : List User)
      → let w' = (add_users_from storage env (map blanked w.users) [] users w).1 in
        IsUnique (saved storage env created w').1.users
  saved-add_users users w h created = saved-IsUnique created _ (
      add_users_from-IsUnique (map blanked w.users) [] users w
        (λ login. any-list_users login w.users) h)

  add_users-IsUnique :
      (users : List User) (w : World Disk)
      → IsUnique w.users
      → IsUnique (add_users storage env users w).1.users
  unfolding add_users list_users
  add_users-IsUnique users w h =
      let (r, w') = add_users_from storage env (map blanked w.users) [] users w in
      elim (Result-cases r) [
        | inl (created, e) ↦ ground (arith, e, saved-add_users users w h created)
        | inr (message, e) ↦ ground (
          arith,
          e,
          add_users_from-IsUnique (map blanked w.users) [] users w
              (λ login. any-list_users login w.users) h,
        )
      ]

  delete_user_by_login-IsUnique :
      (login : String) (w : World Disk)
      → IsUnique w.users
      → IsUnique (delete_user_by_login storage env login w).1.users
  unfolding delete_user_by_login
  delete_user_by_login-IsUnique login w h = ground (
    arith,
    remove_first-IsUnique (has_login login) w.users h,
    users-saved storage env tt (record w { users = remove_first (has_login login) w.users }),
  )

  pub delete_user_by_id-IsUnique :
      (id : String) (w : World Disk)
      → IsUnique w.users
      → IsUnique (delete_user_by_id storage env id w).1.users
  unfolding delete_user_by_id
  delete_user_by_id-IsUnique id w h = ground (
    arith,
    remove_first-IsUnique (has_id id) w.users h,
    users-saved storage env tt (record w { users = remove_first (has_id id) w.users }),
  )

  pub update_user-IsUnique :
      (user : User) (w : World Disk)
      → IsUnique w.users
      → IsUnique (update_user storage env user w).1.users
  unfolding update_user
  update_user-IsUnique user w h = ground (
    arith,
    saved-IsUnique tt (record w {
      users =
          update_first (has_login user.login) (λ e. record user { password = e.password }) w.users;
    }),
    update_first-IsUnique (has_login user.login) (λ e. record user { password = e.password })
        (λ u k. sym ((eq_iff u.login user.login).0 k)) w.users h,
  )

  update_password-IsUnique :
      (id password : String) (w : World Disk)
      → IsUnique w.users
      → IsUnique (update_password storage env id password w).1.users
  unfolding update_password
  update_password-IsUnique id password w h = elim (Result-cases (hash_password env password w).0) [
    | inl (p, e) ↦ ground (
      arith,
      e,
      users-hash_password env password w,
      saved-IsUnique tt (record (hash_password env password w).1 {
        users =
            update_first (has_id id) (λ u. record u { password = p })
              (hash_password env password w).1.users;
      }),
      update_first-IsUnique (has_id id) (λ u. record u { password = p }) (λ u k. refl) w.users h,
    )
    | inr (p, e) ↦ ground (arith, e, users-hash_password env password w)
  ]

  empty-IsUnique : (w : World Disk) → IsUnique (empty storage env w).1.users
  unfolding empty
  empty-IsUnique w = saved-IsUnique tt (record w { users = [] }) tt

  after-IsUnique : (c : Call) (w : World Disk) → IsUnique w.users → IsUnique (after c w).users
  after-IsUnique (adds user) w h = add_user-IsUnique user w h
  after-IsUnique (adds_all users) w h = add_users-IsUnique users w h
  after-IsUnique (deletes_login login) w h = delete_user_by_login-IsUnique login w h
  after-IsUnique (deletes_id id) w h = delete_user_by_id-IsUnique id w h
  after-IsUnique (updates user) w h = update_user-IsUnique user w h
  after-IsUnique (sets_password id password) w h = update_password-IsUnique id password w h
  after-IsUnique empties w h = empty-IsUnique w

  -- Whatever calls are made of a store in which no two users share a login, in any order and
  -- whether they fail or not, no two users share a login afterwards.
  pub after_all-IsUnique :
      (cs : List Call) (w : World Disk) → IsUnique w.users → IsUnique (after_all cs w).users
  after_all-IsUnique [] w h = h
  after_all-IsUnique (c ∷ cs) w h = after_all-IsUnique cs (after c w) (after-IsUnique c w h)
