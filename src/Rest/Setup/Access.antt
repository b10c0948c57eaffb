-- ===== src/Rest/Setup/Access.antt =====
-- Who may set a server up, and what becomes of the admin: contextHandler of rest/setup.go.
use go_devops_platform.Base.{
  ◌≡◌, ◌≢◌, Bool, true, false, some, Result, ok, err, not, ◌&&◌, ◌||◌, ◌==◌, eq_iff, arith, find,
  Result-cases, inl, inr,
}
use go_devops_platform.Base.Text.{trim_space}
use go_devops_platform.Storage.{Bytes, Iface}
use go_devops_platform.Users.Types.{User, Env, has_login}
use go_devops_platform.Users.Model.{login_exists}
use go_devops_platform.Users.Change.{update_user}
use go_devops_platform.Users.Auth.{find-update_user}
use go_devops_platform.Licensing.Host.{Host}
use go_devops_platform.Rest.AccountLaws.{any-find-some}
use go_devops_platform.Rest.Setup.{
  ContextRequest, Site, cloud_access, admin_of, set_admin, complete, context_handler,
}

abbrev pub is_ok_true : Result Bool → Bool
is_ok_true (ok b) = b
is_ok_true (err e) = false

abbrev pub is_error : Result Bool → Bool
is_error (ok b) = false
is_error (err e) = true

module _ {Disk : Type 0} (storage : Iface Disk) (env : Env) (host : Host)
    (marshal : Site Disk → Result Bytes) where
  abbrev pub knows_secret : ContextRequest → Site Disk → Bool
  knows_secret request s = elim (storage.read_file "setup-code.txt" s.world.disk) [
    | err e ↦ false
    | ok secret ↦ trim_space (host.to_text secret) == request.secret
  ]

  -- The setup code is on the disk, the setup is not completed, and the cloud grants access or, where
  -- it says nothing, the request has the setup code.
  abbrev pub may_set_up : ContextRequest → Site Disk → Bool
  may_set_up request s =
      let access = cloud_access host s.cloud_type request in
      (storage.file_exists "setup-code.txt" s.world.disk && not s.setup_completed)
      && (is_ok_true access || (not (is_error access) && knows_secret request s))

  -- A request that may not set the server up changes neither users nor disk, nor the name of the
  -- server: the setup needs its code on the disk, has not been completed, and needs the grant of the
  -- cloud or, where the cloud is not asked, the code.
  pub context_handler_closed :
      (request : ContextRequest) (s : Site Disk)
      → may_set_up request s ≡ false
      → let s' = (context_handler storage env host marshal (ok request) s).1 in
        (s'.world ≡ s.world) × (s'.hostname ≡ s.hostname) × (s'.protocol ≡ s.protocol)
  unfolding context_handler
  context_handler_closed request s h =
      elim (Result-cases (cloud_access host s.cloud_type request)) [
        | inr (message, c) ↦ ground (arith, h, c)
        | inl (granted, c) ↦ elim (Result-cases (storage.read_file "setup-code.txt" s.world.disk)) [
          | inr (message, r) ↦ ground (arith, h, c, r)
          | inl (secret, r) ↦ ground (arith, h, c, r)
        ]
      ]

  users-complete :
      (request : ContextRequest) (s : Site Disk) (stored : User)
      → find (has_login "admin") s.world.users ≡ some stored
      → request.admin_password ≢ ""
      → find (has_login "admin") (complete storage env host marshal request s).1.world.users
        ≡ some (record (admin_of request) { password = stored.password })
  unfolding complete set_admin login_exists
  users-complete request s stored found has =
      elim (Result-cases (update_user storage env (admin_of request) s.world).0) [
        | inl (done, e) ↦ ground (
          arith,
          e,
          found,
          has,
          eq_iff request.admin_password "",
          eq_iff "admin" "admin",
          any-find-some (has_login "admin") s.world.users stored found,
          find-update_user storage env (admin_of request) s.world "admin",
        )
        | inr (message, e) ↦ ground (
          arith,
          e,
          found,
          has,
          eq_iff request.admin_password "",
          eq_iff "admin" "admin",
          any-find-some (has_login "admin") s.world.users stored found,
          find-update_user storage env (admin_of request) s.world "admin",
        )
      ]

  -- Where a user admin exists, a request that may set the server up and gives a password for the
  -- admin leaves the admin with the password it had, and without its ID, its external logins and its
  -- second factors.
  pub context_handler_keeps_password :
      (request : ContextRequest) (s : Site Disk) (stored : User)
      → may_set_up request s ≡ true
      → find (has_login "admin") s.world.users ≡ some stored
      → request.admin_password ≢ ""
      → find
          (has_login "admin")
          (context_handler storage env host marshal (ok request) s).1.world.users
        ≡ some (record (admin_of request) { password = stored.password })
  unfolding context_handler
  context_handler_keeps_password request s stored h found has =
      elim (Result-cases (cloud_access host s.cloud_type request)) [
        | inr (message, c) ↦ absurd (ground (arith, h, c))
        | inl (granted, c) ↦ elim (Result-cases (storage.read_file "setup-code.txt" s.world.disk)) [
          | inr (message, r) ↦ ground (arith, h, c, r, users-complete request s stored found has)
          | inl (secret, r) ↦ ground (arith, h, c, r, users-complete request s stored found has)
        ]
      ]
