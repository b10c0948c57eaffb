-- ===== src/Rest/SignOn/SamlGranted.antt =====
-- To whom the callback of SAML in rest/auth.go gives a token.
use go_devops_platform.Base.{
  ℕ, ◌≡◌, ◌≤◌, ◌∙◌, eq_iff, find-passes, none, inl, inr, refl, String, true, false, some, ok, ◌==◌,
  arith, find, find_last, any, Bool-cases, Result-cases, Option-cases,
}
use go_devops_platform.Storage.{Iface}
use go_devops_platform.Users.Types.{User, World, Env, has_login, blanked}
use go_devops_platform.Users.Model.{get_user_by_login, login_exists}
use go_devops_platform.Users.Change.{update_user}
use go_devops_platform.Login.Authenticate.{LoginResponse}
use go_devops_platform.Scim.{UserHooks}
use go_devops_platform.Saml.{
  Provider, AuthenticatedUser, SessionKey, Sessions, lookup_session, get_authenticated_user,
}
use go_devops_platform.Rest.Accounts.{add_or_modify_external_user, linked}
use go_devops_platform.Rest.AccountLaws.{any-find-some, add_or_modify_external_user_adds}
use go_devops_platform.Rest.SignOn.{
  Portal, Outside, Callback, logged_in, saml_response, saml_callback,
}

module _ {Disk : Type 0} (storage : Iface Disk) (env : Env) (hooks : UserHooks Disk) where
  -- The user that a login from outside gives is the stored one in these fields.
  abbrev pub IsSameUser : User → User → Type 0
  IsSameUser user stored =
      (user.login ≡ stored.login) × (user.role ≡ stored.role) × (user.suspended ≡ stored.suspended)

  abbrev seen_user : ℕ → String → String → User → User
  seen_user now auth_type external_id stored =
      record (linked storage env hooks auth_type external_id (blanked stored)) {
        connections_disabled_on_auth_failure = false;
        last_login = now;
      }

  external_user_seen :
      (now : ℕ) (login auth_type external_id : String) (user stored : User) (w : World Disk)
      → find (has_login login) w.users ≡ some stored
      → (add_or_modify_external_user storage env hooks now login auth_type external_id w).0
        ≡ ok user
      → user ≡ seen_user now auth_type external_id stored
  unfolding add_or_modify_external_user get_user_by_login login_exists
  external_user_seen now login auth_type external_id user stored w found e =
      let known : any (has_login login) w.users ≡ true =
        any-find-some (has_login login) w.users stored found in
      let seen : User = seen_user now auth_type external_id stored in
      let called =
        hooks.reactivate_func (linked storage env hooks auth_type external_id (blanked stored))
          w.disk in
      elim (Bool-cases stored.connections_disabled_on_auth_failure) [
        | inr free ↦ elim (Result-cases (update_user storage env seen w).0) [
          | inr (m, r) ↦ absurd (ground (arith, found, known, free, r, e))
          | inl (done, r) ↦ ground (arith, found, known, free, r, e)
        ]
        | inl blocked ↦ elim (Result-cases called.0) [
          | inr (m, q) ↦ absurd (ground (arith, found, known, blocked, q, e))
          | inl (done, q) ↦
              elim (Result-cases (update_user storage env seen (record w { disk = called.1 })).0) [
                | inr (m, r) ↦ absurd (ground (arith, found, known, blocked, q, r, e))
                | inl (done', r) ↦ ground (arith, found, known, blocked, q, r, e)
              ]
        ]
      ]

  pub external_user_same :
      (now : ℕ) (login auth_type external_id : String) (user stored : User) (w : World Disk)
      → find (has_login login) w.users ≡ some stored
      → (add_or_modify_external_user storage env hooks now login auth_type external_id w).0
        ≡ ok user
      → IsSameUser user stored
  external_user_same now login auth_type external_id user stored w found e =
      rw (external_user_seen now login auth_type external_id user stored w found e)
        (refl, refl, refl)

  external_user_login :
      (now : ℕ) (login auth_type external_id : String) (user : User) (w : World Disk)
      → (add_or_modify_external_user storage env hooks now login auth_type external_id w).0
        ≡ ok user
      → user.login ≡ login
  external_user_login now login auth_type external_id user w e =
      elim (Option-cases (find (has_login login) w.users)) [
        | inl missing ↦
            (add_or_modify_external_user_adds storage env hooks now login auth_type external_id user
              w missing e).0
        | inr (stored, found) ↦
            (external_user_same now login auth_type external_id user stored w found e).0
            ∙ (eq_iff stored.login login).0 (find-passes (has_login login) w.users stored found)
      ]

-- A session that gives its user is stored and not over.
open_session :
    (p : Provider) (code : String) (now : ℕ) (sessions : Sessions) (user : AuthenticatedUser)
    → get_authenticated_user p code now sessions ≡ ok user
    → (lookup_session (record { provider_id = p.id; session_id = code }) sessions ≡ some user)
      × (now ≤ user.expires_at)
unfolding get_authenticated_user
open_session p code now sessions user h =
    let key : SessionKey = record { provider_id = p.id; session_id = code } in
    elim (Option-cases (lookup_session key sessions)) [
      | inl missing ↦ absurd (ground (arith, missing))
      | inr (found_user, e) ↦ (ground (arith, e), ground (arith, e))
    ]

module _ {Certificate PublicKey Disk : Type 0} (storage : Iface Disk) (env : Env)
    (hooks : UserHooks Disk) (out : Outside Certificate PublicKey) where
  -- A SAML callback that logs a user in has found a session under its code, at the last provider
  -- with the ID of its path, and the session is not over. The token is signed for the login of the
  -- session, until the end of the session, and for the role of the user store, or for the role user
  -- where the store had no such login. It is given to a suspended user as well: the response says
  -- then that the user is suspended, and is authenticated all the same.
  pub saml_callback_granted :
      (id : String) (callback : Callback) (s : Portal Certificate Disk) (r : LoginResponse)
      → (saml_callback storage env hooks out id (ok callback) s).0 ≡ logged_in r
      → (p : Provider) × (session : AuthenticatedUser) × (user : User) × (find_last
            (λ q. q.id == id)
            s.saml.providers
          ≡ some p)
        × (lookup_session
              (record { provider_id = p.id; session_id = callback.code })
              s.saml.sessions
            ≡ some session)
        × (out.now ≤ session.expires_at)
        × (out.sign user.login user.role session.expires_at ≡ ok r.token)
        × (user.login ≡ session.login)
        × (r.authenticated ≡ true)
        × (r.suspended ≡ user.suspended)
        × ((stored : User)
            → find (has_login session.login) s.world.users ≡ some stored
            → IsSameUser storage env hooks user stored)
        × (find (has_login session.login) s.world.users ≡ none
            → (user.role ≡ "user") × (user.suspended ≡ false))
  unfolding saml_callback saml_response
  saml_callback_granted id callback s r h = elim (Bool-cases (callback.code == "")) [
    | inl empty ↦ absurd (ground (arith, h))
    | inr full ↦ elim (Option-cases (find_last (λ (q : Provider). q.id == id) s.saml.providers)) [
      | inl missing ↦ absurd (ground (arith, h))
      | inr (p, e) ↦ elim (Bool-cases (p.id == "")) [
        | inl unnamed ↦ absurd (ground (arith, h))
        | inr named ↦
            elim (Result-cases (get_authenticated_user p callback.code out.now s.saml.sessions)) [
              | inr (m, f) ↦ absurd (ground (arith, h))
              | inl (session, f) ↦
                  elim (Result-cases
                    (add_or_modify_external_user storage env hooks out.seconds session.login "saml"
                      session.id s.world).0) [
                        | inr (m, g) ↦ absurd (ground (arith, h))
                        | inl (user, g) ↦
                            elim (Result-cases (out.sign user.login user.role session.expires_at)) [
                              | inr (m, k) ↦ absurd (ground (arith, h))
                              | inl (token, k) ↦
                                  let (found, unexpired) =
                                    open_session p callback.code out.now s.saml.sessions session
                                      f in
                                  let named_user =
                                    external_user_login storage env hooks out.seconds session.login
                                      "saml" session.id user s.world g in
                                  (
                                    p,
                                    session,
                                    user,
                                    e,
                                    found,
                                    unexpired,
                                    ground (arith, h, k),
                                    named_user,
                                    ground (arith, h),
                                    ground (arith, h),
                                    λ stored found.
                                        external_user_same storage env hooks out.seconds
                                          session.login "saml" session.id user stored s.world found
                                          g,
                                    λ missing.
                                        let (_, role, _, _, active) =
                                          add_or_modify_external_user_adds storage env hooks
                                            out.seconds session.login "saml" session.id user s.world
                                            missing g in
                                        (role, active),
                                  )
                            ]
                      ]
            ]
      ]
    ]
  ]
