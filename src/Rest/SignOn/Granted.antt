-- ===== src/Rest/SignOn/Granted.antt =====
-- To whom the callback of OpenID Connect in rest/auth.go gives a token.
use go_devops_platform.Base.{
  ◌≡◌, ◌≢◌, ◌⊎◌, inl, inr, sym, ◌∙◌, String, true, false, some, Result, ok, err, returns, not, ◌&&◌,
  ◌==◌, eq_iff, arith, find, Bool-cases, Result-cases, Option-cases, Run-cases,
}
use go_devops_platform.Base.Int.{pos, leb_ℤ}
use go_devops_platform.Base.Text.{◌+++◌}
use go_devops_platform.Storage.{Bytes, Iface}
use go_devops_platform.Users.Types.{User, Env, has_login}
use go_devops_platform.Users.Change.{user_count}
use go_devops_platform.Login.Authenticate.{LoginResponse}
use go_devops_platform.Oidc.Types.{OidcProvider, OAuthData, Store, Discovery, Jwks}
use go_devops_platform.Oidc.Store.{get_discovery_uri, get_jwks, save_oauth2_data}
use go_devops_platform.Oidc.Token.{retrieve_oauth2_data_using_state, update_oauth2_data_with_token}
use go_devops_platform.Scim.{UserHooks}
use go_devops_platform.Rest.Accounts.{add_or_modify_external_user}
use go_devops_platform.Rest.Config.{write_config}
use go_devops_platform.Oidc.Cleanup.{cleanup_oauth2_data}
use go_devops_platform.Rest.SignOn.{Portal, Outside, Callback, Reply, logged_in, save_and}
use go_devops_platform.Rest.SignOn.SamlGranted.{external_user_same}
use go_devops_platform.Rest.SignOn.Oidc.{
  known_token, new_token, with_suspension, save_sign_on, sign_on, fetch_token, oidc_callback,
}

module _ {Certificate PublicKey Disk : Type 0} (storage : Iface Disk) (env : Env)
    (hooks : UserHooks Disk) (out : Outside Certificate PublicKey)
    (marshal_config : Portal Certificate Disk → Result Bytes)
    (marshal_store : Store → Result Bytes) where
  save_and_reply :
      (reply : Reply) (s : Portal Certificate Disk) (r : LoginResponse)
      → (save_and storage env marshal_config reply s).0 ≡ logged_in r
      → reply ≡ logged_in r
  unfolding save_and
  save_and_reply reply s r h =
      elim (Result-cases (write_config storage env (marshal_config s) s.world.disk).0) [
        | inr (m, e) ↦ absurd (ground (arith, h, e))
        | inl (done, e) ↦ ground (arith, h, e)
      ]

  save_sign_on_response :
      (state : String) (user : User) (updated : OAuthData) (s : Portal Certificate Disk)
      (r : LoginResponse)
      → (save_sign_on storage env hooks out marshal_config marshal_store state user updated s).0
        ≡ logged_in r
      → r ≡ new_token user updated
  unfolding save_sign_on
  save_sign_on_response state user updated s r h =
      let saving =
        save_oauth2_data storage marshal_store (with_suspension user updated) state s.oidc_store
          s.world.disk in
      elim (Result-cases saving.0) [
        | inr (m, e) ↦ absurd (ground (arith, h, e))
        | inl (done, e) ↦
            let entry : OAuthData = with_suspension user updated in
            let reply : Reply = logged_in (new_token user entry) in
            let after : Portal Certificate Disk = record s {
              oidc_store = (cleanup_oauth2_data out.now entry saving.1).1;
              world = record s.world { disk = saving.2 };
            } in
            let same : reply ≡ logged_in r = save_and_reply reply after r (ground (arith, h, e)) in
            ground (arith, same)
      ]

  sign_on_response :
      (state : String) (updated : OAuthData) (s : Portal Certificate Disk) (r : LoginResponse)
      → (sign_on storage env hooks out marshal_config marshal_store state updated s).0 ≡ logged_in r
      → (user : User) × ((add_or_modify_external_user storage env hooks out.seconds updated.email
            "oidc" updated.id s.world).0
          ≡ ok user)
        × (r ≡ new_token user updated)
  unfolding sign_on
  sign_on_response state updated s r h =
      elim (Result-cases
        (add_or_modify_external_user storage env hooks out.seconds updated.email "oidc" updated.id
          s.world).0) [
            | inr (m, e) ↦ absurd (ground (arith, h, e))
            | inl (user, e) ↦ (
              user,
              e,
              save_sign_on_response state user updated
                  (record s {
                    world =
                        (add_or_modify_external_user storage env hooks out.seconds updated.email
                          "oidc" updated.id s.world).1;
                  })
                  r (ground (arith, h, e)),
            )
          ]

  -- The exchange that stands behind a token, for the entry: with the discovery document that the
  -- store and the network have for the address of this provider, and with the keys for the address
  -- in this document.
  abbrev pub IsExchange :
      Callback → OidcProvider → Portal Certificate Disk → OAuthData → OAuthData → Type 0
  IsExchange callback p s entry updated =
      (discovery : Discovery) × (jwks : Jwks) × ((get_discovery_uri out.http out.now out.later
          p.discovery_uri s.oidc_store).0
        ≡ ok discovery)
      × ((get_jwks out.http out.now out.later discovery.jwks_uri
            (get_discovery_uri out.http out.now out.later p.discovery_uri s.oidc_store).1).0
          ≡ ok jwks)
      × (update_oauth2_data_with_token out.tokens out.http out.later jwks discovery p.client_id
            p.client_secret
            (s.saml.protocol +++ "://" +++ s.saml.hostname +++ callback.redirect_uri) callback.code
            entry
          ≡ returns (ok updated))

  fetch_token_response :
      (callback : Callback) (p : OidcProvider) (entry : OAuthData) (s : Portal Certificate Disk)
      (r : LoginResponse)
      → (fetch_token storage env hooks out marshal_config marshal_store callback p entry s).0
        ≡ returns (logged_in r)
      → (updated : OAuthData) × (user : User) × IsExchange callback p s entry updated
        × ((add_or_modify_external_user storage env hooks out.seconds updated.email "oidc"
              updated.id s.world).0
            ≡ ok user)
        × (r ≡ new_token user updated)
  unfolding fetch_token
  fetch_token_response callback p entry s r h =
      let found = get_discovery_uri out.http out.now out.later p.discovery_uri s.oidc_store in
      elim (Result-cases found.0) [
        | inr (m, e) ↦ absurd (ground (arith, h, e))
        | inl (discovery, e) ↦
            let keys = get_jwks out.http out.now out.later discovery.jwks_uri found.1 in
            elim (Result-cases keys.0) [
              | inr (m, f) ↦ absurd (ground (arith, h, e, f))
              | inl (jwks, f) ↦
                  elim (Run-cases (
                    update_oauth2_data_with_token out.tokens out.http out.later jwks discovery
                      p.client_id p.client_secret
                      (s.saml.protocol +++ "://" +++ s.saml.hostname +++ callback.redirect_uri)
                      callback.code entry)) [
                        | inr (m, g) ↦ absurd (ground (arith, h, e, f, g))
                        | inl (err m, g) ↦ absurd (ground (arith, h, e, f, g))
                        | inl (ok updated, g) ↦
                            let (user, k, same) =
                              sign_on_response callback.state updated
                                (record s { oidc_store = keys.1 }) r (ground (arith, h, e, f, g)) in
                            (updated, user, (discovery, jwks, e, f, g), k, same)
                      ]
            ]
      ]

  new_token_granted :
      (user : User) (updated : OAuthData) (r : LoginResponse)
      → r ≡ new_token user updated
      → r.authenticated ≡ true
      → (r.token ≡ updated.token.access_token) × (user.suspended ≡ false)
  new_token_granted user updated r same granted = (ground arith, ground arith)

  -- An entry with a token, which gives it to whoever knows its state.
  abbrev pub IsKnown : Portal Certificate Disk → OAuthData → LoginResponse → Type 0
  IsKnown s entry r =
      (entry.token.access_token ≢ "")
      × (r.token ≡ entry.token.access_token)
      × (entry.suspended ≡ false)
      × (leb_ℤ (pos (user_count storage env s.world)) s.license_user_count ≡ false)

  -- A new token, for a user who is not suspended.
  abbrev pub IsNew :
      Callback → OidcProvider → Portal Certificate Disk → OAuthData → LoginResponse → Type 0
  IsNew callback p s entry r =
      (updated : OAuthData) × (entry.token.access_token ≡ "")
      × IsExchange callback p s entry updated
      × (r.token ≡ updated.token.access_token)
      × ((stored : User)
          → find (has_login updated.email) s.world.users ≡ some stored
          → stored.suspended ≡ false)

  known_token_granted :
      (entry : OAuthData) (s : Portal Certificate Disk)
      → (known_token storage env entry s).authenticated ≡ true
      → ((known_token storage env entry s).token ≡ entry.token.access_token)
        × (entry.suspended ≡ false)
        × (leb_ℤ (pos (user_count storage env s.world)) s.license_user_count ≡ false)
  unfolding known_token
  known_token_granted entry s granted = elim (Bool-cases entry.suspended) [
    | inl suspended ↦ absurd (ground arith)
    | inr active ↦
        elim (Bool-cases (leb_ℤ (pos (user_count storage env s.world)) s.license_user_count)) [
          | inl full ↦ absurd (ground (arith, active, full, granted))
          | inr free ↦ (ground (arith, active, free), active, free)
        ]
  ]

  -- An OpenID Connect callback that authenticates a user was sent with a code, for a provider of
  -- the configuration, and with a state of the store. Either the entry of the state has a token
  -- already: then the response has this token without a look at the code, provided the entry is
  -- not suspended and there are more users than the license has. Or the code was exchanged for the
  -- token of the response, at the endpoint of the discovery document for the provider's address and
  -- with the keys of this document, and a stored user of its email is not suspended.
  pub oidc_callback_granted :
      (id : String) (callback : Callback) (s : Portal Certificate Disk) (r : LoginResponse)
      → (oidc_callback storage env hooks out marshal_config marshal_store id (ok callback) s).0
        ≡ returns (logged_in r)
      → r.authenticated ≡ true
      → (p : OidcProvider) × (entry : OAuthData) × (find
            (λ q. q.id == id && not (callback.code == ""))
            s.oidc_providers
          ≡ some p)
        × (retrieve_oauth2_data_using_state s.oidc_store.oauth2_data callback.state ≡ ok entry)
        × (IsKnown s entry r ⊎ IsNew callback p s entry r)
  unfolding oidc_callback
  oidc_callback_granted id callback s r h granted =
      elim (Option-cases
        (find (λ (q : OidcProvider). q.id == id && not (callback.code == "")) s.oidc_providers)) [
          | inl missing ↦ absurd (ground (arith, h))
          | inr (p, e) ↦
              elim (Result-cases
                (retrieve_oauth2_data_using_state s.oidc_store.oauth2_data callback.state)) [
                  | inr (m, f) ↦ absurd (ground (arith, h))
                  | inl (entry, f) ↦ elim (Bool-cases (entry.token.access_token == "")) [
                    | inr full ↦
                        let same : r ≡ known_token storage env entry s =
                          ground (arith, h, e, f, full) in
                        let (t, active, count) =
                          known_token_granted entry s (ground (arith, same, granted)) in
                        (
                          p,
                          entry,
                          e,
                          f,
                          inl (
                            ground (arith, full, eq_iff entry.token.access_token ""),
                            ground (arith, same, t),
                            active,
                            count,
                          ),
                        )
                    | inl empty ↦
                        let (updated, user, exchange, k, same) =
                          fetch_token_response callback p entry s r
                            (ground (arith, h, e, f, empty)) in
                        let (t, active) = new_token_granted user updated r same granted in
                        (
                          p,
                          entry,
                          e,
                          f,
                          inr (
                            updated,
                            (eq_iff entry.token.access_token "").0 empty,
                            exchange,
                            t,
                            λ stored found.
                                sym
                                  (external_user_same storage env hooks out.seconds updated.email
                                    "oidc" updated.id user stored s.world found k).2
                                ∙ active,
                          ),
                        )
                  ]
                ]
        ]
