-- ===== src/Rest/SignOn/Methods.antt =====
-- rest/auth.go: the list of the ways to sign in, and the way to a provider.
use go_devops_platform.Base.{
  ℕ, String, false, map, none, some, Result, ok, err, Run, returns, panics, if◌then◌else◌, ◌==◌,
  find, find_last,
}
use go_devops_platform.Base.Text.{◌+++◌}
use go_devops_platform.Storage.{Bytes, Iface}
use go_devops_platform.Users.Types.{Env}
use go_devops_platform.Oidc.Types.{OidcProvider, OAuthData, Store, no_token}
use go_devops_platform.Oidc.Store.{get_discovery_uri, save_oauth2_data}
use go_devops_platform.Oidc.Token.{get_redirect_uri}
use go_devops_platform.Scim.{UserHooks}
use go_devops_platform.Saml.ServiceProvider.{get_auth_url}
use go_devops_platform.Rest.SignOn.{
  Portal, Outside, MethodProvider, Callback, Reply, refused, methods, method, redirect,
  saml_callback,
}
use go_devops_platform.Rest.SignOn.Oidc.{oidc_callback}

abbrev pub without_redirect : OidcProvider → MethodProvider
without_redirect p = record { id = p.id; name = p.name; redirect_uri = "" }

-- authMethods
unfoldable pub auth_methods : {Certificate Disk : Type 0} → Portal Certificate Disk → Reply
auth_methods s = methods s.local_auth_disabled (map without_redirect s.oidc_providers)

-- OAuthData{ID: …, OIDCProviderID: …, CreatedAt: …}
abbrev pub new_entry : String → String → ℕ → OAuthData
new_entry id provider_id now = record {
  id = id;
  oidc_provider_id = provider_id;
  created_at = now;
  subject = "";
  issuer = "";
  email = "";
  token = no_token;
  auth_failed = false;
  suspended = false;
  last_token_renewal = 0;
  renewal_failed = false;
  renewal_retries = 0;
}

module _ {Certificate PublicKey Disk : Type 0} (out : Outside Certificate PublicKey) where
  -- The address of a SAML provider; the answer for it is `reply`.
  unfoldable pub saml_address :
      (MethodProvider → Reply)
      → String
      → Portal Certificate Disk
      → Run Reply × Portal Certificate Disk
  unfolding get_auth_url
  saml_address reply id s = elim (find_last (λ p. p.id == id) s.saml.providers) [
    | none ↦ (returns (refused 400 "cannot find saml provider"), s)
    | some p ↦
        let (r, saml') = get_auth_url out.libs p s.saml in
        let answer : Run Reply = elim r [
          | panics m ↦ panics m
          | returns (err e) ↦ returns (refused 400 "cannot get auth url")
          | returns (ok uri) ↦
              returns (reply (record { id = p.id; name = p.name; redirect_uri = uri }))
        ] in
        (answer, record s { saml = saml' })
  ]

module _ {Certificate PublicKey Disk : Type 0} (storage : Iface Disk)
    (out : Outside Certificate PublicKey) (marshal_store : Store → Result Bytes) where
  -- The address of an OpenID Connect provider, with a new entry under its state.
  unfoldable pub oidc_address :
      (MethodProvider → Reply) → String → Portal Certificate Disk → Reply × Portal Certificate Disk
  unfolding get_discovery_uri get_redirect_uri save_oauth2_data
  oidc_address reply id s = elim (find (λ p. p.id == id) s.oidc_providers) [
    | none ↦ (refused 400 "element not found", s)
    | some p ↦
        let (found, discovered) =
          get_discovery_uri out.http out.now out.later p.discovery_uri s.oidc_store in
        let s1 : Portal Certificate Disk = record s { oidc_store = discovered } in
        elim found [
          | err e ↦ (refused 400 ("getDiscoveryURI error: " +++ e), s1)
          | ok discovery ↦
              elim (get_redirect_uri out.tokens discovery p.client_id p.scope
                (s.saml.protocol +++ "://" +++ s.saml.hostname +++ p.redirect_uri)) [
                  | err e ↦ (refused 400 ("GetRedirectURI error: " +++ e), s1)
                  | ok (uri, state) ↦
                      let (saved, store, d) =
                        save_oauth2_data storage marshal_store (new_entry out.uuid p.id out.now)
                          state discovered s.world.disk in
                      let s2 : Portal Certificate Disk = record s {
                        oidc_store = store;
                        world = record s.world { disk = d };
                      } in
                      elim saved [
                        | err e ↦ (refused 400 ("unable to save state to oidc store: " +++ e), s2)
                        | ok _ ↦
                            (reply (record { id = p.id; name = p.name; redirect_uri = uri }), s2)
                      ]
                ]
        ]
  ]

  -- authMethodsByIDRedirect
  unfoldable pub auth_methods_by_id_redirect :
      (method_name id : String) → Portal Certificate Disk → Run Reply × Portal Certificate Disk
  unfolding saml_address oidc_address
  auth_methods_by_id_redirect method_name id s =
      if method_name == "saml"
      then saml_address out (λ p. redirect p.redirect_uri) id s
      else (let (reply, s') = oidc_address (λ p. redirect p.redirect_uri) id s in
          (returns reply, s'))

  -- authMethodsByID
  unfoldable pub auth_methods_by_id :
      Env
      → UserHooks Disk
      → (Portal Certificate Disk → Result Bytes)
      → (http_method method_name id : String) → Result Callback
      → Portal Certificate Disk
      → Run Reply × Portal Certificate Disk
  unfolding saml_callback oidc_callback saml_address oidc_address
  auth_methods_by_id env hooks marshal_config http_method method_name id body s =
      if http_method == "POST"
      then if method_name == "saml"
        then (let (reply, s') = saml_callback storage env hooks out id body s in
            (returns reply, s'))
        else oidc_callback storage env hooks out marshal_config marshal_store id body s
      else if http_method == "GET"
      then if method_name == "saml"
        then saml_address out method id s
        else (let (reply, s') = oidc_address method id s in (returns reply, s'))
      else (returns (refused 400 "method not supported"), s)
