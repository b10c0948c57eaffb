-- ===== src/Rest/SignOn/Providers.antt =====
-- rest/auth.go: the OpenID Connect providers of the configuration, and the renewal of all tokens on
-- request.
use go_devops_platform.Base.{
  String, true, List, [], ◌∷◌, ◌++◌, map, Option, none, some, Result, ok, err, Done, Action,
  if◌then◌else◌, ◌==◌,
}
use go_devops_platform.Base.Text.{◌+++◌, replace_all}
use go_devops_platform.Storage.{Bytes, Iface}
use go_devops_platform.Users.Types.{User, World, Env}
use go_devops_platform.Users.Change.{update_user}
use go_devops_platform.Oidc.Types.{OidcProvider, Store}
use go_devops_platform.Oidc.Renewal.{Visit, renew_all_oidc_connections}
use go_devops_platform.Scim.{UserHooks}
use go_devops_platform.Rest.SignOn.{
  Portal, Reply, refused, providers, provider, deleted, done, silent, save_and,
}

-- What the checks of a new provider say, in their order.
unfoldable pub provider_error : OidcProvider → Option String
provider_error p =
    if p.name == ""
    then some "name not set"
    else if p.client_id == ""
    then some "clientID not set"
    else if p.client_secret == ""
    then some "clientSecret not set"
    else if p.scope == ""
    then some "scope not set"
    else if p.discovery_uri == ""
    then some "discovery URL not set"
    else none

-- The list without the last provider of an ID, if there is one.
unfoldable pub without_provider : String → List OidcProvider → Option (List OidcProvider)
without_provider id [] = none
without_provider id (p ∷ ps) = elim (without_provider id ps) [
  | some rest ↦ some (p ∷ rest)
  | none ↦ if p.id == id then some ps else none
]

module _ {Certificate Disk : Type 0} where
  -- The provider with its addresses at this server.
  unfoldable pub with_urls : Portal Certificate Disk → OidcProvider → OidcProvider
  unfolding replace_all
  with_urls s p =
      let base : String = s.saml.protocol +++ "://" +++ s.saml.hostname in
      record p {
        login_url = base +++ replace_all p.redirect_uri "/callback/" "/login/";
        redirect_uri = base +++ p.redirect_uri;
      }

module _ {Certificate Disk : Type 0} (storage : Iface Disk) (env : Env)
    (marshal_config : Portal Certificate Disk → Result Bytes) where
  -- oidcProviderHandler; `uuid` is the ID of a new provider.
  unfoldable pub oidc_provider_handler :
      (http_method uuid : String)
      → Result OidcProvider
      → Portal Certificate Disk
      → Reply × Portal Certificate Disk
  unfolding provider_error with_urls save_and
  oidc_provider_handler http_method uuid body s =
      if http_method == "GET"
      then (providers (map (with_urls s) s.oidc_providers), s)
      else if http_method == "POST"
      then elim body [
        | err e ↦ (refused 400 ("decode input error: " +++ e), s)
        | ok p ↦ elim (provider_error p) [
          | some e ↦ (refused 400 e, s)
          | none ↦
              let new : OidcProvider = record p {
                id = uuid;
                redirect_uri = "/callback/oidc/" +++ uuid;
              } in
              save_and storage env marshal_config (provider new)
                (record s { oidc_providers = s.oidc_providers ++ new ∷ [] })
        ]
      ]
      else (refused 400 "method not supported", s)

  -- oidcProviderElementHandler: another method than DELETE has no answer.
  unfoldable pub oidc_provider_element_handler :
      (http_method id : String) → Portal Certificate Disk → Reply × Portal Certificate Disk
  unfolding without_provider save_and
  oidc_provider_element_handler http_method id s =
      if http_method == "DELETE"
      then elim (without_provider id s.oidc_providers) [
        | none ↦ (refused 400 "oidc provider not found", s)
        | some rest ↦
            save_and storage env marshal_config (deleted id) (record s { oidc_providers = rest })
      ]
      else (silent, s)

module _ {Disk : Type 0} (storage : Iface Disk) (env : Env) (hooks : UserHooks Disk) where
  -- The loop over the users whose tokens could not be renewed.
  unfoldable pub disable_connections : List User → Action (World Disk) Done
  unfolding update_user
  disable_connections [] w = (ok tt, w)
  disable_connections (user ∷ users) w =
      let (called, d) = hooks.disable_func user w.disk in
      let hooked : World Disk = record w { disk = d } in
      elim called [
        | err e ↦ (err ("DisableAllClientConfigs error: " +++ e), hooked)
        | ok _ ↦
            let (r, w') =
              update_user storage env (record user { connections_disabled_on_auth_failure = true })
                hooked in
            elim r [
              | err e ↦ (err ("could not update connectionsDisabledOnAuthFailure user: " +++ e), w')
              | ok _ ↦ disable_connections users w'
            ]
      ]

module _ {Certificate Disk : Type 0} (storage : Iface Disk) (env : Env)
    (hooks : UserHooks Disk) where
  -- oidcRenewTokensHandler; `visits` are the entries in the order in which they are reached.
  unfoldable pub oidc_renew_tokens_handler :
      (Store → Result Bytes)
      → String
      → List Visit
      → Portal Certificate Disk
      → Reply × Portal Certificate Disk
  unfolding renew_all_oidc_connections disable_connections
  oidc_renew_tokens_handler marshal_store http_method visits s =
      if http_method == "POST"
      then (let (users, store, d) =
            renew_all_oidc_connections storage marshal_store s.oidc_providers env s.world visits
              s.oidc_store s.world.disk in
          let (r, w) = disable_connections storage env hooks users (record s.world { disk = d }) in
          let s' : Portal Certificate Disk = record s { oidc_store = store; world = w } in
          elim r [ err e ↦ (refused 400 e, s') | ok _ ↦ (done, s') ])
      else (refused 400 "method not supported", s)
