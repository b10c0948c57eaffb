-- ===== src/Rest/SignOn/Addresses.antt =====
-- What the addresses and the providers of rest/auth.go leave for later requests.
use go_devops_platform.Base.{
  ◌≡◌, ◌≢◌, inl, inr, refl, sym, ◌∙◌, ap, String, List, [], ◌∷◌, ◌++◌, some, Result, ok, ◌==◌,
  eq_iff, arith, find, find-passes, Option-cases, Result-cases,
}
use go_devops_platform.Base.Map.{lookup-insert}
use go_devops_platform.Base.Text.{◌+++◌, replace_all}
use go_devops_platform.Storage.{Bytes, Iface}
use go_devops_platform.Users.Types.{Env}
use go_devops_platform.Oidc.Types.{Discovery, OidcProvider, Store}
use go_devops_platform.Oidc.Store.{get_discovery_uri, save_oauth2_data}
use go_devops_platform.Oidc.Token.{
  Tokens, get_redirect_uri, random_state, retrieve_oauth2_data_using_state,
}
use go_devops_platform.Rest.Config.{write_config}
use go_devops_platform.Rest.SignOn.{
  Portal, Outside, MethodProvider, Reply, method, provider, deleted, save_and,
}
use go_devops_platform.Rest.SignOn.Methods.{new_entry, oidc_address}
use go_devops_platform.Rest.SignOn.Providers.{
  provider_error, without_provider, oidc_provider_handler, oidc_provider_element_handler,
}

-- The address of a provider that asks for a code, with the state.
abbrev pub address_of : Discovery → (client_id scope callback state : String) → String
address_of discovery client_id scope callback state =
    discovery.authorization_endpoint
    +++ "?client_id="
    +++ client_id
    +++ "&state="
    +++ state
    +++ "&scope="
    +++ replace_all scope " " "%20"
    +++ "&response_type=code&redirect_uri="
    +++ callback

get_redirect_uri_state :
    {PublicKey : Type 0} (tokens : Tokens PublicKey) (discovery : Discovery)
    (client_id scope callback uri state : String)
    → get_redirect_uri tokens discovery client_id scope callback ≡ ok (uri, state)
    → (random_state tokens 64 ≡ ok state)
      × (uri ≡ address_of discovery client_id scope callback state)
unfolding get_redirect_uri
get_redirect_uri_state tokens discovery client_id scope callback uri state h =
    elim (Result-cases (random_state tokens 64)) [
      | inr (m, e) ↦ absurd (ground (arith, h, e))
      | inl (found, e) ↦ (ground (arith, h, e), ground (arith, h, e))
    ]

module _ {Certificate PublicKey Disk : Type 0} (storage : Iface Disk)
    (out : Outside Certificate PublicKey) (marshal_store : Store → Result Bytes) where
  save_oauth2_data_entry :
      (entry : _) (state : String) (store : Store) (d : Disk)
      → state ≢ ""
      → retrieve_oauth2_data_using_state
          (save_oauth2_data storage marshal_store entry state store d).1.oauth2_data
          state
        ≡ ok entry
  unfolding save_oauth2_data retrieve_oauth2_data_using_state
  save_oauth2_data_entry entry state store d named = ground (
    arith,
    lookup-insert state state entry store.oauth2_data,
    eq_iff state state,
    eq_iff state "",
  )

  -- Where the address of an OpenID Connect provider is answered, it is the endpoint of the
  -- discovery document for this provider's address, with the provider's client ID, scope and
  -- callback, and with the random text of this request as the state; this state then gives back a
  -- new entry, without a token, for the provider of the path, if the random text is not empty.
  pub retrieve-oidc_address :
      (id : String) (s : Portal Certificate Disk) (m : MethodProvider) (state : String)
      → random_state out.tokens 64 ≡ ok state
      → state ≢ ""
      → (oidc_address storage out marshal_store method id s).0 ≡ method m
      → ((p : OidcProvider) × (discovery : Discovery) × (find (λ q. q.id == id) s.oidc_providers
            ≡ some p)
          × ((get_discovery_uri out.http out.now out.later p.discovery_uri s.oidc_store).0
              ≡ ok discovery)
          × (m.redirect_uri
              ≡ address_of discovery p.client_id p.scope
                  (s.saml.protocol +++ "://" +++ s.saml.hostname +++ p.redirect_uri)
                  state))
        × (m.id ≡ id)
        × (retrieve_oauth2_data_using_state
              (oidc_address storage out marshal_store method id s).1.oidc_store.oauth2_data
              state
            ≡ ok (new_entry out.uuid id out.now))
  unfolding oidc_address
  retrieve-oidc_address id s m state random named h =
      elim (Option-cases (find (λ (p : OidcProvider). p.id == id) s.oidc_providers)) [
        | inl missing ↦ absurd (ground (arith, h))
        | inr (p, e) ↦
            let found = get_discovery_uri out.http out.now out.later p.discovery_uri s.oidc_store in
            elim (Result-cases found.0) [
              | inr (x, f) ↦ absurd (ground (arith, h, e, f))
              | inl (discovery, f) ↦
                  elim (Result-cases (
                    get_redirect_uri out.tokens discovery p.client_id p.scope
                      (s.saml.protocol +++ "://" +++ s.saml.hostname +++ p.redirect_uri))) [
                        | inr (x, g) ↦ absurd (ground (arith, h, e, f, g))
                        | inl ((uri, other), g) ↦
                            let (drawn, made) =
                              get_redirect_uri_state out.tokens discovery p.client_id p.scope
                                (s.saml.protocol +++ "://" +++ s.saml.hostname +++ p.redirect_uri)
                                uri other g in
                            let same : ok other ≡ ok state = sym drawn ∙ random in
                            let t : other ≡ state = ground (arith, same) in
                            let ident : p.id ≡ id = (eq_iff p.id id).0 (
                              find-passes (λ (q : OidcProvider). q.id == id) s.oidc_providers p
                                e) in
                            let saved =
                              save_oauth2_data storage marshal_store
                                (new_entry out.uuid p.id out.now) other found.1 s.world.disk in
                            let kept : retrieve_oauth2_data_using_state saved.1.oauth2_data other
                                ≡ ok (new_entry out.uuid p.id out.now) =
                              save_oauth2_data_entry (new_entry out.uuid p.id out.now) other found.1
                                s.world.disk (rw t named) in
                            elim (Result-cases saved.0) [
                              | inr (x, k) ↦ absurd (ground (arith, h, e, f, g, k))
                              | inl (done, k) ↦ (
                                (
                                  p,
                                  discovery,
                                  e,
                                  f,
                                  rw (← t) (
                                      let shown : m.redirect_uri ≡ uri =
                                        ground (arith, h, e, f, g, k) in
                                      shown ∙ made),
                                ),
                                ground (arith, h, e, f, g, k, ident),
                                rw (← t) (rw (← ident) (ground (arith, e, f, g, k, kept))),
                              )
                            ]
                      ]
            ]
      ]

module _ {Certificate Disk : Type 0} (storage : Iface Disk) (env : Env)
    (marshal_config : Portal Certificate Disk → Result Bytes) where
  fresh_last :
      (ps : List OidcProvider) (new : OidcProvider)
      → without_provider new.id (ps ++ new ∷ []) ≡ some ps
  unfolding without_provider
  fresh_last [] new = ground (arith, eq_iff new.id new.id)
  fresh_last (p ∷ ps) new = ground (arith, fresh_last ps new)

  save_and_keeps :
      (reply : Reply) (s : Portal Certificate Disk)
      → (save_and storage env marshal_config reply s).1.oidc_providers ≡ s.oidc_providers
  unfolding save_and
  save_and_keeps reply s = refl

  save_and-provider :
      (reply : Reply) (s : Portal Certificate Disk) (p : OidcProvider)
      → (save_and storage env marshal_config reply s).0 ≡ provider p
      → reply ≡ provider p
  unfolding save_and
  save_and-provider reply s p h =
      elim (Result-cases (write_config storage env (marshal_config s) s.world.disk).0) [
        | inr (m, e) ↦ absurd (ground (arith, h, e))
        | inl (done, e) ↦ ground (arith, h, e)
      ]

  provider_added :
      (uuid : String) (body new : OidcProvider) (s : Portal Certificate Disk)
      → (oidc_provider_handler storage env marshal_config "POST" uuid (ok body) s).0 ≡ provider new
      → (oidc_provider_handler storage env marshal_config "POST" uuid (ok body) s).1.oidc_providers
        ≡ s.oidc_providers ++ new ∷ []
  unfolding oidc_provider_handler
  provider_added uuid body new s h = elim (Option-cases (provider_error body)) [
    | inr (m, e) ↦ absurd (ground (arith, h, e))
    | inl fine ↦
        let made : OidcProvider = record body {
          id = uuid;
          redirect_uri = "/callback/oidc/" +++ uuid;
        } in
        let grown : Portal Certificate Disk = record s {
          oidc_providers = s.oidc_providers ++ made ∷ [];
        } in
        let same : provider made ≡ provider new =
          save_and-provider (provider made) grown new (ground (arith, h, fine)) in
        let t : made ≡ new = ground (arith, same) in
        let kept : (oidc_provider_handler storage env marshal_config "POST" uuid (ok body)
              s).1.oidc_providers
            ≡ s.oidc_providers ++ made ∷ [] =
          ground (arith, fine, save_and_keeps (provider made) grown) in
        kept ∙ ap (λ (x : OidcProvider). s.oidc_providers ++ x ∷ []) t
  ]

  last_deleted :
      (new : OidcProvider) (ps : List OidcProvider) (s : Portal Certificate Disk)
      → s.oidc_providers ≡ ps ++ new ∷ []
      → (oidc_provider_element_handler storage env marshal_config "DELETE" new.id
          s).1.oidc_providers
        ≡ ps
  unfolding oidc_provider_element_handler
  last_deleted new ps s e =
      let gone : without_provider new.id s.oidc_providers ≡ some ps =
        ap (without_provider new.id) e ∙ fresh_last ps new in
      ground (arith, gone, save_and_keeps (deleted new.id) (record s { oidc_providers = ps }))

  -- A provider that was added, and is then deleted by its ID, leaves the providers as they were, in
  -- their order, also where another provider has the ID.
  pub oidc_provider_element_handler-oidc_provider_handler :
      (uuid : String) (body new : OidcProvider) (s : Portal Certificate Disk)
      → (oidc_provider_handler storage env marshal_config "POST" uuid (ok body) s).0 ≡ provider new
      → let s' = (oidc_provider_handler storage env marshal_config "POST" uuid (ok body) s).1 in
        (oidc_provider_element_handler storage env marshal_config "DELETE" new.id
          s').1.oidc_providers
        ≡ s.oidc_providers
  oidc_provider_element_handler-oidc_provider_handler uuid body new s h =
      last_deleted new s.oidc_providers
        (oidc_provider_handler storage env marshal_config "POST" uuid (ok body) s).1
        (provider_added uuid body new s h)
