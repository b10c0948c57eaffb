-- ===== src/Rest/Settings/SamlProviders.antt =====
-- rest/setup.go: samlSetupHandler and samlSetupElementHandler, and what gets into the list of the
-- SAML providers.
use go_devops_platform.Base.{
  String, List, [], ◌∷◌, ◌++◌, map, Option, none, some, Result, ok, err, if◌then◌else◌, ◌==◌,
}
use go_devops_platform.Base.Text.{◌+++◌}
use go_devops_platform.Storage.{Bytes, Iface}
use go_devops_platform.Users.Types.{Env}
use go_devops_platform.Saml.{Provider}
use go_devops_platform.Saml.Metadata.{Network, has_valid_metadata_url}
use go_devops_platform.Saml.ServiceProvider.{issuer_url, audience_url, acs_url}
use go_devops_platform.Rest.Settings.{
  Settings, Reply, refused, saml_providers, saml_provider, deleted, same_bool, save_and,
}

-- The list without the last provider of an ID, if there is one.
unfoldable pub without_saml_provider : String → List Provider → Option (List Provider)
without_saml_provider id [] = none
without_saml_provider id (p ∷ ps) = elim (without_saml_provider id ps) [
  | some rest ↦ some (p ∷ rest)
  | none ↦ if p.id == id then some ps else none
]

-- The list with the last provider of an ID changed, and that provider as it was.
unfoldable pub change_last :
    String → (Provider → Provider) → List Provider → Option (Provider × List Provider)
change_last id change [] = none
change_last id change (p ∷ ps) = elim (change_last id change ps) [
  | some (old, rest) ↦ some (old, p ∷ rest)
  | none ↦ if p.id == id then some (p, change p ∷ ps) else none
]

abbrev pub with_flag : Provider → Provider → Provider
with_flag body p = record p { allow_missing_attributes = body.allow_missing_attributes }

abbrev pub with_url : Provider → Provider → Provider
with_url body p = record p {
  allow_missing_attributes = body.allow_missing_attributes;
  metadata_url = body.metadata_url;
}

module _ {Certificate Disk : Type 0} where
  abbrev pub set_providers : List Provider → Settings Certificate Disk → Settings Certificate Disk
  set_providers ps s = record s { saml = record s.saml { providers = ps } }

  -- The provider with its addresses at this server.
  unfoldable pub with_addresses : Settings Certificate Disk → Provider → Provider
  with_addresses s p =
      let base : String = s.saml.protocol +++ "://" +++ s.saml.hostname +++ "/" in
      record p {
        issuer = base +++ issuer_url +++ "/" +++ p.id;
        audience = base +++ audience_url +++ "/" +++ p.id;
        acs = base +++ acs_url +++ "/" +++ p.id;
      }

module _ {Certificate Disk : Type 0} (storage : Iface Disk) (env : Env)
    (marshal_config : Settings Certificate Disk → Result Bytes) (net : Network) where
  -- samlSetupHandler; `uuid` is the ID of a new provider.
  unfoldable pub saml_setup_handler :
      (http_method uuid : String)
      → Result Provider
      → Settings Certificate Disk
      → Reply × Settings Certificate Disk
  unfolding with_addresses has_valid_metadata_url save_and
  saml_setup_handler http_method uuid body s =
      if http_method == "GET"
      then (saml_providers (map (with_addresses s) s.saml.providers), s)
      else if http_method == "POST"
      then elim body [
        | err e ↦ (refused 400 ("decode input error: " +++ e), s)
        | ok p ↦
            if p.name == ""
            then (refused 400 "name not set", s)
            else if p.metadata_url == ""
            then (refused 400 "metadata URL not set", s)
            else elim (has_valid_metadata_url net p.metadata_url).0 [
              | err e ↦ (refused 400 ("metadata error: " +++ e), s)
              | ok _ ↦
                  let new : Provider = record p { id = uuid } in
                  save_and storage env marshal_config "saveConfig error: " (saml_provider new)
                    (set_providers (s.saml.providers ++ new ∷ []) s)
            ]
      ]
      else (refused 400 "method not supported", s)

  -- The code of samlSetupElementHandler for PUT, where the provider is `old`; `flagged` has the new
  -- flag, and `moved` the new URL as well.
  unfoldable pub update_saml_provider :
      (body old : Provider)
      → (flagged moved : List Provider) → Settings Certificate Disk
      → Reply × Settings Certificate Disk
  unfolding has_valid_metadata_url save_and
  update_saml_provider body old flagged moved s =
      if old.metadata_url == body.metadata_url
      then if same_bool old.allow_missing_attributes body.allow_missing_attributes
        then (saml_provider body, s)
        else save_and storage env marshal_config "saveConfig error: " (saml_provider body)
            (set_providers flagged s)
      else elim (has_valid_metadata_url net body.metadata_url).0 [
        | err e ↦ (refused 400 ("metadata error: " +++ e), set_providers flagged s)
        | ok _ ↦
            save_and storage env marshal_config "saveConfig error: " (saml_provider body)
              (set_providers moved s)
      ]

  -- samlSetupElementHandler
  unfoldable pub saml_setup_element_handler :
      (http_method id : String)
      → Result Provider
      → Settings Certificate Disk
      → Reply × Settings Certificate Disk
  unfolding without_saml_provider change_last update_saml_provider save_and
  saml_setup_element_handler http_method id body s =
      if http_method == "DELETE"
      then elim (without_saml_provider id s.saml.providers) [
        | none ↦ (refused 400 "saml provider not found", s)
        | some rest ↦
            save_and storage env marshal_config "saveConfig error: " (deleted id)
              (set_providers rest s)
      ]
      else if http_method == "PUT"
      then elim body [
        | err e ↦ (refused 400 ("decode input error: " +++ e), s)
        | ok p ↦ elim (change_last id (with_flag p) s.saml.providers) [
          | none ↦ (refused 400 "cannot find saml provider", s)
          | some (old, flagged) ↦ elim (change_last id (with_url p) s.saml.providers) [
            | none ↦ (refused 400 "cannot find saml provider", s)
            | some (_, moved) ↦ update_saml_provider p old flagged moved s
          ]
        ]
      ]
      else (refused 400 "method not supported", s)
