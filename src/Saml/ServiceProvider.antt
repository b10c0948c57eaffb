-- ===== src/Saml/ServiceProvider.antt =====
-- auth/saml/middleware.go and new.go: the service providers, which are loaded on first use. A
-- library's service provider is a record of what the code sets; an entry may be a nil pointer.
pub mod Loaded
use go_devops_platform.Base.{
  ℕ, String, Bool, true, false, List, [], ◌∷◌, ◌++◌, Option, none, some, Result, ok, err, Run,
  returns, panics, Done, not, ◌&&◌, ◌||◌, if◌then◌else◌, ◌==◌,
}
use go_devops_platform.Base.Map.{Map, lookup, insert}
use go_devops_platform.Base.Text.{◌+++◌}
use go_devops_platform.Storage.{Bytes}
use go_devops_platform.Saml.{Provider, Sessions}
use go_devops_platform.Saml.Metadata.{Network, EntityDescriptor, Url, get_metadata}

abbrev pub issuer_url : String
issuer_url = "saml/iss"

abbrev pub audience_url : String
audience_url = "saml/aud"

abbrev pub acs_url : String
acs_url = "saml/acs"

-- `Certificate` is *x509.Certificate; the key store holds the hostname of the pair.
pub record ServiceProvider (Certificate : Type 0) : Type 0 where
  pub identity_provider_sso_url : String
  pub identity_provider_issuer : String
  pub service_provider_issuer : String
  pub assertion_consumer_service_url : String
  pub sign_authn_requests : Bool
  pub audience_uri : String
  pub idp_certificates : List Certificate
  pub key_store_hostname : String
  pub allow_missing_attributes : Bool

-- `saml`; the storage is passed to what uses it.
pub record Saml (Certificate : Type 0) : Type 0 where
  pub providers : List Provider
  pub service_provider : Map (Option (ServiceProvider Certificate))
  pub sessions : Sessions
  pub hostname : String
  pub protocol : String

-- The libraries at the time of a call: HTTP, base64, x509, and the signing of a request.
pub record Libraries (Certificate : Type 0) : Type 0 where
  pub network : Network
  pub decode_base64 : String → Result Bytes
  pub parse_certificate : Bytes → Result Certificate
  pub build_auth_url : ServiceProvider Certificate → Result String

module _ {Certificate : Type 0} where
  abbrev pub own_url : Saml Certificate → String → String → String
  own_url s path id = s.protocol +++ "://" +++ s.hostname +++ "/" +++ path +++ "/" +++ id

  abbrev pub set_service_provider :
      String → Option (ServiceProvider Certificate) → Saml Certificate → Saml Certificate
  set_service_provider id sp s = record s { service_provider = insert id sp s.service_provider }

module _ {Certificate : Type 0} (libs : Libraries Certificate) where
  -- The certificates of one key descriptor.
  unfoldable pub certs_of_descriptor : List String → Result (List Certificate)
  certs_of_descriptor [] = ok []
  certs_of_descriptor (xcert ∷ rest) =
      let others = certs_of_descriptor rest in
      if xcert == ""
      then err "metadata certificate must not be empty"
      else elim (libs.decode_base64 xcert) [
        | err e ↦ err ("decode error:" +++ e)
        | ok bytes ↦ elim (libs.parse_certificate bytes) [
          | err e ↦ err ("cert parse error: " +++ e)
          | ok cert ↦ elim others [ err e ↦ err e | ok certs ↦ ok (cert ∷ certs) ]
        ]
      ]

  -- getSAMLCertsFromMetadata
  unfoldable pub get_saml_certs_from_metadata : List (List String) → Result (List Certificate)
  unfolding certs_of_descriptor
  get_saml_certs_from_metadata [] = ok []
  get_saml_certs_from_metadata (kd ∷ kds) = elim (certs_of_descriptor kd) [
    | err e ↦ err e
    | ok certs ↦ elim (get_saml_certs_from_metadata kds) [
      | err e ↦ err e
      | ok others ↦ ok (certs ++ others)
    ]
  ]

  -- The service provider that loadSP makes of the metadata.
  unfoldable pub service_provider_of :
      Saml Certificate → Provider → EntityDescriptor → Result (ServiceProvider Certificate)
  unfolding get_saml_certs_from_metadata
  service_provider_of s provider metadata = elim metadata.idp_descriptor [
    | none ↦ err "keyDescriptors are empty"
    | some idp ↦ elim idp.key_descriptors [
      | [] ↦ err "keyDescriptors are empty"
      | kd ∷ kds ↦ elim idp.single_sign_on_locations [
        | [] ↦ err "SingleSignOnServices not found"
        | location ∷ _ ↦ elim (get_saml_certs_from_metadata (kd ∷ kds)) [
          | err e ↦ err ("can't parse certs from metadata: " +++ e)
          | ok certs ↦ ok (record {
            identity_provider_sso_url = location;
            identity_provider_issuer = metadata.entity_id;
            service_provider_issuer = own_url s issuer_url provider.id;
            assertion_consumer_service_url = own_url s acs_url provider.id;
            sign_authn_requests = true;
            audience_uri = own_url s audience_url provider.id;
            idp_certificates = certs;
            key_store_hostname = s.hostname;
            allow_missing_attributes = provider.allow_missing_attributes;
          })
        ]
      ]
    ]
  ]

  unfoldable pub load_sp : Provider → Saml Certificate → Result Done × Saml Certificate
  unfolding get_metadata service_provider_of
  load_sp provider s = elim (libs.network.parse_url provider.metadata_url) [
    | err e ↦ (err ("can't parse metadata url: " +++ e), s)
    | ok url ↦ elim (get_metadata libs.network url).0 [
      | err e ↦ (err ("can't decode saml cert data: " +++ e), s)
      | ok metadata ↦ elim (service_provider_of s provider metadata) [
        | err e ↦ (err e, s)
        | ok sp ↦ (ok tt, set_service_provider provider.id (some sp) s)
      ]
    ]
  ]

  -- A load, with the error that ensureSPLoaded makes of its error.
  abbrev pub load_or : String → Provider → Saml Certificate → Run (Result Done) × Saml Certificate
  load_or what provider s =
      let (r, s') = load_sp provider s in
      elim r [ err e ↦ (returns (err (what +++ e)), s') | ok _ ↦ (returns (ok tt), s') ]

  -- The entry of the map is dereferenced before it is tested for nil.
  unfoldable pub ensure_sp_loaded :
      Provider → Saml Certificate → Run (Result Done) × Saml Certificate
  unfolding load_sp
  ensure_sp_loaded provider s = elim (lookup provider.id s.service_provider) [
    | none ↦ load_or "could not load saml provider: " provider s
    | some none ↦ (panics "nil pointer dereference", s)
    | some (some sp) ↦
        elim (provider.allow_missing_attributes && sp.allow_missing_attributes
          || not provider.allow_missing_attributes && not sp.allow_missing_attributes) [
            | true ↦ (returns (ok tt), s)
            | false ↦
                load_or "could not reload saml provider: " provider
                  (set_service_provider provider.id none s)
          ]
  ]

  -- GetAuthURL
  unfoldable pub get_auth_url : Provider → Saml Certificate → Run (Result String) × Saml Certificate
  unfolding ensure_sp_loaded
  get_auth_url provider s =
      let (r, s') = ensure_sp_loaded provider s in
      let answer : Run (Result String) = elim r [
        | panics m ↦ panics m
        | returns (err e) ↦ returns (err ("saml error: invalid saml configuration: " +++ e))
        | returns (ok _) ↦ elim (lookup provider.id s'.service_provider) [
          | none ↦ returns (err "provider not found")
          | some none ↦ panics "nil pointer dereference"
          | some (some sp) ↦ returns (libs.build_auth_url sp)
        ]
      ] in
      (answer, s')

  -- New: every provider is loaded once, errors or not.
  unfoldable pub load_all : List Provider → Saml Certificate → Saml Certificate
  unfolding load_sp
  load_all [] s = s
  load_all (p ∷ ps) s = load_all ps (load_sp p s).1

  unfoldable pub new_saml : List Provider → String → String → Saml Certificate
  unfolding load_all
  new_saml providers protocol hostname = load_all providers (record {
    providers = providers;
    service_provider = [];
    sessions = [];
    hostname = hostname;
    protocol = protocol;
  })
