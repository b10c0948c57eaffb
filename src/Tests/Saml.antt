-- ===== src/Tests/Saml.antt =====
-- SAML at concrete inputs.
use go_devops_platform.Base.{
  ℕ, ◌≤◌, ◌≡◌, ◌≢◌, inl, inr, refl, String, Bool, true, false, List, [], ◌∷◌, none, some, Result,
  ok, err, returns, panics, Done, All, length, if◌then◌else◌, eq_iff, arith, Result-cases,
}
use go_devops_platform.Base.Map.{lookup, insert}
use go_devops_platform.Storage.{Bytes}
use go_devops_platform.Storage.Memory.{
  memory, empty, config_path, file_exists, ensure_path, write_file, read_file,
}
use go_devops_platform.Storage.Memory.View.{IsValid}
use go_devops_platform.Saml.{
  Provider, AuthenticatedUser, get_authenticated_user, get_provider_by_id, lookup_session,
  create_session,
}
use go_devops_platform.Saml.Metadata.{
  Url, Response, EntityDescriptor, Network, get_metadata, max_redirects,
}
use go_devops_platform.Saml.Metadata.Fetched.{
  FollowsPolicy, ReadsBack, IsWebUrl, IsOutside, get_metadata_safe, length-get_metadata-le,
}
use go_devops_platform.Saml.ServiceProvider.{Saml, ServiceProvider, Libraries, ensure_sp_loaded}
use go_devops_platform.Saml.ServiceProvider.Loaded.{ensure_sp_loaded_panics}
use go_devops_platform.Saml.Handler.{AssertionInfo, AcsRequest, found, saml_handler}
use go_devops_platform.Saml.Sessions.{here, next, callback}
use go_devops_platform.Saml.Sessions.Runs.{HasAccepted, get_authenticated_user_accepted}
use go_devops_platform.Saml.Sessions.Opened.{IsSignIn, get_authenticated_user-saml_handler}
use go_devops_platform.Saml.KeyPair.{Source, TlsCertificate, get_key_pair, key_file, cert_file}
use go_devops_platform.Saml.KeyPair.Stable.{get_key_pair_stable}
use go_devops_platform.Storage.Memory.Stores.{memory-IsStorage, memory-IsSeparate}

abbrev url : String → Url
url hostname = record {
  scheme = "https";
  hostname = hostname;
  has_user = false;
  fragment = "";
  text = "https://idp";
}

abbrev response : Response
response = record { status = 200; body = record { content = []; failure = none } }

abbrev descriptor : EntityDescriptor
descriptor = record {
  entity_id = "idp";
  idp_descriptor = some (record {
    key_descriptors = ("cert" ∷ []) ∷ [];
    single_sign_on_locations = "https://idp/sso" ∷ [];
  });
}

-- The answer, or one redirection first.
abbrev sent : Url → Result Done → Result Response × List Url
sent u (err e) = (err e, u ∷ [])
sent u (ok done) = (ok response, u ∷ url "next" ∷ [])

-- A network with one identity provider; an argument says whether it can be parsed.
abbrev pub network : Bool → Network
network up = record {
  parse_url = λ s. if up then ok (url "idp") else err "down";
  to_lower = λ s. s;
  parse_ip = λ s. none;
  lookup_ip = λ s. ok ("10.0.0.1" ∷ []);
  new_request = λ s. ok (url "idp");
  send = λ check u. sent u (check (url "next") (u ∷ []));
  decode_metadata = λ b. ok descriptor;
}

network-FollowsPolicy : FollowsPolicy (network true)
network-FollowsPolicy check u = elim (Result-cases (check (url "next") (u ∷ []))) [
  | inl (done, e) ↦ (url "next" ∷ [], ground (arith, e), (e, tt))
  | inr (m, e) ↦ ([], ground (arith, e), tt)
]

network-ReadsBack : ReadsBack (network true) (url "idp")
network-ReadsBack v e = (ground (arith, e), ground (arith, e), ground (arith, e), ground (arith, e))

get_metadata_safe_example :
    All (λ v. IsWebUrl v × IsOutside (network true) v) (get_metadata (network true) (url "idp")).1
get_metadata_safe_example =
    get_metadata_safe (network true) (url "idp") network-FollowsPolicy network-ReadsBack

length-get_metadata-le_example : length (get_metadata (network true) (url "idp")).1 ≤ max_redirects
length-get_metadata-le_example =
    length-get_metadata-le (network true) (url "idp") network-FollowsPolicy

-- The redirection is followed.
get_metadata_test : length (get_metadata (network true) (url "idp")).1 ≡ 2
unfolding get_metadata
get_metadata_test = refl

abbrev pub libs : Bool → Libraries ℕ
libs up = record {
  network = network up;
  decode_base64 = λ s. ok [];
  parse_certificate = λ b. ok 0;
  build_auth_url = λ sp. ok sp.identity_provider_sso_url;
}

abbrev pub saml_provider : Bool → Provider
saml_provider flag = record {
  id = "p";
  name = "idp";
  metadata_url = "https://idp";
  issuer = "";
  audience = "";
  acs = "";
  allow_missing_attributes = flag;
}

abbrev pub saml : Saml ℕ
saml = record {
  providers = saml_provider false ∷ [];
  service_provider = [];
  sessions = [];
  hostname = "vpn";
  protocol = "https";
}

abbrev info : AssertionInfo
info = record {
  name_id = "ann";
  invalid_time = false;
  not_in_audience = false;
  session_not_on_or_after = some 9;
}

abbrev request : AcsRequest ℕ
request = record {
  provider_id = "p";
  parse_form = ok tt;
  method = "POST";
  saml_response = "assertion";
  retrieve_assertion_info = λ sp s. ok info;
  random_string = ok "code";
  uuid = "u";
}

abbrev session_user : AuthenticatedUser
session_user = record { id = "u"; login = "ann"; expires_at = 9 }

get_authenticated_user_accepted_example :
    (5 ≤ 9)
    × HasAccepted saml
        (saml_handler (libs true) request saml).1
        (next here (callback (libs true) request saml))
        (record { provider_id = "p"; session_id = "code" })
        session_user
unfolding saml_handler get_authenticated_user lookup_session create_session lookup insert
get_authenticated_user_accepted_example =
    get_authenticated_user_accepted {start = saml} {s = (saml_handler (libs true) request saml).1}
      (saml_provider false) "code" 5 session_user (λ id sp e. absurd (ground (arith, e))) refl
      (next here (callback (libs true) request saml)) refl

abbrev loaded : Saml ℕ
loaded = (ensure_sp_loaded (libs true) (saml_provider false) saml).1

abbrev sp : ServiceProvider ℕ
sp = record {
  identity_provider_sso_url = "https://idp/sso";
  identity_provider_issuer = "idp";
  service_provider_issuer = "https://vpn/saml/iss/p";
  assertion_consumer_service_url = "https://vpn/saml/acs/p";
  sign_authn_requests = true;
  audience_uri = "https://vpn/saml/aud/p";
  idp_certificates = 0 ∷ [];
  key_store_hostname = "vpn";
  allow_missing_attributes = false;
}

saml_provider_ready : IsSignIn (libs true) request saml (saml_provider false) sp info 9 "code"
unfolding ensure_sp_loaded get_provider_by_id lookup insert
saml_provider_ready = record {
  named = λ e. absurd (ground (arith, e, eq_iff "p" ""));
  known = refl;
  loaded = refl;
  parsed = refl;
  is_post = refl;
  has_response = λ e. absurd (ground (arith, e, eq_iff "assertion" ""));
  has_provider = refl;
  retrieved = refl;
  in_time = refl;
  in_audience = refl;
  has_end = refl;
  has_random = refl;
}

get_authenticated_user-saml_handler_example :
    ((saml_handler (libs true) request saml).0 ≡ returns (found ("/callback/saml/p?code=code")))
    × (get_authenticated_user
          (saml_provider false)
          "code"
          5
          (saml_handler (libs true) request saml).1.sessions
        ≡ ok session_user)
get_authenticated_user-saml_handler_example =
    get_authenticated_user-saml_handler (libs true) request saml (saml_provider false) sp info 9
      "code" saml_provider_ready 5

-- The flag was changed, and the metadata cannot be fetched.
ensure_sp_loaded_panics_example :
    (ensure_sp_loaded
      (libs true)
      (saml_provider true)
      (ensure_sp_loaded (libs false) (saml_provider true) loaded).1).0
    ≡ panics "nil pointer dereference"
unfolding ensure_sp_loaded lookup insert
ensure_sp_loaded_panics_example =
    ensure_sp_loaded_panics (libs false) (libs true) (saml_provider true) loaded sp
      "could not reload saml provider: can't parse metadata url: down" refl refl refl

abbrev source : ℕ → Source ℕ
source n = record {
  generate_key = ok n;
  encode_key = λ k. ok (k ∷ []);
  serial_number = ok 1;
  create_certificate = λ hostname serial k. ok (k ∷ []);
  encode_certificate = λ der. ok der;
}

abbrev x509 : Bytes → Bytes → Result (TlsCertificate ℕ)
x509 cert key = ok (record { private_key = some 7; certificate = cert ∷ [] })

pub empty-IsValid : IsValid empty
unfolding lookup
empty-IsValid = record {
  in_range = λ k p e. absurd (ground (arith, e));
  unshared = λ j k p e f. absurd (ground (arith, e));
}

-- The pair that was made is read back.
get_key_pair_made : (get_key_pair memory x509 (source 7) "vpn" empty).0 ≡ returns (ok (7, 7 ∷ []))
unfolding get_key_pair config_path file_exists lookup insert ensure_path write_file read_file
get_key_pair_made = refl

files_differ : key_file memory ≢ cert_file memory
unfolding config_path
files_differ e = absurd (cc ((eq_iff (key_file memory) (cert_file memory)).1 e))

get_key_pair_stable_example :
    let d' = (get_key_pair memory x509 (source 7) "vpn" empty).1 in
    get_key_pair memory x509 (source 8) "other" d' ≡ (returns (ok (7, 7 ∷ [])), d')
unfolding get_key_pair config_path file_exists lookup insert ensure_path write_file read_file
get_key_pair_stable_example =
    get_key_pair_stable memory IsValid memory-IsStorage memory-IsSeparate files_differ x509
      (source 7) (source 8) "vpn" "other" empty (7, 7 ∷ []) empty-IsValid refl
