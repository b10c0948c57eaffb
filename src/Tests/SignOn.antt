-- ===== src/Tests/SignOn.antt =====
-- Single sign-on through the server at concrete inputs.
use go_devops_platform.Base.{
  ℕ, ◌≡◌, ◌≤◌, none, ◌⊎◌, inl, inr, refl, String, Bool, true, false, [], ◌∷◌, some, Result, ok, err,
  find, find_last, ◌&&◌, not, ◌==◌, arith, Result-cases, ap, sym, ◌∙◌,
}
use go_devops_platform.Base.Int.{pos}
use go_devops_platform.Base.Map.{lookup, insert}
use go_devops_platform.Base.Text.{◌+++◌}
use go_devops_platform.Storage.{Bytes}
use go_devops_platform.Storage.Memory.{memory, MemoryStorage, config_path, write_file}
use go_devops_platform.Users.Types.{User, has_login}
use go_devops_platform.Users.Save.{saved}
use go_devops_platform.Scim.{UserHooks}
use go_devops_platform.Login.Authenticate.{LoginResponse, no_response}
use go_devops_platform.Oidc.Types.{
  Discovery, no_discovery, OidcProvider, OAuthData, Token, no_token, JwksKey, Store, Http,
}
use go_devops_platform.Oidc.Store.{empty_store, get_discovery_uri, fetch_discovery, save_oidc_store}
use go_devops_platform.Oidc.Token.{
  text, Claims, Header, Tokens, exchange_code, retrieve_oauth2_data_using_state,
  update_oauth2_data_with_token, random_state,
}
use go_devops_platform.Oidc.Token.Verified.{
  ParsesSigned, ParsesHeader, IsKeyOf, IsUpdate, update_oauth2_data_with_token_sound,
}
use go_devops_platform.Saml.{Provider, AuthenticatedUser, lookup_session}
use go_devops_platform.Rest.SignOn.{
  Portal, Outside, Callback, MethodProvider, method, saml_callback,
}
use go_devops_platform.Rest.SignOn.SamlGranted.{IsSameUser, saml_callback_granted}
use go_devops_platform.Rest.SignOn.Oidc.{oidc_callback}
use go_devops_platform.Rest.SignOn.Granted.{IsKnown, IsNew, oidc_callback_granted}
use go_devops_platform.Rest.SignOn.Methods.{new_entry, oidc_address}
use go_devops_platform.Rest.SignOn.Addresses.{address_of, retrieve-oidc_address}
use go_devops_platform.Tests.Data.{ann, bob, env, world}
use go_devops_platform.Tests.Saml.{libs, saml, saml_provider}

abbrev pub key : JwksKey
key = record { n = "n"; e = "e"; alg = "RS256"; used_for = "sig"; kid = "k"; kty = "RSA" }

abbrev pub discovery : Discovery
discovery = record no_discovery {
  authorization_endpoint = "https://idp/auth";
  token_endpoint = "https://idp/token";
  jwks_uri = "https://idp/jwks";
}

abbrev token : Token
token = record no_token { access_token = "access"; id_token = "id" }

-- The provider answers every request.
abbrev pub http : Http
http = record {
  get = λ uri. ok (record { status = 200; body = ok [] });
  post_form = λ uri form. ok (record { status = 200; body = ok [] });
  decode_discovery = λ b. ok discovery;
  decode_jwks = λ b. ok (key ∷ []);
  decode_token = λ b. ok token;
}

abbrev pub claims : Claims
claims = ("sub", text "bob") ∷ ("iss", text "https://idp") ∷ ("email", text "bob") ∷ []

abbrev pub header : Header
header = record { kid = some (text "k"); is_rsa = true }

abbrev verified : Result ℕ → Result (Header × Claims)
verified (ok public_key) = ok (header, claims)
verified (err e) = err e

-- Every token has the same header and claims; `1` is the only public key.
abbrev pub tokens : Tokens ℕ
tokens = record {
  header_of = λ t. some header;
  parse = λ t keys. verified (keys header);
  marshal_key = λ k. ok [];
  import_key = λ b. ok 1;
  is_address = λ s. true;
  random_bytes = λ n. ok [];
  encode_base64 = λ b. "state";
}

-- What the tests know of signatures: the claims are those of the token.
abbrev pub Signed : ℕ → String → Claims → Type 0
Signed k t c = c ≡ claims

pub tokens-ParsesSigned : ParsesSigned tokens Signed
tokens-ParsesSigned t keys h c e = elim (Result-cases (keys header)) [
  | inr (m, f) ↦ absurd (ground (arith, e, f))
  | inl (k, f) ↦
      let p : header ≡ h = ground (arith, e, f) in
      let q : claims ≡ c = ground (arith, e, f) in (k, ap keys (sym p) ∙ f, sym q)
]

tokens-ParsesHeader : ParsesHeader tokens
tokens-ParsesHeader t keys h c e = elim (Result-cases (keys header)) [
  | inr (m, f) ↦ absurd (ground (arith, e, f))
  | inl (k, f) ↦ ground (arith, e, f)
]

abbrev entry : OAuthData
entry = new_entry "e" "q" 1

abbrev updated : OAuthData
updated = record entry {
  token = token;
  last_token_renewal = 6;
  subject = "bob";
  issuer = "https://idp";
  email = "bob";
}

update_oauth2_data_with_token_sound_example :
    (h : Header) × (public_key : ℕ) × (c : Claims) × (exchange_code http discovery "c" "s" "uri"
        "code"
      ≡ ok token)
    × (tokens.header_of "id" ≡ some h)
    × IsKeyOf tokens (key ∷ []) h public_key
    × Signed public_key "id" c
    × IsUpdate tokens.is_address 6 token c entry updated
unfolding update_oauth2_data_with_token lookup
update_oauth2_data_with_token_sound_example =
    update_oauth2_data_with_token_sound tokens Signed tokens-ParsesSigned tokens-ParsesHeader http 6
      (key ∷ []) discovery "c" "s" "uri" "code" entry updated refl

abbrev hooks : UserHooks MemoryStorage
hooks = record {
  disable_func = λ u d. (ok tt, d);
  reactivate_func = λ u d. (ok tt, d);
  delete_func = λ u d. (ok tt, d);
}

abbrev outside : Outside ℕ ℕ
outside = record {
  libs = libs true;
  tokens = tokens;
  http = http;
  now = 5;
  later = 6;
  seconds = 1;
  uuid = "new";
  sign = λ login role until. ok "jwt";
}

abbrev provider : OidcProvider
provider = record {
  id = "q";
  name = "idp";
  client_id = "c";
  client_secret = "s";
  scope = "openid";
  discovery_uri = "https://idp";
  redirect_uri = "/callback/oidc/q";
  login_url = "";
}

-- Bob is suspended, and has a session of SAML.
abbrev portal : Portal ℕ MemoryStorage
portal = record {
  world = world (ann ∷ bob ∷ []);
  oidc_providers = provider ∷ [];
  oidc_store = record empty_store { oauth2_data = ("state", record entry { token = token }) ∷ [] };
  saml = record saml {
    sessions =
        (
          record { provider_id = "p"; session_id = "code" },
          record { id = "u"; login = "bob"; expires_at = 9 },
        )
        ∷ [];
  };
  local_auth_disabled = false;
  license_user_count = pos 1;
}

abbrev sent : Callback
sent = record { code = "code"; state = "state"; redirect_uri = "/callback/oidc/q" }

abbrev bob_response : LoginResponse
bob_response = record no_response { authenticated = true; suspended = true; token = "jwt" }

saml_callback_granted_example :
    (p : Provider) × (session : AuthenticatedUser) × (user : User) × (find_last
        (λ (q : Provider). q.id == "p")
        (saml_provider false ∷ [])
      ≡ some p)
    × (lookup_session (record { provider_id = p.id; session_id = "code" }) portal.saml.sessions
        ≡ some session)
    × (5 ≤ session.expires_at)
    × (outside.sign user.login user.role session.expires_at ≡ ok "jwt")
    × (user.login ≡ session.login)
    × (◌≡◌ {A = Bool} true true)
    × (true ≡ user.suspended)
    × ((stored : User)
        → find (has_login session.login) (ann ∷ bob ∷ []) ≡ some stored
        → IsSameUser memory env hooks user stored)
    × (find (has_login session.login) (ann ∷ bob ∷ []) ≡ none
        → (user.role ≡ "user") × (user.suspended ≡ false))
unfolding saml_callback lookup_session saved
saml_callback_granted_example =
    saml_callback_granted memory env hooks outside "p" sent portal bob_response refl

abbrev known_response : LoginResponse
known_response = record no_response { authenticated = true; token = "access" }

abbrev marshal_store : Store → Result Bytes
marshal_store s = ok []

abbrev marshal_config : Portal ℕ MemoryStorage → Result Bytes
marshal_config s = ok []

oidc_callback_granted_example :
    (p : OidcProvider) × (e : OAuthData) × (find
        (λ (q : OidcProvider). q.id == "q" && not (sent.code == ""))
        (provider ∷ [])
      ≡ some p)
    × (retrieve_oauth2_data_using_state portal.oidc_store.oauth2_data "state" ≡ ok e)
    × (IsKnown memory env hooks outside marshal_config marshal_store portal e known_response
        ⊎ IsNew memory env hooks outside marshal_config marshal_store sent p portal e
            known_response)
unfolding oidc_callback lookup
oidc_callback_granted_example =
    oidc_callback_granted memory env hooks outside marshal_config marshal_store "q" sent portal
      known_response refl refl

abbrev fresh : Portal ℕ MemoryStorage
fresh = record portal { oidc_store = empty_store }

abbrev address : MethodProvider
address = record {
  id = "q";
  name = "idp";
  redirect_uri =
      "https://idp/auth?client_id=c&state=state&scope=openid&response_type=code&redirect_uri=https://vpn/callback/oidc/q";
}

retrieve-oidc_address_example :
    ((p : OidcProvider) × (d : Discovery) × (find
          (λ (q : OidcProvider). q.id == "q")
          (provider ∷ [])
        ≡ some p)
      × ((get_discovery_uri http 5 6 p.discovery_uri empty_store).0 ≡ ok d)
      × (address.redirect_uri
          ≡ address_of d p.client_id p.scope
              ("https" +++ "://" +++ "vpn" +++ p.redirect_uri)
              "state"))
    × (◌≡◌ {A = String} "q" "q")
    × (retrieve_oauth2_data_using_state
          (oidc_address memory outside marshal_store method "q" fresh).1.oidc_store.oauth2_data
          "state"
        ≡ ok (new_entry "new" "q" 5))
unfolding oidc_address random_state config_path write_file lookup insert fetch_discovery
    save_oidc_store
retrieve-oidc_address_example =
    retrieve-oidc_address memory outside marshal_store "q" fresh address "state" refl
      (λ e. absurd (cc e)) refl
