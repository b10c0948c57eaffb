-- ===== src/Oidc/Types.antt =====
-- auth/oidc/types.go, and HTTP with JSON as far as the code uses them. Times are in nanoseconds.
use go_devops_platform.Base.{ℕ, String, Bool, List, [], Result}
use go_devops_platform.Base.Map.{Map}
use go_devops_platform.Storage.{Bytes}

pub record Discovery : Type 0 where
  pub issuer : String
  pub authorization_endpoint : String
  pub token_endpoint : String
  pub userinfo_endpoint : String
  pub jwks_uri : String
  pub scopes_supported : List String
  pub response_types_supported : List String
  pub token_endpoint_auth_methods_supported : List String
  pub id_token_signing_alg_values_supported : List String
  pub claims_supported : List String
  pub subject_types_supported : List String

-- Discovery{}
abbrev pub no_discovery : Discovery
no_discovery = record {
  issuer = "";
  authorization_endpoint = "";
  token_endpoint = "";
  userinfo_endpoint = "";
  jwks_uri = "";
  scopes_supported = [];
  response_types_supported = [];
  token_endpoint_auth_methods_supported = [];
  id_token_signing_alg_values_supported = [];
  claims_supported = [];
  subject_types_supported = [];
}

pub record OidcProvider : Type 0 where
  pub id : String
  pub name : String
  pub client_id : String
  pub client_secret : String
  pub scope : String
  pub discovery_uri : String
  pub redirect_uri : String
  pub login_url : String

pub record Token : Type 0 where
  pub access_token : String
  pub token_type : String
  pub refresh_token : String
  pub expires_in : ℕ
  pub id_token : String

-- Token{}
abbrev pub no_token : Token
no_token = record {
  access_token = "";
  token_type = "";
  refresh_token = "";
  expires_in = 0;
  id_token = "";
}

pub record JwksKey : Type 0 where
  pub n : String
  pub e : String
  pub alg : String
  pub used_for : String
  pub kid : String
  pub kty : String

-- `Jwks` is its list of keys.
abbrev pub Jwks : Type 0
Jwks = List JwksKey

pub record DiscoveryCache : Type 0 where
  pub expiration : ℕ
  pub discovery : Discovery

pub record JwksCache : Type 0 where
  pub expiration : ℕ
  pub jwks : Jwks

-- `email` is UserInfo.Email.
pub record OAuthData : Type 0 where
  pub id : String
  pub oidc_provider_id : String
  pub created_at : ℕ
  pub subject : String
  pub issuer : String
  pub email : String
  pub token : Token
  pub auth_failed : Bool
  pub suspended : Bool
  pub last_token_renewal : ℕ
  pub renewal_failed : Bool
  pub renewal_retries : ℕ

-- auth/oidc/store/types.go; the storage is passed to what writes it.
pub record Store : Type 0 where
  pub oauth2_data : Map OAuthData
  pub discovery_cache : Map DiscoveryCache
  pub jwks_cache : Map JwksCache

-- An HTTP response: its status code and its body, or the error of reading it.
pub record Reply : Type 0 where
  pub status : ℕ
  pub body : Result Bytes

-- An HTTP client at the time of a call, and encoding/json on the types above.
pub record Http : Type 0 where
  pub get : String → Result Reply
  pub post_form : String → List (String × String) → Result Reply
  pub decode_discovery : Result Bytes → Result Discovery
  pub decode_jwks : Result Bytes → Result Jwks
  pub decode_token : Result Bytes → Result Token
