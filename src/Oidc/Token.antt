-- ===== src/Oidc/Token.antt =====
-- auth/oidc/token.go, redirect.go and rand.go. A claim, and the `kid` of a token's header, is a
-- text or a value of another type. The packages jwt, jose, mail, crypto/rand and base64 are `Tokens`.
pub mod Verified
use go_devops_platform.Base.{
  ℕ, String, Bool, List, [], ◌∷◌, Option, none, some, Result, ok, err, Run, returns, panics, not,
  eqb, if◌then◌else◌, ◌==◌, find,
}
use go_devops_platform.Base.Map.{Map, lookup}
use go_devops_platform.Base.Text.{◌+++◌, replace_all}
use go_devops_platform.Storage.{Bytes}
use go_devops_platform.Oidc.Types.{Discovery, Jwks, JwksKey, OAuthData, Token, Http}

pub data Claim : Type 0 where
  text : String → Claim
  other : Claim

abbrev pub Claims : Type 0
Claims = Map Claim

-- What a key function reads of a token: the header `kid`, and whether the method is an RSA one.
pub record Header : Type 0 where
  pub kid : Option Claim
  pub is_rsa : Bool

-- `parse` is jwt.Parse with a key function, which it calls at most once, with the header
-- `header_of`; `marshal_key` and `import_key` take a key of the JWKS
-- to a key of jose.
pub record Tokens (PublicKey : Type 0) : Type 0 where
  pub header_of : String → Option Header
  pub parse : String → (Header → Result PublicKey) → Result (Header × Claims)
  pub marshal_key : JwksKey → Result Bytes
  pub import_key : Bytes → Result PublicKey
  pub is_address : String → Bool
  pub random_bytes : ℕ → Result Bytes
  pub encode_base64 : Bytes → String

-- `key.Kid == kid`, a comparison of a string with an interface value
abbrev pub has_kid : Claim → JwksKey → Bool
has_kid (text kid) key = key.kid == kid
has_kid other key = Bool.false

-- The first key with the ID, over all sets of keys in their order.
unfoldable pub find_key : Claim → List Jwks → Option JwksKey
find_key kid [] = none
find_key kid (jwks ∷ all) = elim (find (has_kid kid) jwks) [
  | some key ↦ some key
  | none ↦ find_key kid all
]

unfoldable pub retrieve_oauth2_data_using_state : Map OAuthData → String → Result OAuthData
retrieve_oauth2_data_using_state all state =
    if state == "" then err "no state found" else elim (lookup state all) [
      | none ↦ err "oauth data not found (is state missing?)"
      | some entry ↦ ok entry
    ]

-- The email of an ID token: the claim, or the preferred name if it is an address.
unfoldable pub email_of_claims : (String → Bool) → Claims → Run (Result String)
email_of_claims is_address claims = elim (lookup "email" claims) [
  | some (text email) ↦ returns (ok email)
  | some other ↦ panics "interface conversion"
  | none ↦ elim (lookup "preferred_username" claims) [
    | none ↦ returns (err "email missing from id token (not in email / preferred_username claim)")
    | some other ↦ panics "interface conversion"
    | some (text name) ↦
        if is_address name
        then returns (ok name)
        else returns
            (err "email missing from id token and preferred_username is not an email address")
  ]
]

-- The entry with its new fields: a subject or an issuer that is no text panics.
unfoldable pub named_entry : Claim → Claim → String → ℕ → Token → OAuthData → Run (Result OAuthData)
named_entry (text sub) (text iss) email now token entry = returns (
    ok (record entry {
      token = token;
      last_token_renewal = now;
      subject = sub;
      issuer = iss;
      email = email;
    }))
named_entry (text sub) other email now token entry = panics "interface conversion"
named_entry other issuer email now token entry = panics "interface conversion"

-- The entry with the token and the claims.
unfoldable pub with_claims :
    (String → Bool) → ℕ → Token → Claims → OAuthData → Run (Result OAuthData)
unfolding email_of_claims named_entry
with_claims is_address now token claims entry = elim (lookup "sub" claims) [
  | none ↦ returns (err "subject missing from id token")
  | some subject ↦ elim (email_of_claims is_address claims) [
    | panics m ↦ panics m
    | returns (err e) ↦ returns (err e)
    | returns (ok email) ↦ elim (lookup "iss" claims) [
      | none ↦ returns (err "issuer missing from id token")
      | some issuer ↦ named_entry subject issuer email now token entry
    ]
  ]
]

-- The exchange of a code for a token; `now` is the time of the answer.
unfoldable pub exchange_code :
    Http → Discovery → (client_id client_secret redirect_uri code : String) → Result Token
exchange_code http discovery client_id client_secret redirect_uri code =
    let payload : List (String × String) =
      ("grant_type", "authorization_code")
      ∷ ("code", code)
      ∷ ("client_id", client_id)
      ∷ ("client_secret", client_secret)
      ∷ ("redirect_uri", redirect_uri)
      ∷ [] in
    if discovery.token_endpoint == ""
    then err "token endpoint is empty"
    else elim (http.post_form discovery.token_endpoint payload) [
      | err e ↦ err ("tokenEndpoint PostForm error: " +++ e)
      | ok reply ↦
          if not (eqb reply.status 200)
          then err "tokenEndpoint return error"
          else elim (http.decode_token reply.body) [
            | err e ↦ err ("tokenEndpoint decode error: " +++ e)
            | ok token ↦ ok token
          ]
    ]

module _ {PublicKey : Type 0} (tokens : Tokens PublicKey) where
  -- GetPublicKeyForToken; the argument of the discovery documents is not read.
  unfoldable pub get_public_key_for_token : List Jwks → Header → Result PublicKey
  unfolding find_key
  get_public_key_for_token all header = elim header.kid [
    | none ↦ err "no kid found in token"
    | some kid ↦ elim (find_key kid all) [
      | none ↦ err "no matching kid found for token"
      | some key ↦ elim (tokens.marshal_key key) [
        | err e ↦ err ("internal server error: cannot marshal key from kid endpoint: " +++ e)
        | ok single ↦ elim (tokens.import_key single) [
          | err e ↦ err ("key from jwks import error: " +++ e)
          | ok public_key ↦ ok public_key
        ]
      ]
    ]
  ]

  unfoldable pub update_oauth2_data_with_token :
      Http
      → ℕ
      → Jwks
      → Discovery
      → (client_id client_secret redirect_uri code : String) → OAuthData
      → Run (Result OAuthData)
  unfolding exchange_code get_public_key_for_token with_claims
  update_oauth2_data_with_token http now jwks discovery client_id client_secret redirect_uri code
        entry =
      elim (exchange_code http discovery client_id client_secret redirect_uri code) [
        | err e ↦ returns (err e)
        | ok token ↦ elim (tokens.parse token.id_token (get_public_key_for_token (jwks ∷ []))) [
          | err e ↦ returns (err "couldn't verify id token")
          | ok (_, claims) ↦ with_claims tokens.is_address now token claims entry
        ]
      ]

  -- GetRandomString
  unfoldable pub random_state : ℕ → Result String
  random_state n = elim (tokens.random_bytes n) [
    | err e ↦ err ("crypto/rand Reader error: " +++ e)
    | ok b ↦ ok (tokens.encode_base64 b)
  ]

  -- The address at the provider, and the state.
  unfoldable pub get_redirect_uri :
      Discovery → (client_id scope callback : String) → Result (String × String)
  unfolding random_state replace_all
  get_redirect_uri discovery client_id scope callback = elim (random_state 64) [
    | err e ↦ err ("GetRandomString error: " +++ e)
    | ok state ↦ ok (
      discovery.authorization_endpoint
          +++ "?client_id="
          +++ client_id
          +++ "&state="
          +++ state
          +++ "&scope="
          +++ replace_all scope " " "%20"
          +++ "&response_type=code&redirect_uri="
          +++ callback,
      state,
    )
  ]
