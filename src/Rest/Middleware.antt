-- ===== src/Rest/Middleware.antt =====
-- rest/middleware.go, GetUserFromRequest of rest/users.go, getKidFromToken and
-- returnIndexOrNotFound of rest/helpers.go, and the chains of rest/router.go. The log is left out.
pub mod Chain
pub mod Guarded
pub mod Admin
use go_devops_platform.Base.{
  ℕ, String, Bool, true, false, List, [], ◌∷◌, Option, none, some, Result, ok, err, Run, returns,
  panics, not, ◌&&◌, if◌then◌else◌, ◌==◌,
}
use go_devops_platform.Base.Int.{ℤ}
use go_devops_platform.Base.Map.{lookup, insert}
use go_devops_platform.Base.Text.{◌+++◌, has_prefix, replace_all, split}
use go_devops_platform.Storage.{Bytes, Iface}
use go_devops_platform.Users.Types.{User, World, Env}
use go_devops_platform.Users.Model.{get_user_by_login, get_user_by_oidc_ids}
use go_devops_platform.Oidc.Types.{OidcProvider, Discovery, Jwks, OAuthData, Store, Http}
use go_devops_platform.Oidc.Store.{get_discovery_uri, get_all_jwks}
use go_devops_platform.Oidc.Token.{
  Claim, text, other, Claims, Header, Tokens, get_public_key_for_token,
}

-- The part of `Context` that the middleware reads; the caches of the OIDC store change.
pub record Gate (PublicKey Disk : Type 0) : Type 0 where
  pub setup_completed : Bool
  pub jwt_keys_kid : String
  pub public_key : PublicKey
  pub oidc_providers : List OidcProvider
  pub oidc_store : Store
  pub world : World Disk
  pub hostname : String
  pub protocol : String
  pub redirect_to_https : Bool
  pub enable_scim : Bool
  pub license_user_count : ℤ

-- A request, with the values of its context.
pub record Request : Type 0 where
  pub http_method : String
  pub path : String
  pub host : String
  pub request_uri : String
  pub is_tls : Bool
  pub authorization : String
  pub request_headers : String
  pub claims : Option Claims
  pub user : Option User
  pub license_user_count : Option ℤ

-- What comes from outside while a request passes: the libraries, the times, and the order in which
-- Go ranges over the entries of the OIDC store.
pub record Passage (PublicKey : Type 0) : Type 0 where
  pub tokens : Tokens PublicKey
  pub http : Http
  pub now : ℕ
  pub later : ℕ
  pub order : List String
  pub decode_base64 : String → Result Bytes
  pub decode_kid : Bytes → Result String

-- What the middleware or the router answers; `served` is the answer of a handler.
pub data Answer (A : Type 0) : Type 0 where
  denied : ℕ → String → Answer A
  moved : (location : String) → Answer A
  no_content : (allow_origin allow_headers : String) → Answer A
  served : A → Answer A

abbrev pub Handler : Type 0 → Type 0 → Type 0 → Type 0
Handler PublicKey Disk A = Request → Gate PublicKey Disk → Run (Answer A) × Gate PublicKey Disk

-- getKidFromToken, where an error reads as no text
unfoldable pub get_kid_from_token :
    (String → Result Bytes) → (Bytes → Result String) → String → String
unfolding split
get_kid_from_token decode_base64 decode_kid token = elim (split b'.' token) [
  | [] ↦ ""
  | header ∷ _ ↦ elim (decode_base64 header) [
    | err e ↦ ""
    | ok bytes ↦ elim (decode_kid bytes) [ err e ↦ "" | ok kid ↦ kid ]
  ]
]

-- The ID token of the last entry with the access token, or the text that was there before.
unfoldable pub id_token_of : String → List String → Store → String → String
id_token_of access_token [] store before = before
id_token_of access_token (key ∷ order) store before =
    let entry = lookup key store.oauth2_data in
    let after : String = elim entry [
      | none ↦ before
      | some e ↦ if e.token.access_token == access_token then e.token.id_token else before
    ] in
    id_token_of access_token order store after

-- Whether a claim is this text.
abbrev pub is_text : Claim → String → Bool
is_text (text s) t = s == t
is_text other t = false

-- The claims with the header's key ID.
abbrev pub with_kid : Header → Claims → Claims
with_kid header claims = elim header.kid [
  | none ↦ insert "kid" other claims
  | some kid ↦ insert "kid" kid claims
]

module _ {PublicKey : Type 0} (from : Passage PublicKey) where
  -- The discovery documents of all providers.
  unfoldable pub discover_all : List OidcProvider → Store → Result (List Discovery) × Store
  unfolding get_discovery_uri
  discover_all [] store = (ok [], store)
  discover_all (p ∷ ps) store =
      let (r, store') = get_discovery_uri from.http from.now from.later p.discovery_uri store in
      elim r [
        | err e ↦ (err ("couldn't retrieve discoveryURI from OIDC Provider: " +++ e), store')
        | ok discovery ↦
            let (rest, store'') = discover_all ps store' in
            elim rest [ err e ↦ (err e, store'') | ok ds ↦ (ok (discovery ∷ ds), store'') ]
      ]

module _ {PublicKey Disk : Type 0} (from : Passage PublicKey) where
  -- The key function, with what it does to the store.
  unfoldable pub key_function : Header → Gate PublicKey Disk → Result PublicKey × Store
  unfolding discover_all get_all_jwks get_public_key_for_token
  key_function header s = elim header.kid [
    | none ↦ (err "no kid header found in token", s.oidc_store)
    | some kid ↦
        if is_text kid s.jwt_keys_kid
        then (
          if header.is_rsa then ok s.public_key else err "local kid: unexpected signing method",
          s.oidc_store,
        )
        else (let (found, store1) = discover_all from s.oidc_providers s.oidc_store in
            elim found [
              | err e ↦ (err e, store1)
              | ok discoveries ↦
                  let (keys, store2) =
                    get_all_jwks from.http from.now from.later discoveries store1 in
                  elim keys [
                    | err e ↦
                        (err ("couldn't retrieve JWKS URL from OIDC Provider: " +++ e), store2)
                    | ok all ↦ (get_public_key_for_token from.tokens all header, store2)
                  ]
            ])
  ]

  -- The token to parse: a local token itself, or the ID token of an access token.
  unfoldable pub token_to_parse : String → Gate PublicKey Disk → Option String
  unfolding get_kid_from_token id_token_of
  token_to_parse token s =
      if get_kid_from_token from.decode_base64 from.decode_kid token == s.jwt_keys_kid
      then some token
      else (let found = id_token_of token from.order s.oidc_store "" in
          if found == "" then none else some found)

  -- The code of authMiddleware up to the next handler: an error, or the claims of the request.
  unfoldable pub authenticate_request :
      Request → Gate PublicKey Disk → Result Claims × Gate PublicKey Disk
  unfolding token_to_parse key_function has_prefix replace_all
  authenticate_request request s =
      if not s.setup_completed
      then (err "setup not completed", s)
      else if not (has_prefix request.authorization "Bearer ")
      then (err "token not found", s)
      else (let token = replace_all request.authorization "Bearer " "" in
          if token == "" then (err "empty token", s) else elim (token_to_parse token s) [
            | none ↦ (err "token error: access token not found (wrong token or token expired)", s)
            | some t ↦
                let store : Store = elim (from.tokens.header_of t) [
                  | none ↦ s.oidc_store
                  | some header ↦ (key_function header s).1
                ] in
                let claims : Result Claims =
                  elim (from.tokens.parse t (λ header. (key_function header s).0)) [
                    | err e ↦ err ("token error: " +++ e)
                    | ok (header, claims) ↦ ok (with_kid header claims)
                  ] in
                (claims, record s { oidc_store = store })
          ])
