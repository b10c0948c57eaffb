-- ===== src/Oidc/Token/Verified.antt =====
-- What auth/oidc/token.go takes over from an ID token.
use go_devops_platform.Base.{
  ℕ, ◌≡◌, ◌⊎◌, inl, inr, refl, ap, ◌∙◌, String, Bool, true, [], ◌∷◌, none, some, Result, ok, err,
  returns, ◌==◌, arith, find, Option-cases, Result-cases, Run-cases,
}
use go_devops_platform.Base.Map.{lookup}
use go_devops_platform.Storage.{Bytes}
use go_devops_platform.Oidc.Types.{Discovery, Jwks, JwksKey, OAuthData, Token, Http}
use go_devops_platform.Oidc.Token.{
  Claim, text, other, Claims, Header, Tokens, has_kid, find_key, email_of_claims, named_entry,
  with_claims, get_public_key_for_token, exchange_code, update_oauth2_data_with_token,
}

-- A token that parses is signed by the key that the key function gave for its header.
abbrev pub ParsesSigned :
    {PublicKey : Type 0} → Tokens PublicKey → (PublicKey → String → Claims → Type 0) → Type 0
ParsesSigned {PublicKey} tokens Signed =
    (token : String) (keys : Header → Result PublicKey) (header : Header) (claims : Claims)
    → tokens.parse token keys ≡ ok (header, claims)
    → (key : PublicKey) × (keys header ≡ ok key) × Signed key token claims

-- The header with which a token parses is its own.
abbrev pub ParsesHeader : {PublicKey : Type 0} → Tokens PublicKey → Type 0
ParsesHeader {PublicKey} tokens =
    (token : String) (keys : Header → Result PublicKey) (header : Header) (claims : Claims)
    → tokens.parse token keys ≡ ok (header, claims)
    → tokens.header_of token ≡ some header

-- The email claim, or else the preferred name, which is an address.
abbrev pub IsEmailOf : (String → Bool) → Claims → String → Type 0
IsEmailOf is_address claims email =
    (lookup "email" claims ≡ some (text email))
    ⊎ ((lookup "email" claims ≡ none)
        × (lookup "preferred_username" claims ≡ some (text email))
        × (is_address email ≡ true))

email_of_claims_sound :
    (is_address : String → Bool) (claims : Claims) (email : String)
    → email_of_claims is_address claims ≡ returns (ok email)
    → IsEmailOf is_address claims email
unfolding email_of_claims
email_of_claims_sound is_address claims email h = elim (Option-cases (lookup "email" claims)) [
  | inr (text e, f) ↦ inl (ground arith)
  | inr (other, f) ↦ absurd (ground arith)
  | inl missing ↦ elim (Option-cases (lookup "preferred_username" claims)) [
    | inl nameless ↦ absurd (ground arith)
    | inr (other, f) ↦ absurd (ground arith)
    | inr (text name, f) ↦ inr (missing, ground arith, ground arith)
  ]
]

-- What an entry takes over.
abbrev pub IsUpdate : (String → Bool) → ℕ → Token → Claims → OAuthData → OAuthData → Type 0
IsUpdate is_address now token claims entry new =
    (lookup "sub" claims ≡ some (text new.subject))
    × (lookup "iss" claims ≡ some (text new.issuer))
    × IsEmailOf is_address claims new.email
    × (new ≡ record entry {
      token = token;
      last_token_renewal = now;
      subject = new.subject;
      issuer = new.issuer;
      email = new.email;
    })

named_entry_sound :
    (subject issuer : Claim) (email : String) (now : ℕ) (token : Token) (entry new : OAuthData)
    → named_entry subject issuer email now token entry ≡ returns (ok new)
    → (subject ≡ text new.subject)
      × (issuer ≡ text new.issuer)
      × (email ≡ new.email)
      × (new ≡ record entry {
        token = token;
        last_token_renewal = now;
        subject = new.subject;
        issuer = new.issuer;
        email = new.email;
      })
unfolding named_entry
named_entry_sound (text sub) (text iss) email now token entry new h =
    (ground arith, ground arith, ground arith, ground arith)
named_entry_sound (text sub) other email now token entry new h = absurd (cc h)
named_entry_sound other issuer email now token entry new h = absurd (cc h)

with_claims_sound :
    (is_address : String → Bool) (now : ℕ) (token : Token) (claims : Claims) (entry new : OAuthData)
    → with_claims is_address now token claims entry ≡ returns (ok new)
    → IsUpdate is_address now token claims entry new
unfolding with_claims
with_claims_sound is_address now token claims entry new h =
    elim (Option-cases (lookup "sub" claims)) [
      | inl missing ↦ absurd (ground arith)
      | inr (subject, e) ↦ elim (Run-cases (email_of_claims is_address claims)) [
        | inr (m, f) ↦ absurd (ground arith)
        | inl (err m, f) ↦ absurd (ground arith)
        | inl (ok email, f) ↦ elim (Option-cases (lookup "iss" claims)) [
          | inl missing ↦ absurd (ground arith)
          | inr (issuer, g) ↦
              let (p, q, r, same) =
                named_entry_sound subject issuer email now token entry new
                  (ground (arith, h, e, f, g)) in
              (
                e ∙ ap some p,
                g ∙ ap some q,
                rw (← r) (email_of_claims_sound is_address claims email f),
                same,
              )
        ]
      ]
    ]

find-none-never : (keys : Jwks) → find (has_kid other) keys ≡ none
find-none-never [] = refl
find-none-never (k ∷ ks) = find-none-never ks

module _ {PublicKey : Type 0} (tokens : Tokens PublicKey) where
  -- A public key is that of the key with the header's ID.
  abbrev pub IsKeyOf : Jwks → Header → PublicKey → Type 0
  IsKeyOf jwks header public_key =
      (kid : String) × (key : JwksKey) × (b : Bytes) × (header.kid ≡ some (text kid))
      × (find (λ k. k.kid == kid) jwks ≡ some key)
      × (tokens.marshal_key key ≡ ok b)
      × (tokens.import_key b ≡ ok public_key)

  get_public_key_for_token-IsKeyOf :
      (jwks : Jwks) (header : Header) (public_key : PublicKey)
      → get_public_key_for_token tokens (jwks ∷ []) header ≡ ok public_key
      → IsKeyOf jwks header public_key
  unfolding get_public_key_for_token find_key
  get_public_key_for_token-IsKeyOf jwks header public_key h = elim (Option-cases header.kid) [
    | inl missing ↦ absurd (ground arith)
    | inr (other, e) ↦ absurd (ground (arith, find-none-never jwks))
    | inr (text kid, e) ↦ elim (Option-cases (find (has_kid (text kid)) jwks)) [
      | inl missing ↦ absurd (ground arith)
      | inr (key, f) ↦ elim (Result-cases (tokens.marshal_key key)) [
        | inr (m, g) ↦ absurd (ground arith)
        | inl (b, g) ↦ elim (Result-cases (tokens.import_key b)) [
          | inr (m, k) ↦ absurd (ground arith)
          | inl (found, k) ↦ (kid, key, b, e, f, g, ground arith)
        ]
      ]
    ]
  ]

  -- Where the JWT library parses a token only if it is signed by the key that it is given for the
  -- token's header, a code is exchanged for an entry only with an ID token that is signed by the
  -- first key of the JWKS with the ID that this header names: the entry keeps its ID, its provider
  -- and its other fields, and takes the token, and the subject, the issuer and the email of its
  -- claims. The email is the claim, or where it is missing the preferred name, if that is an
  -- address.
  pub update_oauth2_data_with_token_sound :
      (Signed : PublicKey → String → Claims → Type 0)
      → ParsesSigned tokens Signed
      → ParsesHeader tokens
      → (http : Http) (now : ℕ) (jwks : Jwks) (discovery : Discovery)
        (client_id client_secret redirect_uri code : String) (entry new : OAuthData)
      → update_oauth2_data_with_token tokens http now jwks discovery client_id client_secret
          redirect_uri code entry
        ≡ returns (ok new)
      → (header : Header) × (public_key : PublicKey) × (claims : Claims) × (exchange_code http
            discovery client_id client_secret redirect_uri code
          ≡ ok new.token)
        × (tokens.header_of new.token.id_token ≡ some header)
        × IsKeyOf jwks header public_key
        × Signed public_key new.token.id_token claims
        × IsUpdate tokens.is_address now new.token claims entry new
  unfolding update_oauth2_data_with_token
  update_oauth2_data_with_token_sound Signed signed headed http now jwks discovery client_id
        client_secret redirect_uri code entry new h =
      elim (Result-cases (exchange_code http discovery client_id client_secret redirect_uri code)) [
        | inr (m, e) ↦ absurd (ground arith)
        | inl (token, e) ↦
            elim (Result-cases
              (tokens.parse token.id_token (get_public_key_for_token tokens (jwks ∷ [])))) [
                | inr (m, f) ↦ absurd (ground arith)
                | inl ((header, claims), f) ↦
                    let (key, g, is_signed) =
                      signed token.id_token (get_public_key_for_token tokens (jwks ∷ [])) header
                        claims f in
                    let (sub, iss, email, same) =
                      with_claims_sound tokens.is_address now token claims entry new
                        (ground (arith, e, f)) in
                    let t : token ≡ new.token = ground (arith, same) in
                    (
                      header,
                      key,
                      claims,
                      e ∙ ap ok t,
                      rw (← t) (
                          headed token.id_token (get_public_key_for_token tokens (jwks ∷ [])) header
                            claims f),
                      get_public_key_for_token-IsKeyOf jwks header key g,
                      rw (← t) is_signed,
                      (sub, iss, email, ground (arith, same, t)),
                    )
              ]
      ]
