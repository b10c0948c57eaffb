-- ===== src/Rest/Middleware/Guarded.antt =====
-- What stands between a request and a handler of rest/router.go.
use go_devops_platform.Base.{
  ◌≡◌, inl, inr, sym, ap, ◌∙◌, String, true, some, ok, ◌==◌, eq_iff, arith, Bool-cases,
  Option-cases, Result-cases,
}
use go_devops_platform.Base.Map.{lookup, lookup-insert}
use go_devops_platform.Base.Text.{has_prefix, replace_all}
use go_devops_platform.Oidc.Token.{text, other, Claims, Header}
use go_devops_platform.Oidc.Token.Verified.{ParsesSigned}
use go_devops_platform.Rest.Middleware.{
  Gate, Request, Passage, with_kid, token_to_parse, key_function, authenticate_request,
}

lookup-with_kid :
    (header : Header) (claims : Claims) (kid : String)
    → lookup "kid" (with_kid header claims) ≡ some (text kid)
    → header.kid ≡ some (text kid)
lookup-with_kid header claims kid h = elim (Option-cases header.kid) [
  | inl missing ↦
      absurd (ground (arith, h, lookup-insert "kid" "kid" other claims, eq_iff "kid" "kid"))
  | inr (k, e) ↦ ground (arith, h, e, lookup-insert "kid" "kid" k claims, eq_iff "kid" "kid")
]

module _ {PublicKey Disk : Type 0} (from : Passage PublicKey)
    (Signed : PublicKey → String → Claims → Type 0) where
  -- The claims are those of a token of the request that is signed, with the header's key ID: by the
  -- server's own key, if the ID is its own.
  abbrev pub IsSignedFor : Request → Gate PublicKey Disk → Claims → Type 0
  IsSignedFor request s claims =
      (t : String) × (key : PublicKey) × (header : Header) × (of_token : Claims) × (token_to_parse
          from (replace_all request.authorization "Bearer " "") s
        ≡ some t)
      × Signed key t of_token
      × (claims ≡ with_kid header of_token)
      × ((key_function from header s).0 ≡ ok key)
      × (lookup "kid" claims ≡ some (text s.jwt_keys_kid) → key ≡ s.public_key)

  key_function_local :
      (header : Header) (s : Gate PublicKey Disk) (key : PublicKey)
      → header.kid ≡ some (text s.jwt_keys_kid)
      → (key_function from header s).0 ≡ ok key
      → key ≡ s.public_key
  unfolding key_function
  key_function_local header s key e h = elim (Bool-cases header.is_rsa) [
    | inl rsa ↦ ground (arith, h, e, rsa, eq_iff s.jwt_keys_kid s.jwt_keys_kid)
    | inr none_rsa ↦ absurd (ground (arith, h, e, none_rsa, eq_iff s.jwt_keys_kid s.jwt_keys_kid))
  ]

  pub authenticate_request_sound :
      (request : Request) (s : Gate PublicKey Disk) (claims : Claims)
      → ParsesSigned from.tokens Signed
      → (authenticate_request from request s).0 ≡ ok claims
      → (s.setup_completed ≡ true)
        × (has_prefix request.authorization "Bearer " ≡ true)
        × IsSignedFor request s claims
  unfolding authenticate_request
  authenticate_request_sound request s claims signed h =
      let token = replace_all request.authorization "Bearer " "" in
      elim (Bool-cases s.setup_completed) [
        | inr early ↦ absurd (ground (arith, h, early))
        | inl completed ↦ elim (Bool-cases (has_prefix request.authorization "Bearer ")) [
          | inr bare ↦ absurd (ground (arith, h, completed, bare))
          | inl bearer ↦ elim (Bool-cases (token == "")) [
            | inl empty ↦ absurd (ground (arith, h, completed, bearer, empty))
            | inr full ↦ elim (Option-cases (token_to_parse from token s)) [
              | inl unknown ↦ absurd (ground (arith, h, completed, bearer, full, unknown))
              | inr (t, e) ↦
                  elim (Result-cases
                    (from.tokens.parse t (λ (k : Header). (key_function from k s).0))) [
                      | inr (m, f) ↦ absurd (ground (arith, h, completed, bearer, full, e, f))
                      | inl ((header, of_token), f) ↦
                          let (key, k, is_signed) =
                            signed t (λ (k : Header). (key_function from k s).0) header of_token
                              f in
                          let same : ok (with_kid header of_token) ≡ ok claims =
                            ground (arith, h, completed, bearer, full, e, f) in
                          let c : claims ≡ with_kid header of_token = ground (arith, same) in
                          (
                            completed,
                            bearer,
                            (
                              t,
                              key,
                              header,
                              of_token,
                              e,
                              is_signed,
                              c,
                              k,
                              λ l.
                                  key_function_local header s key
                                    (lookup-with_kid header of_token s.jwt_keys_kid
                                      (ap (lookup "kid") (sym c) ∙ l))
                                    k,
                            ),
                          )
                    ]
            ]
          ]
        ]
      ]
