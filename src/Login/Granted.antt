-- ===== src/Login/Granted.antt =====
-- Who gets a token.
use go_devops_platform.Base.{
  ◌≡◌, ◌≢◌, refl, String, Bool, true, false, List, [], ◌∷◌, map, Result, ok, err, arith, any, ◌==◌,
  eq_iff, not, ◌&&◌, if◌then◌else◌, ◌⊎◌, inl, inr, Result-cases, Bool-cases,
}
use go_devops_platform.Users.Types.{Factor, User}
use go_devops_platform.Login.Authenticate.{
  FactorResponse, LoginRequest, LoginResponse, no_response, factor_name, grant, verify_factors,
  respond, authenticate,
}

abbrev pub is_verified : Result Bool → Bool
is_verified (ok b) = b
is_verified (err e) = false

-- The code of the answer is right for a factor of the answer's name.
abbrev pub passes : (String → String → Result Bool) → FactorResponse → Factor → Bool
passes verify answer f = (f.name == answer.name) && is_verified (verify f.secret answer.code)

abbrev pub is_empty : List Factor → Bool
is_empty [] = true
is_empty (f ∷ fs) = false

is_empty-cases :
    (fs : List Factor) → ((fs ≡ []) × (is_empty fs ≡ true)) ⊎ ((fs ≢ []) × (is_empty fs ≡ false))
is_empty-cases [] = inl (refl, refl)
is_empty-cases (f ∷ fs) = inr (λ e. cc, refl)

module _ (auth : String → String → User × Bool) (verify : String → String → Result Bool)
    (sign : String → String → Result String) where
  verify_factors_sound :
      (answer : FactorResponse) (user : User) (fs : List Factor) (r r' : LoginResponse)
      → verify_factors auth verify sign answer user fs r ≡ ok r'
      → (r' ≡ r)
        ⊎ ((any (passes verify answer) fs ≡ true) × (sign user.login user.role ≡ ok r'.token))
  unfolding verify_factors grant
  verify_factors_sound answer user [] r r' e = inl (ground arith)
  verify_factors_sound answer user (f ∷ fs) r r' e = elim (Bool-cases (f.name == answer.name)) [
    | inr other ↦ ground (arith, other, verify_factors_sound answer user fs r r')
    | inl same ↦ elim (Result-cases (verify f.secret answer.code)) [
      | inr (message, k) ↦ absurd (ground (arith, same, k, e))
      | inl (b, k) ↦ elim (Bool-cases b) [
        | inr wrong ↦ ground (arith, same, k, wrong, verify_factors_sound answer user fs r r')
        | inl right ↦ elim (Result-cases (sign user.login user.role)) [
          | inr (message, s) ↦ absurd (ground (arith, same, k, right, s, e))
          | inl (token, s) ↦ ground (
            arith,
            same,
            k,
            right,
            s,
            verify_factors_sound answer user fs (record r { authenticated = true; token = token })
                r',
          )
        ]
      ]
    ]
  ]

  respond_without_factors :
      (request : LoginRequest) (user : User) (fs : List Factor) (token : String)
      → fs ≡ []
      → sign user.login user.role ≡ ok token
      → respond auth verify sign request user fs
        ≡ ok (record no_response { authenticated = true; token = token })
  unfolding respond grant
  respond_without_factors request user [] token f s = ground arith
  respond_without_factors request user (x ∷ fs) token f s = cc

  respond_asks :
      (request : LoginRequest) (user : User) (fs : List Factor)
      → fs ≢ []
      → request.factor_response.name ≡ ""
      → respond auth verify sign request user fs
        ≡ ok (record no_response { mfa_required = true; factors = map factor_name fs })
  unfolding respond
  respond_asks request user [] f n = absurd (f refl)
  respond_asks request user (x ∷ fs) f n = ground (arith, eq_iff request.factor_response.name "", n)

  respond_sound :
      (request : LoginRequest) (user : User) (fs : List Factor) (r : LoginResponse)
      → respond auth verify sign request user fs ≡ ok r
      → r.authenticated ≡ true
      → (sign user.login user.role ≡ ok r.token)
        × ((fs ≡ []) ⊎ (any (passes verify request.factor_response) fs ≡ true))
  unfolding respond grant
  respond_sound request user [] r e granted = elim (Result-cases (sign user.login user.role)) [
    | inl (token, s) ↦ (ground (arith, s, e), inl refl)
    | inr (message, s) ↦ absurd (ground (arith, s, e))
  ]
  respond_sound request user (x ∷ fs) r e granted =
      ground (
        arith,
        e,
        granted,
        verify_factors_sound request.factor_response user (x ∷ fs) no_response r,
      )

  -- A token is given only to a user whom the user store knows by this login and password, who is
  -- not suspended, and who has no second factor or answered one of its name with a right code; it
  -- is the token that is signed for that user's login and role.
  pub authenticate_sound :
      (request : LoginRequest) (r : LoginResponse)
      → (authenticate auth verify sign request).0 ≡ ok r
      → r.authenticated ≡ true
      → let (user, known) = auth request.login request.password in
        (known ≡ true)
        × (user.suspended ≡ false)
        × (sign user.login user.role ≡ ok r.token)
        × ((user.factors ≡ []) ⊎ (any (passes verify request.factor_response) user.factors ≡ true))
  unfolding authenticate
  authenticate_sound request r e granted =
      let (user, known) = auth request.login request.password in
      elim (Bool-cases known) [
        | inr unknown ↦ absurd (ground (arith, unknown, e, granted))
        | inl k ↦ elim (Bool-cases user.suspended) [
          | inl suspended ↦ absurd (ground (arith, k, suspended, e, granted))
          | inr active ↦
              ground (arith, k, active, e, granted, respond_sound request user user.factors r)
        ]
      ]

  -- The answer to a login without a second factor, where a token can be signed: a user who is known
  -- by login and password, is not suspended and has no second factor gets that token; one with
  -- second factors is asked for one, by the names of all of them, and gets no token; one who is
  -- suspended, or is not known, gets an answer without a token.
  pub authenticate_cases :
      (request : LoginRequest) (token : String)
      → let (user, known) = auth request.login request.password in
        request.factor_response.name ≡ ""
        → sign user.login user.role ≡ ok token
        → (authenticate auth verify sign request).0
          ≡ ok (
              if not (known && not user.suspended)
              then no_response
              else if is_empty user.factors
              then record no_response { authenticated = true; token = token }
              else record no_response {
                mfa_required = true;
                factors = map factor_name user.factors;
              })
  unfolding authenticate
  authenticate_cases request token n s =
      let (user, known) = auth request.login request.password in
      elim (is_empty-cases user.factors) [
        | inl (none, e) ↦
            ground (arith, n, s, e, respond_without_factors request user user.factors token)
        | inr (some, e) ↦ ground (arith, n, s, e, respond_asks request user user.factors)
      ]
