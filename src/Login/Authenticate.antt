-- ===== src/Login/Authenticate.antt =====
-- rest/login/auth.go and rest/login/types.go. `GetJWTToken` (rest/login/jwt.go) signs by a library:
-- `sign login role` is its result.
use go_devops_platform.Base.{
  String, Bool, true, false, List, [], ◌∷◌, map, Result, ok, err, ◌==◌, not, ◌&&◌, if◌then◌else◌,
}
use go_devops_platform.Base.Text.{◌+++◌}
use go_devops_platform.Users.Types.{Factor, User}

pub record FactorResponse : Type 0 where
  pub name : String
  pub code : String

pub record LoginRequest : Type 0 where
  pub login : String
  pub password : String
  pub factor_response : FactorResponse

pub record LoginResponse : Type 0 where
  pub authenticated : Bool
  pub suspended : Bool
  pub no_license : Bool
  pub token : String
  pub mfa_required : Bool
  pub factors : List String

-- LoginResponse{}
abbrev pub no_response : LoginResponse
no_response = record {
  authenticated = false;
  suspended = false;
  no_license = false;
  token = "";
  mfa_required = false;
  factors = [];
}

abbrev pub factor_name : Factor → String
factor_name f = f.name

-- `auth` is AuthIface.AuthUser, `verify secret code` is totp.Verify at the time of the request.
module _ (auth : String → String → User × Bool) (verify : String → String → Result Bool)
    (sign : String → String → Result String) where
  -- loginResponse.Authenticated = true, with a new token
  unfoldable pub grant : User → LoginResponse → Result LoginResponse
  grant user response = elim (sign user.login user.role) [
    | err e ↦ err ("token generation failed: " +++ e)
    | ok token ↦ ok (record response { authenticated = true; token = token })
  ]

  -- The loop over the factors with the name of the answer; a later factor of that name is verified
  -- too.
  unfoldable pub verify_factors :
      FactorResponse → User → List Factor → LoginResponse → Result LoginResponse
  verify_factors answer user [] response = ok response
  verify_factors answer user (factor ∷ factors) response = elim (factor.name == answer.name) [
    | false ↦ verify_factors answer user factors response
    | true ↦ elim (verify factor.secret answer.code) [
      | err e ↦ err ("MFA (totp) verify failed: " +++ e)
      | ok verified ↦ elim verified [
        | false ↦ verify_factors answer user factors response
        | true ↦ elim (grant user response) [
          | err e ↦ err e
          | ok granted ↦ verify_factors answer user factors granted
        ]
      ]
    ]
  ]

  unfoldable pub respond : LoginRequest → User → List Factor → Result LoginResponse
  respond request user [] = grant user no_response
  respond request user (factor ∷ factors) =
      if request.factor_response.name == ""
      then ok
          (record no_response { mfa_required = true; factors = map factor_name (factor ∷ factors) })
      else verify_factors request.factor_response user (factor ∷ factors) no_response

  unfoldable pub authenticate : LoginRequest → Result LoginResponse × User
  unfolding respond
  authenticate request =
      let (user, known) = auth request.login request.password in
      if known && not user.suspended
      then (respond request user user.factors, user)
      else (ok no_response, user)
