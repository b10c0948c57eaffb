-- ===== src/Tests/Login.antt =====
-- Logging in and one-time passwords at concrete inputs.
use go_devops_platform.Base.{
  ℕ, ◌-◌, ◌*◌, ◌/◌, ◌<◌, ◌≡◌, ◌↔◌, ◌⊎◌, refl, String, Bool, true, false, [], ◌∷◌, Result, ok, ◌==◌,
  any, arith,
}
use go_devops_platform.Base.Map.{lookup}
use go_devops_platform.Users.Types.{User}
use go_devops_platform.Login.Attempts.{Attempts, check_too_many_logins, count_recent}
use go_devops_platform.Login.Limit.{check_too_many_logins_trimmed}
use go_devops_platform.Login.Authenticate.{
  LoginRequest, LoginResponse, no_response, authenticate, respond, verify_factors, grant,
}
use go_devops_platform.Login.Granted.{passes, authenticate_sound}
use go_devops_platform.Totp.{
  Crypto, get_token, six_digits, truncate, read_uint32, verify_multiple_intervals,
}
use go_devops_platform.Totp.Laws.{HasLength20, verify_multiple_intervals_iff}
use go_devops_platform.Tests.Data.{ann}

-- Ann with a second factor.
abbrev ann_mfa : User
ann_mfa = record ann { factors = record { name = "phone"; kind = "totp"; secret = "S" } ∷ [] }

abbrev auth : String → String → User × Bool
auth login password = (ann_mfa, true)

abbrev verify : String → String → Result Bool
verify secret code = ok (code == "123456")

abbrev sign : String → String → Result String
sign login role = ok "token"

abbrev request : String → String → LoginRequest
request factor code = record {
  login = "ann";
  password = "secret";
  factor_response = record { name = factor; code = code };
}

abbrev granted : LoginResponse
granted = record no_response { authenticated = true; token = "token" }

authenticate_sound_example :
    (true ≡ true)
    × (false ≡ false)
    × (sign "ann" "admin" ≡ ok "token")
    × ((ann_mfa.factors ≡ [])
        ⊎ (any (passes verify (record { name = "phone"; code = "123456" })) ann_mfa.factors ≡ true))
unfolding authenticate respond verify_factors grant
authenticate_sound_example =
    authenticate_sound auth verify sign (request "phone" "123456") granted refl refl

abbrev attempts : Attempts
attempts = ("ann", 1 ∷ 2 ∷ 3 ∷ 4 ∷ []) ∷ []

check_too_many_logins_trimmed_example :
    (check_too_many_logins 6 (check_too_many_logins 5 attempts "ann").1 "ann").0
    ≡ (check_too_many_logins 6 attempts "ann").0
unfolding lookup
check_too_many_logins_trimmed_example =
    check_too_many_logins_trimmed 5 6 attempts "ann" "ann"
      (omega arith, (omega arith, (omega arith, tt)))

refused_test : (check_too_many_logins 5 attempts "ann").0 ≡ true
unfolding check_too_many_logins count_recent lookup
refused_test = refl

-- An HMAC that is 20 zeros.
abbrev crypto : Crypto
crypto = record {
  decode = λ secret. ok [];
  hmac = λ key message.
      0 ∷ 0 ∷ 0 ∷ 0 ∷ 0 ∷ 0 ∷ 0 ∷ 0 ∷ 0 ∷ 0 ∷ 0 ∷ 0 ∷ 0 ∷ 0 ∷ 0 ∷ 0 ∷ 0 ∷ 0 ∷ 0 ∷ 0 ∷ [];
}

crypto-HasLength20 : HasLength20 crypto
crypto-HasLength20 key message = refl

verify_multiple_intervals_iff_example :
    (verify_multiple_intervals crypto "S" "000000" 20 1000 ≡ ok true)
    ↔ ((j : ℕ) × (j < 20) × (get_token crypto "S" ((1000 - j * 30) / 30) ≡ ok "000000"))
verify_multiple_intervals_iff_example =
    verify_multiple_intervals_iff crypto crypto-HasLength20 "S" "000000" [] 20 1000 refl

token_test : get_token crypto "S" 7 ≡ ok "000000"
unfolding get_token truncate read_uint32 six_digits
token_test = refl
