-- ===== src/Rest/Login.antt =====
-- The login handler: authHandler of rest/auth.go.
use go_devops_platform.Base.{ℕ, ◌/◌, String, Bool, Result, ok, err, not, if◌then◌else◌}
use go_devops_platform.Base.Text.{◌+++◌}
use go_devops_platform.Storage.{Iface}
use go_devops_platform.Users.Types.{User, World, Env}
use go_devops_platform.Users.Model.{auth_user}
use go_devops_platform.Users.Change.{update_user}
use go_devops_platform.Login.Attempts.{
  check_too_many_logins, clear_attempts_for_login, record_attempt,
}
use go_devops_platform.Login.Authenticate.{LoginRequest, LoginResponse, authenticate}
use go_devops_platform.Totp.{Crypto, verify}
use go_devops_platform.Oidc.Store.{second}
use go_devops_platform.Rest.Server.{Server, Answer, return_error, write, session}

-- A request to log in, at a time in nanoseconds; `body` is what the decoder makes of it.
pub record Attempt : Type 0 where
  pub now : ℕ
  pub is_post : Bool
  pub body : Result LoginRequest

-- `sign` is GetJWTToken with the keys of the server.
module _ {Disk : Type 0} (storage : Iface Disk) (env : Env) (crypto : Crypto)
    (sign : String → String → Result String) where
  -- login.Authenticate over the user store, at a time
  abbrev pub login_of : ℕ → LoginRequest → World Disk → Result LoginResponse × User
  login_of now request w =
      authenticate (λ login password. auth_user storage env login password w)
        (verify crypto (now / second)) sign request

  -- What the handler does with the answer of the login.
  abbrev pub conclude :
      ℕ → String → Result LoginResponse × User → Server Disk → Answer × Server Disk
  conclude now login (err e, user) s = (return_error 400 ("authentication error: " +++ e), s)
  conclude now login (ok response, user) s =
      if response.mfa_required
      then (write (session response), s)
      else if response.authenticated
      then (let (r, w) =
            update_user storage env (record user { last_login = now / second }) s.world in
          (
            write (session response),
            record s {
              world = w;
              login_attempts = clear_attempts_for_login s.login_attempts login;
            },
          ))
      else (
        record { status = 401; payload = session response },
        record s { login_attempts = record_attempt now s.login_attempts login },
      )

  unfoldable pub auth_handler : Attempt → Server Disk → Answer × Server Disk
  unfolding check_too_many_logins auth_user authenticate verify
  auth_handler attempt s =
      if not attempt.is_post
      then (return_error 400 "not a post request", s)
      else if s.local_auth_disabled
      then (return_error 403 "local auth is disabled in settings", s)
      else elim attempt.body [
        | err e ↦ (return_error 400 ("decode input error: " +++ e), s)
        | ok request ↦
            let (refused, attempts) =
              check_too_many_logins attempt.now s.login_attempts request.login in
            let checked : Server Disk = record s { login_attempts = attempts } in
            if refused
            then (return_error 429 "too many login failures, try again later", checked)
            else conclude attempt.now request.login (login_of attempt.now request s.world) checked
      ]
