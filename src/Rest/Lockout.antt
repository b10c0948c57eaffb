-- ===== src/Rest/Lockout.antt =====
-- The limit on attempts and the granting of tokens, at the login handler of rest/auth.go.
use go_devops_platform.Base.{
  ℕ, ◌+◌, ◌/◌, ◌≤◌, ◌≡◌, refl, ap, ◌∙◌, String, Bool, true, false, List, [], ◌∷◌, ◌++◌, none, some,
  Result, ok, ◌⊎◌, leb, eq_iff, arith, any, Result-cases, inl, inr,
}
use go_devops_platform.Base.Map.{lookup, lookup-insert}
use go_devops_platform.Storage.{Iface}
use go_devops_platform.Users.Types.{User, Env}
use go_devops_platform.Users.Model.{auth_user}
use go_devops_platform.Login.Attempts.{
  Attempts, three_minutes, record_attempt, count_recent, attempts_of, check_too_many_logins,
}
use go_devops_platform.Login.Limit.{check_too_many_logins_lem}
use go_devops_platform.Login.Authenticate.{LoginRequest, LoginResponse, no_response, authenticate}
use go_devops_platform.Login.Granted.{passes, authenticate_sound}
use go_devops_platform.Totp.{Crypto, verify}
use go_devops_platform.Oidc.Store.{second}
use go_devops_platform.Rest.Server.{Server, return_error, write, session}
use go_devops_platform.Rest.Login.{Attempt, login_of, auth_handler}

-- A POST request with a login and a password.
abbrev pub posted : ℕ → LoginRequest → Attempt
posted now request = record { now = now; is_post = true; body = ok request }

check_too_many_logins_kept :
    (now : ℕ) (attempts : Attempts) (login : String)
    → (check_too_many_logins now attempts login).0 ≡ false
    → (check_too_many_logins now attempts login).1 ≡ attempts
unfolding check_too_many_logins
check_too_many_logins_kept now attempts login h = ground (arith, h)

lookup-record_attempt :
    (now : ℕ) (attempts : Attempts) (login : String)
    → lookup login (record_attempt now attempts login)
      ≡ some (attempts_of (lookup login attempts) ++ now ∷ [])
unfolding record_attempt
lookup-record_attempt now attempts login = ground (
  arith,
  eq_iff login login,
  lookup-insert login login (attempts_of (lookup login attempts) ++ now ∷ []) attempts,
)

check_open :
    (now : ℕ) (attempts : Attempts) (login : String) (ts : List ℕ)
    → attempts_of (lookup login attempts) ≡ ts
    → leb 3 (count_recent now ts) ≡ false
    → check_too_many_logins now attempts login ≡ (false, attempts)
check_open now attempts login ts e h =
    let shut : (check_too_many_logins now attempts login).0 ≡ false =
      rw (check_too_many_logins_lem now attempts login, e, h) refl in
    ground (arith, shut, check_too_many_logins_kept now attempts login shut)

few_recent :
    (now t u : ℕ)
    → (leb 3 (count_recent now []) ≡ false)
      × (leb 3 (count_recent now (t ∷ [])) ≡ false)
      × (leb 3 (count_recent now (t ∷ u ∷ [])) ≡ false)
unfolding count_recent
few_recent now t u = (refl, ground arith, ground arith)

check_full :
    (now t u v : ℕ) (attempts : Attempts) (login : String)
    → lookup login attempts ≡ some (t ∷ u ∷ v ∷ [])
    → t ≤ u
    → u ≤ v
    → now ≤ t + three_minutes
    → check_too_many_logins now attempts login ≡ (true, attempts)
unfolding check_too_many_logins count_recent
check_full now t u v attempts login e tu uv soon = ground (arith, e)

module _ {Disk : Type 0} (storage : Iface Disk) (env : Env) (crypto : Crypto)
    (sign : String → String → Result String) where
  auth_handler_wrong :
      (now : ℕ) (request : LoginRequest) (s : Server Disk)
      → s.local_auth_disabled ≡ false
      → (auth_user storage env request.login request.password s.world).1 ≡ false
      → check_too_many_logins now s.login_attempts request.login ≡ (false, s.login_attempts)
      → auth_handler storage env crypto sign (posted now request) s ≡ (
        record { status = 401; payload = session no_response },
        record s { login_attempts = record_attempt now s.login_attempts request.login },
      )
  unfolding auth_handler authenticate
  auth_handler_wrong now request s on wrong few = ground (arith, on, wrong, few)

  auth_handler_refused :
      (now : ℕ) (request : LoginRequest) (s : Server Disk)
      → s.local_auth_disabled ≡ false
      → check_too_many_logins now s.login_attempts request.login ≡ (true, s.login_attempts)
      → auth_handler storage env crypto sign (posted now request) s
        ≡ (return_error 429 "too many login failures, try again later", s)
  unfolding auth_handler
  auth_handler_refused now request s on full = ground (arith, on, full)

  -- After three POST requests to log in with wrong passwords, to a login without earlier attempts,
  -- at times that do not fall, a request within three minutes of the first is refused with the
  -- status 429 and changes nothing, whatever password it has. The users are as before.
  pub auth_handler_locks :
      (t u v now : ℕ) (request : LoginRequest) (p q r : String) (s : Server Disk)
      → s.local_auth_disabled ≡ false
      → lookup request.login s.login_attempts ≡ none
      → (auth_user storage env request.login p s.world).1 ≡ false
      → (auth_user storage env request.login q s.world).1 ≡ false
      → (auth_user storage env request.login r s.world).1 ≡ false
      → t ≤ u
      → u ≤ v
      → now ≤ t + three_minutes
      → let handle = auth_handler storage env crypto sign in
        let s₁ = (handle (posted t (record request { password = p })) s).1 in
        let s₂ = (handle (posted u (record request { password = q })) s₁).1 in
        let s₃ = (handle (posted v (record request { password = r })) s₂).1 in
        (handle (posted now request) s₃
          ≡ (return_error 429 "too many login failures, try again later", s₃))
        × (s₃.world ≡ s.world)
  auth_handler_locks t u v now request p q r s on fresh wp wq wr tu uv soon =
      let login : String = request.login in
      let a₁ : Attempts = record_attempt t s.login_attempts login in
      let a₂ : Attempts = record_attempt u a₁ login in
      let a₃ : Attempts = record_attempt v a₂ login in
      let l₁ : lookup login a₁ ≡ some (t ∷ []) =
        rw (lookup-record_attempt t s.login_attempts login, fresh) refl in
      let l₂ : lookup login a₂ ≡ some (t ∷ u ∷ []) =
        rw (lookup-record_attempt u a₁ login, l₁) refl in
      let l₃ : lookup login a₃ ≡ some (t ∷ u ∷ v ∷ []) =
        rw (lookup-record_attempt v a₂ login, l₂) refl in
      let first =
        auth_handler_wrong t (record request { password = p }) s on wp
          (check_open t s.login_attempts login [] (rw fresh refl) (few_recent t t t).0) in
      let second =
        auth_handler_wrong u (record request { password = q }) (record s { login_attempts = a₁ }) on
          wq (check_open u a₁ login (t ∷ []) (rw l₁ refl) (few_recent u t t).1) in
      let third =
        auth_handler_wrong v (record request { password = r }) (record s { login_attempts = a₂ }) on
          wr (check_open v a₂ login (t ∷ u ∷ []) (rw l₂ refl) (few_recent v t u).2) in
      let last =
        auth_handler_refused now request (record s { login_attempts = a₃ }) on
          (check_full now t u v a₃ login l₃ tu uv soon) in
      rw (first, second, third) (last, refl)

  -- An answer of the login handler that is authenticated is given to a POST request alone, while
  -- local logins are enabled, when fewer than three failures of the login are recent, and to a user
  -- who is known by this login and password, is not suspended, and has no second factor or answered
  -- one of its name with the right code of the time; its token is the one signed for that user.
  pub auth_handler_sound :
      (attempt : Attempt) (request : LoginRequest) (response : LoginResponse) (s : Server Disk)
      → attempt.body ≡ ok request
      → (auth_handler storage env crypto sign attempt s).0 ≡ write (session response)
      → response.authenticated ≡ true
      → let (user, known) = auth_user storage env request.login request.password s.world in
        (attempt.is_post ≡ true)
        × (s.local_auth_disabled ≡ false)
        × (leb 3 (count_recent attempt.now (attempts_of (lookup request.login s.login_attempts)))
            ≡ false)
        × (known ≡ true)
        × (user.suspended ≡ false)
        × (sign user.login user.role ≡ ok response.token)
        × ((user.factors ≡ [])
            ⊎ (any
                  (passes (verify crypto (attempt.now / second)) request.factor_response)
                  user.factors
                ≡ true))
  unfolding auth_handler
  auth_handler_sound attempt request response s b e granted =
      let auth : String → String → User × Bool =
        λ login password. auth_user storage env login password s.world in
      elim (Result-cases (login_of storage env crypto sign attempt.now request s.world).0) [
        | inr (message, k) ↦ absurd (ground (arith, b, k, e, granted))
        | inl (r, k) ↦
            let same : r ≡ response = ground (arith, b, k, e, granted) in
            let sound =
              authenticate_sound auth (verify crypto (attempt.now / second)) sign request r k
                (ap (λ (x : LoginResponse). x.authenticated) same ∙ granted) in
            ground (
              arith,
              b,
              k,
              e,
              granted,
              same,
              sound,
              check_too_many_logins_lem attempt.now s.login_attempts request.login,
            )
      ]
