-- ===== src/Rest/Profile.antt =====
-- rest/profile.go: a user's own password and second factors. The user comes with the request: the
-- middleware has looked it up.
use Prim.Native.String
use go_devops_platform.Base.{
  ℕ, ◌≡◌, String, Bool, false, List, [], ◌∷◌, ◌++◌, map, Option, none, some, Result, ok, err, not,
  ◌&&◌, ltb, if◌then◌else◌, ◌==◌, eq_iff, arith, find, Result-cases, Option-cases, inl, inr,
}
use go_devops_platform.Base.Text.{◌+++◌}
use go_devops_platform.Storage.{Iface}
use go_devops_platform.Users.Types.{User, Factor, World, Env, has_login}
use go_devops_platform.Users.Change.{update_user, update_password}
use go_devops_platform.Users.Auth.{find-update_user}
use go_devops_platform.Totp.{Crypto, verify_multiple_intervals}
use go_devops_platform.Rest.Server.{Answer, return_error, write, done, factors}

pub record FactorRequest : Type 0 where
  pub name : String
  pub kind : String
  pub secret : String
  pub code : String

-- What the checks of a new factor say, in their order; a name is measured in bytes.
unfoldable pub factor_error : FactorRequest → Option String
factor_error request =
    if request.secret == ""
    then some "no factor secret supplied"
    else if request.name == ""
    then some "no factor name supplied"
    else if ltb 16 (String.len request.name)
    then some "factor name too long"
    else if request.kind == ""
    then some "no factor type supplied"
    else if request.code == ""
    then some "no factor code supplied"
    else none

-- The list without the last factor of a name, if there is one.
unfoldable pub without_factor : String → List Factor → Option (List Factor)
without_factor name [] = none
without_factor name (f ∷ fs) = elim (without_factor name fs) [
  | some rest ↦ some (f ∷ rest)
  | none ↦ if f.name == name then some fs else none
]

abbrev pub without_secret : Factor → Factor
without_secret f = record f { secret = "" }

abbrev pub added : FactorRequest → Factor
added request = record { name = request.name; kind = request.kind; secret = request.secret }

-- The request passes the checks, and its code is right.
abbrev pub accepted : Crypto → ℕ → FactorRequest → Bool
accepted crypto now request = elim (factor_error request) [
  | some e ↦ false
  | none ↦ elim (verify_multiple_intervals crypto request.secret request.code 20 now) [
    | ok verified ↦ verified
    | err e ↦ false
  ]
]

module _ {Disk : Type 0} (storage : Iface Disk) (env : Env) where
  -- profilePasswordHandler, for POST; the argument is the password of the decoded body.
  unfoldable pub profile_password : User → Result String → World Disk → Answer × World Disk
  unfolding update_password
  profile_password user (err e) w = (return_error 400 ("decode input error: " +++ e), w)
  profile_password user (ok password) w =
      if password == ""
      then (return_error 400 "no password supplied", w)
      else (let (r, w') = update_password storage env user.id password w in
          elim r [
            | err e ↦ (return_error 400 ("update password error: " +++ e), w')
            | ok _ ↦ (write done, w')
          ])

  -- profileFactorsHandler, for GET
  unfoldable pub get_factors : User → Answer
  get_factors user = write (factors (map without_secret user.factors))

  -- The user with other factors is stored, and these are the answer.
  unfoldable pub store_factors : User → List Factor → World Disk → Answer × World Disk
  unfolding update_user
  store_factors user fs w =
      let (r, w') = update_user storage env (record user { factors = fs }) w in
      elim r [
        | err e ↦ (return_error 400 ("coudn't update user: " +++ e), w')
        | ok _ ↦ (write (factors fs), w')
      ]

  -- profileFactorsHandler, for POST, at a time in seconds
  unfoldable pub post_factor :
      Crypto → ℕ → User → Result FactorRequest → World Disk → Answer × World Disk
  unfolding store_factors
  post_factor crypto now user (err e) w = (return_error 400 ("decode factor error: " +++ e), w)
  post_factor crypto now user (ok request) w = elim (factor_error request) [
    | some e ↦ (return_error 400 e, w)
    | none ↦ elim (verify_multiple_intervals crypto request.secret request.code 20 now) [
      | err e ↦ (return_error 400 ("totp verify error: " +++ e), w)
      | ok verified ↦
          if not verified
          then (
            return_error 400
                "code doesn't match. Try entering code again or try with a new QR code",
            w,
          )
          else store_factors user (user.factors ++ added request ∷ []) w
    ]
  ]

  -- profileFactorsHandler, for DELETE
  unfoldable pub delete_factor : User → String → World Disk → Answer × World Disk
  unfolding without_factor store_factors
  delete_factor user name w =
      if name == ""
      then (return_error 400 "no factor name supplied", w)
      else elim (without_factor name user.factors) [
        | none ↦ (return_error 400 "factor not found", w)
        | some fs ↦ store_factors user fs w
      ]

  users-store_factors :
      (user stored : User) (fs : List Factor) (w : World Disk) (login : String)
      → find (has_login user.login) w.users ≡ some stored
      → find (has_login login) (store_factors user fs w).1.users ≡ (
          if user.login == login
          then some (record user { factors = fs; password = stored.password })
          else find (has_login login) w.users)
  unfolding store_factors
  users-store_factors user stored fs w login found =
      elim (Result-cases (update_user storage env (record user { factors = fs }) w).0) [
        | inl (d, e) ↦ ground (
          arith,
          e,
          found,
          find-update_user storage env (record user { factors = fs }) w login,
          eq_iff user.login login,
        )
        | inr (message, e) ↦ ground (
          arith,
          e,
          found,
          find-update_user storage env (record user { factors = fs }) w login,
          eq_iff user.login login,
        )
      ]

  -- A second factor is added to a user who is stored exactly when the request passes the checks and
  -- its code is the one of the secret in one of the last twenty intervals. The user then has its
  -- other factors with the new one at the end, and the password that was stored; otherwise no user
  -- changes. No other login is affected.
  pub find-post_factor :
      (crypto : Crypto) (now : ℕ) (user stored : User) (request : FactorRequest) (w : World Disk)
      (login : String)
      → find (has_login user.login) w.users ≡ some stored
      → find (has_login login) (post_factor crypto now user (ok request) w).1.users ≡ (
          if accepted crypto now request && user.login == login
          then some (record user {
            factors = user.factors ++ added request ∷ [];
            password = stored.password;
          })
          else find (has_login login) w.users)
  unfolding post_factor
  find-post_factor crypto now user stored request w login found =
      elim (Option-cases (factor_error request)) [
        | inr (message, bad) ↦ ground (arith, bad)
        | inl good ↦
            elim (Result-cases
              (verify_multiple_intervals crypto request.secret request.code 20 now)) [
                | inr (message, e) ↦ ground (arith, good, e)
                | inl (verified, e) ↦ ground (
                  arith,
                  good,
                  e,
                  users-store_factors user stored (user.factors ++ added request ∷ []) w login
                      found,
                )
              ]
      ]
