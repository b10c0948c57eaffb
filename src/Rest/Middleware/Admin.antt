-- ===== src/Rest/Middleware/Admin.antt =====
-- The requests that reach a handler for admins in rest/router.go.
use go_devops_platform.Base.{
  ◌≡◌, ◌⊎◌, inl, inr, refl, ap, ◌∙◌, String, true, List, [], ◌∷◌, some, ok, err, Run, returns,
  panics, ◌==◌, eq_iff, arith, find, Bool-cases, Option-cases, Result-cases, Run-cases,
}
use go_devops_platform.Base.Map.{lookup}
use go_devops_platform.Base.Text.{◌+++◌, has_prefix}
use go_devops_platform.Storage.{Iface}
use go_devops_platform.Users.Types.{User, Env, has_login, blanked}
use go_devops_platform.Users.Model.{get_user_by_login, get_user_by_oidc_ids}
use go_devops_platform.Oidc.Token.{Claim, text, other, Claims}
use go_devops_platform.Oidc.Token.Verified.{ParsesSigned}
use go_devops_platform.Rest.Middleware.{
  Gate, Request, Passage, Answer, denied, Handler, is_text, authenticate_request,
}
use go_devops_platform.Rest.Middleware.Chain.{
  ids_of_subject, local_user, oidc_user, get_user_from_request, is_admin_middleware,
  auth_middleware, inject_user_middleware, admin_route,
}
use go_devops_platform.Rest.Middleware.Guarded.{IsSignedFor, authenticate_request_sound}

is_text_sound : (c : Claim) (t : String) → is_text c t ≡ true → c ≡ text t
is_text_sound (text s) t h = ap text ((eq_iff s t).0 h)
is_text_sound other t h = absurd (cc h)

module _ {PublicKey Disk : Type 0} (storage : Iface Disk) (env : Env) where
  -- The user of the claims: of a token of the server, the user with the subject as login, without
  -- its password; of another, a user with the ID of an entry with the issuer and the subject.
  abbrev pub IsUserOf : List String → Claims → Gate PublicKey Disk → User → Type 0
  IsUserOf order claims s user =
      ((login : String) × (stored : User) × (lookup "kid" claims ≡ some (text s.jwt_keys_kid))
        × (lookup "sub" claims ≡ some (text login))
        × (find (has_login login) s.world.users ≡ some stored)
        × (user ≡ blanked stored))
      ⊎ ((iss : Claim) × (sub : Claim) × (lookup "iss" claims ≡ some iss)
          × (lookup "sub" claims ≡ some sub)
          × (get_user_by_oidc_ids storage env (ids_of_subject iss sub order s.oidc_store) s.world
              ≡ ok user))

  oidc_user_sound :
      (ids : List String) (s : Gate PublicKey Disk) (user : User)
      → oidc_user storage env ids s ≡ ok user
      → get_user_by_oidc_ids storage env ids s.world ≡ ok user
  unfolding oidc_user
  oidc_user_sound [] s user h = absurd (cc h)
  oidc_user_sound (id ∷ ids) s user h =
      elim (Result-cases (get_user_by_oidc_ids storage env (id ∷ ids) s.world)) [
        | inr (m, e) ↦ absurd (ground (arith, h, e))
        | inl (found, e) ↦ ground (arith, h, e)
      ]

  local_user_sound :
      (sub : Claim) (s : Gate PublicKey Disk) (user : User)
      → local_user storage env sub s ≡ returns (ok user)
      → (login : String) × (stored : User) × (sub ≡ text login)
        × (find (has_login login) s.world.users ≡ some stored)
        × (user ≡ blanked stored)
  unfolding local_user get_user_by_login
  local_user_sound other s user h = absurd (cc h)
  local_user_sound (text login) s user h =
      elim (Option-cases (find (has_login login) s.world.users)) [
        | inl missing ↦ absurd (ground (arith, h, missing))
        | inr (stored, e) ↦ (login, stored, refl, e, ground (arith, h, e))
      ]

  get_user_from_request_sound :
      (order : List String) (claims : Claims) (s : Gate PublicKey Disk) (user : User)
      → get_user_from_request storage env order claims s ≡ returns (ok user)
      → IsUserOf order claims s user
  unfolding get_user_from_request
  get_user_from_request_sound order claims s user h = elim (Option-cases (lookup "sub" claims)) [
    | inl missing ↦ absurd (ground (arith, h, missing))
    | inr (sub, e) ↦ elim (Option-cases (lookup "iss" claims)) [
      | inl missing ↦ absurd (ground (arith, h, e, missing))
      | inr (iss, f) ↦ elim (Option-cases (lookup "kid" claims)) [
        | inl missing ↦ absurd (ground (arith, h, e, f, missing))
        | inr (kid, g) ↦ elim (Bool-cases (is_text kid s.jwt_keys_kid)) [
          | inl local ↦
              let (login, stored, p, q, r) =
                local_user_sound sub s user (ground (arith, h, e, f, g, local)) in
              inl (
                login,
                stored,
                g ∙ ap some (is_text_sound kid s.jwt_keys_kid local),
                e ∙ ap some p,
                q,
                r,
              )
          | inr foreign ↦ inr (
            iss,
            sub,
            f,
            e,
            oidc_user_sound (ids_of_subject iss sub order s.oidc_store) s user
                (ground (arith, h, e, f, g, foreign)),
          )
        ]
      ]
    ]
  ]

  module _ (A : Type 0) (from : Passage PublicKey) (Signed : PublicKey → String → Claims → Type 0)
      (signed : ParsesSigned from.tokens Signed) where
    -- A request is answered alike for every handler, or the handler is run.
    abbrev pub IsGuarded : Request → Gate PublicKey Disk → Type 0
    IsGuarded request s =
        ((stop : Run (Answer A) × Gate PublicKey Disk) × ((next : Handler PublicKey Disk A)
            → admin_route storage env from next request s ≡ stop))
        ⊎ ((claims : Claims) × (user : User) × (s.setup_completed ≡ true)
            × (has_prefix request.authorization "Bearer " ≡ true)
            × IsSignedFor from Signed request s claims
            × IsUserOf from.order claims (authenticate_request from request s).1 user
            × (user.role ≡ "admin")
            × ((next : Handler PublicKey Disk A)
                → admin_route storage env from next request s
                  ≡ next
                      (record request {
                        claims = some claims;
                        user = some user;
                        license_user_count =
                            some (authenticate_request from request s).1.license_user_count;
                      })
                      (authenticate_request from request s).1))

    -- A handler for admins is reached only after the setup, by a request with a bearer token that
    -- is signed, by the server's own key if it names that key, and whose user stands in the user
    -- store with the role admin. Every other request gets an answer that no handler can change.
    pub admin_route-IsGuarded : (request : Request) (s : Gate PublicKey Disk) → IsGuarded request s
    unfolding admin_route auth_middleware inject_user_middleware is_admin_middleware
    admin_route-IsGuarded request s =
        let checked = authenticate_request from request s in
        elim (Result-cases checked.0) [
          | inr (m, e) ↦ inl ((returns (denied 401 m), checked.1), λ next. ground (arith, e))
          | inl (claims, e) ↦
              let (completed, bearer, is_signed) =
                authenticate_request_sound from Signed request s claims signed e in
              elim (Run-cases (get_user_from_request storage env from.order claims checked.1)) [
                | inr (m, f) ↦ inl ((panics m, checked.1), λ next. ground (arith, e, f))
                | inl (err m, f) ↦ inl (
                  (returns (denied 401 ("token error: " +++ m)), checked.1),
                  λ next. ground (arith, e, f),
                )
                | inl (ok user, f) ↦ elim (Bool-cases (user.role == "admin")) [
                  | inr other_role ↦ inl (
                    (returns (denied 403 "endpoint forbidden"), checked.1),
                    λ next. ground (arith, e, f, other_role),
                  )
                  | inl admin ↦ inr (
                    claims,
                    user,
                    completed,
                    bearer,
                    is_signed,
                    get_user_from_request_sound from.order claims checked.1 user f,
                    (eq_iff user.role "admin").0 admin,
                    λ next. ground (arith, e, f, admin),
                  )
                ]
              ]
        ]
