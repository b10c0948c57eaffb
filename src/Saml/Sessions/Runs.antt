-- ===== src/Saml/Sessions/Runs.antt =====
-- What holds in every run of the SAML service (auth/saml).
use mathlib.Core.Path.{subst}
use go_devops_platform.Base.{
  ℕ, ◌≤◌, ◌≡◌, inl, inr, refl, sym, ap, ◌∙◌, String, true, [], some, ok, eq_iff, arith, Bool-cases,
  Option-cases,
}
use go_devops_platform.Saml.{
  Provider, AuthenticatedUser, SessionKey, Sessions, same_key, lookup_session,
  lookup_session-create_session, get_authenticated_user,
}
use go_devops_platform.Saml.ServiceProvider.{Saml, Libraries, ensure_sp_loaded, get_auth_url}
use go_devops_platform.Saml.ServiceProvider.Loaded.{IsValid, ensure_sp_loaded-Kept}
use go_devops_platform.Saml.Handler.{AcsRequest, consume_assertion, saml_handler}
use go_devops_platform.Saml.Sessions.{
  Step, callback, authorize, configure, Reach, here, next, Handled, last, earlier, Accepted,
  ChangedFrom, Changed, consume_assertion-IsValid, consume_assertion-Changed, saml_handler_cases,
  get_auth_url_state,
}

eq_of_same_key : (a b : SessionKey) → same_key a b ≡ true → a ≡ b
eq_of_same_key a b h =
    ground (arith, eq_iff a.provider_id b.provider_id, eq_iff a.session_id b.session_id)

module _ {Certificate : Type 0} where
  saml_handler-IsValid :
      (libs : Libraries Certificate) (request : AcsRequest Certificate) (s : Saml Certificate)
      → IsValid s
      → IsValid (saml_handler libs request s).1 × Changed request s (saml_handler libs request s).1
  saml_handler-IsValid libs request s v = elim (saml_handler_cases libs request s) [
    | inl same ↦ rw same (v, inl refl)
    | inr (p, inl loaded) ↦
        let (valid, rest, _) = ensure_sp_loaded-Kept libs p s v in rw loaded (valid, inl rest.0)
    | inr (p, inr consumed) ↦
        let s' = (ensure_sp_loaded libs p s).1 in
        let (valid, rest, _) = ensure_sp_loaded-Kept libs p s v in
        rw consumed (
          consume_assertion-IsValid request s' valid,
          subst (λ (l : Sessions). ChangedFrom request l (consume_assertion request s').1) rest.0
              (consume_assertion-Changed request s' valid),
        )
  ]

  Step-IsValid : {s t : Saml Certificate} → Step s t → IsValid s → IsValid t
  Step-IsValid (callback libs request s) v = (saml_handler-IsValid libs request s v).0
  Step-IsValid (authorize libs p s) v =
      rw (get_auth_url_state libs p s) (ensure_sp_loaded-Kept libs p s v).0
  Step-IsValid (configure providers hostname protocol s) v = v

  -- In every run each loaded service provider expects the audience of the provider under whose ID
  -- it is kept, if that holds at the start.
  pub Reach-IsValid : {start s : Saml Certificate} → IsValid start → Reach start s → IsValid s
  Reach-IsValid v here = v
  Reach-IsValid v (next r step) = Step-IsValid step (Reach-IsValid v r)

  -- An earlier request of the run, whose assertion was accepted for the session.
  abbrev pub HasAccepted :
      (start s : Saml Certificate) → Reach start s → SessionKey → AuthenticatedUser → Type 0
  HasAccepted start s r key user =
      (request : AcsRequest Certificate) × (after : Saml Certificate) × Handled request after start
        s r
      × Accepted request after key user

  still :
      {start s t : Saml Certificate} (r : Reach start s) (step : Step s t) (key : SessionKey)
      (user : AuthenticatedUser)
      → HasAccepted start s r key user
      → HasAccepted start t (next r step) key user
  still r step key user (request, after, handled, accepted) =
      (request, after, earlier handled, accepted)

  moved :
      (request : AcsRequest Certificate) (after : Saml Certificate) (key other : SessionKey)
      (made user : AuthenticatedUser)
      → Accepted request after key made
      → key ≡ other
      → made ≡ user
      → Accepted request after other user
  moved request after key other made user a p q = rw (← p, ← q) a

  Reach-Accepted :
      {start s : Saml Certificate} (key : SessionKey) (user : AuthenticatedUser)
      → IsValid start
      → start.sessions ≡ []
      → (r : Reach start s) → lookup_session key s.sessions ≡ some user
      → HasAccepted start s r key user
  unfolding lookup_session
  Reach-Accepted key user v fresh here e = absurd (ground (arith, fresh, e))
  Reach-Accepted key user v fresh (next r (authorize libs p s)) e =
      let (_, rest, _) = ensure_sp_loaded-Kept libs p s (Reach-IsValid v r) in
      let same : (get_auth_url libs p s).1.sessions ≡ s.sessions =
        rw (get_auth_url_state libs p s) rest.0 in
      still r (authorize libs p s) key user
        (Reach-Accepted key user v fresh r (ap (lookup_session key) (sym same) ∙ e))
  Reach-Accepted key user v fresh (next r (configure providers hostname protocol s)) e =
      still r (configure providers hostname protocol s) key user
        (Reach-Accepted key user v fresh r e)
  Reach-Accepted key user v fresh (next r (callback libs request s)) e =
      let t = (saml_handler libs request s).1 in
      let step = callback libs request s in
      elim (saml_handler-IsValid libs request s (Reach-IsValid v r)).1 [
        | inl same ↦
            still r step key user
              (Reach-Accepted key user v fresh r (ap (lookup_session key) (sym same) ∙ e))
        | inr (at, made, created, accepted) ↦ elim (Bool-cases (same_key at key)) [
          | inl hit ↦ (
            request,
            t,
            last libs refl,
            moved request t at key made user accepted (eq_of_same_key at key hit) (
                ground (
                  arith,
                  ap (lookup_session key) created,
                  lookup_session-create_session at key made s.sessions,
                )),
          )
          | inr miss ↦ still r step key user (
              Reach-Accepted key user v fresh r (
                ground (
                  arith,
                  ap (lookup_session key) created,
                  lookup_session-create_session at key made s.sessions,
                )))
        ]
      ]

  -- A code is worth a user, in every run that starts with no session, only if the run has an
  -- earlier POST request whose assertion was accepted: by the service provider that was loaded for
  -- the provider that is asked for, and that expects its audience, in time and for that audience.
  -- The user was stored then, with the assertion's name and its end, which is not over, and the
  -- code is the random string of that request.
  pub get_authenticated_user_accepted :
      {start s : Saml Certificate} (p : Provider) (code : String) (now : ℕ)
      (user : AuthenticatedUser)
      → IsValid start
      → start.sessions ≡ []
      → (r : Reach start s) → get_authenticated_user p code now s.sessions ≡ ok user
      → (now ≤ user.expires_at)
        × HasAccepted start s r (record { provider_id = p.id; session_id = code }) user
  unfolding get_authenticated_user
  get_authenticated_user_accepted {start} {s} p code now user v fresh r h =
      let key : SessionKey = record { provider_id = p.id; session_id = code } in
      elim (Option-cases (lookup_session key s.sessions)) [
        | inl missing ↦ absurd (ground (arith, missing))
        | inr (found_user, e) ↦
            (ground (arith, e), Reach-Accepted key user v fresh r (ground (arith, e)))
      ]
