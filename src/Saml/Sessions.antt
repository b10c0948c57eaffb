-- ===== src/Saml/Sessions.antt =====
-- The runs of the SAML service (auth/saml): requests to the assertion consumer service, requests
-- for the address of a provider, and changes of the configuration, in any order.
pub mod Runs
pub mod Opened
use mathlib.Core.Path.{subst}
use go_devops_platform.Base.{
  ℕ, ◌≤◌, ◌≡◌, ◌⊎◌, inl, inr, refl, ap, ◌∙◌, String, Bool, true, false, List, [], Option, none,
  some, Result, ok, err, Run, returns, panics, Done, not, ltb, ◌&&◌, ◌==◌, eq_iff, arith,
  if◌then◌else◌, Bool-cases, Run-cases, Result-cases, Option-cases,
}
use go_devops_platform.Base.Map.{lookup}
use go_devops_platform.Base.Text.{◌+++◌}
use go_devops_platform.Saml.{
  Provider, AuthenticatedUser, SessionKey, Sessions, same_key, lookup_session, create_session,
  lookup_session-create_session, get_provider_by_id, get_authenticated_user,
}
use go_devops_platform.Saml.ServiceProvider.{
  Saml, ServiceProvider, Libraries, ensure_sp_loaded, get_auth_url,
}
use go_devops_platform.Saml.ServiceProvider.Loaded.{IsFor, IsValid, ensure_sp_loaded-Kept}
use go_devops_platform.Saml.Handler.{
  AssertionInfo, AcsRequest, Reply, found, start_session, consume_assertion, saml_handler,
}

module _ {Certificate : Type 0} where
  -- The libraries may answer otherwise at each step.
  pub data Step : Saml Certificate → Saml Certificate → Type 0 where
    callback :
        (libs : Libraries Certificate) (request : AcsRequest Certificate) (s : Saml Certificate)
        → Step s (saml_handler libs request s).1
    authorize :
        (libs : Libraries Certificate) (p : Provider) (s : Saml Certificate)
        → Step s (get_auth_url libs p s).1
    configure :
        (providers : List Provider) (hostname protocol : String) (s : Saml Certificate)
        → Step s (record s { providers = providers; hostname = hostname; protocol = protocol })

  pub data Reach (start : Saml Certificate) : Saml Certificate → Type 0 where
    here : Reach start start
    next : {s t : Saml Certificate} → Reach start s → Step s t → Reach start t

  -- The requests to the assertion consumer service in a run, each with the state that its handler
  -- left.
  pub data Handled (request : AcsRequest Certificate) (after : Saml Certificate)
      (start : Saml Certificate) : (s : Saml Certificate) → Reach start s → Type 0 where
    last :
        {s : Saml Certificate} {r : Reach start s} (libs : Libraries Certificate)
        → (saml_handler libs request s).1 ≡ after
        → Handled request after start
            (saml_handler libs request s).1
            (next r (callback libs request s))
    earlier :
        {s t : Saml Certificate} {r : Reach start s} {step : Step s t}
        → Handled request after start s r
        → Handled request after start t (next r step)

  -- The assertion of a request, whose handler left the state `after`, stands behind a session: the
  -- loaded service provider of the session's provider, which expects its audience, accepted it, it
  -- is in time and for that audience, and the session is stored then, with its name and its end.
  pub record Accepted (request : AcsRequest Certificate) (after : Saml Certificate)
      (key : SessionKey) (user : AuthenticatedUser) : Type 0 where
    pub sp : ServiceProvider Certificate
    pub info : AssertionInfo
    pub is_loaded : lookup key.provider_id after.service_provider ≡ some (some sp)
    pub is_stored : lookup_session key after.sessions ≡ some user
    pub is_post : request.method ≡ "POST"
    pub for_provider : IsFor key.provider_id sp
    pub was_retrieved : request.retrieve_assertion_info sp request.saml_response ≡ ok info
    pub in_time : info.invalid_time ≡ false
    pub in_audience : info.not_in_audience ≡ false
    pub has_name : user.login ≡ info.name_id
    pub has_end : info.session_not_on_or_after ≡ some user.expires_at
    pub has_code : request.random_string ≡ ok key.session_id
    pub at_provider : request.provider_id ≡ key.provider_id

  -- What a step may do to the sessions.
  abbrev pub ChangedFrom : AcsRequest Certificate → Sessions → Saml Certificate → Type 0
  ChangedFrom request sessions t =
      (t.sessions ≡ sessions)
      ⊎ ((key : SessionKey) × (user : AuthenticatedUser) × (t.sessions
            ≡ create_session key user sessions)
          × Accepted request t key user)

  abbrev pub Changed : AcsRequest Certificate → Saml Certificate → Saml Certificate → Type 0
  Changed request s t = ChangedFrom request s.sessions t

  pub consume_assertion-IsValid :
      (request : AcsRequest Certificate) (s : Saml Certificate)
      → IsValid s
      → IsValid (consume_assertion request s).1
  unfolding consume_assertion start_session
  consume_assertion-IsValid request s v id sp e = v id sp (ground (arith, e))

  abbrev session_key : AcsRequest Certificate → String → SessionKey
  session_key request random = record { provider_id = request.provider_id; session_id = random }

  abbrev session_user : AcsRequest Certificate → AssertionInfo → ℕ → AuthenticatedUser
  session_user request info expires = record {
    id = request.uuid;
    login = info.name_id;
    expires_at = expires;
  }

  lookup-create :
      (request : AcsRequest Certificate) (random : String) (info : AssertionInfo) (expires : ℕ)
      (sessions : Sessions)
      → lookup_session
          (session_key request random)
          (create_session (session_key request random) (session_user request info expires) sessions)
        ≡ some (session_user request info expires)
  lookup-create request random info expires sessions = ground (
    arith,
    lookup_session-create_session (session_key request random) (session_key request random)
        (session_user request info expires) sessions,
    eq_iff request.provider_id request.provider_id,
    eq_iff random random,
  )

  start_session_cases :
      (request : AcsRequest Certificate) (info : AssertionInfo) (s : Saml Certificate)
      → ((start_session request info s).1 ≡ s)
        ⊎ ((expires : ℕ) × (random : String) × (info.session_not_on_or_after ≡ some expires)
            × (request.random_string ≡ ok random)
            × ((start_session request info s).1.sessions
                ≡ create_session
                    (session_key request random)
                    (session_user request info expires)
                    s.sessions))
  unfolding start_session
  start_session_cases request info s = elim (Option-cases info.session_not_on_or_after) [
    | inl missing ↦ inl (ground (arith, missing))
    | inr (expires, e) ↦ elim (Result-cases request.random_string) [
      | inr (m, f) ↦ inl (ground (arith, e, f))
      | inl (random, f) ↦ inr (expires, random, e, f, ground (arith, e, f))
    ]
  ]

  service_provider-start_session :
      (request : AcsRequest Certificate) (info : AssertionInfo) (s : Saml Certificate)
      → (start_session request info s).1.service_provider ≡ s.service_provider
  unfolding start_session
  service_provider-start_session request info s = ground arith

  -- Where the handler comes to start a session, and where it leaves the state alone.
  consume_assertion_cases :
      (request : AcsRequest Certificate) (s : Saml Certificate)
      → ((consume_assertion request s).1 ≡ s)
        ⊎ ((sp : ServiceProvider Certificate) × (info : AssertionInfo) × (request.method ≡ "POST")
            × (lookup request.provider_id s.service_provider ≡ some (some sp))
            × (request.retrieve_assertion_info sp request.saml_response ≡ ok info)
            × (info.invalid_time ≡ false)
            × (info.not_in_audience ≡ false)
            × (consume_assertion request s ≡ start_session request info s))
  unfolding consume_assertion
  consume_assertion_cases request s = elim (Result-cases request.parse_form) [
    | inr (m, e) ↦ inl (ground arith)
    | inl (done, e) ↦ elim (Bool-cases (request.method == "POST")) [
      | inr other ↦ inl (ground arith)
      | inl post ↦ elim (Bool-cases (request.saml_response == "")) [
        | inl empty ↦ inl (ground arith)
        | inr full ↦ elim (Option-cases (lookup request.provider_id s.service_provider)) [
          | inl missing ↦ inl (ground arith)
          | inr (none, f) ↦ inl (ground arith)
          | inr (some sp, f) ↦
              elim (Result-cases (request.retrieve_assertion_info sp request.saml_response)) [
                | inr (m, g) ↦ inl (ground arith)
                | inl (info, g) ↦ elim (Bool-cases info.invalid_time) [
                  | inl late ↦ inl (ground arith)
                  | inr in_time ↦ elim (Bool-cases info.not_in_audience) [
                    | inl foreign ↦ inl (ground arith)
                    | inr ours ↦ inr (
                      sp,
                      info,
                      (eq_iff request.method "POST").0 post,
                      f,
                      g,
                      in_time,
                      ours,
                      ground arith,
                    )
                  ]
                ]
              ]
        ]
      ]
    ]
  ]

  pub consume_assertion-Changed :
      (request : AcsRequest Certificate) (s : Saml Certificate)
      → IsValid s
      → Changed request s (consume_assertion request s).1
  consume_assertion-Changed request s v = elim (consume_assertion_cases request s) [
    | inl same ↦ inl (ap (λ (t : Saml Certificate). t.sessions) same)
    | inr (sp, info, post, f, g, in_time, ours, e) ↦ elim (start_session_cases request info s) [
      | inl same ↦ inl (rw e (ap (λ (t : Saml Certificate). t.sessions) same))
      | inr (expires, random, h, k, made) ↦ inr (
        session_key request random,
        session_user request info expires,
        rw e made,
        record {
          sp = sp;
          info = info;
          is_loaded =
              rw e (
                ap (lookup request.provider_id) (service_provider-start_session request info s)
                ∙ f);
          is_stored = rw (e, made) (lookup-create request random info expires s.sessions);
          is_post = post;
          for_provider = v request.provider_id sp f;
          was_retrieved = g;
          in_time = in_time;
          in_audience = ours;
          has_name = refl;
          has_end = h;
          has_code = k;
          at_provider = refl;
        },
      )
    ]
  ]

  pub saml_handler_cases :
      (libs : Libraries Certificate) (request : AcsRequest Certificate) (s : Saml Certificate)
      → ((saml_handler libs request s).1 ≡ s)
        ⊎ ((p : Provider) × (((saml_handler libs request s).1 ≡ (ensure_sp_loaded libs p s).1)
              ⊎ ((saml_handler libs request s).1
                  ≡ (consume_assertion request (ensure_sp_loaded libs p s).1).1)))
  unfolding saml_handler
  saml_handler_cases libs request s = elim (Bool-cases (request.provider_id == "")) [
    | inl empty ↦ inl (ground arith)
    | inr named ↦ elim (Result-cases (get_provider_by_id request.provider_id s.providers)) [
      | inr (m, e) ↦ inl (ground arith)
      | inl (p, e) ↦ elim (Run-cases (ensure_sp_loaded libs p s).0) [
        | inr (m, f) ↦ inr (p, inl (ground (arith, e, f)))
        | inl (err m, f) ↦ inr (p, inl (ground (arith, e, f)))
        | inl (ok done, f) ↦ inr (p, inr (ground (arith, e, f)))
      ]
    ]
  ]

  pub get_auth_url_state :
      (libs : Libraries Certificate) (p : Provider) (s : Saml Certificate)
      → (get_auth_url libs p s).1 ≡ (ensure_sp_loaded libs p s).1
  unfolding get_auth_url
  get_auth_url_state libs p s = refl
