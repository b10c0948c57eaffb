-- ===== src/Saml/Sessions/Opened.antt =====
-- A valid assertion opens a session (auth/saml/handlers.go and session.go).
use go_devops_platform.Base.{
  ℕ, ◌≡◌, ◌≢◌, String, false, some, ok, err, returns, ltb, ◌==◌, eq_iff, arith, if◌then◌else◌, List,
  find, find-passes, Option-cases, inl, inr,
}
use go_devops_platform.Base.Map.{lookup}
use go_devops_platform.Base.Text.{◌+++◌}
use go_devops_platform.Saml.{
  Provider, lookup_session-create_session, get_provider_by_id, get_authenticated_user,
}
use go_devops_platform.Saml.ServiceProvider.{Saml, ServiceProvider, Libraries, ensure_sp_loaded}
use go_devops_platform.Saml.Handler.{
  AssertionInfo, AcsRequest, found, start_session, consume_assertion, saml_handler,
}

get_provider_by_id_id :
    (id : String) (providers : List Provider) (p : Provider)
    → get_provider_by_id id providers ≡ ok p
    → p.id ≡ id
unfolding get_provider_by_id
get_provider_by_id_id id providers p h =
    elim (Option-cases (find (λ (q : Provider). q.id == id) providers)) [
      | inl missing ↦ absurd (ground arith)
      | inr (q, e) ↦
          ground (arith, find-passes (λ (q : Provider). q.id == id) providers q e, eq_iff q.id id)
    ]

module _ {Certificate : Type 0} (libs : Libraries Certificate) (request : AcsRequest Certificate)
    (s : Saml Certificate) (p : Provider) (sp : ServiceProvider Certificate) (info : AssertionInfo)
    (expires : ℕ) (random : String) where
  -- The conditions on a request, in the order in which they are tested.
  pub record IsSignIn : Type 0 where
    pub named : request.provider_id ≢ ""
    pub known : get_provider_by_id request.provider_id s.providers ≡ ok p
    pub loaded : (ensure_sp_loaded libs p s).0 ≡ returns (ok tt)
    pub parsed : request.parse_form ≡ ok tt
    pub is_post : request.method ≡ "POST"
    pub has_response : request.saml_response ≢ ""
    pub has_provider :
        lookup request.provider_id (ensure_sp_loaded libs p s).1.service_provider ≡ some (some sp)
    pub retrieved : request.retrieve_assertion_info sp request.saml_response ≡ ok info
    pub in_time : info.invalid_time ≡ false
    pub in_audience : info.not_in_audience ≡ false
    pub has_end : info.session_not_on_or_after ≡ some expires
    pub has_random : request.random_string ≡ ok random

  module _ (h : IsSignIn) where
    handled : saml_handler libs request s ≡ consume_assertion request (ensure_sp_loaded libs p s).1
    unfolding saml_handler
    handled = ground (arith, h.known, h.loaded, h.named, eq_iff request.provider_id "")

    consumed :
        consume_assertion request (ensure_sp_loaded libs p s).1
        ≡ start_session request info (ensure_sp_loaded libs p s).1
    unfolding consume_assertion
    consumed = ground (
      arith,
      h.parsed,
      h.is_post,
      h.has_response,
      h.has_provider,
      h.retrieved,
      h.in_time,
      h.in_audience,
      eq_iff request.method "POST",
      eq_iff request.saml_response "",
    )

    -- A request with a valid assertion is redirected to the page of the provider with a code, and
    -- as long as the assertion lasts this code gives the assertion's user at this provider, and
    -- then an error.
    pub get_authenticated_user-saml_handler :
        (now : ℕ)
        → ((saml_handler libs request s).0
            ≡ returns (found ("/callback/saml/" +++ request.provider_id +++ "?code=" +++ random)))
          × (get_authenticated_user p random now (saml_handler libs request s).1.sessions ≡ (
              if ltb expires now
              then err "session is expired"
              else ok (record { id = request.uuid; login = info.name_id; expires_at = expires })))
    unfolding start_session get_authenticated_user
    get_authenticated_user-saml_handler now =
        rw (handled, consumed)
          (
            ground (arith, h.has_end, h.has_random),
            ground (
              arith,
              h.has_end,
              h.has_random,
              get_provider_by_id_id request.provider_id s.providers p h.known,
              eq_iff request.provider_id p.id,
              eq_iff random random,
              lookup_session-create_session
                  (record { provider_id = request.provider_id; session_id = random })
                  (record { provider_id = p.id; session_id = random })
                  (record { id = request.uuid; login = info.name_id; expires_at = expires })
                  (ensure_sp_loaded libs p s).1.sessions,
            ),
          )
