-- ===== src/Saml/Handler.antt =====
-- auth/saml/handlers.go: the assertion consumer service.
use go_devops_platform.Base.{
  ℕ, String, Bool, Option, none, some, Result, ok, err, Run, returns, panics, Done, not,
  if◌then◌else◌, ◌==◌,
}
use go_devops_platform.Base.Map.{lookup}
use go_devops_platform.Base.Text.{◌+++◌}
use go_devops_platform.Saml.{AuthenticatedUser, SessionKey, create_session, get_provider_by_id}
use go_devops_platform.Saml.ServiceProvider.{Saml, ServiceProvider, Libraries, ensure_sp_loaded}

-- What the handler reads of saml2.AssertionInfo.
pub record AssertionInfo : Type 0 where
  pub name_id : String
  pub invalid_time : Bool
  pub not_in_audience : Bool
  pub session_not_on_or_after : Option ℕ

-- A request for `/saml/acs/{id}`, with what comes from outside while it is handled: the check of
-- the assertion by the library, the random string and the UUID.
pub record AcsRequest (Certificate : Type 0) : Type 0 where
  pub provider_id : String
  pub parse_form : Result Done
  pub method : String
  pub saml_response : String
  pub retrieve_assertion_info : ServiceProvider Certificate → String → Result AssertionInfo
  pub random_string : Result String
  pub uuid : String

-- The error with its status, or the redirection.
pub data Reply : Type 0 where
  refused : ℕ → String → Reply
  found : (location : String) → Reply

module _ {Certificate : Type 0} where
  -- The code after a valid assertion.
  unfoldable pub start_session :
      AcsRequest Certificate → AssertionInfo → Saml Certificate → Run Reply × Saml Certificate
  start_session request info s = elim info.session_not_on_or_after [
    | none ↦ (panics "nil pointer dereference", s)
    | some not_after ↦ elim request.random_string [
      | err e ↦ (returns (refused 403 ("saml error: could not create session: " +++ e)), s)
      | ok random ↦
          let key : SessionKey = record {
            provider_id = request.provider_id;
            session_id = random;
          } in
          let user : AuthenticatedUser = record {
            id = request.uuid;
            login = info.name_id;
            expires_at = not_after;
          } in
          (
            returns (found ("/callback/saml/" +++ request.provider_id +++ "?code=" +++ random)),
            record s { sessions = create_session key user s.sessions },
          )
    ]
  ]

  -- The code after the provider was loaded.
  unfoldable pub consume_assertion :
      AcsRequest Certificate → Saml Certificate → Run Reply × Saml Certificate
  unfolding start_session
  consume_assertion request s = elim request.parse_form [
    | err e ↦ (returns (refused 400 ""), s)
    | ok _ ↦
        if not (request.method == "POST")
        then (returns (refused 403 "saml error: not a POST request"), s)
        else if request.saml_response == ""
        then (returns (refused 403 "saml error: empty SAMLResponse"), s)
        else elim (lookup request.provider_id s.service_provider) [
          | none ↦ (returns (refused 403 "saml error: can't find provider with specified id"), s)
          | some none ↦ (panics "nil pointer dereference", s)
          | some (some sp) ↦ elim (request.retrieve_assertion_info sp request.saml_response) [
            | err e ↦ (returns (refused 403 ("saml error: " +++ e)), s)
            | ok info ↦
                if info.invalid_time
                then (returns (refused 403 "saml error: invalid time"), s)
                else if info.not_in_audience
                then (returns (refused 403 "saml error: incorrect audience"), s)
                else start_session request info s
          ]
        ]
  ]

module _ {Certificate : Type 0} (libs : Libraries Certificate) where
  -- samlHandler
  unfoldable pub saml_handler :
      AcsRequest Certificate → Saml Certificate → Run Reply × Saml Certificate
  unfolding get_provider_by_id ensure_sp_loaded consume_assertion
  saml_handler request s =
      if request.provider_id == ""
      then (returns (refused 403 "saml error: no provider specified"), s)
      else elim (get_provider_by_id request.provider_id s.providers) [
        | err e ↦
            (returns (refused 403 ("saml error: can't find provider with specified id: " +++ e)), s)
        | ok provider ↦
            let (r, s') = ensure_sp_loaded libs provider s in
            elim r [
              | panics m ↦ (panics m, s')
              | returns (err e) ↦
                  (returns (refused 400 ("saml error: invalid saml configuration: " +++ e)), s')
              | returns (ok _) ↦ consume_assertion request s'
            ]
      ]
