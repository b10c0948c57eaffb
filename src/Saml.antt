-- ===== src/Saml.antt =====
-- auth/saml/types.go, provider.go and session.go: the providers of the configuration, the loaded
-- service providers, and the sessions of the users who signed in. Times are in nanoseconds.
pub mod Metadata
pub mod ServiceProvider
pub mod KeyPair
pub mod Handler
pub mod Sessions
use go_devops_platform.Base.{
  ℕ, ◌≡◌, refl, String, Bool, List, [], ◌∷◌, Option, none, some, Result, ok, err, ◌&&◌, ltb,
  if◌then◌else◌, ◌==◌, eq_iff, arith, find,
}

-- saml.Provider
pub record Provider : Type 0 where
  pub id : String
  pub name : String
  pub metadata_url : String
  pub issuer : String
  pub audience : String
  pub acs : String
  pub allow_missing_attributes : Bool

-- saml.AuthenticatedUser
pub record AuthenticatedUser : Type 0 where
  pub id : String
  pub login : String
  pub expires_at : ℕ

-- saml.SessionKey
pub record SessionKey : Type 0 where
  pub provider_id : String
  pub session_id : String

abbrev pub same_key : SessionKey → SessionKey → Bool
same_key a b = a.provider_id == b.provider_id && a.session_id == b.session_id

-- `map[SessionKey]AuthenticatedUser`
abbrev pub Sessions : Type 0
Sessions = List (SessionKey × AuthenticatedUser)

-- `user, ok := sessions[key]`
unfoldable pub lookup_session : SessionKey → Sessions → Option AuthenticatedUser
lookup_session key [] = none
lookup_session key ((at, user) ∷ rest) =
    if same_key at key then some user else lookup_session key rest

-- CreateSession
unfoldable pub create_session : SessionKey → AuthenticatedUser → Sessions → Sessions
create_session key user [] = (key, user) ∷ []
create_session key user ((at, old) ∷ rest) =
    if same_key at key then (key, user) ∷ rest else (at, old) ∷ create_session key user rest

pub lookup_session-create_session :
    (key other : SessionKey) (user : AuthenticatedUser) (sessions : Sessions)
    → lookup_session other (create_session key user sessions)
      ≡ (if same_key key other then some user else lookup_session other sessions)
unfolding lookup_session create_session
lookup_session-create_session key other user [] = refl
lookup_session-create_session key other user ((at, old) ∷ rest) = ground (
  arith,
  lookup_session-create_session key other user rest,
  eq_iff key.provider_id other.provider_id,
  eq_iff key.session_id other.session_id,
  eq_iff at.provider_id key.provider_id,
  eq_iff at.session_id key.session_id,
  eq_iff at.provider_id other.provider_id,
  eq_iff at.session_id other.session_id,
)

-- getProviderByID
unfoldable pub get_provider_by_id : String → List Provider → Result Provider
get_provider_by_id id providers = elim (find (λ p. p.id == id) providers) [
  | none ↦ err "provider not found"
  | some p ↦ ok p
]

-- GetAuthenticatedUser, at the time `now`. The user that comes back with the error of an expired
-- session is not read by any caller.
unfoldable pub get_authenticated_user : Provider → String → ℕ → Sessions → Result AuthenticatedUser
get_authenticated_user provider session_id now sessions =
    elim (lookup_session (record { provider_id = provider.id; session_id = session_id }) sessions) [
      | none ↦ err "session not found"
      | some user ↦ if ltb user.expires_at now then err "session is expired" else ok user
    ]
