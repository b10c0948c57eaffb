-- ===== src/Rest/SignOn.antt =====
-- rest/auth.go, the part of single sign-on: the state of its handlers, their answers, and the
-- callback of SAML. Responses of these types can always be marshalled.
pub mod Oidc
pub mod Methods
pub mod Providers
pub mod SamlGranted
pub mod Granted
pub mod Addresses
use go_devops_platform.Base.{
  ℕ, String, Bool, true, List, Option, none, some, Result, ok, err, Run, returns, panics,
  if◌then◌else◌, ◌==◌, find_last,
}
use go_devops_platform.Base.Int.{ℤ}
use go_devops_platform.Base.Text.{◌+++◌}
use go_devops_platform.Storage.{Bytes, Iface}
use go_devops_platform.Users.Types.{User, World, Env}
use go_devops_platform.Login.Authenticate.{LoginResponse, no_response}
use go_devops_platform.Oidc.Types.{OidcProvider, Store, Http}
use go_devops_platform.Oidc.Token.{Tokens}
use go_devops_platform.Scim.{UserHooks}
use go_devops_platform.Saml.{Provider, AuthenticatedUser, get_authenticated_user}
use go_devops_platform.Saml.ServiceProvider.{Saml, Libraries}
use go_devops_platform.Rest.Config.{write_config}
use go_devops_platform.Rest.Accounts.{add_or_modify_external_user}

-- The part of `Context` that these handlers use. The SAML service holds pointers to the hostname,
-- the protocol and the SAML providers of the context, so they stand in `saml` alone.
pub record Portal (Certificate Disk : Type 0) : Type 0 where
  pub world : World Disk
  pub oidc_providers : List OidcProvider
  pub oidc_store : Store
  pub saml : Saml Certificate
  pub local_auth_disabled : Bool
  pub license_user_count : ℤ

-- What comes from outside while one request is handled: the libraries, the time in nanoseconds,
-- also after a fetch, and in seconds, a fresh UUID, and the signing of a token until a time.
pub record Outside (Certificate PublicKey : Type 0) : Type 0 where
  pub libs : Libraries Certificate
  pub tokens : Tokens PublicKey
  pub http : Http
  pub now : ℕ
  pub later : ℕ
  pub seconds : ℕ
  pub uuid : String
  pub sign : (login role : String) (expires_at : ℕ) → Result String

-- AuthMethodsProvider
pub record MethodProvider : Type 0 where
  pub id : String
  pub name : String
  pub redirect_uri : String

-- OIDCCallback and SAMLCallback; a SAML callback has no state.
pub record Callback : Type 0 where
  pub code : String
  pub state : String
  pub redirect_uri : String

pub data Reply : Type 0 where
  refused : ℕ → String → Reply
  logged_in : LoginResponse → Reply
  providers : List OidcProvider → Reply
  provider : OidcProvider → Reply
  methods : (local_auth_disabled : Bool) → List MethodProvider → Reply
  method : MethodProvider → Reply
  redirect : String → Reply
  deleted : String → Reply
  done : Reply
  -- No response is written: the status is 200 and the body is empty.
  silent : Reply

module _ {Certificate PublicKey : Type 0} (out : Outside Certificate PublicKey) where
  -- The response for a user who was added or found.
  unfoldable pub saml_response : User → AuthenticatedUser → Reply
  saml_response user session = elim (out.sign user.login user.role session.expires_at) [
    | err e ↦ refused 400 ("token generation failed: " +++ e)
    | ok token ↦
        logged_in
          (record no_response { authenticated = true; suspended = user.suspended; token = token })
  ]

module _ {Certificate PublicKey Disk : Type 0} (storage : Iface Disk) (env : Env)
    (hooks : UserHooks Disk) (out : Outside Certificate PublicKey) where
  -- authMethodsByID, for POST with the method saml
  unfoldable pub saml_callback :
      String → Result Callback → Portal Certificate Disk → Reply × Portal Certificate Disk
  unfolding get_authenticated_user add_or_modify_external_user saml_response
  saml_callback id (err e) s = (refused 400 ("decode input error: " +++ e), s)
  saml_callback id (ok callback) s =
      if callback.code == ""
      then (refused 400 "no code provided", s)
      else elim (find_last (λ p. p.id == id) s.saml.providers) [
        | none ↦ (refused 400 "saml provider not found", s)
        | some p ↦
            if p.id == ""
            then (refused 400 "saml provider not found", s)
            else elim (get_authenticated_user p callback.code out.now s.saml.sessions) [
              | err e ↦ (refused 400 "saml session not found", s)
              | ok session ↦
                  let (r, w) =
                    add_or_modify_external_user storage env hooks out.seconds session.login "saml"
                      session.id s.world in
                  elim r [
                    | err e ↦ (
                      refused 400 ("couldn't add/modify user in database: " +++ e),
                      record s { world = w },
                    )
                    | ok user ↦ (saml_response out user session, record s { world = w })
                  ]
            ]
      ]

module _ {Certificate Disk : Type 0} (storage : Iface Disk) (env : Env)
    (marshal_config : Portal Certificate Disk → Result Bytes) where
  -- SaveConfig, and the answer if there is no error.
  unfoldable pub save_and : Reply → Portal Certificate Disk → Reply × Portal Certificate Disk
  unfolding write_config
  save_and reply s =
      let (r, d) = write_config storage env (marshal_config s) s.world.disk in
      let s' : Portal Certificate Disk = record s { world = record s.world { disk = d } } in
      let answer : Reply = elim r [
        | err e ↦ refused 400 ("saveConfig error: " +++ e)
        | ok _ ↦ reply
      ] in
      (answer, s')
