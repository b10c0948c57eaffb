-- ===== src/Rest/SignOn/Oidc.antt =====
-- rest/auth.go: the callback of OpenID Connect.
use go_devops_platform.Base.{
  String, true, none, some, Result, ok, err, Run, returns, panics, not, ◌&&◌, if◌then◌else◌, ◌==◌,
  find,
}
use go_devops_platform.Base.Int.{pos, leb_ℤ}
use go_devops_platform.Base.Text.{◌+++◌}
use go_devops_platform.Storage.{Bytes, Iface}
use go_devops_platform.Users.Types.{User, Env}
use go_devops_platform.Users.Change.{user_count}
use go_devops_platform.Login.Authenticate.{LoginResponse, no_response}
use go_devops_platform.Oidc.Types.{OidcProvider, OAuthData, Store}
use go_devops_platform.Oidc.Store.{get_discovery_uri, get_jwks, save_oauth2_data}
use go_devops_platform.Oidc.Cleanup.{cleanup_oauth2_data}
use go_devops_platform.Oidc.Token.{retrieve_oauth2_data_using_state, update_oauth2_data_with_token}
use go_devops_platform.Scim.{UserHooks}
use go_devops_platform.Rest.Accounts.{add_or_modify_external_user}
use go_devops_platform.Rest.SignOn.{Portal, Outside, Callback, Reply, refused, logged_in, save_and}

-- The entry as it is saved, and the response.
abbrev pub with_suspension : User → OAuthData → OAuthData
with_suspension user entry = record entry { suspended = user.suspended }

abbrev pub new_token : User → OAuthData → LoginResponse
new_token user entry =
    if user.suspended
    then record no_response { suspended = true }
    else record no_response { authenticated = true; token = entry.token.access_token }

module _ {Certificate Disk : Type 0} (storage : Iface Disk) (env : Env) where
  -- The response where the entry of the state has a token.
  unfoldable pub known_token : OAuthData → Portal Certificate Disk → LoginResponse
  unfolding user_count
  known_token entry s =
      if entry.suspended
      then record no_response { suspended = true }
      else if leb_ℤ (pos (user_count storage env s.world)) s.license_user_count
      then record no_response { no_license = true }
      else record no_response { authenticated = true; token = entry.token.access_token }

module _ {Certificate PublicKey Disk : Type 0} (storage : Iface Disk) (env : Env) where
  module _ (hooks : UserHooks Disk) (out : Outside Certificate PublicKey)
      (marshal_config : Portal Certificate Disk → Result Bytes)
      (marshal_store : Store → Result Bytes) where
    -- The code after the user is known: the entry is saved, older ones are deleted.
    unfoldable pub save_sign_on :
        String → User → OAuthData → Portal Certificate Disk → Reply × Portal Certificate Disk
    unfolding save_oauth2_data cleanup_oauth2_data save_and
    save_sign_on state user updated s =
        let entry : OAuthData = with_suspension user updated in
        let (saved, store, d) =
          save_oauth2_data storage marshal_store entry state s.oidc_store s.world.disk in
        let stored : Portal Certificate Disk = record s {
          oidc_store = store;
          world = record s.world { disk = d };
        } in
        elim saved [
          | err e ↦ (refused 400 ("oidc store save failed: " +++ e), stored)
          | ok _ ↦
              save_and storage env marshal_config (logged_in (new_token user entry))
                (record stored { oidc_store = (cleanup_oauth2_data out.now entry store).1 })
        ]

    -- The code after the exchange of the code for a token.
    unfoldable pub sign_on :
        String → OAuthData → Portal Certificate Disk → Reply × Portal Certificate Disk
    unfolding add_or_modify_external_user save_sign_on
    sign_on state updated s =
        let (r, w) =
          add_or_modify_external_user storage env hooks out.seconds updated.email "oidc" updated.id
            s.world in
        elim r [
          | err e ↦
              (refused 400 ("couldn't add/modify user in database: " +++ e), record s { world = w })
          | ok user ↦ save_sign_on state user updated (record s { world = w })
        ]

    -- The code where the entry of the state has no token.
    unfoldable pub fetch_token :
        Callback
        → OidcProvider
        → OAuthData
        → Portal Certificate Disk
        → Run Reply × Portal Certificate Disk
    unfolding get_discovery_uri get_jwks update_oauth2_data_with_token sign_on
    fetch_token callback p entry s =
        let (found, discovered) =
          get_discovery_uri out.http out.now out.later p.discovery_uri s.oidc_store in
        let s1 : Portal Certificate Disk = record s { oidc_store = discovered } in
        elim found [
          | err e ↦ (returns (refused 400 ("getDiscoveryURI error: " +++ e)), s1)
          | ok discovery ↦
              let (keys, keyed) =
                get_jwks out.http out.now out.later discovery.jwks_uri discovered in
              let s2 : Portal Certificate Disk = record s { oidc_store = keyed } in
              elim keys [
                | err e ↦ (returns (refused 400 ("get jwks error: " +++ e)), s2)
                | ok jwks ↦
                    elim (update_oauth2_data_with_token out.tokens out.http out.later jwks discovery
                      p.client_id p.client_secret
                      (s.saml.protocol +++ "://" +++ s.saml.hostname +++ callback.redirect_uri)
                      callback.code entry) [
                        | panics m ↦ (panics m, s2)
                        | returns (err e) ↦
                            (returns (refused 400 ("GetTokenFromCode error: " +++ e)), s2)
                        | returns (ok updated) ↦
                            let (reply, s3) = sign_on callback.state updated s2 in
                            (returns reply, s3)
                      ]
              ]
        ]

    -- authMethodsByID, for POST with any method but saml
    unfoldable pub oidc_callback :
        String → Result Callback → Portal Certificate Disk → Run Reply × Portal Certificate Disk
    unfolding retrieve_oauth2_data_using_state known_token fetch_token
    oidc_callback id (err e) s = (returns (refused 400 ("decode input error: " +++ e)), s)
    oidc_callback id (ok callback) s =
        elim (find (λ p. p.id == id && not (callback.code == "")) s.oidc_providers) [
          | none ↦ (returns (refused 400 "oidc provider not found"), s)
          | some p ↦
              elim (retrieve_oauth2_data_using_state s.oidc_store.oauth2_data callback.state) [
                | err e ↦ (
                  returns (refused 400 ("cannot find oauth2 data using state provided: " +++ e)),
                  s,
                )
                | ok entry ↦
                    if not (entry.token.access_token == "")
                    then (returns (logged_in (known_token storage env entry s)), s)
                    else fetch_token callback p entry s
              ]
        ]
