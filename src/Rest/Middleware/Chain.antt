-- ===== src/Rest/Middleware/Chain.antt =====
-- rest/middleware.go and rest/router.go: the middleware around a handler, and the chains in which
-- the router puts it. A handler is a function of the request and the state.
use go_devops_platform.Base.{
  String, List, [], ◌∷◌, none, some, Result, ok, err, Run, returns, panics, not, ◌&&◌,
  if◌then◌else◌, ◌==◌,
}
use go_devops_platform.Base.Map.{lookup}
use go_devops_platform.Base.Text.{◌+++◌, has_prefix}
use go_devops_platform.Storage.{Iface}
use go_devops_platform.Users.Types.{User, Env}
use go_devops_platform.Users.Model.{get_user_by_login, get_user_by_oidc_ids}
use go_devops_platform.Oidc.Types.{Store}
use go_devops_platform.Oidc.Token.{Claim, text, other, Claims}
use go_devops_platform.Rest.Middleware.{
  Gate, Passage, denied, moved, no_content, served, Handler, is_text, authenticate_request,
}

-- The IDs of the entries with the issuer and the subject, in the order of the map.
unfoldable pub ids_of_subject : Claim → Claim → List String → Store → List String
ids_of_subject iss sub [] store = []
ids_of_subject iss sub (key ∷ order) store =
    let rest = ids_of_subject iss sub order store in
    elim (lookup key store.oauth2_data) [
      | none ↦ rest
      | some e ↦ if is_text iss e.issuer && is_text sub e.subject then e.id ∷ rest else rest
    ]

module _ {PublicKey Disk : Type 0} (storage : Iface Disk) (env : Env) where
  -- The user of a token that is signed locally; the assertion that the subject is a text may fail.
  unfoldable pub local_user : Claim → Gate PublicKey Disk → Run (Result User)
  unfolding get_user_by_login
  local_user other s = panics "interface conversion"
  local_user (text login) s = elim (get_user_by_login storage env login s.world) [
    | err e ↦ returns (err "GetUserByLogin: user not found")
    | ok user ↦ returns (ok user)
  ]

  -- The user of an ID token.
  unfoldable pub oidc_user : List String → Gate PublicKey Disk → Result User
  unfolding get_user_by_oidc_ids
  oidc_user [] s = err "userinfoHandler: couldn't find user in oidc database"
  oidc_user (id ∷ ids) s = elim (get_user_by_oidc_ids storage env (id ∷ ids) s.world) [
    | err e ↦ err ("get user by oidc id failed: " +++ e)
    | ok user ↦ ok user
  ]

  -- GetUserFromRequest; `order` is the order in which Go ranges over the entries.
  unfoldable pub get_user_from_request :
      List String → Claims → Gate PublicKey Disk → Run (Result User)
  unfolding local_user oidc_user ids_of_subject
  get_user_from_request order claims s = elim (lookup "sub" claims) [
    | none ↦ returns (err "userinfoHandler: subject not found in token")
    | some sub ↦ elim (lookup "iss" claims) [
      | none ↦ returns (err "userinfoHandler: issuer not found in token")
      | some iss ↦ elim (lookup "kid" claims) [
        | none ↦ returns (err "userinfoHandler: kid not found in token")
        | some kid ↦
            if is_text kid s.jwt_keys_kid
            then local_user sub s
            else returns (oidc_user (ids_of_subject iss sub order s.oidc_store) s)
      ]
    ]
  ]

-- The origin of sendCorsHeaders.
unfoldable pub allow_origin : {PublicKey Disk : Type 0} → Gate PublicKey Disk → String
allow_origin s = if s.hostname == "" then "*" else s.protocol +++ "://" +++ s.hostname

module _ {PublicKey Disk A : Type 0} where
  -- isAdminMiddleware and IsAdminMiddleware
  unfoldable pub is_admin_middleware : Handler PublicKey Disk A → Handler PublicKey Disk A
  is_admin_middleware next request s = elim request.user [
    | none ↦ (returns (denied 403 "endpoint forbidden"), s)
    | some user ↦
        if not (user.role == "admin")
        then (returns (denied 403 "endpoint forbidden"), s)
        else next request s
  ]

  -- httpsRedirectMiddleware
  unfoldable pub https_redirect_middleware : Handler PublicKey Disk A → Handler PublicKey Disk A
  unfolding has_prefix
  https_redirect_middleware next request s =
      if s.redirect_to_https && not request.is_tls
      then if has_prefix request.path "/api"
        then (returns (denied 403 "non-tls requests disabled"), s)
        else (returns (moved ("https://" +++ request.host +++ request.request_uri)), s)
      else next request s

  -- isSCIMEnabled
  unfoldable pub is_scim_enabled : Handler PublicKey Disk A → Handler PublicKey Disk A
  is_scim_enabled next request s =
      if not s.enable_scim then (returns (denied 404 "SCIM Not Enabled"), s) else next request s

  -- corsMiddleware
  unfoldable pub cors_middleware : Handler PublicKey Disk A → Handler PublicKey Disk A
  unfolding allow_origin
  cors_middleware next request s =
      if request.http_method == "OPTIONS"
      then (returns (no_content (allow_origin s) request.request_headers), s)
      else next request s

  -- returnIndexOrNotFound; `index` is the answer with the page.
  unfoldable pub return_index_or_not_found : A → Handler PublicKey Disk A
  unfolding has_prefix
  return_index_or_not_found index request s =
      if not (has_prefix request.path "/api")
      then (returns (served index), s)
      else (returns (denied 404 "404 page not found"), s)

  -- authMiddleware
  unfoldable pub auth_middleware :
      Passage PublicKey → Handler PublicKey Disk A → Handler PublicKey Disk A
  unfolding authenticate_request
  auth_middleware from next request s =
      let (claims, s') = authenticate_request from request s in
      elim claims [
        | err e ↦ (returns (denied 401 e), s')
        | ok claims ↦ next (record request { claims = some claims }) s'
      ]

  module _ (storage : Iface Disk) (env : Env) (from : Passage PublicKey) where
    -- injectUserMiddleware
    unfoldable pub inject_user_middleware : Handler PublicKey Disk A → Handler PublicKey Disk A
    unfolding get_user_from_request
    inject_user_middleware next request s = elim request.claims [
      | none ↦ next request s
      | some claims ↦ elim (get_user_from_request storage env from.order claims s) [
        | panics m ↦ (panics m, s)
        | returns (err e) ↦ (returns (denied 401 ("token error: " +++ e)), s)
        | returns (ok user) ↦
            next
              (record request { user = some user; license_user_count = some s.license_user_count })
              s
      ]
    ]

    -- The chains of getRouter: a handler for users, and one for admins.
    unfoldable pub user_route : Handler PublicKey Disk A → Handler PublicKey Disk A
    unfolding auth_middleware inject_user_middleware
    user_route handler = auth_middleware from (inject_user_middleware handler)

    unfoldable pub admin_route : Handler PublicKey Disk A → Handler PublicKey Disk A
    unfolding auth_middleware inject_user_middleware is_admin_middleware
    admin_route handler =
        auth_middleware from (inject_user_middleware (is_admin_middleware handler))
