-- ===== src/Scim.antt =====
-- auth/provisioning/scim: users are provisioned by an identity provider, over HTTP. The routes, the
-- check of the token and the handlers. encoding/json is outside: a request comes with its body
-- decoded, and a response has its body as a value.
pub mod Seats
pub mod Update
pub mod Paging
use go_devops_platform.Base.{
  ℕ, ◌+◌, String, Bool, true, false, List, [], ◌∷◌, ◌++◌, map, Option, none, some, Result, ok, err,
  Done, Action, not, ◌&&◌, ltb, if◌then◌else◌, ◌==◌, length, take, drop,
}
use go_devops_platform.Base.Int.{ℤ, pos, negsuc, pos_part, ◌-ℤ◌, ltb_ℤ, leb_ℤ, eqb_ℤ}
use go_devops_platform.Base.Text.{◌+++◌, has_prefix, replace_all, split, trim, lower_is}
use go_devops_platform.Storage.{Iface}
use go_devops_platform.Users.Types.{User, no_user, World, Env}
use go_devops_platform.Users.Model.{
  list_users, add_user, get_user_by_id, get_user_by_login, login_exists,
}
use go_devops_platform.Users.Change.{delete_user_by_id, update_user, user_count, get_max_users}

pub record UserResource : Type 0 where
  pub id : String
  pub user_name : String

pub record UserResponse : Type 0 where
  pub total_results : ℕ
  pub items_per_page : ℕ
  pub start_index : ℤ
  pub schemas : List String
  pub resources : List UserResource

pub record Email : Type 0 where
  pub primary : Bool
  pub value : String
  pub kind : String

-- PostUserRequest, without the fields that no handler reads or writes (name, displayName, locale,
-- groups and password).
pub record PostUserRequest : Type 0 where
  pub schemas : List String
  pub user_name : String
  pub id : String
  pub emails : List Email
  pub external_id : String
  pub active : Bool

-- The body of a response.
pub data Body : Type 0 where
  page : UserResponse → Body
  resource : PostUserRequest → Body
  message : String → Body

pub record Response : Type 0 where
  pub status : ℕ
  pub body : Body

-- The query of a request; `none` where strconv.Atoi fails.
pub record Query : Type 0 where
  pub filter : String
  pub count : Option ℤ
  pub start_index : Option ℤ

-- users.UserHooks: what the program that is built on the platform does.
pub record UserHooks (Disk : Type 0) : Type 0 where
  pub disable_func : User → Action Disk Done
  pub reactivate_func : User → Action Disk Done
  pub delete_func : User → Action Disk Done

abbrev pub get_schemas : String → List String
get_schemas response_type =
    if response_type == "User"
    then "urn:ietf:params:scim:schemas:core:2.0:User" ∷ []
    else ("urn:ietf:params:scim:api:messages:2.0:" +++ response_type) ∷ []

-- The value of the last primary address, or `username`.
abbrev pub primary_email : String → List Email → String
primary_email username [] = username
primary_email username (email ∷ emails) =
    primary_email (if email.primary then email.value else username) emails

unfoldable pub get_username : PostUserRequest → String
get_username request =
    if request.user_name == "" then primary_email "" request.emails else request.user_name

unfoldable pub user_response : User → PostUserRequest
user_response user = record {
  schemas = get_schemas "User";
  user_name = user.login;
  id = user.id;
  emails = [];
  external_id = "";
  active = not user.suspended;
}

abbrev pub as_resource : User → UserResource
as_resource u = record { id = u.id; user_name = u.login }

-- `none` where the slice expression panics.
unfoldable pub list_user_response : List User → ℤ → ℤ → Option UserResponse
list_user_response users count start =
    let from : List User =
      if not (eqb_ℤ start (negsuc 0)) && (ltb_ℤ (pos 1) start && leb_ℤ start (pos (length users)))
      then drop (pos_part start) users
      else users in
    let is_cut : Bool = ltb_ℤ count (pos (length from)) && not (eqb_ℤ count (negsuc 0)) in
    let listed : List User = if is_cut then take (pos_part count) from else from in
    if is_cut && ltb_ℤ count (pos 0)
    then none
    else some (record {
      total_results = length from;
      items_per_page = length listed;
      start_index = start;
      schemas = get_schemas "ListResponse";
      resources = map as_resource listed;
    })

abbrev pub reply : ℕ → String → Response
reply status text = record { status = status; body = message text }

-- returnError with the status 400
abbrev pub return_error : String → Response
return_error e = reply 400 ("{\"error\": \"" +++ (e +++ "\"}"))

abbrev pub write_page : Option UserResponse → Option Response
write_page none = none
write_page (some p) = some (record { status = 200; body = page p })

-- The path below /api/scim/: /v2/Users, /v2/Users/{id} or another one.
pub data Route : Type 0 where
  all_users : Route
  one_user : String → Route
  elsewhere : Route

pub data Method : Type 0 where
  get put post delete other : Method

-- `authorization` is the header, `payload` what the decoder makes of the body.
pub record Request : Type 0 where
  pub authorization : String
  pub route : Route
  pub method : Method
  pub query : Query
  pub payload : Result PostUserRequest

-- What authMiddleware answers to a request that it keeps back.
unfoldable pub refusal : String → String → Option Response
unfolding has_prefix replace_all
refusal token authorization =
    let token_string = replace_all authorization "Bearer " "" in
    if not (has_prefix authorization "Bearer ")
    then some (reply 401 "{\"error\": \"token not found\"}")
    else if token_string == ""
    then some (reply 401 "{\"error\": \"empty token\"}")
    else if token == ""
    then some (reply 401 "{\"error\": \"scim not active\"}")
    else if token == token_string
    then none
    else some (reply 401 "{\"error\": \"authentication failed\"}")

module _ {Disk : Type 0} (storage : Iface Disk) (env : Env) where
  unfoldable pub get_users_with_filter : String → World Disk → Result (Option UserResponse)
  unfolding list_user_response login_exists get_user_by_login
  get_users_with_filter filter w = elim (split b' ' filter) [
    | attribute ∷ operator ∷ value ∷ [] ↦
        if lower_is attribute "username"
          && (lower_is operator "eq" && login_exists storage env (trim b'"' value) w)
        then elim (get_user_by_login storage env (trim b'"' value) w) [
          | err e ↦ err ("get user by login error: " +++ e)
          | ok user ↦ ok (list_user_response (user ∷ []) (negsuc 0) (negsuc 0))
        ]
        else ok (list_user_response [] (negsuc 0) (negsuc 0))
    | _ ↦ err "invalid filter"
  ]

  -- GetUsersHandler; `none` is a panic, which net/http turns into a closed connection.
  unfoldable pub get_users_handler : Query → World Disk → Option Response
  unfolding get_users_with_filter list_user_response list_users
  get_users_handler query w =
      let count : ℤ = elim query.count [ none ↦ negsuc 0 | some n ↦ n ] in
      let start : ℤ = elim query.start_index [ none ↦ pos 1 | some n ↦ n ] in
      if not (query.filter == "")
      then elim (get_users_with_filter query.filter w) [
        | err e ↦ some (return_error ("get user with filter error: " +++ e))
        | ok p ↦ write_page p
      ]
      else write_page (list_user_response (list_users storage env w) count start)

  unfoldable pub post_users_handler : Result PostUserRequest → World Disk → Response × World Disk
  unfolding get_username add_user login_exists user_count get_max_users
  post_users_handler (err e) w = (return_error "unable to decode request payload", w)
  post_users_handler (ok request) w =
      let username = get_username request in
      if login_exists storage env username w
      then (reply 409 "user already exists", w)
      else if leb_ℤ (get_max_users storage env w -ℤ pos (user_count storage env w)) (pos 0)
      then (reply 400 "no license available to add new user", w)
      else let (r, w') =
          add_user storage env
            (record no_user {
              login = username;
              role = "user";
              provisioned = true;
              external_id = request.external_id;
            })
            w in
        elim r [
          | err e ↦ (return_error ("unable to add user: " +++ e), w')
          | ok user ↦ (record { status = 201; body = resource (user_response user) }, w')
        ]

  module _ (hooks : UserHooks Disk) where
    -- The hook that a request calls for the user it found, if it calls one.
    abbrev pub hook : Bool → User → Action Disk Done
    hook active user =
        if not active && not user.suspended
        then hooks.disable_func user
        else if active && user.suspended
        then hooks.reactivate_func user
        else λ d. (ok tt, d)

    -- The user's fields that a request changes: the login only when it is free.
    abbrev pub changed : PostUserRequest → User → World Disk → User
    changed request user w =
        let username = get_username request in
        let is_free : Bool =
          not (user.login == username) && not (login_exists storage env username w) in
        record user {
          suspended = not request.active;
          login = if is_free then username else user.login;
        }

    unfoldable pub put_user_handler :
        String → Result PostUserRequest → World Disk → Response × World Disk
    unfolding get_username get_user_by_id login_exists update_user
    put_user_handler id body w = elim (get_user_by_id storage env id w) [
      | err e ↦ (return_error ("get user by id error: " +++ e), w)
      | ok user ↦ elim body [
        | err e ↦ (return_error "unable to decode request payload", w)
        | ok request ↦
            let (called, d) = hook request.active user w.disk in
            let hooked : World Disk = record w { disk = d } in
            elim called [
              | err e ↦ (return_error ("the clients could not be changed: " +++ e), hooked)
              | ok _ ↦
                  let user' : User = changed request user hooked in
                  let (r, w') = update_user storage env user' hooked in
                  elim r [
                    | err e ↦ (return_error ("user update error: " +++ e), w')
                    | ok _ ↦ (record { status = 200; body = resource (user_response user') }, w')
                  ]
            ]
      ]
    ]

    unfoldable pub delete_user_handler : String → World Disk → Response × World Disk
    unfolding get_user_by_id delete_user_by_id
    delete_user_handler id w = elim (get_user_by_id storage env id w) [
      | err e ↦ (return_error ("get user by id error: " +++ e), w)
      | ok user ↦
          let (called, d) = hooks.delete_func user w.disk in
          let hooked : World Disk = record w { disk = d } in
          elim called [
            | err e ↦ (return_error ("could not delete all clients: " +++ e), hooked)
            | ok _ ↦
                let (r, w') = delete_user_by_id storage env user.id hooked in
                elim r [
                  | err e ↦ (return_error ("user update error: " +++ e), w')
                  | ok _ ↦ (reply 200 "", w')
                ]
          ]
    ]

    -- usersHandler, userHandler and notFoundHandler
    unfoldable pub handle : Request → World Disk → Option Response × World Disk
    unfolding get_users_handler post_users_handler put_user_handler delete_user_handler
    handle request w = elim request.route [
      | elsewhere ↦ (some (reply 404 "{\"error\": \"page not found\"}"), w)
      | all_users ↦ elim request.method [
        | get ↦ (get_users_handler request.query w, w)
        | post ↦ let (r, w') = post_users_handler request.payload w in (some r, w')
        | _ ↦ (some (return_error "method not supported"), w)
      ]
      | one_user id ↦ elim request.method [
        | get ↦ (get_users_handler request.query w, w)
        | put ↦ let (r, w') = put_user_handler id request.payload w in (some r, w')
        | delete ↦ let (r, w') = delete_user_handler id w in (some r, w')
        | _ ↦ (some (return_error "method not supported"), w)
      ]
    ]

    unfoldable pub serve : String → Request → World Disk → Option Response × World Disk
    unfolding refusal handle
    serve token request w = elim (refusal token request.authorization) [
      | some r ↦ (some r, w)
      | none ↦ handle request w
    ]

    abbrev pub serve_all : String → List Request → World Disk → World Disk
    serve_all token [] w = w
    serve_all token (request ∷ requests) w = serve_all token requests (serve token request w).1
