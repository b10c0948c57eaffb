-- ===== src/Tests/Provisioning.antt =====
-- Provisioning at concrete inputs.
use go_devops_platform.Base.{
  ◌≡◌, refl, String, true, false, List, [], ◌∷◌, map, none, some, ok, err, find, arith, eq_iff,
}
use go_devops_platform.Base.Int.{ℤ}
use go_devops_platform.Storage.Memory.{MemoryStorage, memory, empty}
use go_devops_platform.Users.Types.{User, has_login}
use go_devops_platform.Scim.{
  UserHooks, PostUserRequest, UserResponse, Request, Route, Method, get_username, put_user_handler,
  serve_all, as_resource,
}
use go_devops_platform.Scim.Seats.{Fits, serve_all-Fits}
use go_devops_platform.Scim.Update.{put_user_handler_suspends, put_user_handler_rename}
use go_devops_platform.Tests.Data.{ann, bob, env, world}

abbrev hooks : UserHooks MemoryStorage
hooks = record {
  disable_func = λ u d. (ok tt, d);
  reactivate_func = λ u d. (ok tt, d);
  delete_func = λ u d. (ok tt, d);
}

-- A body that names a login.
abbrev body : String → PostUserRequest
body name = record {
  schemas = [];
  user_name = name;
  id = "";
  emails = [];
  external_id = "";
  active = false;
}

abbrev two : List User
two = ann ∷ bob ∷ []

abbrev requests : List Request
requests =
    record {
      authorization = "Bearer t";
      route = Route.all_users;
      method = Method.post;
      query = record { filter = ""; count = none; start_index = none };
      payload = ok (body "carl");
    }
    ∷ record {
      authorization = "Bearer t";
      route = Route.one_user "1";
      method = Method.delete;
      query = record { filter = ""; count = none; start_index = none };
      payload = err "no body";
    }
    ∷ []

serve_all-Fits_example : Fits (serve_all memory env hooks "t" requests (world two))
serve_all-Fits_example =
    serve_all-Fits memory env hooks "t" requests (world two) (omega arith, (refl, (refl, tt)))

put_user_handler_suspends_example :
    find
      (has_login "ann")
      (put_user_handler memory env hooks "1" (ok (body "ann")) (world two)).1.users
    ≡ some (record ann { suspended = true })
unfolding get_username
put_user_handler_suspends_example =
    put_user_handler_suspends memory env hooks "1" (body "ann") ann (world two) "ann"
      (refl, (refl, tt)) refl refl

put_user_handler_rename_example :
    let (response, w') = put_user_handler memory env hooks "1" (ok (body "anna")) (world two) in
    (response.status ≡ 400) × (w'.users ≡ two) × (w'.disk ≡ empty)
unfolding get_username
put_user_handler_rename_example =
    put_user_handler_rename memory env hooks "1" (body "anna") ann (world two) refl
      (λ e. ground (arith, e, eq_iff "anna" "ann")) refl

-- A page that starts at the first user, and the one after it.
abbrev page : List User → ℤ → UserResponse
page us start = record {
  total_results = 3;
  items_per_page = 1;
  start_index = start;
  schemas = "urn:ietf:params:scim:api:messages:2.0:ListResponse" ∷ [];
  resources = map as_resource us;
}

abbrev three : List User
three = ann ∷ bob ∷ record bob { id = "3"; login = "carl" } ∷ []
