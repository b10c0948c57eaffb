-- ===== src/Tests/Access.antt =====
-- The middleware at a concrete request.
use go_devops_platform.Base.{ℕ, ◌≡◌, refl, Bool, true, false, [], ◌∷◌, none, ok, returns}
use go_devops_platform.Base.Int.{pos}
use go_devops_platform.Base.Map.{insert, lookup}
use go_devops_platform.Storage.Memory.{memory, MemoryStorage}
use go_devops_platform.Oidc.Store.{empty_store}
use go_devops_platform.Rest.Middleware.{Gate, Request, Passage, Handler, served}
use go_devops_platform.Rest.Middleware.Chain.{admin_route}
use go_devops_platform.Rest.Middleware.Admin.{IsGuarded, admin_route-IsGuarded}
use go_devops_platform.Tests.Data.{ann, env, world}
use go_devops_platform.Tests.SignOn.{tokens, http, Signed, tokens-ParsesSigned}

-- The key ID "k" is the server's own.
abbrev gate : Gate ℕ MemoryStorage
gate = record {
  setup_completed = true;
  jwt_keys_kid = "k";
  public_key = 1;
  oidc_providers = [];
  oidc_store = empty_store;
  world = world (record ann { login = "bob" } ∷ []);
  hostname = "";
  protocol = "";
  redirect_to_https = false;
  enable_scim = false;
  license_user_count = pos 3;
}

abbrev request : Request
request = record {
  http_method = "GET";
  path = "/api/users";
  host = "vpn";
  request_uri = "/api/users";
  is_tls = true;
  authorization = "Bearer h.c.s";
  request_headers = "";
  claims = none;
  user = none;
  license_user_count = none;
}

abbrev passage : Passage ℕ
passage = record {
  tokens = tokens;
  http = http;
  now = 5;
  later = 6;
  order = [];
  decode_base64 = λ s. ok [];
  decode_kid = λ b. ok "k";
}

admin_route-IsGuarded_example :
    IsGuarded memory env Bool passage Signed tokens-ParsesSigned request gate
admin_route-IsGuarded_example =
    admin_route-IsGuarded memory env Bool passage Signed tokens-ParsesSigned request gate

abbrev handler : Handler ℕ MemoryStorage Bool
handler r s = (returns (served true), s)

-- The handler is reached.
admin_route_test : (admin_route memory env passage handler request gate).0 ≡ returns (served true)
unfolding admin_route lookup insert
admin_route_test = refl
