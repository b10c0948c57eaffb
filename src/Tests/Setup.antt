-- ===== src/Tests/Setup.antt =====
-- The first setup at concrete inputs.
use go_devops_platform.Base.{
  ◌≡◌, refl, String, false, [], ◌∷◌, some, Result, ok, err, find, arith, eq_iff,
}
use go_devops_platform.Base.Int.{pos}
use go_devops_platform.Base.Map.{lookup}
use go_devops_platform.Base.Text.{trim_space}
use go_devops_platform.Storage.{Bytes}
use go_devops_platform.Storage.Memory.{MemoryStorage, memory, file_exists, read_file}
use go_devops_platform.Users.Types.{User, has_login}
use go_devops_platform.Licensing.Host.{Host, no_document, no_compute}
use go_devops_platform.Rest.Setup.{ContextRequest, Site, context_handler, admin_of, cloud_access}
use go_devops_platform.Rest.Setup.Access.{context_handler_closed, context_handler_keeps_password}
use go_devops_platform.Tests.Data.{ann, env}

-- A host whose bytes all read as the code "abc".
abbrev host : Host
host = record {
  send = λ request. err "no network";
  decode_document = λ response. ok no_document;
  decode_license = λ response. ok (pos 40);
  decode_metadata = λ b. ok no_compute;
  decode_compute = λ b. ok no_compute;
  random_bytes = λ n. ok (1 ∷ []);
  encode_base64 = λ b. "key";
  sha256_hex = λ s. "hash";
  to_bytes = λ s. 107 ∷ [];
  to_text = λ b. "abc";
}

abbrev admin : User
admin = record ann { login = "admin" }

abbrev site : Site MemoryStorage
site = record {
  world = record {
    users = admin ∷ [];
    auto_save = false;
    max_users = pos 3;
    disk = record {
      file_info_data = [];
      files = ("setup-code.txt", 0) ∷ [];
      cells = (97 ∷ []) ∷ [];
    };
    draws = 0;
  };
  setup_completed = false;
  hostname = "";
  protocol = "";
  cloud_type = "";
}

abbrev request : String → ContextRequest
request secret = record {
  secret = secret;
  tag_hash = "";
  instance_id = "";
  admin_password = "new";
  hostname = "example.org";
  protocol = "https";
}

abbrev marshal : Site MemoryStorage → Result Bytes
marshal s = ok []

abbrev after : String → Site MemoryStorage
after secret = (context_handler memory env host marshal (ok (request secret)) site).1

context_handler_closed_example :
    ((after "wrong").world ≡ site.world)
    × ((after "wrong").hostname ≡ "")
    × ((after "wrong").protocol ≡ "")
unfolding cloud_access trim_space file_exists read_file lookup
context_handler_closed_example =
    context_handler_closed memory env host marshal (request "wrong") site refl

context_handler_keeps_password_example :
    find (has_login "admin") (after "abc").world.users
    ≡ some (record (admin_of (request "abc")) { password = "#secret" })
unfolding cloud_access trim_space file_exists read_file lookup
context_handler_keeps_password_example =
    context_handler_keeps_password memory env host marshal (request "abc") site admin refl refl
      (λ e. ground (arith, e, eq_iff "new" ""))
