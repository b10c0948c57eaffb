-- ===== src/Tests/Data.antt =====
-- Users, and a surrounding in which the tests run.
use go_devops_platform.Base.{
  ◌≡◌, Bool, true, false, List, [], ◌∷◌, Result, ok, err, ◌==◌, ◌&&◌, not, eqb, eq_iff, arith,
  if◌then◌else◌,
}
use go_devops_platform.Base.Int.{pos}
use go_devops_platform.Base.Text.{◌+++◌}
use go_devops_platform.Storage.{Bytes}
use go_devops_platform.Storage.Memory.{MemoryStorage}
use go_devops_platform.Storage.Memory as Memory
use go_devops_platform.Users.Types.{User, no_user, World, Env}

abbrev pub ann : User
ann = record no_user { id = "1"; login = "ann"; role = "admin"; password = "#secret" }

abbrev pub bob : User
bob = record no_user {
  id = "2";
  login = "bob";
  role = "user";
  suspended = true;
  password = "#word";
}

abbrev has_no_factors : User → Bool
has_no_factors u = elim u.factors [ [] ↦ true | _ ∷ _ ↦ false ]

abbrev is_ann : User → Bool
is_ann u =
    u.id == "1"
    && (u.login == "ann"
        && (u.role == "admin"
            && (u.oidc_id == ""
                && (u.saml_id == ""
                    && (not u.provisioned
                        && (u.password == "#secret"
                            && (not u.suspended
                                && (not u.connections_disabled_on_auth_failure
                                    && (has_no_factors u
                                        && (u.external_id == "" && eqb u.last_login 0))))))))))

pub is_ann_lem : (u : User) → is_ann u ≡ true → u ≡ ann
is_ann_lem u h = ground (
  arith,
  h,
  eq_iff u.id "1",
  eq_iff u.login "ann",
  eq_iff u.role "admin",
  eq_iff u.oidc_id "",
  eq_iff u.saml_id "",
  eq_iff u.password "#secret",
  eq_iff u.external_id "",
)

abbrev encode : List User → Result Bytes
encode (u ∷ []) = if is_ann u then ok (91 ∷ 93 ∷ []) else err "no document"
encode us = err "no document"

-- It knows one document, the list of Ann alone.
abbrev pub env : Env
env = record {
  uuid = λ n. if eqb n 0 then "u0" else "u1";
  generate = λ n p. ok ("#" +++ p);
  compare_hash = λ h p. h == ("#" +++ p);
  marshal = encode;
  unmarshal = λ b. ok (ann ∷ []);
  current_user = ok "vpn";
}

abbrev pub world : List User → World MemoryStorage
world us = record {
  users = us;
  auto_save = false;
  max_users = pos 3;
  disk = Memory.empty;
  draws = 0;
}
