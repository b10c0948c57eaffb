-- ===== src/Tests/UserList.antt =====
-- The list of users at concrete inputs.
use go_devops_platform.Base.{
  ℕ, ◌≡◌, refl, inl, inr, Bool-cases, String, true, false, some, map, Result, if◌then◌else◌, List,
  [], ◌∷◌, ok, any, ◌==◌, eq_iff, arith,
}
use go_devops_platform.Base.Map.{lookup}
use go_devops_platform.Storage.{Bytes}
use go_devops_platform.Storage.Memory.{memory}
use go_devops_platform.Users.Types.{User}
use go_devops_platform.Oidc.Types.{OAuthData, Store, no_token}
use go_devops_platform.Oidc.Store.{empty_store}
use go_devops_platform.Tests.Data.{env, world, bob}
use go_devops_platform.Rest.UserList.{UsersResponse, shown, get_users, userinfo_handler}
use go_devops_platform.Rest.UserList.Renewed.{HasUniqueIds, IsRenewalOf, get_users_any_order}

abbrev entry : String → ℕ → OAuthData
entry id renewed = record {
  id = id;
  oidc_provider_id = "p";
  created_at = 0;
  subject = "s";
  issuer = "i";
  email = "";
  token = no_token;
  auth_failed = false;
  suspended = false;
  last_token_renewal = renewed;
  renewal_failed = false;
  renewal_retries = 0;
}

-- The entries stand under the states of their logins.
abbrev store : Store
store = record empty_store { oauth2_data = ("s1", entry "a" 5) ∷ ("s2", entry "b" 9) ∷ [] }

store-HasUniqueIds : HasUniqueIds store
unfolding lookup
store-HasUniqueIds j k e f h h' same =
    ground (
      arith,
      h,
      h',
      same,
      eq_iff "s1" j,
      eq_iff "s2" j,
      eq_iff "s1" k,
      eq_iff "s2" k,
      eq_iff "a" "b",
    )

abbrev order : User → List String
order user = "s2" ∷ "s1" ∷ []

order_complete :
    (user : User) (k : String) (e : OAuthData)
    → lookup k store.oauth2_data ≡ some e
    → any (λ j. j == k) (order user) ≡ true
unfolding lookup
order_complete user k e h = ground (arith, h)

abbrev renewed : String → ℕ
renewed id = if "a" == id then 5 else if "b" == id then 9 else 0

renewed-IsRenewalOf : (id : String) → IsRenewalOf store id (renewed id)
unfolding lookup
renewed-IsRenewalOf id = elim (Bool-cases ("a" == id)) [
  | inl is_a ↦ inl ("s1", entry "a" 5, refl, (eq_iff "a" id).0 is_a, ground (arith, is_a))
  | inr not_a ↦ elim (Bool-cases ("b" == id)) [
    | inl is_b ↦ inl ("s2", entry "b" 9, refl, (eq_iff "b" id).0 is_b, ground (arith, not_a, is_b))
    | inr not_b ↦ inr (
      λ k e h same. ground (arith, h, same, not_a, not_b, eq_iff "a" id, eq_iff "b" id),
      ground (arith, not_a, not_b),
    )
  ]
]

abbrev linked_bob : User
linked_bob = record bob { oidc_id = "b" }

-- Each user is shown as the time of the last renewal.
abbrev marshal : List UsersResponse → Result Bytes
marshal responses = ok (map (λ r. r.last_token_renewal) responses)

get_users_any_order_example :
    get_users memory env marshal (λ t. "") order store (world (linked_bob ∷ [])) ≡ shown (9 ∷ [])
get_users_any_order_example =
    get_users_any_order store store-HasUniqueIds order order_complete renewed renewed-IsRenewalOf
      memory env marshal (λ t. "") (world (linked_bob ∷ []))

-- A user without an OpenID Connect ID is a local one.
userinfo_handler_run :
    userinfo_handler (λ r. ok (if r.user_type == "local" then 1 ∷ [] else [])) bob ≡ shown (1 ∷ [])
unfolding userinfo_handler
userinfo_handler_run = refl
