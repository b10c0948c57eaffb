-- ===== src/Tests/Oidc.antt =====
-- Single sign-on at concrete inputs.
use go_devops_platform.Base.{
  ℕ, ◌≡◌, refl, String, true, false, [], ◌∷◌, none, some, Result, ok, eq_iff, arith,
}
use go_devops_platform.Base.Int.{pos}
use go_devops_platform.Base.Map.{lookup}
use go_devops_platform.Base.Text.{split}
use go_devops_platform.Storage.{Bytes}
use go_devops_platform.Storage.Memory.{memory, empty}
use go_devops_platform.Oidc.Types.{
  Discovery, no_discovery, OidcProvider, OAuthData, Token, no_token, Store, Http,
}
use go_devops_platform.Oidc.Store.{empty_store, get_discovery_uri, fetch_discovery}
use go_devops_platform.Oidc.Cleanup.{
  is_older_login, is_older_email, cleanup_oauth2_data, cleanup_for_all_entries,
}
use go_devops_platform.Oidc.Cleanup.Survivors.{
  cleanup_oauth2_data_tokenless, lookup-cleanup_for_all_entries,
}
use go_devops_platform.Oidc.Renewal.{
  Visit, refresh_token, can_renew, get_expiration_date, get_oidc_provider, renew, after_failure,
  after_success, visit_all,
}
use go_devops_platform.Oidc.Renewal.Attempts.{refusals, failures_at, is_counted}
use go_devops_platform.Oidc.Renewal.Retries.{
  failed_attempts, visit_all_counts, renew_fails_after_success,
}

abbrev discovery : Discovery
discovery = record no_discovery { token_endpoint = "https://idp/token" }

abbrev new_token : Token
new_token = record no_token { access_token = "new"; refresh_token = "next" }

-- The provider answers, with the status of an argument.
abbrev http : ℕ → Http
http status = record {
  get = λ uri. ok (record { status = status; body = ok [] });
  post_form = λ uri form. ok (record { status = status; body = ok [] });
  decode_discovery = λ b. ok discovery;
  decode_jwks = λ b. ok [];
  decode_token = λ b. ok new_token;
}

abbrev entry : String → String → OAuthData
entry id token = record {
  id = id;
  oidc_provider_id = "p";
  created_at = 100;
  subject = id;
  issuer = "";
  email = id;
  token = record no_token { access_token = token; refresh_token = "old" };
  auth_failed = false;
  suspended = false;
  last_token_renewal = 0;
  renewal_failed = false;
  renewal_retries = 2;
}

abbrev store : String → Store
store token = record empty_store { oauth2_data = ("k", entry "e" token) ∷ [] }

cleanup_oauth2_data_tokenless_example :
    lookup "k" (cleanup_oauth2_data 200 (entry "f" "t") (store "")).1.oauth2_data ≡ none
unfolding lookup
cleanup_oauth2_data_tokenless_example =
    cleanup_oauth2_data_tokenless 200 (entry "f" "t") (entry "e" "") (store "") "k" refl refl

newest :
    (j : String) (other : OAuthData)
    → lookup j (store "t").oauth2_data ≡ some other
    → (is_older_login other (entry "e" "t") ≡ false)
      × (is_older_email other (entry "e" "t") ≡ false)
unfolding lookup
newest j other e = ground (arith, e)

lookup-cleanup_for_all_entries_example :
    lookup "k" (cleanup_for_all_entries 200 ("k" ∷ "missing" ∷ []) (store "t")).1.oauth2_data
    ≡ some (entry "e" "t")
unfolding lookup
lookup-cleanup_for_all_entries_example =
    lookup-cleanup_for_all_entries 200 ("k" ∷ "missing" ∷ []) (store "t") "k" (entry "e" "t") refl
      (λ e. ground (arith, e, eq_iff "t" "")) newest

abbrev provider : OidcProvider
provider = record {
  id = "p";
  name = "";
  client_id = "c";
  client_secret = "s";
  scope = "";
  discovery_uri = "u";
  redirect_uri = "";
  login_url = "";
}

abbrev marshal : Store → Result Bytes
marshal s = ok []

-- The discovery document is there, but the token endpoint refuses.
abbrev refusing : Http
refusing = record (http 200) { post_form = λ uri form. ok (record { status = 500; body = ok [] }) }

abbrev visited : Visit
visited = record { key = "k"; http = refusing; checked = 7; fetched = 8; answered = 9 }

-- The store after one round of renewals in which the provider refuses.
abbrev refused : OAuthData → Store
refused e =
    (visit_all memory marshal (provider ∷ []) (λ s. ok []) (λ b. ok (pos 1)) 0 (visited ∷ [])
      (record empty_store { oauth2_data = ("k", e) ∷ [] }) empty).0

visit_all_counts_example :
    (new : OAuthData) × (lookup "k" (refused (entry "e" "a.b.c")).oauth2_data ≡ some new)
    × (new.renewal_retries ≡ 3)
    × (is_counted new ≡ true)
unfolding failed_attempts failures_at refusals can_renew get_expiration_date get_oidc_provider
    get_discovery_uri refresh_token lookup split fetch_discovery
visit_all_counts_example =
    visit_all_counts memory marshal (provider ∷ []) (λ s. ok []) (λ b. ok (pos 1)) 0 (visited ∷ [])
      "k" (entry "e" "a.b.c") (store "a.b.c") empty refl refl

abbrev failed_entry : OAuthData
failed_entry = record (entry "e" "a.b.c") { renewal_failed = true }

renew_fails_after_success_example :
    let renewed =
      renew memory marshal (http 200) 9 discovery "k" (entry "e" "t") provider (store "t") empty in
    let again =
      renew memory marshal
        (http 500)
        10
        discovery
        "k"
        (after_success (entry "e" "t") new_token 9)
        provider
        renewed.1
        empty in
    (renewed.0 ≡ false)
    × (lookup "k" renewed.1.oauth2_data ≡ some (after_success (entry "e" "t") new_token 9))
    × (again.0 ≡ true)
    × (lookup "k" again.1.oauth2_data
        ≡ some (after_failure (after_success (entry "e" "t") new_token 9)))
unfolding refresh_token
renew_fails_after_success_example =
    renew_fails_after_success memory marshal (http 200) (http 500) 9 10 discovery "k"
      (entry "e" "t") provider (store "t") empty empty new_token "tokenEndpoint return error" refl
      refl refl
