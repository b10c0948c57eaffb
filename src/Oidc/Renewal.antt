-- ===== src/Oidc/Renewal.antt =====
-- auth/oidc/store/renewal: renew.go, refreshtoken.go, new.go and one round of worker.go. What is
-- written to the log, and the pauses between the requests, are left out.
pub mod Attempts
pub mod Retries
use go_devops_platform.Base.{
  ℕ, zero, suc, ◌+◌, ◌*◌, String, Bool, true, false, List, [], ◌∷◌, Option, none, some, Result, ok,
  err, Done, not, ◌&&◌, ◌||◌, ltb, leb, eqb, if◌then◌else◌, ◌==◌, find,
}
use go_devops_platform.Base.Int.{ℤ, pos, negsuc, pos_part, leb_ℤ}
use go_devops_platform.Base.Map.{lookup}
use go_devops_platform.Base.Text.{◌+++◌, split}
use go_devops_platform.Storage.{Bytes, Iface}
use go_devops_platform.Users.Types.{User, World, Env}
use go_devops_platform.Users.Model.{get_user_by_oidc_ids}
use go_devops_platform.Oidc.Types.{Discovery, OidcProvider, OAuthData, Token, Store, Http}
use go_devops_platform.Oidc.Store.{second, store_entry, save_oidc_store, get_discovery_uri}
use go_devops_platform.Oidc.Cleanup.{cleanup_for_all_entries}

abbrev pub renewal_retries_limit : ℕ
renewal_retries_limit = 3

-- `RenewalTime` of the options, in minutes, as a duration in nanoseconds.
unfoldable pub renewal_duration : ℤ → ℕ
renewal_duration minutes =
    if leb_ℤ minutes (pos 5) then 60 * 60 * second else pos_part minutes * 60 * second

-- `now` is the time at which the answer arrives.
unfoldable pub refresh_token : Http → ℕ → Discovery → String → String → String → Result (Token × ℕ)
refresh_token http now discovery refresh client_id client_secret =
    let payload : List (String × String) =
      ("grant_type", "refresh_token")
      ∷ ("refresh_token", refresh)
      ∷ ("client_id", client_id)
      ∷ ("client_secret", client_secret)
      ∷ [] in
    if discovery.token_endpoint == ""
    then err "token endpoint is empty"
    else elim (http.post_form discovery.token_endpoint payload) [
      | err e ↦ err ("tokenEndpoint PostForm error: " +++ e)
      | ok reply ↦
          if not (eqb reply.status 200)
          then err "tokenEndpoint return error"
          else elim (http.decode_token reply.body) [
            | err e ↦ err ("tokenEndpoint decode error: " +++ e)
            | ok token ↦
                if token.access_token == "" then err "access token is empty" else ok (token, now)
          ]
    ]

-- The entry after a failed attempt.
abbrev pub after_failure : OAuthData → OAuthData
after_failure entry =
    let retries : ℕ = suc entry.renewal_retries in
    record entry {
      renewal_retries = retries;
      renewal_failed = leb renewal_retries_limit retries || entry.renewal_failed;
    }

-- The entry after a success.
abbrev pub after_success : OAuthData → Token → ℕ → OAuthData
after_success entry new now =
    let kept : String = if new.id_token == "" then entry.token.id_token else new.id_token in
    record entry {
      last_token_renewal = now;
      token = record entry.token {
        access_token = new.access_token;
        expires_in = new.expires_in;
        refresh_token = new.refresh_token;
        id_token = kept;
      };
    }

unfoldable pub get_oidc_provider : String → List OidcProvider → Result OidcProvider
get_oidc_provider id providers = elim (find (λ p. p.id == id) providers) [
  | none ↦ err "oidc provider not found"
  | some p ↦ ok p
]

-- What the code takes from outside at the time at which an entry is reached: the answers, and the
-- times of the test, of the fetch of the discovery document and of the answer to a refresh.
pub record Visit : Type 0 where
  pub key : String
  pub http : Http
  pub checked : ℕ
  pub fetched : ℕ
  pub answered : ℕ

-- `decode_base64` is base64.RawURLEncoding.DecodeString, `decode_exp` reads the claim `exp` of
-- the JSON, in seconds; it is 0 where the claim is missing.
module _ (providers : List OidcProvider) (decode_base64 : String → Result Bytes)
    (decode_exp : Bytes → Result ℤ) where
  unfoldable pub get_expiration_date : String → Result ℤ
  get_expiration_date token = elim (split b'.' token) [
    | h ∷ claims ∷ _ ↦ elim (decode_base64 claims) [
      | err e ↦ err "could not base64 decode data part of jwt"
      | ok bytes ↦ elim (decode_exp bytes) [
        | err e ↦ err "could not unmarshal jwt data"
        | ok (pos zero) ↦ err "exp not found in jwt data"
        | ok expiration ↦ ok expiration
      ]
    ]
    | _ ↦ err "token split < 2"
  ]

  -- time.Now().After(time.Unix(expiration, 0))
  abbrev pub has_passed : ℕ → ℤ → Bool
  has_passed now (pos s) = ltb (s * second) now
  has_passed now (negsuc s) = true

  -- The provider and its discovery document, when the entry can be renewed.
  unfoldable pub can_renew :
      ℕ → Visit → OAuthData → Store → Result (Option (OidcProvider × Discovery)) × Store
  unfolding get_expiration_date get_oidc_provider get_discovery_uri
  can_renew renewal_time v entry store =
      elim (entry.renewal_failed || entry.token.access_token == "") [
        | true ↦ (ok none, store)
        | false ↦ elim (get_expiration_date entry.token.access_token) [
          | err e ↦ (err ("can't get expiration date of refresh_token: " +++ e), store)
          | ok expiration ↦
              if not (
                ltb (entry.last_token_renewal + renewal_time) v.checked
                || has_passed v.checked expiration)
              then (ok none, store)
              else elim (get_oidc_provider entry.oidc_provider_id providers) [
                | err e ↦ (err ("could not get oidcprovider: " +++ e), store)
                | ok provider ↦
                    let (r, store') =
                      get_discovery_uri v.http v.checked v.fetched provider.discovery_uri store in
                    elim r [
                      | err e ↦ (err ("could not get discovery url: " +++ e), store')
                      | ok discovery ↦ (ok (some (provider, discovery)), store')
                    ]
              ]
        ]
      ]

module _ {Disk : Type 0} (storage : Iface Disk) (marshal : Store → Result Bytes) where
  -- The error of saving is logged alone. The Boolean tells that the connections are suspended.
  unfoldable pub renew :
      Http → ℕ → Discovery → String → OAuthData → OidcProvider → Store → Disk → Bool × Store × Disk
  unfolding refresh_token store_entry save_oidc_store
  renew http now discovery key entry provider store d =
      let attempt : Result (Token × ℕ) =
        refresh_token http now discovery entry.token.refresh_token provider.client_id
          provider.client_secret in
      elim attempt [
        | err e ↦
            let failed : OAuthData = after_failure entry in
            let store' : Store = store_entry key failed store in
            let (r, d') = save_oidc_store storage marshal store' d in
            (failed.renewal_failed, store', d')
        | ok (new, renewed) ↦
            let store' : Store = store_entry key (after_success entry new renewed) store in
            let (r, d') = save_oidc_store storage marshal store' d in (false, store', d')
      ]

  module _ (providers : List OidcProvider) where
    -- `users` is the world of the user store; the result lists the users to disable.
    unfoldable pub renew_all_oidc_connections :
        Env → World Disk → List Visit → Store → Disk → List User × Store × Disk
    unfolding renew get_oidc_provider get_discovery_uri
    renew_all_oidc_connections env w [] store d = ([], store, d)
    renew_all_oidc_connections env w (v ∷ visits) store d = elim (lookup v.key store.oauth2_data) [
      | none ↦ renew_all_oidc_connections env w visits store d
      | some entry ↦ elim (get_oidc_provider entry.oidc_provider_id providers) [
        | err e ↦ renew_all_oidc_connections env w visits store d
        | ok provider ↦
            let (r, found) =
              get_discovery_uri v.http v.checked v.fetched provider.discovery_uri store in
            elim r [
              | err e ↦ renew_all_oidc_connections env w visits found d
              | ok discovery ↦ elim (entry.renewal_failed || entry.token.access_token == "") [
                | true ↦ renew_all_oidc_connections env w visits found d
                | false ↦
                    let (disabled, store', d') =
                      renew v.http v.answered discovery v.key entry provider found d in
                    let (us, store'', d'') = renew_all_oidc_connections env w visits store' d' in
                    elim disabled [
                      | false ↦ (us, store'', d'')
                      | true ↦ elim (get_user_by_oidc_ids storage env (entry.id ∷ []) w) [
                        | err e ↦ (us, store'', d'')
                        | ok user ↦ (user ∷ us, store'', d'')
                      ]
                    ]
              ]
            ]
      ]
    ]

    module _ (decode_base64 : String → Result Bytes) (decode_exp : Bytes → Result ℤ) where
      -- One entry of the worker's loop.
      unfoldable pub visit : ℕ → Visit → Store → Disk → Store × Disk
      unfolding can_renew renew
      visit renewal_time v store d = elim (lookup v.key store.oauth2_data) [
        | none ↦ (store, d)
        | some entry ↦
            let (r, found) =
              can_renew providers decode_base64 decode_exp renewal_time v entry store in
            elim r [
              | err e ↦ (found, d)
              | ok none ↦ (found, d)
              | ok (some (provider, discovery)) ↦
                  let (disabled, store', d') =
                    renew v.http v.answered discovery v.key entry provider found d in
                  (store', d')
            ]
      ]

      unfoldable pub visit_all : ℕ → List Visit → Store → Disk → Store × Disk
      unfolding visit
      visit_all renewal_time [] store d = (store, d)
      visit_all renewal_time (v ∷ visits) store d =
          let (store', d') = visit renewal_time v store d in visit_all renewal_time visits store' d'

      -- One round of the worker's loop: at `now` the cleanup, in the order `order`, and then the
      -- entries in the order of `visits`.
      unfoldable pub worker_round :
          Bool → ℕ → ℕ → List String → List Visit → Store → Disk → Store × Disk
      unfolding visit_all cleanup_for_all_entries save_oidc_store
      worker_round enabled renewal_time now order visits store d =
          if not enabled
          then (store, d)
          else let (deleted, cleaned) = cleanup_for_all_entries now order store in
            let (r, saved) = save_oidc_store storage marshal cleaned d in
            visit_all renewal_time visits cleaned (if eqb deleted 0 then d else saved)
