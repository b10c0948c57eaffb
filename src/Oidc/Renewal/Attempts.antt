-- ===== src/Oidc/Renewal/Attempts.antt =====
-- One attempt to renew the token of an entry: auth/oidc/store/renewal/renew.go.
use go_devops_platform.Base.{
  ℕ, ◌+◌, ◌≡◌, String, Bool, true, false, List, none, some, Result, ok, err, not, leb,
  if◌then◌else◌, ◌==◌, eq_iff, arith, Result-cases, Bool-cases, inl, inr, ap,
}
use go_devops_platform.Base.Int.{ℤ}
use go_devops_platform.Base.Map.{lookup, lookup-insert}
use go_devops_platform.Storage.{Bytes, Iface}
use go_devops_platform.Oidc.Types.{Discovery, OidcProvider, OAuthData, Store, Http}
use go_devops_platform.Oidc.Store.{store_entry, get_discovery_uri, set_discovery_cache}
use go_devops_platform.Oidc.Renewal.{
  renewal_retries_limit, refresh_token, after_failure, after_success, renew, get_oidc_provider,
  Visit, can_renew,
}

-- An entry has failed exactly when three attempts to renew it have failed.
abbrev pub is_counted : OAuthData → Bool
is_counted entry =
    if leb renewal_retries_limit entry.renewal_retries
    then entry.renewal_failed
    else not entry.renewal_failed

-- What becomes of an entry with this number of failed attempts: each is counted, and an entry that
-- has failed for good stays as it is.
abbrev pub Grows : ℕ → OAuthData → OAuthData → Type 0
Grows failures old new =
    (new.renewal_retries ≡ old.renewal_retries + failures)
    × (old.renewal_failed ≡ true → new ≡ old)
    × (is_counted old ≡ true → is_counted new ≡ true)

-- One, if the provider does not renew the token of the entry.
unfoldable pub refusals : Http → ℕ → Discovery → OAuthData → OidcProvider → ℕ
refusals http now discovery entry provider =
    elim (refresh_token http now discovery entry.token.refresh_token provider.client_id
      provider.client_secret) [ err e ↦ 1 | ok renewed ↦ 0 ]

-- The discovery cache alone changes.
oauth2_data-get_discovery_uri :
    (http : Http) (now later : ℕ) (uri : String) (store : Store)
    → (get_discovery_uri http now later uri store).1.oauth2_data ≡ store.oauth2_data
unfolding get_discovery_uri set_discovery_cache
oauth2_data-get_discovery_uri http now later uri store = ground arith

module _ (providers : List OidcProvider) (decode_base64 : String → Result Bytes)
    (decode_exp : Bytes → Result ℤ) where
  pub oauth2_data-can_renew :
      (renewal_time : ℕ) (v : Visit) (entry : OAuthData) (store : Store)
      → (can_renew providers decode_base64 decode_exp renewal_time v entry store).1.oauth2_data
        ≡ store.oauth2_data
  unfolding can_renew
  oauth2_data-can_renew renewal_time v entry store =
      elim (Result-cases (get_oidc_provider entry.oidc_provider_id providers)) [
        | inl (p, e) ↦ ground (
          arith,
          e,
          oauth2_data-get_discovery_uri v.http v.checked v.fetched p.discovery_uri store,
        )
        | inr (message, e) ↦ ground (arith, e)
      ]

  pub can_renew_active :
      (renewal_time : ℕ) (v : Visit) (entry : OAuthData) (store : Store)
      (p : OidcProvider × Discovery)
      → (can_renew providers decode_base64 decode_exp renewal_time v entry store).0 ≡ ok (some p)
      → entry.renewal_failed ≡ false
  unfolding can_renew
  can_renew_active renewal_time v entry store p e = elim (Bool-cases entry.renewal_failed) [
    | inr active ↦ active
    | inl failed ↦ absurd (ground (arith, failed, e))
  ]

  -- One, if the visit comes to an attempt to renew its entry, and the provider refuses.
  unfoldable pub failures_at : ℕ → Visit → Store → ℕ
  unfolding refusals
  failures_at renewal_time v store = elim (lookup v.key store.oauth2_data) [
    | none ↦ 0
    | some entry ↦
        elim (can_renew providers decode_base64 decode_exp renewal_time v entry store).0 [
          | err e ↦ 0
          | ok none ↦ 0
          | ok (some (provider, discovery)) ↦ refusals v.http v.answered discovery entry provider
        ]
  ]

module _ {Disk : Type 0} (storage : Iface Disk) (marshal : Store → Result Bytes) where
  pub renew-Grows :
      (http : Http) (now : ℕ) (discovery : Discovery) (key k : String) (entry old : OAuthData)
      (provider : OidcProvider) (store : Store) (d : Disk)
      → lookup key store.oauth2_data ≡ some entry
      → entry.renewal_failed ≡ false
      → lookup k store.oauth2_data ≡ some old
      → (new : OAuthData) × (lookup k
            (renew storage marshal http now discovery key entry provider store d).1.oauth2_data
          ≡ some new)
        × Grows (if key == k then refusals http now discovery entry provider else 0) old new
  unfolding renew store_entry refusals
  renew-Grows http now discovery key k entry old provider store d e active f =
      let same : (key == k) ≡ true → old ≡ entry = λ h.
        let j : key ≡ k = (eq_iff key k).0 h in
        ground (arith, e, f, ap (λ x. lookup x store.oauth2_data) j) in
      elim (Result-cases (
        refresh_token http now discovery entry.token.refresh_token provider.client_id
          provider.client_secret)) [
            | inr (message, r) ↦ elim (Bool-cases (key == k)) [
              | inr other ↦ (
                old,
                ground (
                  arith,
                  r,
                  other,
                  f,
                  lookup-insert key k (after_failure entry) store.oauth2_data,
                ),
                ground (arith, other),
              )
              | inl here ↦ (
                after_failure entry,
                ground
                    (arith, r, here, lookup-insert key k (after_failure entry) store.oauth2_data),
                rw (same here) (ground (arith, r, here, active)),
              )
            ]
            | inl ((token, renewed), r) ↦ elim (Bool-cases (key == k)) [
              | inr other ↦ (
                old,
                ground (
                  arith,
                  r,
                  other,
                  f,
                  lookup-insert key k (after_success entry token renewed) store.oauth2_data,
                ),
                ground (arith, other),
              )
              | inl here ↦ (
                after_success entry token renewed,
                ground (
                  arith,
                  r,
                  here,
                  lookup-insert key k (after_success entry token renewed) store.oauth2_data,
                ),
                rw (same here) (ground (arith, r, here, active)),
              )
            ]
          ]
