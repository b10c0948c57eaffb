-- ===== src/Oidc/Renewal/Retries.antt =====
-- The retries of the renewal of tokens: auth/oidc/store/renewal/renew.go and worker.go.
use go_devops_platform.Base.{
  ℕ, ◌+◌, ◌≡◌, String, true, false, List, [], ◌∷◌, none, some, Result, ok, err, if◌then◌else◌, ◌==◌,
  eq_iff, arith, Option-cases, Result-cases, inl, inr, ap, ◌∙◌,
}
use go_devops_platform.Base.Int.{ℤ}
use go_devops_platform.Base.Map.{lookup, insert, lookup-insert}
use go_devops_platform.Storage.{Bytes, Iface}
use go_devops_platform.Oidc.Types.{Discovery, OidcProvider, OAuthData, Token, Store, Http}
use go_devops_platform.Oidc.Store.{store_entry}
use go_devops_platform.Oidc.Renewal.{
  refresh_token, after_failure, after_success, renew, Visit, can_renew, visit, visit_all,
}
use go_devops_platform.Oidc.Renewal.Attempts.{
  is_counted, Grows, refusals, failures_at, oauth2_data-can_renew, can_renew_active, renew-Grows,
}

module _ {Disk : Type 0} (storage : Iface Disk) (marshal : Store → Result Bytes) where
  module _ (providers : List OidcProvider) (decode_base64 : String → Result Bytes)
      (decode_exp : Bytes → Result ℤ) where
    visit-Grows :
        (renewal_time : ℕ) (v : Visit) (k : String) (old : OAuthData) (store : Store) (d : Disk)
        → lookup k store.oauth2_data ≡ some old
        → (new : OAuthData) × (lookup k
              (visit storage marshal providers decode_base64 decode_exp renewal_time v store
                d).0.oauth2_data
            ≡ some new)
          × Grows
              (if v.key == k
                then failures_at providers decode_base64 decode_exp renewal_time v store
                else 0)
              old
              new
    unfolding visit failures_at
    visit-Grows renewal_time v k old store d f =
        elim (Option-cases (lookup v.key store.oauth2_data)) [
          | inl missing ↦ (old, ground (arith, missing, f), ground (arith, missing))
          | inr (entry, e) ↦
              let found : Store =
                (can_renew providers decode_base64 decode_exp renewal_time v entry store).1 in
              let kept : found.oauth2_data ≡ store.oauth2_data =
                oauth2_data-can_renew providers decode_base64 decode_exp renewal_time v entry
                  store in
              elim (Result-cases
                (can_renew providers decode_base64 decode_exp renewal_time v entry store).0) [
                  | inr (message, r) ↦ (old, ground (arith, e, r, f, kept), ground (arith, e, r))
                  | inl (none, r) ↦ (old, ground (arith, e, r, f, kept), ground (arith, e, r))
                  | inl (some (provider, discovery), r) ↦
                      let active : entry.renewal_failed ≡ false =
                        can_renew_active providers decode_base64 decode_exp renewal_time v entry
                          store (provider, discovery) r in
                      let counted : failures_at providers decode_base64 decode_exp renewal_time v
                            store
                          ≡ refusals v.http v.answered discovery entry provider =
                        ground (arith, e, r) in
                      let (new, l, g) =
                        renew-Grows storage marshal v.http v.answered discovery v.key k entry old
                          provider found d (rw kept e) active (rw kept f) in
                      (new, ground (arith, e, r, l), rw counted g)
                ]
        ]

    -- The attempts to renew the entry under a key that fail in the worker's loop.
    unfoldable pub failed_attempts : ℕ → String → List Visit → Store → Disk → ℕ
    unfolding failures_at visit
    failed_attempts renewal_time k [] store d = 0
    failed_attempts renewal_time k (v ∷ visits) store d =
        let (store', d') =
          visit storage marshal providers decode_base64 decode_exp renewal_time v store d in
        (if v.key == k
          then failures_at providers decode_base64 decode_exp renewal_time v store
          else 0)
        + failed_attempts renewal_time k visits store' d'

    Grows-trans : (p q : ℕ) (a b c : OAuthData) → Grows p a b → Grows q b c → Grows (p + q) a c
    Grows-trans p q a b c (m, s, i) (m', s', i') = (
      ground (arith, m, m'),
      λ h. s' (ap (λ (e : OAuthData). e.renewal_failed) (s h) ∙ h) ∙ s h,
      λ h. i' (i h),
    )

    visit_all-Grows :
        (renewal_time : ℕ) (visits : List Visit) (k : String) (old : OAuthData) (store : Store)
        (d : Disk)
        → lookup k store.oauth2_data ≡ some old
        → (new : OAuthData) × (lookup k
              (visit_all storage marshal providers decode_base64 decode_exp renewal_time visits
                store d).0.oauth2_data
            ≡ some new)
          × Grows (failed_attempts renewal_time k visits store d) old new
    unfolding visit_all failed_attempts
    visit_all-Grows renewal_time [] k old store d f = (old, f, ground arith)
    visit_all-Grows renewal_time (v ∷ visits) k old store d f =
        let (store', d') =
          visit storage marshal providers decode_base64 decode_exp renewal_time v store d in
        let (middle, l, g) = visit-Grows renewal_time v k old store d f in
        let (new, l', g') = visit_all-Grows renewal_time visits k middle store' d' l in
        (
          new,
          l',
          Grows-trans
              (if v.key == k
                then failures_at providers decode_base64 decode_exp renewal_time v store
                else 0)
              (failed_attempts renewal_time k visits store' d') old middle new g g',
        )

    -- The worker's loop over the entries adds to the count of an entry the attempts to renew it that
    -- fail in the loop, each once and nothing else, and keeps the invariant that an entry has failed
    -- for good exactly when three attempts or more have failed, whatever the providers answer and in
    -- whatever order the entries are reached.
    pub visit_all_counts :
        (renewal_time : ℕ) (visits : List Visit) (k : String) (old : OAuthData) (store : Store)
        (d : Disk)
        → lookup k store.oauth2_data ≡ some old
        → is_counted old ≡ true
        → (new : OAuthData) × (lookup k
              (visit_all storage marshal providers decode_base64 decode_exp renewal_time visits
                store d).0.oauth2_data
            ≡ some new)
          × (new.renewal_retries
              ≡ old.renewal_retries + failed_attempts renewal_time k visits store d)
          × (is_counted new ≡ true)
    visit_all_counts renewal_time visits k old store d f c =
        let (new, l, g) = visit_all-Grows renewal_time visits k old store d f in
        (new, l, g.0, g.2 c)

    -- The worker's loop leaves an entry whose renewal has failed for good as it is.
    pub visit_all_failed :
        (renewal_time : ℕ) (visits : List Visit) (k : String) (old : OAuthData) (store : Store)
        (d : Disk)
        → lookup k store.oauth2_data ≡ some old
        → old.renewal_failed ≡ true
        → lookup k
            (visit_all storage marshal providers decode_base64 decode_exp renewal_time visits store
              d).0.oauth2_data
          ≡ some old
    visit_all_failed renewal_time visits k old store d f failed =
        let (new, l, g) = visit_all-Grows renewal_time visits k old store d f in
        l ∙ ap some (g.1 failed)

  -- A renewal that succeeds does not reset the count of failed attempts: an entry with two of
  -- them that is then renewed, and later fails once, has failed for good, and its user is to be
  -- suspended.
  pub renew_fails_after_success :
      (http later_http : Http) (now later : ℕ) (discovery : Discovery) (key : String)
      (entry : OAuthData) (provider : OidcProvider) (store : Store) (d later_d : Disk)
      (token : Token) (message : String)
      → entry.renewal_retries ≡ 2
      → refresh_token http now discovery entry.token.refresh_token provider.client_id
          provider.client_secret
        ≡ ok (token, now)
      → refresh_token later_http later discovery token.refresh_token provider.client_id
          provider.client_secret
        ≡ err message
      → let renewed = renew storage marshal http now discovery key entry provider store d in
        let again =
          renew storage marshal later_http later discovery key
            (after_success entry token now)
            provider
            renewed.1
            later_d in
        (renewed.0 ≡ false)
        × (lookup key renewed.1.oauth2_data ≡ some (after_success entry token now))
        × (again.0 ≡ true)
        × (lookup key again.1.oauth2_data ≡ some (after_failure (after_success entry token now)))
  unfolding renew store_entry
  renew_fails_after_success http later_http now later discovery key entry provider store d later_d
        token message two r r' =
      let success : OAuthData = after_success entry token now in
      let middle : Store = record store { oauth2_data = insert key success store.oauth2_data } in
      ground (
        arith,
        two,
        r,
        r',
        eq_iff key key,
        lookup-insert key key success store.oauth2_data,
        lookup-insert key key (after_failure success) middle.oauth2_data,
      )
