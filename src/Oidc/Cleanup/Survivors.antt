-- ===== src/Oidc/Cleanup/Survivors.antt =====
-- Which entries a cleanup deletes.
use go_devops_platform.Base.{
  ℕ, ◌+◌, ◌≡◌, ◌≢◌, refl, String, Bool, true, false, List, [], ◌∷◌, ◌++◌, none, some, ◌&&◌, ◌||◌,
  ltb, if◌then◌else◌, ◌==◌, eq_iff, arith, any, any-append, select, Option-cases, Bool-cases, inl,
  inr, ap,
}
use go_devops_platform.Base.Map.{Map, lookup, keys, lookup-delete_all}
use go_devops_platform.Oidc.Types.{OAuthData, Store}
use go_devops_platform.Oidc.Cleanup.{
  ten_minutes, is_older_login, is_older_email, is_tokenless, key_passes, keys_to_delete,
  cleanup_oauth2_data, cleanup_for_all_entries,
}

any-select :
    (p : String → Bool) (j : String) (ks : List String)
    → any (λ k. k == j) (select p ks) ≡ (p j && any (λ k. k == j) ks)
any-select p j [] = ground arith
any-select p j (k ∷ ks) = elim (Bool-cases (k == j)) [
  | inl same ↦
      let e : k ≡ j = (eq_iff k j).0 same in ground (arith, same, any-select p j ks, ap p e)
  | inr other ↦ ground (arith, other, any-select p j ks)
]

any-keys :
    (j : String) (m : Map OAuthData) (v : OAuthData)
    → lookup j m ≡ some v
    → any (λ k. k == j) (keys m) ≡ true
unfolding lookup
any-keys j [] v e = cc
any-keys j ((k, w) ∷ m) v e = ground (arith, any-keys j m v)

-- The reasons for which an entry is deleted.
abbrev pub is_doomed : ℕ → OAuthData → OAuthData → Bool
is_doomed now entry old =
    is_older_login entry old || (is_tokenless now old || is_older_email entry old)

any-key_passes :
    (test : OAuthData → Bool) (old : OAuthData) (m : Map OAuthData) (k : String)
    → lookup k m ≡ some old
    → any (λ j. j == k) (select (key_passes test m) (keys m)) ≡ test old
any-key_passes test old m k e =
    ground (arith, any-select (key_passes test m) k (keys m), any-keys k m old e, e)

any-keys_to_delete :
    (now : ℕ) (entry old : OAuthData) (m : Map OAuthData) (k : String)
    → lookup k m ≡ some old
    → any (λ j. j == k) (keys_to_delete now entry m) ≡ is_doomed now entry old
any-keys_to_delete now entry old m k e =
    let logins : List String = select (key_passes (is_older_login entry) m) (keys m) in
    let tokenless : List String = select (key_passes (is_tokenless now) m) (keys m) in
    let emails : List String = select (key_passes (is_older_email entry) m) (keys m) in
    rw (any-append (λ j. j == k) logins (tokenless ++ emails)) (
      rw (any-append (λ j. j == k) tokenless emails) (
        rw
          (
            any-key_passes (is_older_login entry) old m k e,
            any-key_passes (is_tokenless now) old m k e,
            any-key_passes (is_older_email entry) old m k e,
          )
          refl))

pub lookup-cleanup_oauth2_data :
    (now : ℕ) (entry old : OAuthData) (store : Store) (k : String)
    → lookup k store.oauth2_data ≡ some old
    → lookup k (cleanup_oauth2_data now entry store).1.oauth2_data
      ≡ (if is_doomed now entry old then none else some old)
unfolding cleanup_oauth2_data
lookup-cleanup_oauth2_data now entry old store k e =
    let m : Map OAuthData = store.oauth2_data in
    let found : any (λ j. j == k) (keys_to_delete now entry m) ≡ is_doomed now entry old =
      any-keys_to_delete now entry old m k e in
    rw (lookup-delete_all (keys_to_delete now entry m) k m) (rw (found, e) refl)

-- A cleanup adds no entry and changes none.
lookup-cleanup_oauth2_data-some :
    (now : ℕ) (entry old : OAuthData) (store : Store) (k : String)
    → lookup k (cleanup_oauth2_data now entry store).1.oauth2_data ≡ some old
    → lookup k store.oauth2_data ≡ some old
unfolding cleanup_oauth2_data
lookup-cleanup_oauth2_data-some now entry old store k e =
    ground
      (arith, e, lookup-delete_all (keys_to_delete now entry store.oauth2_data) k store.oauth2_data)

-- A cleanup deletes each entry without a token that was created within the last ten minutes. An
-- older one without a token it keeps, unless the entry that it cleans up for is newer, is another
-- one and has the same email address, or the same provider and subject.
pub cleanup_oauth2_data_tokenless :
    (now : ℕ) (entry old : OAuthData) (store : Store) (k : String)
    → lookup k store.oauth2_data ≡ some old
    → old.token.access_token ≡ ""
    → lookup k (cleanup_oauth2_data now entry store).1.oauth2_data ≡ (
        if ltb now (old.created_at + ten_minutes)
        then none
        else if is_older_login entry old || is_older_email entry old
        then none
        else some old)
cleanup_oauth2_data_tokenless now entry old store k e empty =
    ground
      (arith, lookup-cleanup_oauth2_data now entry old store k e, eq_iff old.token.access_token "")

-- No entry of the store supersedes this one: none that is newer and is another one has its email
-- address, or its provider and subject.
abbrev pub IsNewest : Store → OAuthData → Type 0
IsNewest store old =
    (j : String) (entry : OAuthData)
    → lookup j store.oauth2_data ≡ some entry
    → (is_older_login entry old ≡ false) × (is_older_email entry old ≡ false)

-- In whatever order the store is ranged over, a cleanup for all entries keeps each entry that has
-- a token and is superseded by none.
pub lookup-cleanup_for_all_entries :
    (now : ℕ) (order : List String) (store : Store) (k : String) (old : OAuthData)
    → lookup k store.oauth2_data ≡ some old
    → old.token.access_token ≢ ""
    → IsNewest store old
    → lookup k (cleanup_for_all_entries now order store).1.oauth2_data ≡ some old
unfolding cleanup_for_all_entries
lookup-cleanup_for_all_entries now [] store k old e token newest = e
lookup-cleanup_for_all_entries now (j ∷ order) store k old e token newest =
    elim (Option-cases (lookup j store.oauth2_data)) [
      | inl gone ↦
          rw (gone, cleanup_for_all_entries)
            (lookup-cleanup_for_all_entries now order store k old e token newest)
      | inr (entry, f) ↦
          let store' : Store = (cleanup_oauth2_data now entry store).1 in
          rw (f, cleanup_for_all_entries)
            (lookup-cleanup_for_all_entries now order store' k old
              (ground (
                arith,
                lookup-cleanup_oauth2_data now entry old store k e,
                newest j entry f,
                eq_iff old.token.access_token "",
              ))
              token
              (λ i other g.
                newest i other (lookup-cleanup_oauth2_data-some now entry other store i g)))
    ]
