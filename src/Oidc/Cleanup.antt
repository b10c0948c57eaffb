-- ===== src/Oidc/Cleanup.antt =====
-- auth/oidc/store/cleanup.go
pub mod Survivors
use go_devops_platform.Base.{
  ℕ, ◌+◌, ◌*◌, String, Bool, true, false, List, [], ◌∷◌, ◌++◌, Option, none, some, not, ◌&&◌, ltb,
  if◌then◌else◌, ◌==◌, length, select,
}
use go_devops_platform.Base.Map.{Map, lookup, keys, delete_all}
use go_devops_platform.Oidc.Types.{OAuthData, Store}
use go_devops_platform.Oidc.Store.{second}

abbrev pub ten_minutes : ℕ
ten_minutes = 600 * second

-- An older entry of the same provider and subject.
abbrev pub is_older_login : OAuthData → OAuthData → Bool
is_older_login entry old =
    ltb old.created_at entry.created_at
    && (not (old.id == entry.id)
        && (old.oidc_provider_id == entry.oidc_provider_id && old.subject == entry.subject))

-- An older entry of the same email address.
abbrev pub is_older_email : OAuthData → OAuthData → Bool
is_older_email entry old =
    ltb old.created_at entry.created_at && (not (old.id == entry.id) && old.email == entry.email)

-- No token, and created after ten minutes before `now`.
abbrev pub is_tokenless : ℕ → OAuthData → Bool
is_tokenless now old = old.token.access_token == "" && ltb now (old.created_at + ten_minutes)

abbrev pub key_passes : (OAuthData → Bool) → Map OAuthData → String → Bool
key_passes test m k = elim (lookup k m) [ none ↦ false | some old ↦ test old ]

abbrev pub keys_to_delete : ℕ → OAuthData → Map OAuthData → List String
keys_to_delete now entry m =
    select (key_passes (is_older_login entry) m) (keys m)
    ++ (select (key_passes (is_tokenless now) m) (keys m)
        ++ select (key_passes (is_older_email entry) m) (keys m))

-- The count has a key once for each reason to delete it; sorting and compacting the keys keeps a
-- key from being deleted twice, which changes nothing.
unfoldable pub cleanup_oauth2_data : ℕ → OAuthData → Store → ℕ × Store
cleanup_oauth2_data now entry store =
    let doomed = keys_to_delete now entry store.oauth2_data in
    (length doomed, record store { oauth2_data = delete_all doomed store.oauth2_data })

-- `order` is the order in which Go ranges over the map; an entry that was deleted before it is
-- reached is passed over.
unfoldable pub cleanup_for_all_entries : ℕ → List String → Store → ℕ × Store
cleanup_for_all_entries now [] store = (0, store)
cleanup_for_all_entries now (k ∷ order) store = elim (lookup k store.oauth2_data) [
  | none ↦ cleanup_for_all_entries now order store
  | some entry ↦
      let (deleted, store') = cleanup_oauth2_data now entry store in
      let (rest, store'') = cleanup_for_all_entries now order store' in (deleted + rest, store'')
]
