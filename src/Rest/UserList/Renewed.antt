-- ===== src/Rest/UserList/Renewed.antt =====
-- The times of renewal in the list of users of rest/users.go. The entries of the store stand under
-- the random states of rest/auth.go, and have a UUID each as their ID.
use go_devops_platform.Base.{
  ℕ, ◌≡◌, ◌≢◌, ◌⊎◌, ◌∙◌, sym, ap, refl, inl, inr, String, true, List, [], ◌∷◌, map, some, Result,
  ok, err, any, eqb, if◌then◌else◌, ◌==◌, eq_iff, arith, Option-cases,
}
use go_devops_platform.Base.Map.{lookup}
use go_devops_platform.Base.Text.{◌+++◌}
use go_devops_platform.Storage.{Bytes, Iface}
use go_devops_platform.Users.Types.{User, World, Env, blanked}
use go_devops_platform.Users.Model.{list_users}
use go_devops_platform.Oidc.Types.{OAuthData, Store}
use go_devops_platform.Rest.UserList.{
  UsersResponse, shown, refused, renewal_of, user_response, get_users,
}

-- No two entries have the same ID.
abbrev pub HasUniqueIds : Store → Type 0
HasUniqueIds store =
    (j k : String) (e f : OAuthData)
    → lookup j store.oauth2_data ≡ some e
    → lookup k store.oauth2_data ≡ some f
    → e.id ≡ f.id
    → j ≡ k

-- The time of the entry with an ID, and zero where there is none.
abbrev pub IsRenewalOf : Store → String → ℕ → Type 0
IsRenewalOf store id renewed =
    ((k : String) × (e : OAuthData) × (lookup k store.oauth2_data ≡ some e)
      × (e.id ≡ id)
      × (renewed ≡ e.last_token_renewal))
    ⊎ (((k : String) (e : OAuthData) → lookup k store.oauth2_data ≡ some e → e.id ≢ id)
        × (renewed ≡ 0))

-- What the list says of a user.
abbrev pub row : (format : ℕ → String) → (renewed : String → ℕ) → User → UsersResponse
row format renewed user = record {
  id = user.id;
  login = user.login;
  role = user.role;
  oidc_id = user.oidc_id;
  saml_id = user.saml_id;
  provisioned = user.provisioned;
  suspended = user.suspended;
  connections_disabled_on_auth_failure = user.connections_disabled_on_auth_failure;
  last_token_renewal = renewed user.oidc_id;
  last_login = if eqb user.last_login 0 then "" else format user.last_login;
}

renewal_of_hit :
    (order : List String) (at id : String) (entry : OAuthData) (store : Store) (shown_time : ℕ)
    → HasUniqueIds store
    → lookup at store.oauth2_data ≡ some entry
    → entry.id ≡ id
    → renewal_of order id store shown_time
      ≡ (if any (λ k. k == at) order then entry.last_token_renewal else shown_time)
unfolding renewal_of
renewal_of_hit [] at id entry store shown_time unique h named = refl
renewal_of_hit (key ∷ order) at id entry store shown_time unique h named =
    let ih = renewal_of_hit order at id entry store shown_time unique h named in
    let here : key ≡ at → lookup key store.oauth2_data ≡ some entry =
      λ p. ap (λ (k : String). lookup k store.oauth2_data) p ∙ h in
    elim (Option-cases (lookup key store.oauth2_data)) [
      | inl e ↦ ground (arith, e, ih, here, eq_iff key at)
      | inr (other, e) ↦
          let ih' =
            renewal_of_hit order at id entry store other.last_token_renewal unique h named in
          let same = unique key at other entry e h in
          ground (arith, e, ih, ih', same, here, named, eq_iff key at, eq_iff other.id id)
    ]

renewal_of_miss :
    (order : List String) (id : String) (store : Store) (shown_time : ℕ)
    → ((k : String) (e : OAuthData) → lookup k store.oauth2_data ≡ some e → e.id ≢ id)
    → renewal_of order id store shown_time ≡ shown_time
unfolding renewal_of
renewal_of_miss [] id store shown_time none_has = refl
renewal_of_miss (key ∷ order) id store shown_time none_has =
    let ih = renewal_of_miss order id store shown_time none_has in
    elim (Option-cases (lookup key store.oauth2_data)) [
      | inl e ↦ ground (arith, e, ih)
      | inr (other, e) ↦ ground (arith, e, ih, none_has key other e, eq_iff other.id id)
    ]

module _ (store : Store) (unique : HasUniqueIds store) (order : User → List String)
    (complete : (user : User) (k : String) (e : OAuthData)
      → lookup k store.oauth2_data ≡ some e
      → any (λ j. j == k) (order user) ≡ true)
    (renewed : String → ℕ) (is_renewal : (id : String) → IsRenewalOf store id (renewed id)) where
  renewal_of_lem :
      (user : User) → renewal_of (order user) user.oidc_id store 0 ≡ renewed user.oidc_id
  renewal_of_lem user = elim (is_renewal user.oidc_id) [
    | inl (k, e, h, named, time) ↦ ground (
      arith,
      renewal_of_hit (order user) k user.oidc_id e store 0 unique h named,
      complete user k e h,
      time,
    )
    | inr (none_has, time) ↦ renewal_of_miss (order user) user.oidc_id store 0 none_has ∙ sym time
  ]

  rows :
      (format : ℕ → String) (users : List User)
      → map (user_response format order store) (map blanked users) ≡ map (row format renewed) users
  unfolding user_response
  rows format [] = refl
  rows format (user ∷ users) = rw (renewal_of_lem (blanked user), rows format users) refl

  module _ {Disk : Type 0} (storage : Iface Disk) (env : Env)
      (marshal : List UsersResponse → Result Bytes) (format : ℕ → String) where
    -- Where no two entries have the same ID, the list of users shows each user of the store, in
    -- their order, with the time of renewal of the entry that has the user's OpenID Connect ID, and
    -- zero without such an entry, in whatever orders the loops range over the entries, if they
    -- come to each of them.
    pub get_users_any_order :
        (w : World Disk)
        → get_users storage env marshal format order store w
          ≡ elim (marshal (map (row format renewed) w.users)) [
            | err e ↦ refused 400 ("could not marshal SetupRequest: " +++ e)
            | ok out ↦ shown out
          ]
    unfolding get_users list_users
    get_users_any_order w = rw (rows format w.users, get_users) refl
