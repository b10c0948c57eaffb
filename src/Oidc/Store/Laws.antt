-- ===== src/Oidc/Store/Laws.antt =====
-- The caches of the OIDC store.
use go_devops_platform.Base.{
  ℕ, ◌+◌, ◌≤◌, ◌≡◌, String, Option, none, some, ok, arith, eq_iff, Result-cases, inl, inr, ltb,
  if◌then◌else◌,
}
use go_devops_platform.Base.Map.{lookup, lookup-insert}
use go_devops_platform.Oidc.Types.{Discovery, Store, Http}
use go_devops_platform.Oidc.Store.{
  get_discovery_uri, set_discovery_cache, fetch_discovery, twelve_hours, cache_discovery,
}

-- No entry of the cache for the address, or one that has expired.
abbrev pub IsStale : {A : Type 0} → (A → ℕ) → ℕ → Option A → Type 0
IsStale expires now none = Unit
IsStale expires now (some c) = expires c ≤ now

-- A discovery document that had to be fetched is served again, with no request and no change of
-- the store, as long as twelve hours have not passed. Once they have, the document is fetched anew,
-- and what is fetched is kept in its place.
pub get_discovery_uri_cached :
    (http again : Http) (now later then_now then_later : ℕ) (uri : String) (store : Store)
    (discovery : Discovery)
    → IsStale (λ c. c.expiration) now (lookup uri store.discovery_cache)
    → (get_discovery_uri http now later uri store).0 ≡ ok discovery
    → let store' = (get_discovery_uri http now later uri store).1 in
      get_discovery_uri again then_now then_later uri store' ≡ (
        if ltb then_now (later + twelve_hours)
        then (ok discovery, store')
        else cache_discovery again then_now then_later uri store'
            (fetch_discovery again then_now then_later uri))
unfolding get_discovery_uri set_discovery_cache
get_discovery_uri_cached http again now later then_now then_later uri store discovery stale e =
    elim (Result-cases (fetch_discovery http now later uri)) [
      | inr (message, k) ↦ absurd (ground (arith, k, e, stale))
      | inl (d, k) ↦ ground (
        arith,
        k,
        e,
        stale,
        lookup-insert uri uri (record { expiration = later + twelve_hours; discovery = d })
            store.discovery_cache,
        eq_iff uri uri,
      )
    ]
