-- ===== src/Oidc/Store.antt =====
-- auth/oidc/store/store.go, save.go, discovery.go and jwks.go. The lock does not show: each
-- operation on the maps is one step.
pub mod Laws
use go_devops_platform.Base.{
  ℕ, ◌+◌, ◌*◌, String, Bool, true, false, List, [], ◌∷◌, Option, none, some, Result, ok, err, Done,
  Action, not, ltb, eqb, if◌then◌else◌,
}
use go_devops_platform.Base.Map.{lookup, insert}
use go_devops_platform.Base.Text.{◌+++◌}
use go_devops_platform.Storage.{Bytes, Iface}
use go_devops_platform.Oidc.Types.{
  Discovery, DiscoveryCache, Jwks, JwksCache, OAuthData, Store, Http,
}

unfoldable pub store_entry : String → OAuthData → Store → Store
store_entry state entry store = record store { oauth2_data = insert state entry store.oauth2_data }

unfoldable pub set_discovery_cache : String → DiscoveryCache → Store → Store
set_discovery_cache key value store = record store {
  discovery_cache = insert key value store.discovery_cache;
}

unfoldable pub set_jwks_cache : String → JwksCache → Store → Store
set_jwks_cache key value store = record store { jwks_cache = insert key value store.jwks_cache }

unfoldable pub get_discovery_cache : String → Store → Option DiscoveryCache
get_discovery_cache key store = lookup key store.discovery_cache

abbrev pub second : ℕ
second = 1_000_000_000

abbrev pub twelve_hours : ℕ
twelve_hours = 43_200 * second

abbrev pub twenty_minutes : ℕ
twenty_minutes = 1_200 * second

abbrev pub empty_store : Store
empty_store = record { oauth2_data = []; discovery_cache = []; jwks_cache = [] }

-- `marshal` and `unmarshal` are encoding/json on the store.
module _ {Disk : Type 0} (storage : Iface Disk) (marshal : Store → Result Bytes) where
  unfoldable pub save_oidc_store : Store → Action Disk Done
  save_oidc_store store d = elim (marshal store) [
    | err e ↦ (err ("oidc store marshal error: " +++ e), d)
    | ok out ↦
        let (r, d') = storage.write_file (storage.config_path "oidcstore.json") out d in
        elim r [ ok _ ↦ (ok tt, d') | err e ↦ (err ("oidcstore write error: " +++ e), d') ]
  ]

  unfoldable pub save_oauth2_data : OAuthData → String → Store → Disk → Result Done × Store × Disk
  unfolding store_entry
  save_oauth2_data entry key store d =
      let store' : Store = store_entry key entry store in
      let (r, d') = save_oidc_store store' d in (r, store', d')

module _ {Disk : Type 0} (storage : Iface Disk) (unmarshal : Bytes → Result Store) where
  -- A map that the file lacks reads as empty.
  unfoldable pub new_store : Disk → Result Store
  new_store d =
      if not (storage.file_exists (storage.config_path "oidcstore.json") d)
      then ok empty_store
      else elim (storage.read_file (storage.config_path "oidcstore.json") d) [
        | err e ↦ err ("config read error: " +++ e)
        | ok content ↦ elim (unmarshal content) [
          | err e ↦ err ("decode input error: " +++ e)
          | ok store ↦ ok store
        ]
      ]

-- `now` is the time of the check of the cache, `later` the time after the fetch.
module _ (http : Http) (now later : ℕ) where
  unfoldable pub fetch_discovery : String → Result Discovery
  fetch_discovery uri = elim (http.get uri) [
    | err e ↦ err ("discoveryURL Get error: " +++ e)
    | ok reply ↦
        if not (eqb reply.status 200)
        then err "DiscoveryURI Request unsuccesful"
        else elim (http.decode_discovery reply.body) [
          | err e ↦ err ("discoveryURL decode error: " +++ e)
          | ok discovery ↦ ok discovery
        ]
  ]

  abbrev pub cache_discovery : String → Store → Result Discovery → Result Discovery × Store
  cache_discovery uri store (err e) = (err e, store)
  cache_discovery uri store (ok discovery) = (
    ok discovery,
    set_discovery_cache uri (record { expiration = later + twelve_hours; discovery = discovery })
        store,
  )

  unfoldable pub get_discovery_uri : String → Store → Result Discovery × Store
  unfolding get_discovery_cache
  get_discovery_uri uri store = elim (get_discovery_cache uri store) [
    | none ↦ cache_discovery uri store (fetch_discovery uri)
    | some cached ↦
        if ltb now cached.expiration
        then (ok cached.discovery, store)
        else cache_discovery uri store (fetch_discovery uri)
  ]

  unfoldable pub fetch_jwks : String → Result Jwks
  fetch_jwks uri = elim (http.get uri) [
    | err e ↦ err ("discoveryURL Get error: " +++ e)
    | ok reply ↦
        if not (eqb reply.status 200)
        then err "DiscoveryURI Request unsuccesful"
        else elim (http.decode_jwks reply.body) [
          | err e ↦ err ("discoveryURL decode error: " +++ e)
          | ok jwks ↦ ok jwks
        ]
  ]

  abbrev pub cache_jwks : String → Store → Result Jwks → Result Jwks × Store
  cache_jwks uri store (err e) = (err e, store)
  cache_jwks uri store (ok jwks) = (
    ok jwks,
    set_jwks_cache uri (record { expiration = later + twenty_minutes; jwks = jwks }) store,
  )

  unfoldable pub get_jwks : String → Store → Result Jwks × Store
  get_jwks uri store = elim (lookup uri store.jwks_cache) [
    | none ↦ cache_jwks uri store (fetch_jwks uri)
    | some cached ↦
        if ltb now cached.expiration
        then (ok cached.jwks, store)
        else cache_jwks uri store (fetch_jwks uri)
  ]

  unfoldable pub get_all_jwks : List Discovery → Store → Result (List Jwks) × Store
  get_all_jwks [] store = (ok [], store)
  get_all_jwks (discovery ∷ ds) store =
      let (r, store') = get_jwks discovery.jwks_uri store in
      elim r [
        | err e ↦ (err ("get jwks error: " +++ e), store')
        | ok jwks ↦
            let (rest, store'') = get_all_jwks ds store' in
            elim rest [ err e ↦ (err e, store'') | ok all ↦ (ok (jwks ∷ all), store'') ]
      ]
