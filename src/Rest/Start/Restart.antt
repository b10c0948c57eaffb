-- ===== src/Rest/Start/Restart.antt =====
-- What a second start of a server finds: rest/context.go.
use go_devops_platform.Base.{
  ◌≡◌, ◌≢◌, inl, inr, String, Option, some, Result, ok, Run, returns, arith, Result-cases,
  Run-cases,
}
use go_devops_platform.Base.Int.{ℤ}
use go_devops_platform.Base.Text.{◌+++◌}
use go_devops_platform.Storage.{Bytes, Iface, IsStorage, IsSeparate}
use go_devops_platform.Oidc.Types.{Store}
use go_devops_platform.Oidc.Store.{new_store}
use go_devops_platform.Rest.Keys.{
  JwtKeys, KeySource, Codec, private_file, public_file, get_jwt_keys,
}
use go_devops_platform.Rest.Keys.Stuck.{get_jwt_keys_stable}
use go_devops_platform.Rest.Start.{Context, get_config, new_context_with_params}

module _ {Disk PrivateKey PublicKey : Type 0} (storage : Iface Disk)
    (decode : Bytes → Result (Option (Context PrivateKey PublicKey)))
    (codec : Codec PrivateKey PublicKey) (unmarshal : Bytes → Result Store)
    (server_type cloud_type client_token : String) (license_user_count : ℤ) (app_dir : String) where
  abbrev start :
      Result String
      → KeySource PrivateKey
      → Disk
      → Run (Result (Context PrivateKey PublicKey)) × Disk
  start random source d =
      new_context_with_params storage decode codec unmarshal server_type cloud_type client_token
        license_user_count random source app_dir d

  -- A start that succeeds was given keys, and its context has them.
  start_keys :
      (random : Result String) (source : KeySource PrivateKey) (d : Disk)
      (c : Context PrivateKey PublicKey)
      → (start random source d).0 ≡ returns (ok c)
      → (keys : JwtKeys PrivateKey PublicKey) × ((get_jwt_keys storage codec source d).0 ≡ ok keys)
        × ((start random source d).1 ≡ (get_jwt_keys storage codec source d).1)
        × (c.jwt_keys ≡ some keys)
  unfolding new_context_with_params
  start_keys random source d c h = elim (Run-cases (get_config storage decode random app_dir d)) [
    | inr (m, e) ↦ absurd (ground (arith, e, h))
    | inl (r, e) ↦ elim (Result-cases r) [
      | inr (m, f) ↦ absurd (ground (arith, e, f, h))
      | inl (c0, f) ↦ elim (Result-cases (get_jwt_keys storage codec source d).0) [
        | inr (m, g) ↦ absurd (ground (arith, e, f, g, h))
        | inl (keys, g) ↦
            elim (Result-cases
              (new_store storage unmarshal (get_jwt_keys storage codec source d).1)) [
                | inr (m, i) ↦ absurd (ground (arith, e, f, g, i, h))
                | inl (store, i) ↦ (keys, g, ground (arith, e, f, g), ground (arith, e, f, g, i, h))
              ]
      ]
    ]
  ]

  module _ (Valid : Disk → Type 0) (laws : IsStorage storage) (separate : IsSeparate storage Valid)
      (differ : public_file storage codec ≢ private_file storage codec)
      (private_path : storage.config_path "pki" +++ "/private.pem" ≡ private_file storage codec)
      (public_path : storage.config_path "pki" +++ "/public.pem" ≡ public_file storage codec) where
    -- A server that is started again, over what its first start left, has the same keys if it
    -- starts, whatever the random source gives by then, and this start writes nothing.
    pub restart_keeps_keys :
        (random later_random : Result String) (source later : KeySource PrivateKey) (d : Disk)
        (c c' : Context PrivateKey PublicKey)
        → Valid d
        → (start random source d).0 ≡ returns (ok c)
        → (start later_random later (start random source d).1).0 ≡ returns (ok c')
        → (c'.jwt_keys ≡ c.jwt_keys)
          × ((start later_random later (start random source d).1).1 ≡ (start random source d).1)
    restart_keeps_keys random later_random source later d c c' v first second =
        let (keys, got, disk, mine) = start_keys random source d c first in
        let stable =
          get_jwt_keys_stable storage codec Valid laws separate source later d keys v differ
            private_path public_path got in
        let d' = (start random source d).1 in
        let again : get_jwt_keys storage codec later d' ≡ (ok keys, d') = rw disk stable in
        let (keys', got', disk', his) = start_keys later_random later d' c' second in
        (ground (arith, mine, his, again, got'), ground (arith, disk', again))
