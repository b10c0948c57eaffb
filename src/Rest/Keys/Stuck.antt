-- ===== src/Rest/Keys/Stuck.antt =====
-- What later calls for the keys of rest/rsa.go give, after the making of them or of a part.
use go_devops_platform.Base.{
  ◌≡◌, ◌≢◌, ◌∙◌, inl, inr, refl, String, true, false, ok, err, is_ok, arith, Result-cases,
  Bool-cases,
}
use go_devops_platform.Base.Text.{◌+++◌}
use go_devops_platform.Storage.{Iface, IsStorage, IsSeparate}
use go_devops_platform.Rest.Keys.{
  JwtKeys, KeySource, Codec, private_file, public_file, save_pem_key, save_public_pem_key,
  create_jwt_keys, read_jwt_keys, get_jwt_keys,
}

module _ {Disk PrivateKey PublicKey : Type 0} (storage : Iface Disk)
    (codec : Codec PrivateKey PublicKey) where
  abbrev K : String
  K = private_file storage codec

  abbrev C : String
  C = public_file storage codec

  -- Without a public key nothing is read.
  read_jwt_keys_err :
      (d : Disk) (m : String)
      → storage.read_file C d ≡ err m
      → is_ok (read_jwt_keys storage codec d) ≡ false
  unfolding read_jwt_keys
  read_jwt_keys_err d m h = elim (Result-cases (storage.read_file K d)) [
    | inr (e, f) ↦ ground (arith, f)
    | inl (b, f) ↦ ground (arith, f, h)
  ]

  -- Once there is a private key, no key is made any more.
  later_call :
      (later : KeySource PrivateKey) (d : Disk)
      → storage.file_exists K d ≡ true
      → get_jwt_keys storage codec later d ≡ (read_jwt_keys storage codec d, d)
  unfolding get_jwt_keys
  later_call later d h = ground (arith, h)

  module _ (Valid : Disk → Type 0) (laws : IsStorage storage)
      (separate : IsSeparate storage Valid) where
    save_pem_key_exists :
        (key : PrivateKey) (d : Disk)
        → Valid d
        → (save_pem_key storage codec K key d).0 ≡ ok tt
        → Valid (save_pem_key storage codec K key d).1
          × (storage.file_exists K (save_pem_key storage codec K key d).1 ≡ true)
    unfolding save_pem_key
    save_pem_key_exists key d v h =
        elim (Result-cases (codec.pem_encode "RSA PRIVATE KEY" (codec.marshal_private_key key))) [
          | inr (m, e) ↦ absurd (ground (arith, e))
          | inl (b, e) ↦ elim (Result-cases (storage.write_file K b d).0) [
            | inr (m, f) ↦ absurd (ground (arith, e, f))
            | inl (done, f) ↦
                let last : (save_pem_key storage codec K key d).1 ≡ (storage.write_file K b d).1 =
                  ground (arith, e, f) in
                rw last (separate.valid-write K b d v, laws.exists-write K b d f)
          ]
        ]

    save_public_pem_key_keeps :
        (key : PublicKey) (d : Disk)
        → Valid d
        → C ≢ K
        → storage.file_exists K d ≡ true
        → storage.file_exists K (save_public_pem_key storage codec C key d).1 ≡ true
    unfolding save_public_pem_key
    save_public_pem_key_keeps key d v apart h = elim (Result-cases (codec.marshal_public_key key)) [
      | inr (m, e) ↦ ground (arith, e, h)
      | inl (a, e) ↦ elim (Result-cases (codec.pem_encode "PUBLIC KEY" a)) [
        | inr (m, f) ↦ ground (arith, e, f, h)
        | inl (b, f) ↦
            let same : storage.file_exists K (storage.write_file C b d).1 ≡ true =
              separate.exists-write_other C K b d v apart ∙ h in
            elim (Result-cases (storage.write_file C b d).0) [
              | inr (m, g) ↦ ground (arith, e, f, g, same)
              | inl (done, g) ↦ ground (arith, e, f, g, same)
            ]
      ]
    ]

    module _ (source : KeySource PrivateKey) (d : Disk) (key : PrivateKey) where
      abbrev made_path : Disk
      made_path = (storage.ensure_path (codec.dir K) d).1

      abbrev saved : Disk
      saved = (save_pem_key storage codec K key made_path).1

      private_key_stays :
          Valid d
          → C ≢ K
          → storage.config_path "pki" +++ "/private.pem" ≡ K
          → storage.config_path "pki" +++ "/public.pem" ≡ C
          → storage.file_exists K d ≡ false
          → source.generate_key ≡ ok key
          → (storage.ensure_path (codec.dir K) d).0 ≡ ok tt
          → (save_pem_key storage codec K key made_path).0 ≡ ok tt
          → storage.file_exists K (get_jwt_keys storage codec source d).1 ≡ true
      unfolding get_jwt_keys create_jwt_keys
      private_key_stays v apart k c missing generated made first =
          let (v', there) =
            save_pem_key_exists key made_path (separate.valid-ensure_path (codec.dir K) d v)
              first in
          let kept = save_public_pem_key_keeps (codec.public_of key) saved v' apart there in
          let created : create_jwt_keys storage codec source (storage.config_path "pki") made_path
              ≡ save_public_pem_key storage codec C (codec.public_of key) saved =
            ground (arith, k, c, generated, first) in
          elim (Result-cases (save_public_pem_key storage codec C (codec.public_of key) saved).0) [
            | inr (m, e) ↦ ground (arith, missing, made, created, e, kept)
            | inl (done, e) ↦ ground (arith, missing, made, created, e, kept)
          ]

    -- Where no private key is stored, and a new one is saved, but no public key can be read
    -- afterwards, every later call for the keys fails and writes nothing, whatever would be
    -- generated by then, in a storage whose files are separate.
    pub get_jwt_keys_stuck :
        (source later : KeySource PrivateKey) (d : Disk) (key : PrivateKey) (e : String)
        → Valid d
        → C ≢ K
        → storage.config_path "pki" +++ "/private.pem" ≡ K
        → storage.config_path "pki" +++ "/public.pem" ≡ C
        → storage.file_exists K d ≡ false
        → source.generate_key ≡ ok key
        → (storage.ensure_path (codec.dir K) d).0 ≡ ok tt
        → (save_pem_key storage codec K key (storage.ensure_path (codec.dir K) d).1).0 ≡ ok tt
        → storage.read_file C (get_jwt_keys storage codec source d).1 ≡ err e
        → let d' = (get_jwt_keys storage codec source d).1 in
          (is_ok (get_jwt_keys storage codec later d').0 ≡ false)
          × ((get_jwt_keys storage codec later d').1 ≡ d')
    get_jwt_keys_stuck source later d key e v apart k c missing generated made first unread =
        let d' = (get_jwt_keys storage codec source d).1 in
        let there = private_key_stays source d key v apart k c missing generated made first in
        let out : get_jwt_keys storage codec later d' ≡ (read_jwt_keys storage codec d', d') =
          later_call later d' there in
        rw out (read_jwt_keys_err d' e unread, refl)

    -- What is needed of a call that makes keys: that nothing failed on the way.
    made_keys :
        (source : KeySource PrivateKey) (d : Disk) (keys : JwtKeys PrivateKey PublicKey)
        → storage.config_path "pki" +++ "/private.pem" ≡ K
        → storage.config_path "pki" +++ "/public.pem" ≡ C
        → storage.file_exists K d ≡ false
        → (get_jwt_keys storage codec source d).0 ≡ ok keys
        → (key : PrivateKey) × (source.generate_key ≡ ok key)
          × ((storage.ensure_path (codec.dir K) d).0 ≡ ok tt)
          × ((save_pem_key storage codec K key (made_path source d key)).0 ≡ ok tt)
          × (read_jwt_keys storage codec (get_jwt_keys storage codec source d).1 ≡ ok keys)
    unfolding get_jwt_keys create_jwt_keys
    made_keys source d keys k c missing h =
        elim (Result-cases (storage.ensure_path (codec.dir K) d).0) [
          | inr (m, e) ↦ absurd (ground (arith, missing, e, h))
          | inl (done, e) ↦ elim (Result-cases source.generate_key) [
            | inr (m, f) ↦ absurd (ground (arith, missing, e, f, h))
            | inl (key, f) ↦
                elim (Result-cases (save_pem_key storage codec K key (made_path source d key)).0) [
                  | inr (m, g) ↦ absurd (ground (arith, missing, e, f, g, k, h))
                  | inl (saved', g) ↦
                      elim (Result-cases
                        (save_public_pem_key storage codec C (codec.public_of key)
                          (saved source d key)).0) [
                            | inr (m, i) ↦ absurd (ground (arith, missing, e, f, g, i, k, c, h))
                            | inl (done', i) ↦
                                (key, f, e, g, ground (arith, missing, e, f, g, i, k, c, h))
                          ]
                ]
          ]
        ]

    -- Once keys were handed out, every later call gives the same keys and writes nothing, whatever
    -- would be generated by then, in a storage whose files are separate.
    pub get_jwt_keys_stable :
        (source later : KeySource PrivateKey) (d : Disk) (keys : JwtKeys PrivateKey PublicKey)
        → Valid d
        → C ≢ K
        → storage.config_path "pki" +++ "/private.pem" ≡ K
        → storage.config_path "pki" +++ "/public.pem" ≡ C
        → (get_jwt_keys storage codec source d).0 ≡ ok keys
        → let d' = (get_jwt_keys storage codec source d).1 in
          get_jwt_keys storage codec later d' ≡ (ok keys, d')
    get_jwt_keys_stable source later d keys v apart k c h =
        elim (Bool-cases (storage.file_exists K d)) [
          | inl there ↦
              let first = later_call source d there in
              let again = later_call later d there in ground (arith, first, again, h)
          | inr missing ↦
              let (key, generated, made, first, read) = made_keys source d keys k c missing h in
              let there = private_key_stays source d key v apart k c missing generated made first in
              rw (later_call later (get_jwt_keys storage codec source d).1 there, read) refl
        ]
