-- ===== src/Saml/KeyPair/Stable.antt =====
-- The pair of auth/saml/keypair.go does not change once it was handed out.
use go_devops_platform.Base.{
  ◌≡◌, ◌≢◌, inl, inr, sym, ◌∙◌, String, true, Result, ok, returns, not, ◌||◌, arith, Bool-cases,
  Result-cases,
}
use go_devops_platform.Storage.{Bytes, Iface, IsStorage, IsSeparate}
use go_devops_platform.Saml.KeyPair.{
  Source, TlsCertificate, key_file, cert_file, generated, store_pair, generate_key_and_cert,
  load_key_pair, get_key_pair,
}

module _ {Disk : Type 0} (storage : Iface Disk) (Valid : Disk → Type 0) (laws : IsStorage storage)
    (separate : IsSeparate storage Valid) (differ : key_file storage ≢ cert_file storage) where
  abbrev HasBoth : Disk → Type 0
  HasBoth d =
      (storage.file_exists (key_file storage) d ≡ true)
      × (storage.file_exists (cert_file storage) d ≡ true)

  -- Both files are there, with what was written, once the pair was stored without an error.
  store_pair_both :
      (key_out cert_out : Bytes) (d : Disk)
      → Valid d
      → (store_pair storage key_out cert_out d).0 ≡ ok tt
      → HasBoth (store_pair storage key_out cert_out d).1
        × (storage.read_file (key_file storage) (store_pair storage key_out cert_out d).1
            ≡ ok key_out)
        × (storage.read_file (cert_file storage) (store_pair storage key_out cert_out d).1
            ≡ ok cert_out)
  unfolding store_pair
  store_pair_both key_out cert_out d v h =
      let d1 = (storage.ensure_path (storage.config_path "saml") d).1 in
      let d2 = (storage.write_file (key_file storage) key_out d1).1 in
      let v1 = separate.valid-ensure_path (storage.config_path "saml") d v in
      let v2 = separate.valid-write (key_file storage) key_out d1 v1 in
      elim (Result-cases (storage.ensure_path (storage.config_path "saml") d).0) [
        | inr (m, e) ↦ absurd (ground (arith, e))
        | inl (made, e) ↦ elim (Result-cases (storage.write_file (key_file storage) key_out d1).0) [
          | inr (m, f) ↦ absurd (ground (arith, e, f))
          | inl (first, f) ↦
              elim (Result-cases (storage.write_file (cert_file storage) cert_out d2).0) [
                | inr (m, g) ↦ absurd (ground (arith, e, f, g))
                | inl (second, g) ↦
                    let K = key_file storage in
                    let C = cert_file storage in
                    let apart : C ≢ K = λ q. differ (sym q) in
                    let last : (store_pair storage key_out cert_out d).1
                        ≡ (storage.write_file C cert_out d2).1 =
                      ground (arith, e, f, g) in
                    rw last (
                      (
                        separate.exists-write_other C K cert_out d2 v2 apart
                            ∙ laws.exists-write K key_out d1 f,
                        laws.exists-write C cert_out d2 g,
                      ),
                      separate.read-write_other C K cert_out d2 v2 apart
                          ∙ laws.read-write K key_out d1 f,
                      laws.read-write C cert_out d2 g,
                    )
              ]
        ]
      ]

  module _ {Key : Type 0} (x509_key_pair : (cert key : Bytes) → Result (TlsCertificate Key)) where
    unchanged :
        (source : Source Key) (hostname : String) (d : Disk) (pair : Key × Bytes)
        → HasBoth d
        → load_key_pair storage x509_key_pair d ≡ returns (ok pair)
        → get_key_pair storage x509_key_pair source hostname d ≡ (returns (ok pair), d)
    unfolding get_key_pair
    unchanged source hostname d pair both loaded = ground (arith, both.0, both.1, loaded)

    -- Either nothing was written, since both files were there, or they are there now.
    get_key_pair_both :
        (source : Source Key) (hostname : String) (d : Disk) (pair : Key × Bytes)
        → Valid d
        → (get_key_pair storage x509_key_pair source hostname d).0 ≡ returns (ok pair)
        → HasBoth (get_key_pair storage x509_key_pair source hostname d).1
          × (load_key_pair storage x509_key_pair
                (get_key_pair storage x509_key_pair source hostname d).1
              ≡ returns (ok pair))
    unfolding get_key_pair generate_key_and_cert
    get_key_pair_both source hostname d pair v h =
        elim (Bool-cases (
          not (storage.file_exists (key_file storage) d)
          || not (storage.file_exists (cert_file storage) d))) [
            | inr both ↦ ((ground arith, ground arith), ground arith)
            | inl missing ↦ elim (Result-cases (generated source hostname)) [
              | inr (m, e) ↦ absurd (ground (arith, e))
              | inl ((key_out, cert_out), e) ↦
                  elim (Result-cases (store_pair storage key_out cert_out d).0) [
                    | inr (m, f) ↦ absurd (ground (arith, e, f))
                    | inl (done, f) ↦
                        let d' = (store_pair storage key_out cert_out d).1 in
                        let out : get_key_pair storage x509_key_pair source hostname d
                            ≡ (load_key_pair storage x509_key_pair d', d') =
                          ground (arith, missing, e, f) in
                        let loaded : load_key_pair storage x509_key_pair d' ≡ returns (ok pair) =
                          ground (arith, out) in
                        rw out ((store_pair_both key_out cert_out d v f).0, loaded)
                  ]
            ]
          ]

    -- Once a key and its certificate were handed out, every later call gives the same pair and
    -- writes nothing, whatever would be generated by then, in a storage whose files are separate.
    pub get_key_pair_stable :
        (source later : Source Key) (hostname hostname' : String) (d : Disk) (pair : Key × Bytes)
        → Valid d
        → (get_key_pair storage x509_key_pair source hostname d).0 ≡ returns (ok pair)
        → let d' = (get_key_pair storage x509_key_pair source hostname d).1 in
          get_key_pair storage x509_key_pair later hostname' d' ≡ (returns (ok pair), d')
    get_key_pair_stable source later hostname hostname' d pair v h =
        let (both, loaded) = get_key_pair_both source hostname d pair v h in
        unchanged later hostname' (get_key_pair storage x509_key_pair source hostname d).1 pair both
          loaded
