-- ===== src/Saml/KeyPair.antt =====
-- auth/saml/keypair.go: the key and the certificate of the service, which are generated when a
-- file is missing and read from the storage at each use.
pub mod Stable
use go_devops_platform.Base.{
  ℕ, String, Bool, List, [], ◌∷◌, Option, none, some, Result, ok, err, Run, returns, panics, Done,
  Action, not, ◌||◌, if◌then◌else◌,
}
use go_devops_platform.Base.Text.{◌+++◌}
use go_devops_platform.Storage.{Bytes, Iface}

-- What crypto/rand, crypto/rsa, crypto/x509 and encoding/pem give at one call, from the generation
-- of a key to the text of the certificate; `Key` is *rsa.PrivateKey.
pub record Source (Key : Type 0) : Type 0 where
  pub generate_key : Result Key
  pub encode_key : Key → Result Bytes
  pub serial_number : Result ℕ
  pub create_certificate : (hostname : String) → ℕ → Key → Result Bytes
  pub encode_certificate : Bytes → Result Bytes

-- tls.Certificate: the private key, if it is an RSA key, and the chain of certificates.
pub record TlsCertificate (Key : Type 0) : Type 0 where
  pub private_key : Option Key
  pub certificate : List Bytes

-- The two texts, as far as the generation goes.
unfoldable pub generated : {Key : Type 0} → Source Key → String → Result (Bytes × Bytes)
generated source hostname = elim source.generate_key [
  | err e ↦ err ("private key generation failed: " +++ e)
  | ok key ↦ elim (source.encode_key key) [
    | err e ↦ err e
    | ok key_out ↦ elim source.serial_number [
      | err e ↦ err ("rand int error: " +++ e)
      | ok serial ↦ elim (source.create_certificate hostname serial key) [
        | err e ↦ err ("certificate creation error: " +++ e)
        | ok der ↦ elim (source.encode_certificate der) [
          | err e ↦ err e
          | ok cert_out ↦ ok (key_out, cert_out)
        ]
      ]
    ]
  ]
]

module _ {Disk : Type 0} (storage : Iface Disk) where
  abbrev pub key_file : String
  key_file = storage.config_path "saml/saml.key"

  abbrev pub cert_file : String
  cert_file = storage.config_path "saml/saml.crt"

  -- The path and the two files.
  unfoldable pub store_pair : Bytes → Bytes → Action Disk Done
  store_pair key_out cert_out d =
      let (made, d1) = storage.ensure_path (storage.config_path "saml") d in
      let (first, d2) = storage.write_file key_file key_out d1 in
      let (second, d3) = storage.write_file cert_file cert_out d2 in
      elim made [
        | err e ↦ (err ("could not ensure saml path exists: " +++ e), d1)
        | ok _ ↦ elim first [
          | err e ↦ (err ("saml key write error: " +++ e), d2)
          | ok _ ↦ elim second [
            | err e ↦ (err ("saml key write error: " +++ e), d3)
            | ok _ ↦ (ok tt, d3)
          ]
        ]
      ]

module _ {Disk Key : Type 0} (storage : Iface Disk) where
  unfoldable pub generate_key_and_cert : Source Key → String → Action Disk Done
  unfolding generated store_pair
  generate_key_and_cert source hostname d = elim (generated source hostname) [
    | err e ↦ (err e, d)
    | ok (key_out, cert_out) ↦ store_pair storage key_out cert_out d
  ]

  module _ (x509_key_pair : (cert key : Bytes) → Result (TlsCertificate Key)) where
    -- The code after the files are there.
    unfoldable pub load_key_pair : Disk → Run (Result (Key × Bytes))
    load_key_pair d = elim (storage.read_file (cert_file storage) d) [
      | err e ↦ returns (err ("can't read saml certificate: " +++ e))
      | ok cert_block ↦ elim (storage.read_file (key_file storage) d) [
        | err e ↦ returns (err ("can't read saml key: " +++ e))
        | ok key_block ↦ elim (x509_key_pair cert_block key_block) [
          | err e ↦ returns (err ("can't get saml keypair: " +++ e))
          | ok pair ↦ elim pair.private_key [
            | none ↦ panics "interface conversion"
            | some key ↦ elim pair.certificate [
              | [] ↦ panics "index out of range"
              | cert ∷ _ ↦ returns (ok (key, cert))
            ]
          ]
        ]
      ]
    ]

    -- GetKeyPair
    unfoldable pub get_key_pair : Source Key → String → Disk → Run (Result (Key × Bytes)) × Disk
    unfolding generate_key_and_cert load_key_pair
    get_key_pair source hostname d =
        if not (storage.file_exists (key_file storage) d)
          || not (storage.file_exists (cert_file storage) d)
        then (let (r, d') = generate_key_and_cert source hostname d in
            elim r [
              | err e ↦ (returns (err ("can't generate saml key and cert: " +++ e)), d')
              | ok _ ↦ (load_key_pair d', d')
            ])
        else (load_key_pair d, d)
