-- ===== src/Rest/Keys.antt =====
-- rest/rsa.go: the keys that sign the tokens of the server, which are made once and kept in the
-- storage.
pub mod Stuck
use go_devops_platform.Base.{String, Result, ok, err, Done, Action, if◌then◌else◌, not}
use go_devops_platform.Base.Text.{◌+++◌}
use go_devops_platform.Storage.{Bytes, Iface}

-- JWTKeys
pub record JwtKeys (PrivateKey PublicKey : Type 0) : Type 0 where
  pub private_key : PrivateKey
  pub public_key : PublicKey

-- What crypto/rsa gives for the random source at one call.
pub record KeySource (PrivateKey : Type 0) : Type 0 where
  pub generate_key : Result PrivateKey

-- crypto/x509, encoding/pem, the readers of the JWT library, and package path.
pub record Codec (PrivateKey PublicKey : Type 0) : Type 0 where
  pub public_of : PrivateKey → PublicKey
  pub marshal_private_key : PrivateKey → Bytes
  pub marshal_public_key : PublicKey → Result Bytes
  pub pem_encode : (kind : String) → Bytes → Result Bytes
  pub parse_private_key : Bytes → Result PrivateKey
  pub parse_public_key : Bytes → Result PublicKey
  pub dir : String → String

module _ {Disk PrivateKey PublicKey : Type 0} (storage : Iface Disk)
    (codec : Codec PrivateKey PublicKey) where
  abbrev pub private_file : String
  private_file = storage.config_path "pki/private.pem"

  abbrev pub public_file : String
  public_file = storage.config_path "pki/public.pem"

  -- The end of both functions that save a key.
  abbrev write_pem : String → Result Bytes → Action Disk Done
  write_pem file_name encoded d = elim encoded [
    | err e ↦ (err e, d)
    | ok b ↦
        let (written, d') = storage.write_file file_name b d in
        elim written [ err e ↦ (err ("WriteFile error: " +++ e), d') | ok _ ↦ (ok tt, d') ]
  ]

  unfoldable pub save_pem_key : String → PrivateKey → Action Disk Done
  save_pem_key file_name key d =
      write_pem file_name (codec.pem_encode "RSA PRIVATE KEY" (codec.marshal_private_key key)) d

  unfoldable pub save_public_pem_key : String → PublicKey → Action Disk Done
  save_public_pem_key file_name key d = elim (codec.marshal_public_key key) [
    | err e ↦ (err e, d)
    | ok b ↦ write_pem file_name (codec.pem_encode "PUBLIC KEY" b) d
  ]

  -- The private key is saved first.
  unfoldable pub create_jwt_keys : KeySource PrivateKey → String → Action Disk Done
  unfolding save_pem_key save_public_pem_key
  create_jwt_keys source path d = elim source.generate_key [
    | err e ↦ (err e, d)
    | ok key ↦
        let (first, d1) = save_pem_key (path +++ "/private.pem") key d in
        elim first [
          | err e ↦ (err e, d1)
          | ok _ ↦ save_public_pem_key (path +++ "/public.pem") (codec.public_of key) d1
        ]
  ]

  -- The code after the private key is there.
  unfoldable pub read_jwt_keys : Disk → Result (JwtKeys PrivateKey PublicKey)
  read_jwt_keys d = elim (storage.read_file private_file d) [
    | err e ↦ err ("private key read error: " +++ e)
    | ok sign_bytes ↦ elim (storage.read_file public_file d) [
      | err e ↦ err ("private key read error: " +++ e)
      | ok public_bytes ↦ elim (codec.parse_private_key sign_bytes) [
        | err e ↦ err ("can't parse private key: " +++ e)
        | ok sign_key ↦ elim (codec.parse_public_key public_bytes) [
          | err e ↦ err ("can't parse public key: " +++ e)
          | ok public_key ↦ ok (record { private_key = sign_key; public_key = public_key })
        ]
      ]
    ]
  ]

  -- getJWTKeys looks for the private key alone.
  unfoldable pub get_jwt_keys :
      KeySource PrivateKey → Disk → Result (JwtKeys PrivateKey PublicKey) × Disk
  unfolding create_jwt_keys read_jwt_keys
  get_jwt_keys source d =
      if not (storage.file_exists private_file d)
      then (let (made, d1) = storage.ensure_path (codec.dir private_file) d in
          elim made [
            | err e ↦ (err ("ensure path error: " +++ e), d1)
            | ok _ ↦
                let (created, d2) = create_jwt_keys source (storage.config_path "pki") d1 in
                elim created [
                  | err e ↦ (err ("createJWTKeys error: " +++ e), d2)
                  | ok _ ↦ (read_jwt_keys d2, d2)
                ]
          ])
      else (read_jwt_keys d, d)
