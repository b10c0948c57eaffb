-- ===== src/Licensing/Host.antt =====
-- licensing/types.go as far as the code reads it, the metadata service of the machine, and the key
-- of a license: licensing/license.go, and getLicense of licensing/aws.go. http.NewRequest fails
-- only for an address that cannot be read: such a failure is one of `send`.
use go_devops_platform.Base.{
  ℕ, String, Bool, List, [], ◌∷◌, Result, ok, err, Action, not, eqb, if◌then◌else◌,
}
use go_devops_platform.Base.Int.{ℤ}
use go_devops_platform.Base.Text.{◌+++◌}
use go_devops_platform.Storage.{Bytes, Iface}

pub record Plan : Type 0 where
  pub name : String
  pub product : String
  pub publisher : String

pub record Compute : Type 0 where
  pub plan : Plan
  pub vm_id : String
  pub vm_size : String

pub record InstanceIdentityDocument : Type 0 where
  pub account_id : String
  pub marketplace_product_codes : List String
  pub version : String

abbrev pub no_plan : Plan
no_plan = record { name = ""; product = ""; publisher = "" }

abbrev pub no_compute : Compute
no_compute = record { plan = no_plan; vm_id = ""; vm_size = "" }

abbrev pub no_document : InstanceIdentityDocument
no_document = record { account_id = ""; marketplace_product_codes = []; version = "" }

pub record Request : Type 0 where
  pub method : String
  pub url : String
  pub headers : List (String × String)

-- `body` is what could be read of the body, `is_complete` tells whether that is all of it.
pub record Response : Type 0 where
  pub status : ℕ
  pub body : String
  pub is_complete : Bool

-- The network as it answers during one call, encoding/json on the types above, crypto/rand,
-- crypto/sha256 in hexadecimal, encoding/base64, and Go's conversions between bytes and strings.
-- `decode_metadata` gives the part `compute` of the metadata.
pub record Host : Type 0 where
  pub send : Request → Result Response
  pub decode_document : Response → Result InstanceIdentityDocument
  pub decode_license : Response → Result ℤ
  pub decode_metadata : String → Result Compute
  pub decode_compute : String → Result Compute
  pub random_bytes : ℕ → Result Bytes
  pub encode_base64 : Bytes → String
  pub sha256_hex : String → String
  pub to_bytes : String → Bytes
  pub to_text : Bytes → String

abbrev pub metadata_url : String
metadata_url = "http://169.254.169.254"

abbrev pub license_url : String
license_url = "https://in4it-vpn-server.s3.amazonaws.com/licenses"

abbrev pub get_request : String → List (String × String) → Request
get_request url headers = record { method = "GET"; url = url; headers = headers }

-- The header of the requests to Azure.
abbrev pub metadata_header : List (String × String)
metadata_header = ("Metadata", "true") ∷ []

unfoldable pub get_random_string : Host → ℕ → Result String
get_random_string host n = elim (host.random_bytes n) [
  | err e ↦ err ("crypto/rand Reader error: " +++ e)
  | ok b ↦ ok (host.encode_base64 b)
]

unfoldable pub generate_license_key : Host → String → String → String
generate_license_key host key identifier = key +++ ("-" +++ host.sha256_hex identifier)

-- The number of users of a license, from the license server.
unfoldable pub get_license : Host → String → Result ℤ
get_license host key = elim (host.send (get_request (license_url +++ ("/" +++ key)) [])) [
  | err e ↦ err e
  | ok response ↦
      if not (eqb response.status 200) then err "statuscode" else host.decode_license response
]

-- `if err != nil { return userLicense }` twice, around a key.
abbrev pub licensed_users : {Disk : Type 0} → Host → Result String × Disk → ℤ × Disk
licensed_users host (err e, d) = (ℤ.pos 3, d)
licensed_users host (ok key, d) = elim (get_license host key) [
  | err e ↦ (ℤ.pos 3, d)
  | ok users ↦ (users, d)
]

module _ {Disk : Type 0} (storage : Iface Disk) (host : Host) where
  unfoldable pub get_license_key_from_file : Action Disk String
  unfolding get_random_string
  get_license_key_from_file d =
      let filename : String = storage.config_path "license.key" in
      if storage.file_exists filename d
      then elim (storage.read_file filename d) [
        | err e ↦ (err ("License read error: " +++ e), d)
        | ok b ↦ (ok (host.to_text b), d)
      ]
      else elim (get_random_string host 128) [
        | err e ↦ (err ("License generation error: " +++ e), d)
        | ok key ↦
            let (r, d') = storage.write_file filename (host.to_bytes key) d in
            elim r [ err e ↦ (err ("License read error: " +++ e), d') | ok _ ↦ (ok key, d') ]
      ]

  -- The key of a machine whose identifier has to be found first.
  unfoldable pub identified_license_key : Result String → Action Disk String
  unfolding get_license_key_from_file generate_license_key
  identified_license_key (err e) d = (err e, d)
  identified_license_key (ok identifier) d =
      let (r, d') = get_license_key_from_file d in
      elim r [ err e ↦ (err e, d') | ok key ↦ (ok (generate_license_key host key identifier), d') ]

  unfoldable pub get_max_users_byol_no_cloud : Disk → ℤ × Disk
  unfolding get_license_key_from_file get_license
  get_max_users_byol_no_cloud d = licensed_users host (get_license_key_from_file d)
