-- ===== src/Licensing/Keys.antt =====
-- The keys of licenses and what a machine without a license is allowed: licensing/license.go,
-- licensing/azure.go and the others for the clouds.
use go_devops_platform.Base.{
  ◌≡◌, refl, String, false, Result, ok, err, is_ok, arith, ap, Result-cases, Bool-cases, inl, inr,
  ◌==◌, ◌||◌,
}
use go_devops_platform.Base.Int.{ℤ, pos}
use go_devops_platform.Storage.{Bytes, Iface, IsStorage}
use go_devops_platform.Licensing.Host.{
  Host, get_random_string, get_license_key_from_file, generate_license_key, get_license,
  licensed_users, identified_license_key, get_max_users_byol_no_cloud,
}
use go_devops_platform.Licensing.Aws.{get_max_users_aws_byol, get_aws_license_key}
use go_devops_platform.Licensing.Azure.{
  get_azure_identifier, get_azure_license_key, get_max_users_azure_byol,
}
use go_devops_platform.Licensing.Clouds.{
  get_max_users_digital_ocean_byol, get_max_users_gcp_byol, get_digital_ocean_license_key,
  get_gcp_license_key,
}
use go_devops_platform.Licensing.Limits.{max_users_of, get_license_key}

licensed_users_unlicensed :
    {Disk : Type 0} (host : Host) (r : Result String × Disk)
    → ((key : String) → is_ok (get_license host key) ≡ false)
    → (licensed_users host r).0 ≡ pos 3
licensed_users_unlicensed host (err e, d) h = refl
licensed_users_unlicensed host (ok key, d) h = ground (arith, h key)

module _ {Disk : Type 0} (storage : Iface Disk) (host : Host) where
  -- Once the key of the license has been read or drawn, it is the key for good: over a storage that
  -- keeps its files, the next call returns the same key and leaves the disk as it is, whatever the
  -- random source gives by then, given that Go's conversions of a text in base 64 to bytes and back
  -- give that text.
  pub get_license_key_from_file_again :
      (again : Host) (d : Disk) (key : String)
      → IsStorage storage
      → ((b : Bytes) → host.to_text (host.to_bytes (host.encode_base64 b)) ≡ host.encode_base64 b)
      → again.to_text ≡ host.to_text
      → (get_license_key_from_file storage host d).0 ≡ ok key
      → let d' = (get_license_key_from_file storage host d).1 in
        get_license_key_from_file storage again d' ≡ (ok key, d')
  unfolding get_license_key_from_file get_random_string
  get_license_key_from_file_again again d key laws inverse same e =
      let name : String = storage.config_path "license.key" in
      elim (Bool-cases (storage.file_exists name d)) [
        | inl there ↦ elim (Result-cases (storage.read_file name d)) [
          | inl (b, r) ↦ ground (arith, there, r, e, ap (λ (f : Bytes → String). f b) same)
          | inr (message, r) ↦ absurd (ground (arith, there, r, e))
        ]
        | inr missing ↦ elim (Result-cases (host.random_bytes 128)) [
          | inr (message, r) ↦ absurd (ground (arith, missing, r, e))
          | inl (drawn, r) ↦
              let b : Bytes = host.to_bytes (host.encode_base64 drawn) in
              elim (Result-cases (storage.write_file name b d).0) [
                | inr (message, w) ↦ absurd (ground (arith, missing, r, w, e))
                | inl (done, w) ↦ ground (
                  arith,
                  missing,
                  r,
                  w,
                  e,
                  laws.exists-write name b d,
                  laws.read-write name b d,
                  ap (λ (f : Bytes → String). f b) same,
                  inverse drawn,
                )
              ]
        ]
      ]

  -- Where the license server gives no license for any key, every machine is allowed three users, in
  -- every cloud but the two in which the type of the machine decides.
  pub max_users_of_unlicensed :
      (cloud instance : String) (d : Disk)
      → ((key : String) → is_ok (get_license host key) ≡ false)
      → (cloud == "azure" || cloud == "aws-marketplace") ≡ false
      → (max_users_of host storage cloud instance d).0 ≡ pos 3
  unfolding max_users_of get_max_users_aws_byol get_max_users_azure_byol
      get_max_users_digital_ocean_byol get_max_users_gcp_byol get_max_users_byol_no_cloud
  max_users_of_unlicensed cloud instance d h other = ground (
    arith,
    other,
    licensed_users_unlicensed host (get_aws_license_key host storage d) h,
    licensed_users_unlicensed host (get_azure_license_key host storage d) h,
    licensed_users_unlicensed host (get_digital_ocean_license_key host storage d) h,
    licensed_users_unlicensed host (get_gcp_license_key host storage d) h,
    licensed_users_unlicensed host (get_license_key_from_file storage host d) h,
  )

  -- On Azure with a license of one's own, the key that is shown to the user is the bare key of the
  -- file, while the license is looked up under that key with the hash of the machine's identifier.
  pub get_license_key_azure_byol :
      (instance identifier key : String) (users : ℤ) (d : Disk)
      → get_azure_identifier host ≡ ok identifier
      → (get_license_key_from_file storage host d).0 ≡ ok key
      → get_license host (generate_license_key host key identifier) ≡ ok users
      → ((get_license_key host storage "azure-byol" d).0 ≡ key)
        × ((max_users_of host storage "azure-byol" instance d).0 ≡ users)
  unfolding get_license_key max_users_of get_max_users_azure_byol get_azure_license_key
      identified_license_key
  get_license_key_azure_byol instance identifier key users d i k u =
      (ground (arith, k), ground (arith, i, k, u))
