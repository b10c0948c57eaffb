-- ===== src/Licensing/Clouds.antt =====
-- licensing/digitalocean.go and licensing/gcp.go
use go_devops_platform.Base.{
  String, Bool, false, List, [], ◌∷◌, Result, ok, err, Action, not, eqb, if◌then◌else◌,
}
use go_devops_platform.Base.Int.{ℤ}
use go_devops_platform.Base.Text.{◌+++◌, trim_space}
use go_devops_platform.Storage.{Iface}
use go_devops_platform.Licensing.Host.{
  Host, Request, metadata_url, get_request, identified_license_key, get_license, licensed_users,
}

abbrev google_header : List (String × String)
google_header = ("Metadata-Flavor", "Google") ∷ []

module _ (host : Host) where
  unfoldable pub answers : Request → Bool
  answers request = elim (host.send request) [
    | err e ↦ false
    | ok response ↦ eqb response.status 200
  ]

  -- The body of an answer, without the spaces around it.
  unfoldable pub read_identifier : Request → Result String
  unfolding trim_space
  read_identifier request = elim (host.send request) [
    | err e ↦ err e
    | ok response ↦
        if not response.is_complete
        then err "the body could not be read"
        else if not (eqb response.status 200)
        then err "wrong statuscode returned"
        else ok (trim_space response.body)
  ]

  unfoldable pub is_on_digital_ocean : Bool
  unfolding answers
  is_on_digital_ocean =
      answers (get_request (metadata_url +++ "/metadata/v1/interfaces/private/0/type") [])

  unfoldable pub get_digital_ocean_identifier : Result String
  unfolding read_identifier
  get_digital_ocean_identifier =
      read_identifier (get_request (metadata_url +++ "/metadata/v1/id") [])

  unfoldable pub is_on_gcp : Bool
  unfolding answers
  is_on_gcp = answers (get_request (metadata_url +++ "/computeMetadata/v1/") google_header)

  unfoldable pub get_gcp_identifier : Result String
  unfolding read_identifier
  get_gcp_identifier =
      read_identifier
        (get_request (metadata_url +++ "/computeMetadata/v1/project/project-id") google_header)

  module _ {Disk : Type 0} (storage : Iface Disk) where
    unfoldable pub get_digital_ocean_license_key : Action Disk String
    unfolding get_digital_ocean_identifier identified_license_key
    get_digital_ocean_license_key = identified_license_key storage host get_digital_ocean_identifier

    unfoldable pub get_max_users_digital_ocean_byol : Disk → ℤ × Disk
    unfolding get_digital_ocean_license_key get_license
    get_max_users_digital_ocean_byol d = licensed_users host (get_digital_ocean_license_key d)

    unfoldable pub get_gcp_license_key : Action Disk String
    unfolding get_gcp_identifier identified_license_key
    get_gcp_license_key = identified_license_key storage host get_gcp_identifier

    unfoldable pub get_max_users_gcp_byol : Disk → ℤ × Disk
    unfolding get_gcp_license_key get_license
    get_max_users_gcp_byol d = licensed_users host (get_gcp_license_key d)
