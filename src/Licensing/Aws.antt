-- ===== src/Licensing/Aws.antt =====
-- licensing/aws.go
use go_devops_platform.Base.{
  ℕ, String, Bool, false, List, [], ◌∷◌, Result, ok, err, Action, not, ◌||◌, any, eqb,
  if◌then◌else◌, ◌==◌,
}
use go_devops_platform.Base.Int.{ℤ}
use go_devops_platform.Base.Text.{◌+++◌, has_suffix}
use go_devops_platform.Storage.{Iface}
use go_devops_platform.Licensing.Host.{
  Host, InstanceIdentityDocument, no_document, metadata_url, get_request, get_license_key_from_file,
  get_license, generate_license_key, licensed_users,
}

abbrev pub aws_product_code : String
aws_product_code = "7h7h3bnutjn0ziamv7npi8a69"

abbrev pub token_header : String → List (String × String)
token_header token = if token == "" then [] else ("X-aws-ec2-metadata-token", token) ∷ []

module _ (host : Host) where
  unfoldable pub get_metadata_token : String
  get_metadata_token =
      elim (host.send (record {
        method = "PUT";
        url = metadata_url +++ "/latest/api/token";
        headers = ("X-aws-ec2-metadata-token-ttl-seconds", "21600") ∷ [];
      })) [ err e ↦ "" | ok response ↦ if eqb response.status 200 then response.body else "" ]

  -- An answer with another status than 200 gives the empty document and no error.
  unfoldable pub get_instance_identity_document : String → Result InstanceIdentityDocument
  get_instance_identity_document token =
      elim (host.send (
        get_request (metadata_url +++ "/2022-09-24/dynamic/instance-identity/document")
          (token_header token))) [
            | err e ↦ err e
            | ok response ↦
                if not (eqb response.status 200)
                then ok no_document
                else host.decode_document response
          ]

  unfoldable pub is_on_aws_marketplace : Bool
  unfolding get_metadata_token get_instance_identity_document
  is_on_aws_marketplace = elim (get_instance_identity_document get_metadata_token) [
    | err e ↦ false
    | ok document ↦ any (λ code. code == aws_product_code) document.marketplace_product_codes
  ]

  unfoldable pub is_on_aws : Bool
  unfolding get_metadata_token get_instance_identity_document
  is_on_aws = elim (get_instance_identity_document get_metadata_token) [
    | err e ↦ false
    | ok document ↦ not (document.account_id == "") || not (document.version == "")
  ]

  unfoldable pub get_license_from_metadata : String → Result String
  get_license_from_metadata token =
      elim (host.send (
        get_request (metadata_url +++ "/2022-09-24/meta-data/tags/instance/license")
          (token_header token))) [
            | err e ↦ err e
            | ok response ↦ if not (eqb response.status 200) then ok "" else ok response.body
          ]

  unfoldable pub get_aws_instance_type : String
  unfolding get_metadata_token
  get_aws_instance_type =
      elim (host.send (
        get_request (metadata_url +++ "/latest/meta-data/instance-type")
          (token_header get_metadata_token))) [
            | err e ↦ ""
            | ok response ↦ if eqb response.status 200 then response.body else ""
          ]

  -- GetAWSInstanceID
  unfoldable pub get_aws_instance_id : Result String
  unfolding get_metadata_token
  get_aws_instance_id =
      elim (host.send (
        get_request (metadata_url +++ "/latest/meta-data/instance-id")
          (token_header get_metadata_token))) [
            | err e ↦ err e
            | ok response ↦
                if eqb response.status 200
                then ok response.body
                else err "received statuscode from aws metadata api"
          ]

  module _ {Disk : Type 0} (storage : Iface Disk) where
    -- The key of the tag of the machine, or else the one of the file.
    unfoldable pub aws_license_base : Action Disk String
    unfolding get_license_from_metadata get_metadata_token get_license_key_from_file
    aws_license_base d = elim (get_license_from_metadata get_metadata_token) [
      | err e ↦ get_license_key_from_file storage host d
      | ok key ↦ if key == "" then get_license_key_from_file storage host d else (ok key, d)
    ]

    unfoldable pub get_aws_license_key : Action Disk String
    unfolding aws_license_base get_instance_identity_document get_metadata_token
        generate_license_key
    get_aws_license_key d =
        let (r, d') = aws_license_base d in
        elim r [
          | err e ↦ (err e, d')
          | ok key ↦ elim (get_instance_identity_document get_metadata_token) [
            | err e ↦ (err e, d')
            | ok document ↦ (ok (generate_license_key host key document.account_id), d')
          ]
        ]

    unfoldable pub get_max_users_aws_byol : Disk → ℤ × Disk
    unfolding get_aws_license_key get_license
    get_max_users_aws_byol d = licensed_users host (get_aws_license_key d)

-- The number of the first ending that fits, and 3 otherwise.
abbrev pub first_suffix : String → List (String × ℕ) → ℕ
first_suffix instance_type [] = 3
first_suffix instance_type ((suffix, users) ∷ sizes) =
    if has_suffix instance_type suffix then users else first_suffix instance_type sizes

-- The tests of GetMaxUsersAWS in their order.
abbrev pub aws_sizes : List (String × ℕ)
aws_sizes =
    (".nano", 3)
    ∷ (".micro", 10)
    ∷ (".small", 25)
    ∷ (".medium", 50)
    ∷ (".large", 100)
    ∷ (".xlarge", 250)
    ∷ (".2xlarge", 500)
    ∷ (".4xlarge", 1000)
    ∷ (".8xlarge", 2500)
    ∷ (".12xlarge", 5000)
    ∷ (".16xlarge", 10000)
    ∷ (".24xlarge", 10000)
    ∷ (".32xlarge", 10000)
    ∷ (".48xlarge", 10000)
    ∷ (".metal", 10000)
    ∷ []

unfoldable pub get_max_users_aws : String → ℕ
unfolding has_suffix
get_max_users_aws instance_type =
    if instance_type == "" then 3 else first_suffix instance_type aws_sizes
