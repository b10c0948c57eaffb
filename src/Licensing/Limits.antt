-- ===== src/Licensing/Limits.antt =====
-- licensing/license.go: which cloud the machine is on, and its number of users.
use go_devops_platform.Base.{String, Result, ok, err, not, ◌&&◌, ◌||◌, if◌then◌else◌, ◌==◌}
use go_devops_platform.Base.Int.{ℤ, pos}
use go_devops_platform.Storage.{Iface}
use go_devops_platform.Licensing.Host.{Host, get_license_key_from_file, get_max_users_byol_no_cloud}
use go_devops_platform.Licensing.Aws.{
  is_on_aws_marketplace, is_on_aws, get_aws_instance_type, get_max_users_aws,
  get_max_users_aws_byol, get_aws_license_key,
}
use go_devops_platform.Licensing.Azure.{
  is_on_azure, get_azure_instance_plan, get_azure_instance_type, get_max_users_azure,
  get_max_users_azure_byol,
}
use go_devops_platform.Licensing.Clouds.{
  is_on_digital_ocean, is_on_gcp, get_max_users_digital_ocean_byol, get_max_users_gcp_byol,
  get_digital_ocean_license_key, get_gcp_license_key,
}

module _ (host : Host) where
  unfoldable pub guess_infrastructure : String
  unfolding is_on_aws_marketplace is_on_aws is_on_azure get_azure_instance_plan is_on_digital_ocean
      is_on_gcp
  guess_infrastructure =
      let plan = get_azure_instance_plan host in
      if is_on_aws_marketplace host
      then "aws-marketplace"
      else if is_on_aws host
      then "aws"
      else if is_on_azure host
      then if not (plan.name == "")
          && (plan.publisher == "in4it"
              && (plan.name == "vpn-server-plan" && plan.product == "vpn-server"))
        then "azure"
        else "azure-byol"
      else if is_on_digital_ocean host
      then "digitalocean"
      else if is_on_gcp host
      then "gcp"
      else ""

  -- The cloud and the type of the machine.
  unfoldable pub get_instance_type : String × String
  unfolding guess_infrastructure get_azure_instance_type get_aws_instance_type
  get_instance_type =
      let cloud = guess_infrastructure in
      if cloud == "azure" || cloud == "azure-byol"
      then (cloud, get_azure_instance_type host)
      else if cloud == "aws-marketplace" || cloud == "aws"
      then (cloud, get_aws_instance_type host)
      else if cloud == "digitalocean"
      then (cloud, "droplet")
      else if cloud == "gcp"
      then (cloud, "instance")
      else ("", "")

  module _ {Disk : Type 0} (storage : Iface Disk) where
    -- getMaxUsers
    unfoldable pub max_users_of : String → String → Disk → ℤ × Disk
    unfolding get_max_users_azure get_max_users_azure_byol get_max_users_aws get_max_users_aws_byol
        get_max_users_digital_ocean_byol get_max_users_gcp_byol get_max_users_byol_no_cloud
    max_users_of cloud_type instance_type d =
        if cloud_type == "azure"
        then (get_max_users_azure instance_type, d)
        else if cloud_type == "azure-byol"
        then get_max_users_azure_byol host storage d
        else if cloud_type == "aws-marketplace"
        then (pos (get_max_users_aws instance_type), d)
        else if cloud_type == "aws"
        then get_max_users_aws_byol host storage d
        else if cloud_type == "digitalocean"
        then get_max_users_digital_ocean_byol host storage d
        else if cloud_type == "gcp"
        then get_max_users_gcp_byol host storage d
        else if cloud_type == ""
        then get_max_users_byol_no_cloud storage host d
        else (pos 3, d)

    -- GetMaxUsers
    unfoldable pub max_users_and_cloud : Disk → ℤ × String × Disk
    unfolding get_instance_type max_users_of
    max_users_and_cloud d =
        let (cloud, instance) = get_instance_type in
        let (users, d') = max_users_of cloud instance d in (users, cloud, d')

    unfoldable pub refresh_license : String → ℤ → Disk → ℤ × Disk
    unfolding get_instance_type max_users_of
    refresh_license cloud_type current d =
        if cloud_type == "azure" || cloud_type == "aws-marketplace"
        then (current, d)
        else let (cloud, instance) = get_instance_type in max_users_of cloud instance d

    abbrev pub key_or_empty : Result String × Disk → String × Disk
    key_or_empty (err e, d) = ("", d)
    key_or_empty (ok key, d) = (key, d)

    unfoldable pub get_license_key : String → Disk → String × Disk
    unfolding get_aws_license_key get_digital_ocean_license_key get_gcp_license_key
        get_license_key_from_file
    get_license_key cloud_type d = key_or_empty (
        if cloud_type == "aws"
        then get_aws_license_key host storage d
        else if cloud_type == "digitalocean"
        then get_digital_ocean_license_key host storage d
        else if cloud_type == "gcp"
        then get_gcp_license_key host storage d
        else get_license_key_from_file storage host d)
