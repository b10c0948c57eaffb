-- ===== src/Licensing/Azure.antt =====
-- licensing/azure.go
use Prim.Native.Char.{Char, code}
use Prim.Native.String.{[], ◌∷◌}
use go_devops_platform.Base.{
  ℕ, ◌+◌, ◌-◌, ◌*◌, ◌%◌, String, Bool, true, false, Option, none, some, Result, ok, err, Action,
  not, ◌&&◌, ◌||◌, ltb, leb, eqb, if◌then◌else◌, ◌==◌,
}
use go_devops_platform.Base.Int.{ℤ, pos, negsuc}
use go_devops_platform.Base.Text.{◌+++◌}
use go_devops_platform.Storage.{Iface}
use go_devops_platform.Licensing.Host.{
  Host, Compute, Plan, no_compute, metadata_url, get_request, identified_license_key, get_license,
  licensed_users, metadata_header,
}

abbrev pub is_digit : Char → Bool
is_digit c = leb b'0' (code c) && leb (code c) b'9'

abbrev pub digit_value : Char → ℕ
digit_value c = code c - b'0'

-- What follows `[0-9]*#` at the start of a text; `seen` tells that a digit has been read, so that
-- `[0-9]+#` starts with false.
abbrev pub after_digits : Bool → String → Option String
after_digits seen [] = none
after_digits seen (c ∷ s) =
    if is_digit c then after_digits true s else if seen && eqb (code c) b'#' then some s else none

-- What follows the longest match of `^.*v[0-9]+#`, for a text without a line break.
abbrev pub after_version : String → Option String
after_version [] = none
after_version (c ∷ s) = elim (after_version s) [
  | some rest ↦ some rest
  | none ↦ if eqb (code c) b'v' then after_digits false s else none
]

abbrev pub strip_version : String → String
strip_version s = elim (after_version s) [ none ↦ s | some rest ↦ rest ]

-- The number that the digits at the start of a text continue.
abbrev pub read_digits : ℕ → String → ℕ
read_digits n [] = n
read_digits n (c ∷ s) = if is_digit c then read_digits (n * 10 + digit_value c) s else n

-- The first match of `[0-9]+`, as a number.
abbrev pub first_number : String → Option ℕ
first_number [] = none
first_number (c ∷ s) = if is_digit c then some (read_digits (digit_value c) s) else first_number s

-- A product of int64, which wraps around.
abbrev pub wrap_int64 : ℕ → ℤ
wrap_int64 n =
    let r : ℕ = n % 18_446_744_073_709_551_616 in
    if ltb r 9_223_372_036_854_775_808 then pos r else negsuc (18_446_744_073_709_551_615 - r)

-- strconv.Atoi fails above the largest int64.
unfoldable pub get_max_users_azure : String → ℤ
get_max_users_azure instance_type =
    if instance_type == "" then pos 3 else elim (first_number (strip_version instance_type)) [
      | none ↦ pos 3
      | some count ↦
          if ltb 9_223_372_036_854_775_807 count
          then pos 3
          else if eqb count 0
          then pos 15
          else wrap_int64 (count * 25)
    ]

module _ (host : Host) where
  unfoldable pub is_on_azure : Bool
  is_on_azure =
      elim (host.send (get_request (metadata_url +++ "/metadata/versions") metadata_header)) [
        | err e ↦ false
        | ok response ↦ eqb response.status 200
      ]

  unfoldable pub get_azure_instance_type : String
  get_azure_instance_type =
      elim (host.send (
        get_request (metadata_url +++ "/metadata/instance?api-version=2021-02-01")
          metadata_header)) [
            | err e ↦ ""
            | ok response ↦
                if not (eqb response.status 200) || not response.is_complete
                then ""
                else elim (host.decode_metadata response.body) [
                  | err e ↦ ""
                  | ok compute ↦ compute.vm_size
                ]
          ]

  unfoldable pub get_azure_compute_metadata : Compute
  get_azure_compute_metadata =
      elim (host.send (
        get_request (metadata_url +++ "/metadata/instance/compute?api-version=2021-02-01")
          metadata_header)) [
            | err e ↦ no_compute
            | ok response ↦
                if not (eqb response.status 200) || not response.is_complete
                then no_compute
                else elim (host.decode_compute response.body) [
                  | err e ↦ no_compute
                  | ok compute ↦ compute
                ]
          ]

  unfoldable pub get_azure_instance_plan : Plan
  unfolding get_azure_compute_metadata
  get_azure_instance_plan = get_azure_compute_metadata.plan

  unfoldable pub get_azure_identifier : Result String
  unfolding get_azure_compute_metadata
  get_azure_identifier =
      let id : String = get_azure_compute_metadata.vm_id in
      if not (id == "") then ok id else err "could not get identifier from azure metadata"

  module _ {Disk : Type 0} (storage : Iface Disk) where
    unfoldable pub get_azure_license_key : Action Disk String
    unfolding get_azure_identifier identified_license_key
    get_azure_license_key = identified_license_key storage host get_azure_identifier

    unfoldable pub get_max_users_azure_byol : Disk → ℤ × Disk
    unfolding get_azure_license_key get_license
    get_max_users_azure_byol d = licensed_users host (get_azure_license_key d)
