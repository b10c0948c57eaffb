-- ===== src/Rest/Setup.antt =====
-- The first setup of a server: contextHandler of rest/setup.go, SaveConfig of rest/config.go, and
-- HasDigitalOceanTagSet of licensing/digitalocean.go, for lines that fit into the scanner's buffer.
pub mod Access
use go_devops_platform.Base.{
  ℕ, ◌≡◌, ◌≢◌, refl, String, Bool, true, false, List, Option, none, some, Result, ok, err, Done,
  Action, not, ◌&&◌, eqb, if◌then◌else◌, ◌==◌, eq_iff, arith, find, any, Result-cases, Bool-cases,
  inl, inr,
}
use go_devops_platform.Base.Text.{◌+++◌, has_prefix, trim_prefix, trim_space, replace_all, split}
use go_devops_platform.Storage.{Bytes, Iface}
use go_devops_platform.Users.Types.{User, no_user, World, Env, has_login}
use go_devops_platform.Users.Model.{login_exists, add_user}
use go_devops_platform.Users.Change.{update_user}
use go_devops_platform.Users.Auth.{find-update_user}
use go_devops_platform.Rest.Config.{write_config}
use go_devops_platform.Licensing.Host.{Host, metadata_url, get_request}
use go_devops_platform.Licensing.Aws.{get_aws_instance_id}

pub record ContextRequest : Type 0 where
  pub secret : String
  pub tag_hash : String
  pub instance_id : String
  pub admin_password : String
  pub hostname : String
  pub protocol : String

-- The part of `Context` that the handler reads and writes.
pub record Site (Disk : Type 0) : Type 0 where
  pub world : World Disk
  pub setup_completed : Bool
  pub hostname : String
  pub protocol : String
  pub cloud_type : String

-- An error with its status, or ContextSetupResponse.
pub data Reply : Type 0 where
  refused : ℕ → String → Reply
  context : (setup_completed : Bool) (cloud_type : String) → Reply

unfoldable pub has_digital_ocean_tag_set : Host → String → Result Bool
unfolding trim_space split
has_digital_ocean_tag_set host tag =
    elim (host.send (get_request (metadata_url +++ "/metadata/v1/tags") List.[])) [
      | err e ↦ err e
      | ok response ↦
          if not (eqb response.status 200)
          then err "wrong statuscode returned"
          else if any (λ line. tag == trim_space line) (split b'\n' response.body)
          then ok true
          else if response.is_complete
          then ok false
          else err "the body could not be read"
    ]

-- Whether the cloud grants access: an error is answered with the status 401.
unfoldable pub cloud_access : Host → String → ContextRequest → Result Bool
unfolding has_digital_ocean_tag_set get_aws_instance_id has_prefix trim_prefix
cloud_access host cloud_type request =
    if cloud_type == "digitalocean" && not (request.tag_hash == "")
    then if not (has_prefix request.tag_hash "vpnsecret-")
      then err "tag doesn't have the correct prefix. The tag needs to start with 'vpnsecret-'"
      else elim (has_digital_ocean_tag_set host request.tag_hash) [
        | err e ↦ err ("could not retrieve tags at this time: " +++ e)
        | ok granted ↦
            if not granted
            then err "tag not found. Make sure the correct tag is attached to the droplet"
            else ok true
      ]
    else if cloud_type == "aws" && not (request.instance_id == "")
    then elim (get_aws_instance_id host) [
      | err e ↦ err ("could not retrieve instance id at this time: " +++ e)
      | ok id ↦
          if trim_prefix id "i-" == trim_prefix request.instance_id "i-"
          then ok true
          else err "instance id doesn't match"
    ]
    else ok false

-- The admin of the request.
abbrev pub admin_of : ContextRequest → User
admin_of request = record no_user {
  login = "admin";
  password = request.admin_password;
  role = "admin";
}

-- `marshal` is encoding/json on what is saved of the context.
module _ {Disk : Type 0} (storage : Iface Disk) (env : Env) (host : Host)
    (marshal : Site Disk → Result Bytes) where
  unfoldable pub save_config : Site Disk → Result Done × Disk
  unfolding write_config
  save_config s = write_config storage env (marshal s) s.world.disk

  -- The admin is updated or added.
  unfoldable pub set_admin : ContextRequest → Action (World Disk) Done
  unfolding login_exists
  set_admin request w =
      if login_exists storage env "admin" w
      then update_user storage env (admin_of request) w
      else (let (r, w') = add_user storage env (admin_of request) w in
          elim r [ err e ↦ (err e, w') | ok _ ↦ (ok tt, w') ])

  -- The setup, once access is granted.
  unfoldable pub complete : ContextRequest → Site Disk → Reply × Site Disk
  unfolding set_admin save_config replace_all
  complete request s =
      if request.admin_password == ""
      then (context s.setup_completed s.cloud_type, s)
      else (let (r, w) = set_admin request s.world in
          elim r [
            | err e ↦ (refused 400 e, record s { world = w })
            | ok _ ↦
                let set : Site Disk = record s {
                  world = w;
                  setup_completed = true;
                  hostname = request.hostname;
                  protocol =
                      replace_all (replace_all request.protocol "http:" "http") "https:" "https";
                } in
                let (saved, d) = save_config set in
                let after : Site Disk = record set { world = record w { disk = d } } in
                elim saved [
                  | err e ↦ (
                    refused 400 ("unable to save file: " +++ e),
                    record after { setup_completed = false },
                  )
                  | ok _ ↦ (context true s.cloud_type, after)
                ]
          ])

  -- contextHandler, for POST
  unfoldable pub context_handler : Result ContextRequest → Site Disk → Reply × Site Disk
  unfolding cloud_access trim_space
  context_handler (err e) s = (refused 400 ("decode input error: " +++ e), s)
  context_handler (ok request) s =
      let checked : Site Disk =
        if storage.file_exists "setup-code.txt" s.world.disk
        then s
        else record s { setup_completed = true } in
      if checked.setup_completed
      then (context true s.cloud_type, checked)
      else elim (cloud_access host s.cloud_type request) [
        | err e ↦ (refused 401 e, checked)
        | ok granted ↦
            if granted
            then complete request checked
            else elim (storage.read_file "setup-code.txt" s.world.disk) [
              | err e ↦ (refused 400 ("secret file read error: " +++ e), checked)
              | ok secret ↦
                  if trim_space (host.to_text secret) == request.secret
                  then complete request checked
                  else (refused 401 "wrong secret provided", checked)
            ]
      ]
