-- ===== src/Saml/Metadata.antt =====
-- auth/saml/metadata.go: the fetch of a provider's metadata. The packages net, net/url, net/http
-- and encoding/xml are a `Network`, at the time of one fetch.
pub mod Fetched
use go_devops_platform.Base.{
  ℕ, ◌+◌, ◌*◌, String, Bool, true, List, [], ◌∷◌, Option, none, some, Result, ok, err, Done, not,
  ◌&&◌, ◌||◌, ltb, leb, eqb, if◌then◌else◌, ◌==◌, length, take, any,
}
use go_devops_platform.Base.Text.{◌+++◌, trim_space}
use go_devops_platform.Storage.{Bytes}
use Prim.Native.String.{len}

-- What the code reads of a `url.URL`: `hostname` is `Hostname()`, `text` is `String()`.
pub record Url : Type 0 where
  pub scheme : String
  pub hostname : String
  pub has_user : Bool
  pub fragment : String
  pub text : String

-- A body that ends after its bytes, or fails there.
pub record Reader : Type 0 where
  pub content : Bytes
  pub failure : Option String

pub record Response : Type 0 where
  pub status : ℕ
  pub body : Reader

-- types.IDPSSODescriptor, with the data of the certificates of each key descriptor.
pub record IdpDescriptor : Type 0 where
  pub key_descriptors : List (List String)
  pub single_sign_on_locations : List String

-- types.EntityDescriptor
pub record EntityDescriptor : Type 0 where
  pub entity_id : String
  pub idp_descriptor : Option IdpDescriptor

-- `parse_ip` is net.ParseIP followed by `String()`; `send` is the `Do` of an http.Client with the
-- policy for redirects of its argument, and gives the URLs that were requested as well.
pub record Network : Type 0 where
  pub parse_url : String → Result Url
  pub to_lower : String → String
  pub parse_ip : String → Option String
  pub lookup_ip : String → Result (List String)
  pub new_request : String → Result Url
  pub send : (check_redirect : Url → List Url → Result Done) → Url → Result Response × List Url
  pub decode_metadata : Bytes → Result EntityDescriptor

abbrev pub max_metadata_bytes : ℕ
max_metadata_bytes = 2_097_152

abbrev pub max_url_length : ℕ
max_url_length = 2_048

abbrev pub max_redirects : ℕ
max_redirects = 3

abbrev pub blocked_metadata_ip : String → Bool
blocked_metadata_ip ip = ip == "169.254.169.254"

abbrev pub blocked_metadata_hostname : String → Bool
blocked_metadata_hostname host =
    host == "metadata.google.internal" || host == "metadata.google.internal."

unfoldable pub basic_url_checks : Url → Result Done
basic_url_checks u =
    if not (u.scheme == "http") && not (u.scheme == "https")
    then err "unsupported URL scheme (only http/https allowed)"
    else if u.hostname == ""
    then err "metadata URL missing host"
    else if u.has_user
    then err "userinfo (username/password) not allowed in metadata URL"
    else if not (u.fragment == "")
    then err "fragments are not allowed in metadata URL"
    else ok tt

unfoldable pub read_capped : Reader → ℕ → Result Bytes
read_capped r max =
    let limited : Result Bytes =
      if ltb max (length r.content)
      then ok (take (max + 1) r.content)
      else elim r.failure [ none ↦ ok r.content | some e ↦ err e ] in
    elim limited [
      | err e ↦ err ("can't read saml metadata: " +++ e)
      | ok b ↦ if ltb max (length b) then err "metadata too large" else ok b
    ]

module _ (net : Network) where
  unfoldable pub reject_cloud_metadata : Url → Result Done
  reject_cloud_metadata u =
      let host = net.to_lower u.hostname in
      if blocked_metadata_hostname host
      then err ("blocked cloud metadata hostname: " +++ host)
      else elim (net.parse_ip host) [
        | some ip ↦
            if blocked_metadata_ip ip then err ("blocked cloud metadata IP: " +++ ip) else ok tt
        | none ↦ elim (net.lookup_ip host) [
          | err e ↦ err ("dns lookup failed for host: " +++ e)
          | ok ips ↦
              if any blocked_metadata_ip ips
              then err "blocked cloud metadata (host resolves to a blocked IP)"
              else ok tt
        ]
      ]

  -- Both checks, as they stand before the first request and in CheckRedirect.
  unfoldable pub url_checks : Url → Result Done
  unfolding basic_url_checks reject_cloud_metadata
  url_checks u = elim (basic_url_checks u) [ err e ↦ err e | ok _ ↦ reject_cloud_metadata u ]

  -- The function CheckRedirect; `via` holds the requests that were made.
  unfoldable pub check_redirect : Url → List Url → Result Done
  unfolding url_checks
  check_redirect target via =
      if leb max_redirects (length via) then err "stopped after 3 redirects" else url_checks target

  -- The code after the answer.
  unfoldable pub decode_response : Result Response → Result EntityDescriptor
  unfolding read_capped
  decode_response (err e) = err ("can't retrieve saml metadata: " +++ e)
  decode_response (ok response) =
      if not (eqb response.status 200)
      then err "metadata fetch was refused"
      else elim (read_capped response.body max_metadata_bytes) [
        | err e ↦ err e
        | ok raw ↦ elim (net.decode_metadata raw) [
          | err e ↦ err ("can't decode saml cert data: " +++ e)
          | ok metadata ↦ ok metadata
        ]
      ]

  -- The result, with the URLs that were requested on the way.
  unfoldable pub get_metadata : Url → Result EntityDescriptor × List Url
  unfolding url_checks check_redirect decode_response
  get_metadata url = elim (url_checks url) [
    | err e ↦ (err e, [])
    | ok _ ↦ elim (net.new_request url.text) [
      | err e ↦ (err ("can't build request: " +++ e), [])
      | ok request ↦
          let (sent, requested) = net.send check_redirect request in
          (decode_response sent, requested)
    ]
  ]

  unfoldable pub has_valid_metadata_url : String → Result Bool × List Url
  unfolding get_metadata trim_space
  has_valid_metadata_url metadata_url =
      if trim_space metadata_url == ""
      then (err "metadata URL is empty", [])
      else if ltb max_url_length (len metadata_url)
      then (err "metadata URL too long", [])
      else elim (net.parse_url metadata_url) [
        | err e ↦ (err ("url parse error: " +++ e), [])
        | ok url ↦
            let (fetched, requested) = get_metadata url in
            elim fetched [
              | err e ↦ (err ("fetch metadata error: " +++ e), requested)
              | ok _ ↦ (ok true, requested)
            ]
      ]
