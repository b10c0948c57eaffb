-- ===== src/Saml/Metadata/Fetched.antt =====
-- What auth/saml/metadata.go lets an HTTP client request, and what it reads of a body.
use go_devops_platform.Base.{
  ℕ, ◌+◌, ◌≤◌, ◌<◌, ◌≡◌, ◌≢◌, ◌⊎◌, ◌↔◌, inl, inr, String, false, List, [], ◌∷◌, ◌++◌, none, some,
  Result, ok, Done, ltb, ◌==◌, eq_iff, arith, length, length-take, length-append, any, All,
  Bool-cases, Result-cases, Option-cases,
}
use go_devops_platform.Storage.{Bytes}
use go_devops_platform.Saml.Metadata.{
  Url, Reader, Network, max_redirects, blocked_metadata_ip, blocked_metadata_hostname,
  basic_url_checks, read_capped, reject_cloud_metadata, url_checks, check_redirect, get_metadata,
}

-- The hypotheses on net/http and net/url.
-- Each further request was allowed, with the requests before it at hand.
abbrev pub AllowedAfter : (Url → List Url → Result Done) → List Url → List Url → Type 0
AllowedAfter check via [] = Unit
AllowedAfter check via (u ∷ us) = (check u via ≡ ok tt) × AllowedAfter check (via ++ u ∷ []) us

-- The client requests the URL that it is given, and then what the policy allows.
abbrev pub FollowsPolicy : Network → Type 0
FollowsPolicy net =
    (check : Url → List Url → Result Done) (u : Url)
    → (rest : List Url) × ((net.send check u).1 ≡ u ∷ rest) × AllowedAfter check (u ∷ []) rest

abbrev pub SameTarget : Url → Url → Type 0
SameTarget u v =
    (v.scheme ≡ u.scheme)
    × (v.hostname ≡ u.hostname)
    × (v.has_user ≡ u.has_user)
    × (v.fragment ≡ u.fragment)

-- The text of a URL reads as that URL.
abbrev pub ReadsBack : Network → Url → Type 0
ReadsBack net u = (v : Url) → net.new_request u.text ≡ ok v → SameTarget u v

abbrev pub IsWebUrl : Url → Type 0
IsWebUrl u =
    ((u.scheme ≡ "http") ⊎ (u.scheme ≡ "https"))
    × (u.hostname ≢ "")
    × (u.has_user ≡ false)
    × (u.fragment ≡ "")

-- The host is no name or address of a cloud's metadata service, and a name resolves to none.
abbrev pub IsOutside : Network → Url → Type 0
IsOutside net u =
    let host = net.to_lower u.hostname in
    (blocked_metadata_hostname host ≡ false)
    × ((ip : String) → net.parse_ip host ≡ some ip → ip ≢ "169.254.169.254")
    × (net.parse_ip host ≡ none
        → (ips : List String) × (net.lookup_ip host ≡ ok ips)
          × All (λ ip. ip ≢ "169.254.169.254") ips)

basic_url_checks-IsWebUrl : (u : Url) → basic_url_checks u ≡ ok tt → IsWebUrl u
unfolding basic_url_checks
basic_url_checks-IsWebUrl u h = elim (Bool-cases (u.scheme == "http")) [
  | inl http ↦ (
    inl ((eq_iff u.scheme "http").0 http),
    ground (arith, eq_iff u.hostname ""),
    ground arith,
    ground (arith, eq_iff u.fragment ""),
  )
  | inr other ↦ (
    inr (ground (arith, eq_iff u.scheme "https")),
    ground (arith, eq_iff u.hostname ""),
    ground arith,
    ground (arith, eq_iff u.fragment ""),
  )
]

unblocked :
    (ips : List String)
    → any blocked_metadata_ip ips ≡ false
    → All (λ ip. ip ≢ "169.254.169.254") ips
unblocked [] h = tt
unblocked (ip ∷ ips) h = (ground (arith, eq_iff ip "169.254.169.254"), unblocked ips (ground arith))

module _ (net : Network) where
  reject_cloud_metadata-IsOutside :
      (u : Url) → reject_cloud_metadata net u ≡ ok tt → IsOutside net u
  unfolding reject_cloud_metadata
  reject_cloud_metadata-IsOutside u h = (
    ground arith,
    λ ip e. ground (arith, eq_iff ip "169.254.169.254"),
    λ e. elim (Result-cases (net.lookup_ip (net.to_lower u.hostname))) [
      | inl (ips, found) ↦ (ips, found, unblocked ips (ground arith))
      | inr (failed, e') ↦ absurd (ground arith)
    ],
  )

  url_checks_sound : (u : Url) → url_checks net u ≡ ok tt → IsWebUrl u × IsOutside net u
  unfolding url_checks
  url_checks_sound u h = elim (Result-cases (basic_url_checks u)) [
    | inl (done, e) ↦
        (basic_url_checks-IsWebUrl u e, reject_cloud_metadata-IsOutside u (ground arith))
    | inr (m, e) ↦ absurd (ground arith)
  ]

  check_redirect_sound :
      (u : Url) (via : List Url)
      → check_redirect net u via ≡ ok tt
      → (length via < max_redirects) × (url_checks net u ≡ ok tt)
  unfolding check_redirect
  check_redirect_sound u via h = (ground arith, ground arith)

  -- What the policy allowed is safe, and there is a limit to it.
  allowed_safe :
      (via us : List Url)
      → AllowedAfter (check_redirect net) via us
      → All (λ u. IsWebUrl u × IsOutside net u) us
  allowed_safe via [] h = tt
  allowed_safe via (u ∷ us) (h, rest) =
      (url_checks_sound u (check_redirect_sound u via h).1, allowed_safe (via ++ u ∷ []) us rest)

  allowed_bound :
      (via us : List Url)
      → length via ≤ max_redirects
      → AllowedAfter (check_redirect net) via us
      → length via + length us ≤ max_redirects
  allowed_bound via [] bound h = omega arith
  allowed_bound via (u ∷ us) bound (h, rest) = omega (
    arith,
    length-append via (u ∷ []),
    (check_redirect_sound u via h).0,
    allowed_bound (via ++ u ∷ []) us
        (omega (arith, length-append via (u ∷ []), (check_redirect_sound u via h).0)) rest,
  )

  -- The requests of one fetch: none, or those of the client.
  requested_cases :
      (u : Url)
      → ((get_metadata net u).1 ≡ [])
        ⊎ ((v : Url) × (net.new_request u.text ≡ ok v)
            × (url_checks net u ≡ ok tt)
            × ((get_metadata net u).1 ≡ (net.send (check_redirect net) v).1))
  unfolding get_metadata
  requested_cases u = elim (Result-cases (url_checks net u)) [
    | inr (m, e) ↦ inl (ground arith)
    | inl (done, e) ↦ elim (Result-cases (net.new_request u.text)) [
      | inr (m, f) ↦ inl (ground arith)
      | inl (v, f) ↦ inr (v, f, e, ground arith)
    ]
  ]

same_safe :
    (net : Network) (u v : Url)
    → SameTarget u v
    → IsWebUrl u × IsOutside net u
    → IsWebUrl v × IsOutside net v
same_safe net u v (a, b, c, d) h = rw (a, b, c, d) h

module _ (net : Network) (u : Url) (follows : FollowsPolicy net) where
  -- Every URL that a fetch of metadata requests, redirections included, is a web URL with a host,
  -- no user and no fragment, whose host is not a cloud's metadata service and does not resolve to
  -- its address; the client follows the policy for redirections, and the URL's text reads back.
  pub get_metadata_safe :
      ReadsBack net u → All (λ v. IsWebUrl v × IsOutside net v) (get_metadata net u).1
  get_metadata_safe reads_back = elim (requested_cases net u) [
    | inl none_sent ↦ rw none_sent tt
    | inr (v, f, e, sent) ↦
        let (rest, g, allowed) = follows (check_redirect net) v in
        rw (sent, g)
          (
            same_safe net u v (reads_back v f) (url_checks_sound net u e),
            allowed_safe net (v ∷ []) rest allowed,
          )
  ]

  -- One fetch of metadata makes three requests at most, the first one included, when the client
  -- follows the policy for redirections.
  pub length-get_metadata-le : length (get_metadata net u).1 ≤ max_redirects
  length-get_metadata-le = elim (requested_cases net u) [
    | inl none_sent ↦ rw none_sent (omega arith)
    | inr (v, f, e, sent) ↦
        let (rest, g, allowed) = follows (check_redirect net) v in
        rw (sent, g) (omega (arith, allowed_bound net (v ∷ []) rest (omega arith) allowed))
  ]

-- The bytes of a body are read whole or not at all: there is a result exactly if the body has at
-- most `max` bytes and ends without an error, and the result is then the body.
pub read_capped-eq_ok :
    (r : Reader) (max : ℕ) (b : Bytes)
    → (read_capped r max ≡ ok b) ↔ ((b ≡ r.content) × (length r.content ≤ max) × (r.failure ≡ none))
unfolding read_capped
read_capped-eq_ok r max b = elim (Bool-cases (ltb max (length r.content))) [
  | inl long ↦ (
    λ h. absurd (ground (arith, length-take (max + 1) r.content)),
    λ h. absurd (ground (arith, h.1)),
  )
  | inr short ↦ (
    λ h. elim (Option-cases r.failure) [
      | inl clean ↦ (ground arith, ground arith, clean)
      | inr (e, failed) ↦ absurd (ground arith)
    ],
    λ h. ground (arith, h.0, h.1, h.2),
  )
]
