-- ===== src/Rest/Settings/Checked.antt =====
-- The metadata URLs of the SAML providers that rest/setup.go lets into the configuration.
use go_devops_platform.Base.{
  ◌≡◌, ◌⊎◌, inl, inr, refl, String, true, List, [], ◌∷◌, ◌++◌, some, Result, ok, err, is_ok, ◌==◌,
  arith, All, All-append, Bool-cases, Option-cases, Result-cases,
}
use go_devops_platform.Storage.{Bytes, Iface}
use go_devops_platform.Users.Types.{Env}
use go_devops_platform.Saml.{Provider}
use go_devops_platform.Saml.Metadata.{Network, has_valid_metadata_url}
use go_devops_platform.Rest.Settings.{Settings, Reply, deleted, same_bool, save_and}
use go_devops_platform.Rest.Settings.SamlProviders.{
  without_saml_provider, change_last, with_flag, with_url, set_providers, saml_setup_handler,
  update_saml_provider, saml_setup_element_handler,
}

module _ (P : Provider → Type 0) where
  without_saml_provider-All :
      (id : String) (ps rest : List Provider)
      → without_saml_provider id ps ≡ some rest
      → All P ps
      → All P rest
  unfolding without_saml_provider
  without_saml_provider-All id [] rest h a = absurd (cc h)
  without_saml_provider-All id (p ∷ ps) rest h (a, rest_h) =
      elim (Option-cases (without_saml_provider id ps)) [
        | inr (kept, e) ↦
            let t : p ∷ kept ≡ rest = ground (arith, h, e) in
            rw (← t) (a, without_saml_provider-All id ps kept e rest_h)
        | inl last ↦ elim (Bool-cases (p.id == id)) [
          | inl hit ↦ let t : ps ≡ rest = ground (arith, h, last, hit) in rw (← t) rest_h
          | inr miss ↦ absurd (ground (arith, h, last, miss))
        ]
      ]

  change_last-All :
      (id : String) (change : Provider → Provider) (ps changed : List Provider) (old : Provider)
      → change_last id change ps ≡ some (old, changed)
      → ((p : Provider) → P p → P (change p))
      → All P ps
      → All P changed
  unfolding change_last
  change_last-All id change [] changed old h keep a = absurd (cc h)
  change_last-All id change (p ∷ ps) changed old h keep (a, rest_h) =
      elim (Option-cases (change_last id change ps)) [
        | inr ((found, rest), e) ↦
            let t : p ∷ rest ≡ changed = ground (arith, h, e) in
            rw (← t) (a, change_last-All id change ps rest found e keep rest_h)
        | inl last ↦ elim (Bool-cases (p.id == id)) [
          | inl hit ↦
              let t : change p ∷ ps ≡ changed = ground (arith, h, last, hit) in
              rw (← t) (keep p a, rest_h)
          | inr miss ↦ absurd (ground (arith, h, last, miss))
        ]
      ]

module _ {Certificate Disk : Type 0} (storage : Iface Disk) (env : Env)
    (marshal_config : Settings Certificate Disk → Result Bytes) (net : Network)
    (P : String → Type 0)
    (checked : (url : String) → is_ok (has_valid_metadata_url net url).0 ≡ true → P url) where
  abbrev HasChecked : List Provider → Type 0
  HasChecked = All (λ (p : Provider). P p.metadata_url)

  save_and_saml :
      (what : String) (reply : Reply) (s : Settings Certificate Disk)
      → (save_and storage env marshal_config what reply s).1.saml ≡ s.saml
  unfolding save_and
  save_and_saml what reply s = refl

  saml_setup_handler_providers :
      (http_method uuid : String) (body : Result Provider) (s : Settings Certificate Disk)
      → ((saml_setup_handler storage env marshal_config net http_method uuid body
            s).1.saml.providers
          ≡ s.saml.providers)
        ⊎ ((p : Provider) × (is_ok (has_valid_metadata_url net p.metadata_url).0 ≡ true)
            × ((saml_setup_handler storage env marshal_config net http_method uuid body
                  s).1.saml.providers
                ≡ s.saml.providers ++ record p { id = uuid } ∷ []))
  unfolding saml_setup_handler save_and
  saml_setup_handler_providers http_method uuid (err m) s = inl (ground arith)
  saml_setup_handler_providers http_method uuid (ok p) s =
      elim (Bool-cases (http_method == "GET")) [
        | inl get ↦ inl (ground (arith, get))
        | inr set ↦ elim (Bool-cases (http_method == "POST")) [
          | inr other ↦ inl (ground (arith, set, other))
          | inl post ↦ elim (Bool-cases (p.name == "")) [
            | inl unnamed ↦ inl (ground (arith, set, post, unnamed))
            | inr named ↦ elim (Bool-cases (p.metadata_url == "")) [
              | inl empty ↦ inl (ground (arith, set, post, named, empty))
              | inr full ↦ elim (Result-cases (has_valid_metadata_url net p.metadata_url).0) [
                | inr (m, e) ↦ inl (ground (arith, set, post, named, full, e))
                | inl (valid, e) ↦ inr (p, rw e refl, ground (arith, set, post, named, full, e))
              ]
            ]
          ]
        ]
      ]

  -- A new SAML provider has a metadata URL that was fetched as one: what holds of every URL that
  -- passes the check, and of those of the providers, holds of those of the providers afterwards.
  pub saml_setup_handler-HasChecked :
      (http_method uuid : String) (body : Result Provider) (s : Settings Certificate Disk)
      → HasChecked s.saml.providers
      → HasChecked
          (saml_setup_handler storage env marshal_config net http_method uuid body
            s).1.saml.providers
  saml_setup_handler-HasChecked http_method uuid body s h =
      elim (saml_setup_handler_providers http_method uuid body s) [
        | inl same ↦ rw same h
        | inr (p, valid, grown) ↦ rw grown (
            All-append (λ (q : Provider). P q.metadata_url) s.saml.providers
              (record p { id = uuid } ∷ []) h (checked p.metadata_url valid, tt))
      ]

  update_saml_provider_providers :
      (body old : Provider) (flagged moved : List Provider) (s : Settings Certificate Disk)
      → let after =
          (update_saml_provider storage env marshal_config net body old flagged moved
            s).1.saml.providers in
        (after ≡ s.saml.providers)
        ⊎ (after ≡ flagged)
        ⊎ ((is_ok (has_valid_metadata_url net body.metadata_url).0 ≡ true) × (after ≡ moved))
  unfolding update_saml_provider save_and
  update_saml_provider_providers body old flagged moved s =
      elim (Bool-cases (old.metadata_url == body.metadata_url)) [
        | inl same ↦
            elim (Bool-cases
              (same_bool old.allow_missing_attributes body.allow_missing_attributes)) [
                | inl kept ↦ inl (ground (arith, same, kept))
                | inr changed ↦ inr (inl (ground (arith, same, changed)))
              ]
        | inr differ ↦ elim (Result-cases (has_valid_metadata_url net body.metadata_url).0) [
          | inr (m, e) ↦ inr (inl (ground (arith, differ, e)))
          | inl (valid, e) ↦ inr (inr (rw e refl, ground (arith, differ, e)))
        ]
      ]

  element_cases :
      (http_method id : String) (body : Result Provider) (s : Settings Certificate Disk)
      → let after =
          (saml_setup_element_handler storage env marshal_config net http_method id body s).1 in
        (after.saml.providers ≡ s.saml.providers)
        ⊎ (without_saml_provider id s.saml.providers ≡ some after.saml.providers)
        ⊎ ((p : Provider) × (old : Provider) × (old' : Provider) × (flagged : List Provider)
            × (moved : List Provider) × (change_last id (with_flag p) s.saml.providers
                ≡ some (old, flagged))
            × (change_last id (with_url p) s.saml.providers ≡ some (old', moved))
            × (after
                ≡ (update_saml_provider storage env marshal_config net p old flagged moved s).1))
  unfolding saml_setup_element_handler
  element_cases http_method id body s = elim (Bool-cases (http_method == "DELETE")) [
    | inl delete ↦ elim (Option-cases (without_saml_provider id s.saml.providers)) [
      | inl missing ↦ inl (ground (arith, delete, missing))
      | inr (rest, e) ↦ inr (
          inl (
            ground (
              arith,
              delete,
              e,
              save_and_saml "saveConfig error: " (deleted id) (set_providers rest s),
            )))
    ]
    | inr other ↦ elim (Bool-cases (http_method == "PUT")) [
      | inr neither ↦ inl (ground (arith, other, neither))
      | inl put ↦ elim (Result-cases body) [
        | inr (m, e) ↦ inl (ground (arith, other, put, e))
        | inl (p, e) ↦ elim (Option-cases (change_last id (with_flag p) s.saml.providers)) [
          | inl missing ↦ inl (ground (arith, other, put, e, missing))
          | inr ((old, flagged), f) ↦
              elim (Option-cases (change_last id (with_url p) s.saml.providers)) [
                | inl missing ↦ inl (ground (arith, other, put, e, f, missing))
                | inr ((old', moved), g) ↦
                    inr (
                      inr (p, old, old', flagged, moved, f, g, ground (arith, other, put, e, f, g)))
              ]
        ]
      ]
    ]
  ]

  -- Deleting a SAML provider, or changing its URL or its flag, lets no URL in that does not pass the
  -- check either.
  pub saml_setup_element_handler-HasChecked :
      (http_method id : String) (body : Result Provider) (s : Settings Certificate Disk)
      → HasChecked s.saml.providers
      → HasChecked
          (saml_setup_element_handler storage env marshal_config net http_method id body
            s).1.saml.providers
  saml_setup_element_handler-HasChecked http_method id body s h =
      let Q = λ (q : Provider). P q.metadata_url in
      elim (element_cases http_method id body s) [
        | inl same ↦ rw same h
        | inr (inl gone) ↦ without_saml_provider-All Q id s.saml.providers _ gone h
        | inr (inr (p, old, old', flagged, moved, f, g, t)) ↦
            rw t (elim (update_saml_provider_providers p old flagged moved s) [
              | inl same ↦ rw same h
              | inr (inl flags) ↦
                  rw flags
                    (change_last-All Q id (with_flag p) s.saml.providers flagged old f (λ q k. k) h)
              | inr (inr (valid, urls)) ↦ rw urls (
                  change_last-All Q id (with_url p) s.saml.providers moved old' g
                    (λ q k. checked p.metadata_url valid) h)
            ])
      ]
