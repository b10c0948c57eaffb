-- ===== src/Saml/ServiceProvider/Loaded.antt =====
-- What auth/saml/middleware.go keeps of the loaded service providers.
use go_devops_platform.Base.{
  ◌≡◌, ◌⊎◌, inl, inr, refl, String, Bool, true, none, some, Result, ok, err, Run, returns, panics,
  Done, not, ◌&&◌, ◌||◌, ◌==◌, eq_iff, arith, Bool-cases, Result-cases, Option-cases,
}
use go_devops_platform.Base.Map.{lookup, lookup-insert}
use go_devops_platform.Base.Text.{◌+++◌}
use go_devops_platform.Saml.{Provider}
use go_devops_platform.Saml.Metadata.{EntityDescriptor, get_metadata}
use go_devops_platform.Saml.ServiceProvider.{
  Saml, ServiceProvider, Libraries, audience_url, service_provider_of, set_service_provider,
  load_sp, load_or, ensure_sp_loaded,
}

module _ {Certificate : Type 0} where
  -- A service provider expects the audience of the provider with this ID.
  abbrev pub IsFor : String → ServiceProvider Certificate → Type 0
  IsFor id sp =
      (protocol : String) × (hostname : String) × (sp.audience_uri
        ≡ protocol +++ "://" +++ hostname +++ "/" +++ audience_url +++ "/" +++ id)

  abbrev pub IsValid : Saml Certificate → Type 0
  IsValid s =
      (id : String) (sp : ServiceProvider Certificate)
      → lookup id s.service_provider ≡ some (some sp)
      → IsFor id sp

  module _ (libs : Libraries Certificate) where
    service_provider_of-IsFor :
        (s : Saml Certificate) (p : Provider) (m : EntityDescriptor)
        {sp : ServiceProvider Certificate}
        → service_provider_of libs s p m ≡ ok sp
        → IsFor p.id sp × (sp.allow_missing_attributes ≡ p.allow_missing_attributes)
    unfolding service_provider_of
    service_provider_of-IsFor s p m h = ((s.protocol, s.hostname, ground arith), ground arith)

    -- What a load changes: nothing, with an error, or the entry of the provider.
    pub load_sp_cases :
        (p : Provider) (s : Saml Certificate)
        → ((e : String) × (load_sp libs p s ≡ (err e, s)))
          ⊎ ((sp : ServiceProvider Certificate) × (load_sp libs p s
                ≡ (ok tt, set_service_provider p.id (some sp) s))
              × IsFor p.id sp
              × (sp.allow_missing_attributes ≡ p.allow_missing_attributes))
    unfolding load_sp
    load_sp_cases p s = elim (Result-cases (libs.network.parse_url p.metadata_url)) [
      | inr (e, f) ↦ inl ("can't parse metadata url: " +++ e, ground arith)
      | inl (url, f) ↦ elim (Result-cases (get_metadata libs.network url).0) [
        | inr (e, g) ↦ inl ("can't decode saml cert data: " +++ e, ground arith)
        | inl (m, g) ↦ elim (Result-cases (service_provider_of libs s p m)) [
          | inr (e, h) ↦ inl (e, ground arith)
          | inl (sp, h) ↦
              let (made, same) = service_provider_of-IsFor s p m h in
              inr (sp, ground arith, made, same)
        ]
      ]
    ]

    set_service_provider-IsValid :
        (id : String) (sp : ServiceProvider Certificate) (s : Saml Certificate)
        → IsValid s
        → IsFor id sp
        → IsValid (set_service_provider id (some sp) s)
    set_service_provider-IsValid id sp s v made other sp' e = elim (Bool-cases (id == other)) [
      | inl same ↦
          let found : some (some sp) ≡ some (some sp') =
            ground (arith, lookup-insert id other (some sp) s.service_provider) in
          let here : sp ≡ sp' = ground arith in
          let it : id ≡ other = (eq_iff id other).0 same in rw (← it, ← here) made
      | inr differ ↦
          v other sp' (ground (arith, lookup-insert id other (some sp) s.service_provider))
    ]

    abbrev KeepsRest : Saml Certificate → Saml Certificate → Type 0
    KeepsRest s s' = (s'.sessions ≡ s.sessions) × (s'.providers ≡ s.providers)

    -- The entry is loaded and has the flag of the provider.
    abbrev pub IsLoaded : Provider → Saml Certificate → Type 0
    IsLoaded p s =
        (sp : ServiceProvider Certificate) × (lookup p.id s.service_provider ≡ some (some sp))
        × (sp.allow_missing_attributes ≡ p.allow_missing_attributes)

    unset-IsValid :
        (id : String) (s : Saml Certificate) → IsValid s → IsValid (set_service_provider id none s)
    unset-IsValid id s v other sp e =
        v other sp (ground (arith, lookup-insert id other none s.service_provider))

    -- What an operation on the service providers leaves behind.
    abbrev Kept : Provider → Saml Certificate → Run (Result Done) × Saml Certificate → Type 0
    Kept p s after =
        IsValid after.1 × KeepsRest s after.1 × (after.0 ≡ returns (ok tt) → IsLoaded p after.1)

    load_or_cases :
        (what : String) (p : Provider) (s : Saml Certificate)
        → ((e : String) × (load_or libs what p s ≡ (returns (err e), s)))
          ⊎ ((sp : ServiceProvider Certificate) × (load_or libs what p s
                ≡ (returns (ok tt), set_service_provider p.id (some sp) s))
              × IsFor p.id sp
              × (sp.allow_missing_attributes ≡ p.allow_missing_attributes))
    load_or_cases what p s = elim (load_sp_cases p s) [
      | inl (e, f) ↦ inl (what +++ e, ground (arith, f))
      | inr (sp, f, made, same) ↦ inr (sp, ground (arith, f), made, same)
    ]

    load_or-Kept :
        (what : String) (p : Provider) (s : Saml Certificate)
        → IsValid s
        → Kept p s (load_or libs what p s)
    load_or-Kept what p s v = elim (load_or_cases what p s) [
      | inl (e, f) ↦ rw f (v, (refl, refl), λ h. absurd (ground arith))
      | inr (sp, f, made, same) ↦ rw f (
        set_service_provider-IsValid p.id sp s v made,
        (refl, refl),
        λ h. (
          sp,
          ground (arith, lookup-insert p.id p.id (some sp) s.service_provider, eq_iff p.id p.id),
          same,
        ),
      )
    ]

    -- The test of ensureSPLoaded says that the flags agree.
    flags_agree : (a b : Bool) → (a && b || not a && not b) ≡ true → b ≡ a
    flags_agree a b h = ground arith

    pub ensure_sp_loaded-Kept :
        (p : Provider) (s : Saml Certificate) → IsValid s → Kept p s (ensure_sp_loaded libs p s)
    unfolding ensure_sp_loaded
    ensure_sp_loaded-Kept p s v = elim (Option-cases (lookup p.id s.service_provider)) [
      | inl missing ↦
          rw (missing, ensure_sp_loaded) (load_or-Kept "could not load saml provider: " p s v)
      | inr (none, e) ↦ rw (e, ensure_sp_loaded) (v, (refl, refl), λ h. absurd (ground arith))
      | inr (some sp, e) ↦
          rw (e, ensure_sp_loaded)
            (elim (Bool-cases (
              p.allow_missing_attributes && sp.allow_missing_attributes
              || not p.allow_missing_attributes && not sp.allow_missing_attributes)) [
                | inl agree ↦
                    rw (agree, ensure_sp_loaded)
                      (v, (refl, refl), λ h. (sp, e, flags_agree _ _ agree))
                | inr differ ↦
                    rw (differ, ensure_sp_loaded)
                      (load_or-Kept "could not reload saml provider: " p
                        (set_service_provider p.id none s) (unset-IsValid p.id s v))
              ])
    ]

    -- A provider for which ensureSPLoaded reports success has a service provider, which has the
    -- provider's flag for missing attributes and expects the provider's audience, when the loaded
    -- service providers expected theirs before.
    pub ensure_sp_loaded_ready :
        (p : Provider) (s : Saml Certificate)
        → IsValid s
        → (ensure_sp_loaded libs p s).0 ≡ returns (ok tt)
        → (sp : ServiceProvider Certificate) × (lookup p.id
              (ensure_sp_loaded libs p s).1.service_provider
            ≡ some (some sp))
          × (sp.allow_missing_attributes ≡ p.allow_missing_attributes)
          × IsFor p.id sp
    ensure_sp_loaded_ready p s v h =
        let (valid, _, loaded) = ensure_sp_loaded-Kept p s v in
        let (sp, e, same) = loaded h in (sp, e, same, valid p.id sp e)

    -- After a reload that failed, the entry is nil.
    pub failed_reload :
        (p : Provider) (s : Saml Certificate) (sp : ServiceProvider Certificate) (m : String)
        → lookup p.id s.service_provider ≡ some (some sp)
        → not sp.allow_missing_attributes ≡ p.allow_missing_attributes
        → (ensure_sp_loaded libs p s).0 ≡ returns (err m)
        → lookup p.id (ensure_sp_loaded libs p s).1.service_provider ≡ some none
    unfolding ensure_sp_loaded
    failed_reload p s sp m e differ h = elim (load_sp_cases p (set_service_provider p.id none s)) [
      | inl (m', f) ↦
          ground (arith, e, f, lookup-insert p.id p.id none s.service_provider, eq_iff p.id p.id)
      | inr (sp', f, _, _) ↦ absurd (ground (arith, e, f))
    ]

  nil_entry :
      (later : Libraries Certificate) (p : Provider) (s : Saml Certificate)
      → lookup p.id s.service_provider ≡ some none
      → (ensure_sp_loaded later p s).0 ≡ panics "nil pointer dereference"
  unfolding ensure_sp_loaded
  nil_entry later p s f = ground (arith, f)

  -- The metadata of a loaded provider is fetched again when its flag was changed; if that fails,
  -- then the next request for the provider panics, whatever the libraries answer by then.
  pub ensure_sp_loaded_panics :
      (libs later : Libraries Certificate) (p : Provider) (s : Saml Certificate)
      (sp : ServiceProvider Certificate) (m : String)
      → lookup p.id s.service_provider ≡ some (some sp)
      → not sp.allow_missing_attributes ≡ p.allow_missing_attributes
      → (ensure_sp_loaded libs p s).0 ≡ returns (err m)
      → (ensure_sp_loaded later p (ensure_sp_loaded libs p s).1).0
        ≡ panics "nil pointer dereference"
  ensure_sp_loaded_panics libs later p s sp m e differ h =
      nil_entry later p (ensure_sp_loaded libs p s).1 (failed_reload libs p s sp m e differ h)
