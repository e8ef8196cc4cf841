-- ===== src/Policy/Engine/Allowed.antt =====
-- When the engine of policy.go lets a version through, stated without the engine.
use kutu.Prelude.{
  ℕ, Text, List, [], ◌∷◌, Option, some, Bool, true, false, ◌&&◌, not, ◌==◌, eq_iff, if◌then◌else◌,
  is_empty, ◌≡◌, ◌≢◌, ◌↔◌, refl, sym, ◌⊎◌, inl, inr, In, any, any_iff, Bool-cases, Option-cases,
  arith, subst,
}
use kutu.Policy.Match.{match_name, name_allowed}
use kutu.Policy.Severity.{Vuln, blocking, severity_rank, Reaches, Names, In-blocking}
use kutu.Policy.Engine.{
  Policy, ArtifactRef, Registry, Decision, allow, ecosystem, artifact_meta, license_of, check_name,
  blocked_by, check_vulnerable, evaluate, check_metadata, check_signature, checked,
}
use kutu.Policy.Engine.Checks.{
  Ok, checked_iff, QuarantineOver, LicenseFits, SignatureFits, check_metadata-Ok,
  check_signature-Ok,
}

module _ (path_match : Text → Text → Option Bool)
    (query : Text → Text → Text → Option (List Vuln)) where
  -- No exclude pattern matches, and an include pattern does if there are any.
  abbrev pub NameFits : Policy → Text → Type 0
  NameFits p name =
      ((pat : Text) → In pat p.exclude → match_name path_match pat name ≡ false)
      × ((p.include ≡ [])
          ⊎ ((pat : Text) × In pat p.include × (match_name path_match pat name ≡ true)))

  -- No advisory that is known for the version reaches the floor and has a name to report.
  abbrev pub VulnerabilitiesFit : Policy → Registry → ArtifactRef → Type 0
  VulnerabilitiesFit p reg ref =
      p.block_vulnerable ≡ true
      → ecosystem reg.reg_type ≢ []
      → (vulns : List Vuln) → query (ecosystem reg.reg_type) ref.name ref.version ≡ some vulns
      → (v : Vuln) (id : Text) → In v vulns
      → Reaches (severity_rank p.min_severity) v
      → ¬ Names id v

  none_excluded :
      (ps : List Text) (name : Text)
      → any (λ q. match_name path_match q name) ps ≡ false
      → (pat : Text) → In pat ps
      → match_name path_match pat name ≡ false
  none_excluded ps name h pat m = elim (Bool-cases (match_name path_match pat name)) [
    | inl e ↦ cc (h, (any_iff (λ q. match_name path_match q name) ps).1 (pat, m, e))
    | inr e ↦ e
  ]

  name_allowed-fits :
      (include exclude : List Text) (name : Text)
      → (name_allowed path_match include exclude name ≡ true) ↔ (
          ((pat : Text) → In pat exclude → match_name path_match pat name ≡ false)
          × ((include ≡ [])
              ⊎ ((pat : Text) × In pat include × (match_name path_match pat name ≡ true))))
  name_allowed-fits include exclude name = elim (Bool-cases (any hits exclude)) [
    | inl e ↦
        unfold name_allowed in
        rw e (λ h. cc h, λ k. let (pat, m, q) = (any_iff hits exclude).0 e in cc (k.0 pat m, q))
    | inr e ↦ unfold name_allowed in rw e (by_include include e)
  ]
    where
      hits : Text → Bool
      hits q = match_name path_match q name

      by_include :
          (inc : List Text)
          → any hits exclude ≡ false
          → ((if is_empty inc then true else any hits inc) ≡ true) ↔ (
              ((pat : Text) → In pat exclude → match_name path_match pat name ≡ false)
              × ((inc ≡ [])
                  ⊎ ((pat : Text) × In pat inc × (match_name path_match pat name ≡ true))))
      by_include [] e = (λ h. (none_excluded exclude name e, inl refl), λ k. refl)
      by_include (x ∷ xs) e = (
        λ h. (none_excluded exclude name e, inr ((any_iff hits (x ∷ xs)).0 h)),
        λ k. elim k.1 [ inl q ↦ cc q | inr w ↦ (any_iff hits (x ∷ xs)).1 w ],
      )

  check_name-Ok :
      (p : Policy) (name : Text) → Ok (check_name path_match query p name) ↔ NameFits p name
  check_name-Ok p name =
      let fits = name_allowed-fits p.include p.exclude name in
      elim (Bool-cases (name_allowed path_match p.include p.exclude name)) [
        | inl e ↦ unfold check_name in rw e (λ _. fits.0 e, λ _. refl)
        | inr e ↦ unfold check_name in rw e (λ h. cc h, λ k. cc (fits.1 k, e))
      ]

  blocked_by-Ok :
      (ref : ArtifactRef) (ids : List Text)
      → Ok (blocked_by path_match query ref ids) ↔ ((id : Text) → ¬ In id ids)
  unfolding blocked_by
  blocked_by-Ok ref [] = (λ h id m. m, λ k. refl)
  blocked_by-Ok ref (id ∷ ids) = (λ h x m. cc h, λ k. absurd (k id (inl refl)))

  check_vulnerable-Ok :
      (p : Policy) (reg : Registry) (ref : ArtifactRef)
      → Ok (check_vulnerable path_match query p reg ref) ↔ VulnerabilitiesFit p reg ref
  check_vulnerable-Ok p reg ref = elim (Bool-cases test) [
    | inr e ↦ unfold check_vulnerable in rw e (λ h a b. absurd (off e a b), λ h. refl)
    | inl e ↦ elim (Option-cases (query eco ref.name ref.version)) [
      | inl q ↦ unfold check_vulnerable in rw (e, q) (λ h a b vs r. cc r, λ h. refl)
      | inr (vulns, q) ↦
          unfold check_vulnerable in
          rw (e, q)
            (
              λ h a b vs r v id m reach names.
                  let same : vulns ≡ vs = cc in
                  (blocked_by-Ok ref (blocking vulns p.min_severity)).0 h id (
                    (In-blocking vulns p.min_severity id).1
                      (v, subst (In v) (sym same) m, reach, names)),
              λ h. (blocked_by-Ok ref (blocking vulns p.min_severity)).1 λ id m.
                  let (v, mem, reach, names) = (In-blocking vulns p.min_severity id).0 m in
                  h (on e).0 (on e).1 vulns refl v id mem reach names,
            )
    ]
  ]
    where
      eco : Text
      eco = ecosystem reg.reg_type

      test : Bool
      test = p.block_vulnerable && not (eco == [])

      off : test ≡ false → p.block_vulnerable ≡ true → eco ≢ [] → ⊥
      off e a b = ground (arith, b, eq_iff eco [])

      on : test ≡ true → (p.block_vulnerable ≡ true) × (eco ≢ [])
      on e = (ground arith, ground (arith, eq_iff eco []))

  -- What is asked of a version beyond the name of its package.
  abbrev pub VersionFits : ℕ → Policy → Registry → ArtifactRef → Type 0
  VersionFits now p reg ref =
      QuarantineOver now p (artifact_meta reg ref)
      × LicenseFits p (license_of (artifact_meta reg ref))
      × VulnerabilitiesFit p reg ref
      × SignatureFits p reg ref

  version-Ok :
      (now : ℕ) (p : Policy) (reg : Registry) (ref : ArtifactRef)
      → Ok (
          checked
            (check_metadata now p reg ref)
            (checked (check_vulnerable path_match query p reg ref) (check_signature p reg ref)))
        ↔ VersionFits now p reg ref
  version-Ok now p reg ref =
      let meta = check_metadata-Ok now p reg ref in
      let vuln = check_vulnerable-Ok p reg ref in
      let sig = check_signature-Ok p reg ref in
      let outer =
        checked_iff (check_metadata now p reg ref)
          (checked (check_vulnerable path_match query p reg ref) (check_signature p reg ref)) in
      let inner =
        checked_iff (check_vulnerable path_match query p reg ref) (check_signature p reg ref) in
      (
        λ h.
            let (a, b) = outer.0 h in
            let (c, d) = inner.0 b in ((meta.0 a).0, (meta.0 a).1, vuln.0 c, sig.0 d),
        λ k. outer.1 (meta.1 (k.0, k.1), inner.1 (vuln.1 k.2, sig.1 k.3)),
      )

  -- A read of a version is allowed exactly when its package's name fits the include and exclude
  -- lists and, if the reference names a version, the version is not in quarantine, its license
  -- fits, no known advisory blocks it and it is signed where a signature is required.
  pub evaluate_iff :
      (now : ℕ) (p : Policy) (reg : Registry) (ref : ArtifactRef)
      → ((evaluate path_match query now p reg ref).allowed ≡ true)
        ↔ (NameFits p ref.name × ((ref.version ≡ []) ⊎ VersionFits now p reg ref))
  evaluate_iff now p reg ref = elim (Bool-cases (ref.version == [])) [
    | inl e ↦
        unfold evaluate in
        rw e (
          λ h. (
            name.0 ((checked_iff (check_name path_match query p ref.name) allow).0 h).0,
            inl ((eq_iff ref.version []).0 e),
          ),
          λ k. (checked_iff (check_name path_match query p ref.name) allow).1 (name.1 k.0, refl),
        )
    | inr e ↦
        unfold evaluate in
        rw e (
          λ h.
              let (a, b) = (checked_iff (check_name path_match query p ref.name) rest).0 h in
              (name.0 a, inr ((version-Ok now p reg ref).0 b)),
          λ k. (checked_iff (check_name path_match query p ref.name) rest).1 (
            name.1 k.0,
            elim k.1 [
              | inl q ↦ cc (e, (eq_iff ref.version []).1 q)
              | inr v ↦ (version-Ok now p reg ref).1 v
            ],
          ),
        )
  ]
    where
      name : Ok (check_name path_match query p ref.name) ↔ NameFits p ref.name
      name = check_name-Ok p ref.name

      rest : Decision
      rest =
          checked (check_metadata now p reg ref)
            (checked (check_vulnerable path_match query p reg ref) (check_signature p reg ref))
