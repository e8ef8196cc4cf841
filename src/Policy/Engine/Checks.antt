-- ===== src/Policy/Engine/Checks.antt =====
-- What each check of policy.go asks of a version, stated without the check: quarantine, license
-- and signature.
use kutu.Prelude.{
  ℕ, ◌<◌, Text, codes, Option, none, some, Bool, true, false, ◌&&◌, ◌||◌, not, ◌==◌, eq_iff, eqb,
  ltb, if◌then◌else◌, is_empty, has_prefix, ◌≡◌, ◌≢◌, ◌↔◌, refl, sym, inl, inr, Bool-cases,
  Option-cases, arith, subst,
}
use kutu.Policy.License.{LicenseExpr, parse_license, license_permitted}
use kutu.Policy.Engine.{
  Policy, ArtifactRef, ArtifactMeta, Registry, SignatureError, package_not_found, other_error,
  quarantined, Decision, allow, deny, checked, check_license, artifact_meta, quarantine_until,
  check_quarantine, license_of, check_metadata, signature_decision, check_signature,
}

abbrev pub Ok : Decision → Type 0
Ok d = d.allowed ≡ true

pub checked_iff : (d r : Decision) → Ok (checked d r) ↔ (Ok d × Ok r)
checked_iff d r = elim (Bool-cases d.allowed) [
  | inl e ↦ rw e (λ h. (refl, h), λ h. h.1)
  | inr e ↦ rw e (λ h. cc h, λ h. cc (h.0))
]

-- The metadata puts the version in quarantine at the time `now`.
abbrev pub InQuarantine : ℕ → Policy → ArtifactMeta → Type 0
InQuarantine now p meta =
    (0 < p.quarantine_days) × (meta.published_at ≢ 0) × (now < quarantine_until p meta)

abbrev pub QuarantineOver : ℕ → Policy → Option ArtifactMeta → Type 0
QuarantineOver now p known = (meta : ArtifactMeta) → known ≡ some meta → ¬ InQuarantine now p meta

abbrev pub has_license_rule : Policy → Bool
has_license_rule p =
    not (is_empty p.allowed_licenses && is_empty p.denied_licenses && not p.block_unknown_license)

-- An unknown license passes unless it is blocked, and a known one has to be permitted.
abbrev pub LicenseFits : Policy → Text → Type 0
LicenseFits p license =
    has_license_rule p ≡ true
    → (parse_license license ≡ none → p.block_unknown_license ≡ false)
      × ((e : LicenseExpr)
          → parse_license license ≡ some e
          → license_permitted p.allowed_licenses p.denied_licenses e ≡ true)

quarantine_test :
    (n at until now : ℕ)
    → ((ltb 0 n && not (eqb at 0) && ltb now until) ≡ true) ↔ ((0 < n) × (at ≢ 0) × (now < until))
quarantine_test n at until now = (λ h. ground arith, λ h. ground arith)

-- A test that denies: allowed exactly where the test fails.
pub deny_if :
    (b : Bool) (d : Decision) → d.allowed ≡ false → Ok (if b then d else allow) ↔ (b ≡ false)
deny_if true d h = (λ k. cc (h, k), λ k. cc k)
deny_if false d h = (λ _. refl, λ _. refl)

check_quarantine-Ok :
    (now : ℕ) (p : Policy) (ref : ArtifactRef) (known : Option ArtifactMeta)
    → Ok (check_quarantine now p ref known) ↔ QuarantineOver now p known
check_quarantine-Ok now p ref none = (λ h m e. cc, λ h. unfold check_quarantine in refl)
check_quarantine-Ok now p ref (some meta) =
    unfold check_quarantine in
    (
      λ h m e q. absurd (go m (cc e) q h),
      λ h. elim (Bool-cases test) [
        | inl e ↦ absurd (h meta refl ((quarantine_test _ _ _ _).0 e))
        | inr e ↦ rw e refl
      ],
    )
  where
    test : Bool
    test =
        ltb 0 p.quarantine_days
        && not (eqb meta.published_at 0)
        && ltb now (quarantine_until p meta)

    go :
        (m : ArtifactMeta)
        → meta ≡ m
        → InQuarantine now p m
        → Ok (if test then deny (quarantined ref (quarantine_until p meta)) else allow)
        → ⊥
    go m e q h = cc (
      (deny_if test _ refl).0 h,
      (quarantine_test _ _ _ _).1 (subst (InQuarantine now p) (sym e) q),
    )

check_license-Ok :
    (p : Policy) (ref : ArtifactRef) (license : Text)
    → Ok (check_license p ref license) ↔ LicenseFits p license
check_license-Ok p ref license = elim (Bool-cases (has_license_rule p)) [
  | inr e ↦ unfold check_license in (λ h k. cc (e, k), λ h. ground arith)
  | inl e ↦ elim (Option-cases (parse_license license)) [
    | inl q ↦
        unfold check_license in
        rw q (λ h k. (λ _. ground arith, λ x y. cc), λ h. let b = (h e).0 refl in ground arith)
    | inr (x, q) ↦
        unfold check_license in
        rw q (
          λ h k. (
            λ y. cc,
            λ y z.
                let same : x ≡ y = cc in
                subst (λ v. license_permitted p.allowed_licenses p.denied_licenses v ≡ true) same
                  (ground arith),
          ),
          λ h. let b = (h e).1 x refl in ground arith,
        )
  ]
]

-- The test before the metadata is read changes nothing: without it no check would deny.
pub check_metadata-Ok :
    (now : ℕ) (p : Policy) (reg : Registry) (ref : ArtifactRef)
    → Ok (check_metadata now p reg ref) ↔ (
        QuarantineOver now p (artifact_meta reg ref)
        × LicenseFits p (license_of (artifact_meta reg ref)))
check_metadata-Ok now p reg ref =
    elim (Bool-cases (
      ltb 0 p.quarantine_days
      || not (is_empty p.allowed_licenses)
      || not (is_empty p.denied_licenses)
      || p.block_unknown_license)) [
        | inl e ↦
            unfold check_metadata in
            rw e (
              λ h. let both = (checked_iff _ _).0 h in ((quar).0 both.0, (lic).0 both.1),
              λ h. (checked_iff _ _).1 ((quar).1 h.0, (lic).1 h.1),
            )
        | inr e ↦
            unfold check_metadata in
            rw e (λ h. (λ m q k. absurd (idle e k.0), λ k. cc (k, no_rule e)), λ h. refl)
      ]
  where
    known : Option ArtifactMeta
    known = artifact_meta reg ref

    quar : Ok (check_quarantine now p ref known) ↔ QuarantineOver now p known
    quar = check_quarantine-Ok now p ref known

    lic : Ok (check_license p ref (license_of known)) ↔ LicenseFits p (license_of known)
    lic = check_license-Ok p ref (license_of known)

    idle :
        (ltb 0 p.quarantine_days
            || not (is_empty p.allowed_licenses)
            || not (is_empty p.denied_licenses)
            || p.block_unknown_license)
          ≡ false
        → 0 < p.quarantine_days
        → ⊥
    idle e k = ground arith

    no_rule :
        (ltb 0 p.quarantine_days
            || not (is_empty p.allowed_licenses)
            || not (is_empty p.denied_licenses)
            || p.block_unknown_license)
          ≡ false
        → has_license_rule p ≡ false
    no_rule e = ground arith

-- A positive answer that is not a failure of the check.
abbrev pub IsSigned : Bool × Option SignatureError → Type 0
IsSigned a = (a.0 ≡ true) × (a.1 ≢ some other_error)

-- A docker tag under the signature rule has an answer that is positive and not a failure.
abbrev pub SignatureFits : Policy → Registry → ArtifactRef → Type 0
SignatureFits p reg ref =
    p.require_signature ≡ true
    → reg.reg_type ≡ codes "docker"
    → has_prefix ref.version (codes "sha256:") ≡ false
    → (ask : Text → Text → Bool × Option SignatureError) × (reg.has_signature ≡ some ask)
      × IsSigned (ask ref.name ref.version)

signature_decision-Ok :
    (ref : ArtifactRef) (a : Bool × Option SignatureError)
    → Ok (signature_decision ref a) ↔ IsSigned a
unfolding signature_decision
signature_decision-Ok ref (b, some other_error) = (λ h. cc h, λ h. absurd (h.1 refl))
signature_decision-Ok ref (b, some package_not_found) =
    (λ h. (ground arith, λ e. cc e), λ h. ground arith)
signature_decision-Ok ref (b, none) = (λ h. (ground arith, λ e. cc e), λ h. ground arith)

pub check_signature-Ok :
    (p : Policy) (reg : Registry) (ref : ArtifactRef)
    → Ok (check_signature p reg ref) ↔ SignatureFits p reg ref
check_signature-Ok p reg ref = elim (Bool-cases test) [
  | inr e ↦
      unfold check_signature in rw e (λ h a b c. absurd (off e a ((eq_iff _ _).1 b) c), λ h. refl)
  | inl e ↦
      let (a, b, c) = on e in
      elim (Option-cases reg.has_signature) [
        | inl q ↦
            unfold check_signature in
            rw (e, q) (λ h. cc h, λ h. let (ask, r, _) = h a ((eq_iff _ _).0 b) c in cc r)
        | inr (ask, q) ↦
            unfold check_signature in
            rw (e, q)
              (
                λ h x y z. (ask, refl, (sig ask).0 h),
                λ h.
                    let (other, r, k) = h a ((eq_iff _ _).0 b) c in
                    let same : other ≡ ask = cc in
                    (sig ask).1 (subst (λ f. IsSigned (f ref.name ref.version)) same k),
              )
      ]
]
  where
    test : Bool
    test =
        p.require_signature
        && reg.reg_type == codes "docker"
        && not (has_prefix ref.version (codes "sha256:"))

    off :
        test ≡ false
        → p.require_signature ≡ true
        → (reg.reg_type == codes "docker") ≡ true
        → has_prefix ref.version (codes "sha256:") ≡ false
        → ⊥
    off e a b c = ground arith

    on :
        test ≡ true
        → (p.require_signature ≡ true)
          × ((reg.reg_type == codes "docker") ≡ true)
          × (has_prefix ref.version (codes "sha256:") ≡ false)
    on e = (ground arith, ground arith, ground arith)

    sig :
        (ask : Text → Text → Bool × Option SignatureError)
        → Ok (signature_decision ref (ask ref.name ref.version))
          ↔ IsSigned (ask ref.name ref.version)
    sig ask = signature_decision-Ok ref (ask ref.name ref.version)
