-- ===== src/Policy/Engine/Gate.antt =====
-- The request gate of policy.go against the engine's two evaluations.
use kutu.Prelude.{
  ℕ, Text, codes, List, [], ◌∷◌, Option, none, some, Bool, true, false, ◌&&◌, ◌||◌, not, ◌==◌,
  if◌then◌else◌, is_empty, ltb, ◌≡◌, ◌≢◌, refl, inl, inr, Bool-cases, Option-cases, arith, eqb,
  has_prefix,
}
use kutu.Policy.License.{parse_license, license_permitted}
use kutu.Policy.Match.{name_allowed}
use kutu.Policy.Severity.{Vuln, blocking}
use kutu.Policy.Engine.{
  Policy, ArtifactRef, Registry, Request, Decision, Reason, no_reason, allow, checked, check_name,
  check_metadata, check_vulnerable, check_signature, evaluate, gate, classified, is_read,
  read_active, check_quarantine, check_license, license_of, artifact_meta, deny, quarantine_until,
  ecosystem, ArtifactMeta, SignatureError, other_error, package_not_found, signature_decision,
  blocked_by,
}

-- A rejection is a 403 with a reason.
abbrev pub Rejects : Decision → Type 0
Rejects d = d.allowed ≡ false → (d.status ≡ 403) × (d.reason ≢ no_reason)

Rejects-allow : Rejects allow
Rejects-allow h = cc h

Rejects-deny : (r : Reason) → r ≢ no_reason → Rejects (deny r)
Rejects-deny r h _ = (refl, h)

Rejects-if : (b : Bool) (d e : Decision) → Rejects d → Rejects e → Rejects (if b then d else e)
Rejects-if true d e h k = h
Rejects-if false d e h k = k

Rejects-checked : (d e : Decision) → Rejects d → Rejects e → Rejects (checked d e)
Rejects-checked d e h k = Rejects-if d.allowed e d k h

check_quarantine-Rejects :
    (now : ℕ) (p : Policy) (ref : ArtifactRef) (known : Option ArtifactMeta)
    → Rejects (check_quarantine now p ref known)
unfolding check_quarantine
check_quarantine-Rejects now p ref none = Rejects-allow
check_quarantine-Rejects now p ref (some meta) =
    Rejects-if
      (ltb 0 p.quarantine_days
        && not (eqb meta.published_at 0)
        && ltb now (quarantine_until p meta))
      _ _ (Rejects-deny _ (λ e. cc e)) Rejects-allow

check_license-Rejects :
    (p : Policy) (ref : ArtifactRef) (license : Text) → Rejects (check_license p ref license)
check_license-Rejects p ref license = elim (Option-cases (parse_license license)) [
  | inl q ↦
      unfold check_license in
      rw q (
        Rejects-if
          (is_empty p.allowed_licenses && is_empty p.denied_licenses && not p.block_unknown_license)
          _ _ Rejects-allow
          (Rejects-if p.block_unknown_license _ _ (Rejects-deny _ (λ e. cc e)) Rejects-allow))
  | inr (x, q) ↦
      unfold check_license in
      rw q (
        Rejects-if
          (is_empty p.allowed_licenses && is_empty p.denied_licenses && not p.block_unknown_license)
          _ _ Rejects-allow
          (Rejects-if (license_permitted p.allowed_licenses p.denied_licenses x) _ _ Rejects-allow
            (Rejects-deny _ (λ e. cc e))))
]

check_metadata-Rejects :
    (now : ℕ) (p : Policy) (reg : Registry) (ref : ArtifactRef)
    → Rejects (check_metadata now p reg ref)
check_metadata-Rejects now p reg ref =
    unfold check_metadata in
    Rejects-if
      (ltb 0 p.quarantine_days
        || not (is_empty p.allowed_licenses)
        || not (is_empty p.denied_licenses)
        || p.block_unknown_license)
      _ _
      (Rejects-checked _ _ (check_quarantine-Rejects now p ref (artifact_meta reg ref))
        (check_license-Rejects p ref (license_of (artifact_meta reg ref))))
      Rejects-allow

signature_decision-Rejects :
    (ref : ArtifactRef) (a : Bool × Option SignatureError) → Rejects (signature_decision ref a)
unfolding signature_decision
signature_decision-Rejects ref (b, some other_error) = Rejects-deny _ (λ e. cc e)
signature_decision-Rejects ref (b, some package_not_found) =
    Rejects-if b _ _ Rejects-allow (Rejects-deny _ (λ e. cc e))
signature_decision-Rejects ref (b, none) =
    Rejects-if b _ _ Rejects-allow (Rejects-deny _ (λ e. cc e))

check_signature-Rejects :
    (p : Policy) (reg : Registry) (ref : ArtifactRef) → Rejects (check_signature p reg ref)
check_signature-Rejects p reg ref = elim (Option-cases reg.has_signature) [
  | inl q ↦
      unfold check_signature in
      rw q (Rejects-if test _ _ (Rejects-deny _ (λ e. cc e)) Rejects-allow)
  | inr (ask, q) ↦
      unfold check_signature in
      rw q (
        Rejects-if test _ _ (signature_decision-Rejects ref (ask ref.name ref.version))
          Rejects-allow)
]
  where
    test : Bool
    test =
        p.require_signature
        && reg.reg_type == codes "docker"
        && not (has_prefix ref.version (codes "sha256:"))

module _ (path_match : Text → Text → Option Bool)
    (query : Text → Text → Text → Option (List Vuln)) where
  check_name-Rejects : (p : Policy) (name : Text) → Rejects (check_name path_match query p name)
  check_name-Rejects p name =
      unfold check_name in
      Rejects-if (name_allowed path_match p.include p.exclude name) _ _ Rejects-allow
        (Rejects-deny _ (λ e. cc e))

  blocked_by-Rejects :
      (ref : ArtifactRef) (ids : List Text) → Rejects (blocked_by path_match query ref ids)
  unfolding blocked_by
  blocked_by-Rejects ref [] = Rejects-allow
  blocked_by-Rejects ref (id ∷ ids) = Rejects-deny _ (λ e. cc e)

  check_vulnerable-Rejects :
      (p : Policy) (reg : Registry) (ref : ArtifactRef)
      → Rejects (check_vulnerable path_match query p reg ref)
  check_vulnerable-Rejects p reg ref =
      elim (Option-cases (query (ecosystem reg.reg_type) ref.name ref.version)) [
        | inl q ↦ unfold check_vulnerable in rw q (Rejects-if test _ _ Rejects-allow Rejects-allow)
        | inr (vs, q) ↦
            unfold check_vulnerable in
            rw q (
              Rejects-if test _ _ (blocked_by-Rejects ref (blocking vs p.min_severity))
                Rejects-allow)
      ]
    where
      test : Bool
      test = p.block_vulnerable && not (ecosystem reg.reg_type == [])

  evaluate-Rejects :
      (now : ℕ) (p : Policy) (reg : Registry) (ref : ArtifactRef)
      → Rejects (evaluate path_match query now p reg ref)
  evaluate-Rejects now p reg ref =
      unfold evaluate in
      Rejects-checked _ _ (check_name-Rejects p ref.name) (
        Rejects-if (ref.version == []) _ _ Rejects-allow (
          Rejects-checked _ _ (check_metadata-Rejects now p reg ref) (
            Rejects-checked _ _ (check_vulnerable-Rejects p reg ref)
              (check_signature-Rejects p reg ref))))

  -- A rejection by the gate is a 403 with a reason, whatever the policy, registry and request.
  pub gate-Rejects :
      (now : ℕ) (p : Option Policy) (reg : Registry) (r : Request)
      → Rejects (gate path_match query now p reg r)
  gate-Rejects now none reg r = unfold gate in Rejects-allow
  gate-Rejects now (some p) reg r = elim (Option-cases (classified reg r)) [
    | inl q ↦
        unfold gate in
        rw q (Rejects-if write _ _ Rejects-allow (Rejects-if idle _ _ Rejects-allow Rejects-allow))
    | inr (ref, q) ↦
        unfold gate in
        rw q (
          Rejects-if write _ _ Rejects-allow (
            Rejects-if idle _ _ Rejects-allow (
              Rejects-if (is_read r) _ _ (evaluate-Rejects now p reg ref)
                (check_name-Rejects p ref.name))))
  ]
    where
      write : Bool
      write =
          not (is_read r)
          && (r.method == codes "OPTIONS" || (is_empty p.include && is_empty p.exclude))

      idle : Bool
      idle = is_read r && not (read_active p)

  name_allowed-empty :
      (inc exc : List Text) (name : Text)
      → is_empty inc ≡ true
      → is_empty exc ≡ true
      → name_allowed path_match inc exc name ≡ true
  unfolding name_allowed
  name_allowed-empty [] [] name h k = refl
  name_allowed-empty [] (x ∷ exc) name h k = cc k
  name_allowed-empty (x ∷ inc) exc name h k = cc h

  name-allow :
      (p : Policy) (name : Text)
      → is_empty p.include ≡ true
      → is_empty p.exclude ≡ true
      → check_name path_match query p name ≡ allow
  name-allow p name h k =
      unfold check_name in rw (name_allowed-empty p.include p.exclude name h k) refl

  -- With no read rule the engine allows everything.
  inactive-allow :
      (now : ℕ) (p : Policy) (reg : Registry) (ref : ArtifactRef)
      → read_active p ≡ false
      → evaluate path_match query now p reg ref ≡ allow
  inactive-allow now p reg ref h =
      unfold evaluate in
      rw
        (
          name-allow p ref.name (unfold read_active in ground (arith, h))
              (unfold read_active in ground (arith, h)),
          meta,
          vuln,
          sig,
        )
        (if_same (ref.version == []))
    where
      if_same : (b : Bool) → (if b then allow else allow) ≡ allow
      if_same true = refl
      if_same false = refl

      meta : check_metadata now p reg ref ≡ allow
      meta = unfold check_metadata read_active in ground (arith, h)

      vuln : check_vulnerable path_match query p reg ref ≡ allow
      vuln = unfold check_vulnerable read_active in ground (arith, h)

      sig : check_signature p reg ref ≡ allow
      sig = unfold check_signature read_active in ground (arith, h)

  -- The shortcuts of the gate change no answer. A GET or HEAD of a classified artifact is answered
  -- by the full evaluation, any other method but OPTIONS by the name lists alone.
  pub gate_lem :
      (now : ℕ) (p : Policy) (reg : Registry) (r : Request) (ref : ArtifactRef)
      → classified reg r ≡ some ref
      → (r.method == codes "OPTIONS") ≡ false
      → gate path_match query now (some p) reg r ≡ (
          if is_read r
          then evaluate path_match query now p reg ref
          else check_name path_match query p ref.name)
  gate_lem now p reg r ref c o = elim (Bool-cases (is_read r)) [
    | inl e ↦ elim (Bool-cases (read_active p)) [
      | inl a ↦ unfold gate in rw (e, c, a, e) refl
      | inr a ↦ unfold gate in rw (e, a, inactive-allow now p reg ref a) refl
    ]
    | inr e ↦ elim (Bool-cases (is_empty p.include && is_empty p.exclude)) [
      | inl a ↦
          unfold gate in
          rw (e, o, a, name-allow p ref.name (ground (arith, a)) (ground (arith, a))) refl
      | inr a ↦ unfold gate in rw (e, o, a, c, e) refl
    ]
  ]
