-- ===== src/Policy/Engine.antt =====
-- internal/registry/policy/policy.go: the engine. A registry is what the engine can ask of it: its
-- optional interfaces are options of functions, and an error that the engine treats as unknown is
-- `none`. The OSV query, the row lookup and path.Match are parameters. A time is the number of
-- nanoseconds since Go's zero time, and a duration is the bit pattern of an int64.
pub mod Checks
pub mod Allowed
pub mod Gate
pub mod Quarantine
use Prim.Native.Nat.{◌%◌, ◌^◌}
use kutu.Prelude.{
  ℕ, ◌+◌, ◌-◌, ◌*◌, Text, codes, List, [], ◌∷◌, Option, none, some, Bool, true, false, ◌&&◌, ◌||◌,
  not, ◌==◌, eqb, ltb, if◌then◌else◌, is_empty, has_prefix,
}
use kutu.Policy.License.{parse_license, license_permitted}
use kutu.Policy.Match.{name_allowed}
use kutu.Policy.Severity.{Vuln, blocking}

pub record Policy : Type 0 where
  pub include : List Text
  pub exclude : List Text
  pub quarantine_days : ℕ
  pub block_vulnerable : Bool
  pub min_severity : Text
  pub allowed_licenses : List Text
  pub denied_licenses : List Text
  pub block_unknown_license : Bool
  pub require_signature : Bool

pub record ArtifactRef : Type 0 where
  pub name : Text
  pub version : Text

-- The zero time is unknown, as is the empty license.
pub record ArtifactMeta : Type 0 where
  pub license : Text
  pub published_at : ℕ

pub record Request : Type 0 where
  pub method : Text
  pub target : Text

pub data SignatureError : Type 0 where
  package_not_found other_error : SignatureError

pub record Registry : Type 0 where
  pub reg_type : Text
  pub classify_request : Option (Request → Option ArtifactRef)
  pub artifact_info : Option (ArtifactRef → Option ArtifactMeta)
  pub has_signature : Option (Text → Text → Bool × Option SignatureError)

-- The message of a rejection, by the format it is printed with.
pub data Reason : Type 0 where
  no_reason : Reason
  name_blocked : Text → Reason
  quarantined : ArtifactRef → ℕ → Reason
  license_unknown : ArtifactRef → Reason
  license_refused : Text → ArtifactRef → Reason
  vulnerable : ArtifactRef → List Text → Reason
  not_signed : ArtifactRef → Reason
  signature_unverified : ArtifactRef → Reason

pub record Decision : Type 0 where
  pub allowed : Bool
  pub status : ℕ
  pub reason : Reason

abbrev pub allow : Decision
allow = record { allowed = true; status = 0; reason = no_reason }

abbrev pub deny : Reason → Decision
deny r = record { allowed = false; status = 403; reason = r }

-- `if d := check; !d.Allowed { return d }` before the rest of a function.
abbrev pub checked : Decision → Decision → Decision
checked d rest = if d.allowed then rest else d

unfoldable pub ecosystem : Text → Text
unfolding ◌==◌
ecosystem t =
    if t == codes "go"
    then codes "Go"
    else if t == codes "npm"
    then codes "npm"
    else if t == codes "maven"
    then codes "Maven"
    else if t == codes "pypi"
    then codes "PyPI"
    else if t == codes "cargo"
    then codes "crates.io"
    else if t == codes "nuget"
    then codes "NuGet"
    else if t == codes "rubygems"
    then codes "RubyGems"
    else if t == codes "composer"
    then codes "Packagist"
    else if t == codes "pub"
    then codes "Pub"
    else if t == codes "swift"
    then codes "SwiftURL"
    else if t == codes "cran"
    then codes "CRAN"
    else if t == codes "conan"
    then codes "ConanCenter"
    else []

-- time.Duration(n) * 24 * time.Hour, in an int64 that wraps.
unfoldable pub days : ℕ → ℕ
days n = (n * 86400000000000) % 2 ^ 64

-- t.Add(d) for the duration with bit pattern d.
unfoldable pub add_duration : ℕ → ℕ → ℕ
add_duration t d = if ltb d (2 ^ 63) then t + d else t - (2 ^ 64 - d)

unfoldable pub read_active : Policy → Bool
read_active p =
    not (is_empty p.include)
    || not (is_empty p.exclude)
    || ltb 0 p.quarantine_days
    || p.block_vulnerable
    || not (is_empty p.allowed_licenses)
    || not (is_empty p.denied_licenses)
    || p.block_unknown_license
    || p.require_signature

-- checkLicense
unfoldable pub check_license : Policy → ArtifactRef → Text → Decision
check_license p ref license =
    if is_empty p.allowed_licenses && is_empty p.denied_licenses && not p.block_unknown_license
    then allow
    else elim (parse_license license) [
      | none ↦ if p.block_unknown_license then deny (license_unknown ref) else allow
      | some expr ↦
          if license_permitted p.allowed_licenses p.denied_licenses expr
          then allow
          else deny (license_refused license ref)
    ]

-- `meta` and `known` of evaluate.
unfoldable pub artifact_meta : Registry → ArtifactRef → Option ArtifactMeta
artifact_meta reg ref = elim reg.artifact_info [ none ↦ none | some info ↦ info ref ]

unfoldable pub quarantine_until : Policy → ArtifactMeta → ℕ
unfolding days add_duration
quarantine_until p meta = add_duration meta.published_at (days p.quarantine_days)

-- The quarantine of evaluate at the time `now`.
unfoldable pub check_quarantine : ℕ → Policy → ArtifactRef → Option ArtifactMeta → Decision
unfolding quarantine_until
check_quarantine now p ref none = allow
check_quarantine now p ref (some meta) =
    if ltb 0 p.quarantine_days && not (eqb meta.published_at 0) && ltb now (quarantine_until p meta)
    then deny (quarantined ref (quarantine_until p meta))
    else allow

unfoldable pub license_of : Option ArtifactMeta → Text
license_of none = []
license_of (some meta) = meta.license

-- The block of evaluate under the test that some check needs the metadata.
unfoldable pub check_metadata : ℕ → Policy → Registry → ArtifactRef → Decision
unfolding check_quarantine check_license license_of artifact_meta
check_metadata now p reg ref =
    if ltb 0 p.quarantine_days
      || not (is_empty p.allowed_licenses)
      || not (is_empty p.denied_licenses)
      || p.block_unknown_license
    then (let meta = artifact_meta reg ref in
        checked (check_quarantine now p ref meta) (check_license p ref (license_of meta)))
    else allow

-- The answer of HasSignature.
unfoldable pub signature_decision : ArtifactRef → Bool × Option SignatureError → Decision
signature_decision ref (signed, some other_error) = deny (signature_unverified ref)
signature_decision ref (signed, some package_not_found) =
    if signed then allow else deny (not_signed ref)
signature_decision ref (signed, none) = if signed then allow else deny (not_signed ref)

unfoldable pub check_signature : Policy → Registry → ArtifactRef → Decision
unfolding signature_decision has_prefix ◌==◌
check_signature p reg ref =
    if p.require_signature
      && reg.reg_type == codes "docker"
      && not (has_prefix ref.version (codes "sha256:"))
    then elim reg.has_signature [
      | none ↦ deny (not_signed ref)
      | some ask ↦ signature_decision ref (ask ref.name ref.version)
    ]
    else allow

abbrev pub is_read : Request → Bool
is_read r = r.method == codes "GET" || r.method == codes "HEAD"

-- The classifier's answer, `none` also for a registry that has no classifier.
abbrev pub classified : Registry → Request → Option ArtifactRef
classified reg r = elim reg.classify_request [ none ↦ none | some classify ↦ classify r ]

module _ (path_match : Text → Text → Option Bool)
    (query : Text → Text → Text → Option (List Vuln)) where
  unfoldable pub check_name : Policy → Text → Decision
  check_name p name =
      if name_allowed path_match p.include p.exclude name then allow else deny (name_blocked name)

  blocked_by : ArtifactRef → List Text → Decision
  blocked_by ref [] = allow
  blocked_by ref (id ∷ ids) = deny (vulnerable ref (id ∷ ids))

  unfoldable pub check_vulnerable : Policy → Registry → ArtifactRef → Decision
  unfolding blocked_by
  check_vulnerable p reg ref =
      if p.block_vulnerable && not (ecosystem reg.reg_type == [])
      then elim (query (ecosystem reg.reg_type) ref.name ref.version) [
        | none ↦ allow
        | some vulns ↦ blocked_by ref (blocking vulns p.min_severity)
      ]
      else allow

  unfoldable pub evaluate : ℕ → Policy → Registry → ArtifactRef → Decision
  unfolding check_name
  evaluate now p reg ref = checked (check_name p ref.name) (
      if ref.version == []
      then allow
      else checked (check_metadata now p reg ref)
          (checked (check_vulnerable p reg ref) (check_signature p reg ref)))

  unfoldable pub gate : ℕ → Option Policy → Registry → Request → Decision
  unfolding read_active
  gate now none reg r = allow
  gate now (some p) reg r =
      if not (is_read r)
        && (r.method == codes "OPTIONS" || (is_empty p.include && is_empty p.exclude))
      then allow
      else if is_read r && not (read_active p)
      then allow
      else elim (classified reg r) [
        | none ↦ allow
        | some ref ↦ if is_read r then evaluate now p reg ref else check_name p ref.name
      ]
