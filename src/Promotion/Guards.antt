-- ===== src/Promotion/Guards.antt =====
-- When Promote copies a version.
use kutu.Prelude.{
  is_empty_iff, ◌≡◌, ◌≢◌, ◌↔◌, refl, Text, codes, [], Option, none, some, eq_iff, contains,
  to_lower, inl, inr, Bool-cases, arith,
}
use kutu.Promotion.{
  Registry, Outcome, done, package_not_found, failure, promoted, kind_local, promote_version,
  promote_between, promote,
}

-- Two local repositories of one type that are not the same one.
abbrev pub IsPair : Registry → Registry → Type 0
IsPair src dst =
    (src.kind ≡ kind_local)
    × (dst.kind ≡ kind_local)
    × (src.type_name ≡ dst.type_name)
    × ¬ ((src.namespace ≡ dst.namespace) × (src.name ≡ dst.name))

promote_version_iff :
    (outcome : Option Outcome) → (promote_version outcome ≡ promoted) ↔ (outcome ≡ some done)
promote_version_iff none = (λ h. cc, λ h. cc)
promote_version_iff (some done) = (λ h. refl, λ h. refl)
promote_version_iff (some package_not_found) = (λ h. cc, λ h. cc)
promote_version_iff (some (failure text)) =
    elim (Bool-cases (contains (to_lower text) (codes "not found"))) [
      | inl e ↦ rw e (λ h. cc, λ h. cc)
      | inr e ↦ rw e (λ h. cc, λ h. cc)
    ]

-- Between two repositories that exist, a version is promoted exactly if both are local, of one type and
-- not the same one, the name and the version are not empty, and the source can promote and returns no
-- error.
pub promote_iff :
    (src dst : Registry) (name version : Text) (outcome : Option Outcome)
    → (promote (some src) (some dst) name version outcome ≡ promoted)
      ↔ (IsPair src dst × (name ≢ []) × (version ≢ []) × (outcome ≡ some done))
unfolding promote promote_between
promote_iff src dst name version outcome =
    let k = promote_version_iff outcome in
    let a = eq_iff src.kind kind_local in
    let b = eq_iff dst.kind kind_local in
    let c = eq_iff src.type_name dst.type_name in
    let d = eq_iff src.namespace dst.namespace in
    let e = eq_iff src.name dst.name in
    let f = is_empty_iff name in
    let g = is_empty_iff version in (λ h. ground arith, λ h. ground arith)
