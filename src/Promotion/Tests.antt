-- ===== src/Promotion/Tests.antt =====
-- Promotions and package specs on concrete input.
use kutu.Prelude.{◌↔◌, ◌≢◌, eqb, ◌≡◌, refl, Text, codes, [], ◌∷◌, some, true, ◌==◌, trim_space}
use kutu.Promotion.{
  Registry, done, promoted, incompatible, prefetch_failed, context_done, promote,
  split_package_spec, prefetch_all,
}
use kutu.Promotion.Guards.{IsPair, promote_iff}
use kutu.Promotion.Spec.{IsSpec, split_package_spec-IsSpec}

abbrev scoped : Text
scoped = codes " @scope/x@1.0 "

scoped-split : split_package_spec scoped ≡ (codes "@scope/x", codes "1.0")
unfolding split_package_spec
scoped-split = refl

bare-split : split_package_spec (codes "@scope/x") ≡ (codes "@scope/x", [])
unfolding split_package_spec
bare-split = refl

abbrev staging : Registry
staging = record {
  kind = codes "local";
  type_name = codes "npm";
  namespace = codes "a";
  name = codes "staging";
}

abbrev production : Registry
production = record {
  kind = codes "local";
  type_name = codes "npm";
  namespace = codes "a";
  name = codes "production";
}

promoted_once :
    promote (some staging) (some production) (codes "x") (codes "1.0") (some done) ≡ promoted
unfolding promote
promoted_once = refl

to_itself :
    promote (some staging) (some staging) (codes "x") (codes "1.0") (some done) ≡ incompatible
unfolding promote
to_itself = refl

-- The context is done before the third package.
warmed :
    prefetch_all
      (λ n. eqb n 2)
      (λ name version. name == codes "x")
      true
      (codes "x@1" ∷ codes "y@2" ∷ codes "z@3" ∷ [])
    ≡ prefetch_failed (codes "y@2") ∷ context_done ∷ []
unfolding prefetch_all ◌==◌
warmed = refl

split_package_spec-IsSpec_example : IsSpec (trim_space scoped) (split_package_spec scoped)
split_package_spec-IsSpec_example = split_package_spec-IsSpec scoped

promote_iff_example :
    (promote (some staging) (some production) (codes "x") (codes "1.0") (some done) ≡ promoted)
    ↔ (IsPair staging production × (codes "x" ≢ []) × (codes "1.0" ≢ []) × (some done ≡ some done))
promote_iff_example = promote_iff staging production (codes "x") (codes "1.0") (some done)
