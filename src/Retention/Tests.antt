-- ===== src/Retention/Tests.antt =====
-- A concrete package and policy, and the theorems of this tree at them.
use mathlib.Core.List.{Perm}
use kutu.Prelude.{
  true, arith, ◌+◌, ◌*◌, ◌<◌, ℕ, Text, codes, List, [], ◌∷◌, Option, none, false, ◌==◌, ◌≡◌, ◌↔◌,
  refl, inl, In,
}
use kutu.Retention.{
  max_age, older, RetentionPolicy, RetentionItem, Package, beyond_newest, newer, sort_newest_first,
  plan_package,
}
use kutu.Retention.Loop.{At}
use kutu.Retention.Plan.{IsPlanned, plan_package_iff}
use kutu.Retention.Age.{day, older_exact, older_overflow}
use kutu.Retention.Newest.{plan_package-newest}

abbrev keep_two : RetentionPolicy
keep_two = record {
  keep_last_versions = 2;
  max_version_age_days = 30;
  keep_patterns = codes "1.0" ∷ [];
}

abbrev pkg : Package
pkg = record {
  name = codes "lib";
  versions = codes "1.0" ∷ codes "1.2" ∷ codes "1.1" ∷ codes "0.9" ∷ [];
}

abbrev no_times : Text → Option ℕ
no_times v = none

abbrev oldest : RetentionItem
oldest = record { name = codes "lib"; version = codes "0.9"; reason = beyond_newest }

plan_package-newest_example :
    (best : Text) × (rest : List Text) × Perm (best ∷ rest) pkg.versions
    × ((v : Text) → In v pkg.versions → newer v best ≡ false)
    × ((it : RetentionItem)
        → In it (plan_package ◌==◌ keep_two no_times 100 pkg)
        → In it.version rest)
plan_package-newest_example =
    plan_package-newest ◌==◌ keep_two no_times 100 pkg (codes "1.0") (inl refl)

plan_package_iff_example : In oldest (plan_package ◌==◌ keep_two no_times 100 pkg) ↔ (
    (k : ℕ) × At k oldest.version (sort_newest_first pkg.versions)
    × (oldest.name ≡ pkg.name)
    × IsPlanned ◌==◌ keep_two no_times 100 k oldest.version oldest.reason)
plan_package_iff_example = plan_package_iff ◌==◌ keep_two no_times 100 pkg oldest

older_exact_example : (older (max_age 30) 5000 1000 ≡ true) ↔ (1000 + 30 * day < 5000)
older_exact_example = older_exact 30 5000 1000 (omega arith) (omega arith)

older_overflow_example : older (max_age 110000) 5000 1000 ≡ true
older_overflow_example = older_overflow 110000 5000 1000 (omega arith) (omega arith) (omega arith)
