-- ===== src/Retention.antt =====
-- internal/registry/ops/retention.go: the plan of a retention run and its execution. The packages
-- and the publish times that the registry reports are inputs, and so is path.Match of Go's library
-- (an error counts as no match). Times are nanoseconds; a policy number that is not positive is 0.
pub mod Loop
pub mod Plan
pub mod Newest
pub mod Age
mod Tests
use kutu.Prelude.{
  ℕ, zero, suc, ◌+◌, ◌-◌, ◌*◌, Text, List, [], ◌∷◌, ◌++◌, Option, none, some, Bool, true, false,
  ◌&&◌, ◌||◌, not, ltb, leb, if◌then◌else◌, is_empty, any,
}
use Prim.Native.Nat.{◌%◌}
use kutu.Prelude.Sort.{sort_stable}
use kutu.Versions.{compare_versions, is_more}

pub record RetentionPolicy : Type 0 where
  pub keep_last_versions : ℕ
  pub max_version_age_days : ℕ
  pub keep_patterns : List Text

pub data Reason : Type 0 where
  beyond_newest : Reason
  older_than : Reason

pub record RetentionItem : Type 0 where
  pub name : Text
  pub version : Text
  pub reason : Reason

pub record Package : Type 0 where
  pub name : Text
  pub versions : List Text

-- sortNewestFirst of search.go
unfoldable pub newer : Text → Text → Bool
unfolding compare_versions is_more
newer a b = is_more (compare_versions a b)

unfoldable pub sort_newest_first : List Text → List Text
unfolding sort_stable newer
sort_newest_first vs = sort_stable newer vs

abbrev pub two_63 : ℕ
two_63 = 9223372036854775808

abbrev pub two_64 : ℕ
two_64 = 18446744073709551616

-- time.Duration(days) * 24 * time.Hour, as the 64 bits of the product.
unfoldable pub max_age : ℕ → ℕ
max_age days = (days * 86400000000000) % two_64

abbrev pub saturated : ℕ → ℕ → ℕ
saturated n top = if ltb top n then top else n

-- now.Sub(t) > maxAge on signed 64-bit durations; Sub saturates.
unfoldable pub older : ℕ → ℕ → ℕ → Bool
older age now t =
    if ltb age two_63
    then leb t now && ltb age (saturated (now - t) (two_63 - 1))
    else ltb (saturated (t - now) two_63) (two_64 - age)

module _ (path_match : Text → Text → Bool) where
  unfoldable pub keep_by_pattern : List Text → Text → Bool
  keep_by_pattern patterns version = any (λ p. not (is_empty p) && path_match p version) patterns

  abbrev pub over_age : RetentionPolicy → (Text → Option ℕ) → ℕ → Text → Bool
  over_age pol times now v =
      if ltb 0 pol.max_version_age_days
      then elim (times v) [ none ↦ false | some t ↦ older (max_age pol.max_version_age_days) now t ]
      else false

  -- The body of the loop over the sorted versions, at one index.
  unfoldable pub plan_version :
      RetentionPolicy → (Text → Option ℕ) → ℕ → Text → ℕ → Text → List RetentionItem
  unfolding keep_by_pattern older max_age
  plan_version pol times now name i v =
      if not (ltb 0 i) || keep_by_pattern pol.keep_patterns v
      then []
      else if ltb 0 pol.keep_last_versions && leb pol.keep_last_versions i
      then record { name = name; version = v; reason = beyond_newest } ∷ []
      else if over_age pol times now v
      then record { name = name; version = v; reason = older_than } ∷ []
      else []

  unfoldable pub plan_from :
      RetentionPolicy → (Text → Option ℕ) → ℕ → Text → ℕ → List Text → List RetentionItem
  unfolding plan_version
  plan_from pol times now name i [] = []
  plan_from pol times now name i (v ∷ vs) =
      plan_version pol times now name i v ++ plan_from pol times now name (suc i) vs

  unfoldable pub plan_package :
      RetentionPolicy → (Text → Option ℕ) → ℕ → Package → List RetentionItem
  unfolding plan_from sort_newest_first
  plan_package pol times now p = plan_from pol times now p.name 0 (sort_newest_first p.versions)

  unfoldable pub plan_packages :
      RetentionPolicy → (Text → Text → Option ℕ) → ℕ → List Package → List RetentionItem
  unfolding plan_package
  plan_packages pol times now [] = []
  plan_packages pol times now (p ∷ ps) =
      plan_package pol (times p.name) now p ++ plan_packages pol times now ps

  -- PlanRetention of a local repository that can list packages and delete versions.
  unfoldable pub plan_retention :
      RetentionPolicy → (Text → Text → Option ℕ) → ℕ → List Package → List RetentionItem
  unfolding plan_packages
  plan_retention pol times now ps =
      if leb pol.keep_last_versions 0 && leb pol.max_version_age_days 0
      then []
      else plan_packages pol times now ps

-- A result of DeleteVersion.
pub data Deletion : Type 0 where
  deleted : Deletion
  not_found : Deletion
  failed : Deletion

-- ApplyRetention: the number of deletions, and the items whose deletion failed.
unfoldable pub apply_retention :
    (Text → Text → Deletion) → List RetentionItem → ℕ → List RetentionItem → ℕ × List RetentionItem
apply_retention delete [] n errs = (n, errs)
apply_retention delete (it ∷ items) n errs = elim (delete it.name it.version) [
  | deleted ↦ apply_retention delete items (suc n) errs
  | not_found ↦ apply_retention delete items n errs
  | failed ↦ apply_retention delete items n (errs ++ it ∷ [])
]
