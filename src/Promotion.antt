-- ===== src/Promotion.antt =====
-- internal/registry/ops/promote.go: the guards of a promotion, the warming of a cache and the reading of
-- a package spec. What a registry does, and whether the context is done before the n-th package, are
-- parameters.
pub mod Guards
pub mod Spec
mod Tests
use kutu.Prelude.{
  ℕ, zero, suc, Text, codes, List, [], ◌∷◌, ◌++◌, Option, none, some, Bool, true, false, ◌&&◌, ◌||◌,
  not, eqb, is_empty, ◌==◌, if◌then◌else◌, contains, to_lower, trim_space,
}

abbrev pub kind_local : Text
kind_local = codes "local"

-- What Promote reads of a registry.
pub record Registry : Type 0 where
  pub kind : Text
  pub type_name : Text
  pub namespace : Text
  pub name : Text

-- What PromoteVersion returns: nil, or an error that is ErrPackageNotFound or has a text.
pub data Outcome : Type 0 where
  done : Outcome
  package_not_found : Outcome
  failure : Text → Outcome

pub data Promotion : Type 0 where
  promoted incompatible invalid_package_name unsupported not_found failed : Promotion

abbrev pub classify : Outcome → Promotion
classify done = promoted
classify package_not_found = not_found
classify (failure text) = if contains (to_lower text) (codes "not found") then not_found else failed

-- The type assertion: `none` is a source that cannot promote.
abbrev pub promote_version : Option Outcome → Promotion
promote_version none = unsupported
promote_version (some outcome) = classify outcome

unfoldable pub promote_between : Registry → Registry → Text → Text → Option Outcome → Promotion
unfolding contains to_lower ◌==◌
promote_between src dst name version outcome =
    if not (src.kind == kind_local) || not (dst.kind == kind_local)
    then incompatible
    else if not (src.type_name == dst.type_name)
    then incompatible
    else if src.namespace == dst.namespace && src.name == dst.name
    then incompatible
    else if is_empty name || is_empty version
    then invalid_package_name
    else promote_version outcome

-- Promote; a missing repository is `none`.
unfoldable pub promote :
    Option Registry → Option Registry → Text → Text → Option Outcome → Promotion
unfolding promote_between
promote none dst name version outcome = incompatible
promote (some src) none name version outcome = incompatible
promote (some src) (some dst) name version outcome = promote_between src dst name version outcome

-- strings.LastIndexByte, as the text before the last occurrence and the text after it.
abbrev pub around : ℕ → ℕ → Text → Option (Text × Text) → Option (Text × Text)
around sep c s none = if eqb c sep then some ([], s) else none
around sep c s (some (a, b)) = some (c ∷ a, b)

unfoldable pub cut_last_at : ℕ → Text → Option (Text × Text)
cut_last_at sep [] = none
cut_last_at sep (c ∷ s) = around sep c s (cut_last_at sep s)

abbrev pub spec_of : Text → Option (Text × Text) → Text × Text
spec_of spec none = (spec, [])
spec_of spec (some ([], b)) = (spec, [])
spec_of spec (some (c ∷ a, b)) = (c ∷ a, b)

unfoldable pub split_package_spec : Text → Text × Text
unfolding cut_last_at trim_space
split_package_spec spec = spec_of (trim_space spec) (cut_last_at b'@' (trim_space spec))

pub data PrefetchError : Type 0 where
  no_prefetcher context_done : PrefetchError
  prefetch_failed : Text → PrefetchError

module _ (context_err : ℕ → Bool) (prefetch : Text → Text → Bool) where
  abbrev pub prefetch_one : Text × Text → Text → List PrefetchError
  prefetch_one (name, version) spec =
      if is_empty name
      then []
      else if prefetch name version
      then []
      else prefetch_failed (trim_space spec) ∷ []

  -- The loop of PrefetchAll from the n-th package on; `prefetch` tells whether it returns nil.
  unfoldable pub prefetch_from : ℕ → List Text → List PrefetchError
  unfolding split_package_spec trim_space
  prefetch_from n [] = []
  prefetch_from n (spec ∷ packages) =
      let rest = prefetch_from (suc n) packages in
      if context_err n
      then context_done ∷ []
      else prefetch_one (split_package_spec spec) spec ++ rest

  unfoldable pub prefetch_all : Bool → List Text → List PrefetchError
  unfolding prefetch_from
  prefetch_all is_prefetcher packages =
      if is_prefetcher then prefetch_from 0 packages else no_prefetcher ∷ []
