-- ===== src/Policy/Match.antt =====
-- internal/registry/policy/match.go: package-name patterns. `path.Match` of Go's library is a
-- parameter, which answers `none` for its error on a malformed pattern.
pub mod Laws
use kutu.Prelude.{
  ℕ, zero, suc, Text, codes, List, [], ◌∷◌, ◌++◌, Option, none, some, Bool, true, false, ◌&&◌, ◌||◌,
  ◌==◌, if◌then◌else◌, length, is_empty, has_prefix, trim_left, any,
}

-- strings.Index(pattern, "**"), as what stands before it and the rest from there.
unfoldable pub index_stars : Text → Option (Text × Text)
unfolding has_prefix
index_stars [] = none
index_stars (c ∷ s) =
    let rest = index_stars s in
    if has_prefix (c ∷ s) (codes "**")
    then some ([], c ∷ s)
    else elim rest [ none ↦ none | some (a, b) ↦ some (c ∷ a, b) ]

-- The loop over name[i:].
unfoldable pub any_suffix : (Text → Bool) → Text → Bool
any_suffix p [] = p []
any_suffix p (c ∷ s) = p (c ∷ s) || any_suffix p s

-- The loop over name[:i] and name[i:]; `done` is the part of the name passed.
unfoldable pub any_split : (Text → Text → Bool) → Text → Text → Bool
any_split p passed [] = p passed []
any_split p passed (c ∷ s) = p passed (c ∷ s) || any_split p (passed ++ c ∷ []) s

unfoldable pub matched : Option Bool → Bool
matched none = false
matched (some b) = b

module _ (path_match : Text → Text → Option Bool) where
  -- One call of globMatch, with its recursive calls as an argument.
  unfoldable pub glob_step : (Text → Text → Bool) → Text → Text → Bool
  unfolding matched any_suffix any_split trim_left has_prefix index_stars ◌==◌
  glob_step again pattern name =
      if has_prefix pattern (codes "**")
      then (let rest = trim_left pattern b'*' in
          if rest == [] then true else any_suffix (again rest) name)
      else elim (index_stars pattern) [
        | none ↦ matched (path_match pattern name)
        | some (head, tail) ↦ any_split (λ a b. matched (path_match head a) && again tail b) [] name
      ]

  -- Each call is on a shorter pattern, so the length of the pattern bounds the depth.
  glob_fuel : ℕ → Text → Text → Bool
  unfolding glob_step
  glob_fuel zero pattern name = false
  glob_fuel (suc n) pattern name = glob_step (glob_fuel n) pattern name

  unfoldable pub glob_match : Text → Text → Bool
  unfolding glob_fuel
  glob_match pattern name = glob_fuel (suc (length pattern)) pattern name

  unfoldable pub match_name : Text → Text → Bool
  unfolding glob_match
  match_name pattern name =
      if pattern == []
      then false
      else if pattern == codes "**"
      then true
      else glob_match pattern name

  unfoldable pub name_allowed : List Text → List Text → Text → Bool
  name_allowed include exclude name =
      if any (λ p. match_name p name) exclude
      then false
      else if is_empty include
      then true
      else any (λ p. match_name p name) include
