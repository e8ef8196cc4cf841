-- ===== src/Semver/Tests.antt =====
-- Concrete versions, and the theorems of this tree at them.
use kutu.Prelude.{codes, [], ◌∷◌, some, ◌≡◌, refl, has_prefix}
use kutu.Versions.{less}
use kutu.Versions.Tokens.{Chain}
use kutu.Semver.{strict, lenient, split_version, compare_semver}
use kutu.Semver.Order.{compare_semver-Chain}

parsed_old : split_version (codes "v1.9") strict ≡ some (1 ∷ 9 ∷ [], [])
unfolding split_version has_prefix
parsed_old = refl

parsed_rc : split_version (codes "v1.10.0-rc.1") strict ≡ some (1 ∷ 10 ∷ 0 ∷ [], codes "rc.1")
unfolding split_version has_prefix
parsed_rc = refl

parsed_new : split_version (codes "v1.10.0+build") strict ≡ some (1 ∷ 10 ∷ 0 ∷ [], [])
unfolding split_version has_prefix
parsed_new = refl

compare_semver-Chain_example :
    Chain
      (compare_semver (codes "v1.9") (codes "v1.10.0-rc.1") strict)
      (compare_semver (codes "v1.10.0-rc.1") (codes "v1.10.0+build") strict)
      (compare_semver (codes "v1.9") (codes "v1.10.0+build") strict)
compare_semver-Chain_example =
    compare_semver-Chain (codes "v1.9") (codes "v1.10.0-rc.1") (codes "v1.10.0+build") strict
      (1 ∷ 9 ∷ [], []) (1 ∷ 10 ∷ 0 ∷ [], codes "rc.1") (1 ∷ 10 ∷ 0 ∷ [], []) parsed_old parsed_rc
      parsed_new

-- Texts that do not parse can close a circle with those that do.
circle_parsed : compare_semver (codes "1.9") (codes "1.10") lenient ≡ less
unfolding compare_semver has_prefix
circle_parsed = refl

circle_up : compare_semver (codes "1.10") (codes "1.5x") lenient ≡ less
unfolding compare_semver has_prefix
circle_up = refl

circle_close : compare_semver (codes "1.5x") (codes "1.9") lenient ≡ less
unfolding compare_semver has_prefix
circle_close = refl
