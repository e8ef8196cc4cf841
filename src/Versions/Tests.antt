-- ===== src/Versions/Tests.antt =====
-- Concrete version lists, and the theorems of this tree at them.
use mathlib.Core.List.{Perm}
use kutu.Prelude.{Text, codes, List, [], ◌∷◌, ◌==◌, ◌≡◌, refl}
use kutu.Prelude.Sort.{IsSorted}
use kutu.Versions.{less, more, compare_versions, version_lt, sort_versions}
use kutu.Versions.Sorted.{sort_versions-IsSorted}

abbrev releases : List Text
releases = codes "1.10.0" ∷ codes "v1.9" ∷ codes "1.10.0-rc1" ∷ []

sort_versions-IsSorted_example :
    Perm (sort_versions releases) releases × IsSorted version_lt (sort_versions releases)
sort_versions-IsSorted_example = sort_versions-IsSorted releases

-- Numbers compare as numbers, and a pre-release is older than its release.
numeric_order : compare_versions (codes "1.10.0") (codes "v1.9") ≡ more
unfolding compare_versions ◌==◌
numeric_order = refl

pre_release_order : compare_versions (codes "1.10.0-rc1") (codes "1.10.0") ≡ less
unfolding compare_versions ◌==◌
pre_release_order = refl
