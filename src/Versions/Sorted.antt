-- ===== src/Versions/Sorted.antt =====
-- SortVersions of pkgbase/version.go against the comparator.
use mathlib.Core.List.{Perm}
use kutu.Prelude.{Text, List, true, false, ◌≡◌, refl}
use kutu.Prelude.Sort.{IsSorted, sort_stable-perm, sort_stable-IsSorted}
use kutu.Versions.{Sign, less, same, more, is_less, compare_versions, version_lt, sort_versions}
use kutu.Versions.Order.{compare_versions-IsOrder}
use kutu.Versions.Tokens.{flip, Chain}

flip-not_less : (s : Sign) → is_less s ≡ true → is_less (flip s) ≡ false
unfolding is_less
flip-not_less less h = refl
flip-not_less same h = refl
flip-not_less more h = cc

version_lt_asym : (a b : Text) → version_lt a b ≡ true → version_lt b a ≡ false
unfolding version_lt
version_lt_asym a b h =
    rw (compare_versions-IsOrder.flipped a b) (flip-not_less (compare_versions a b) h)

Chain-not_less :
    (s t r : Sign) → Chain s t r → is_less s ≡ false → is_less t ≡ false → is_less r ≡ false
unfolding is_less
Chain-not_less less t r h p q = cc
Chain-not_less same t r h p q = rw h q
Chain-not_less more less r h p q = cc
Chain-not_less more same r h p q = rw h refl
Chain-not_less more more r h p q = rw h refl

version_lt_trans :
    (a b c : Text) → version_lt a b ≡ false → version_lt b c ≡ false → version_lt a c ≡ false
unfolding version_lt
version_lt_trans a b c =
    Chain-not_less (compare_versions a b) (compare_versions b c) (compare_versions a c)
      (compare_versions-IsOrder.chained a b c)

-- SortVersions returns a permutation of its input in which no later version is smaller than an
-- earlier one.
pub sort_versions-IsSorted :
    (vs : List Text) → Perm (sort_versions vs) vs × IsSorted version_lt (sort_versions vs)
unfolding sort_versions
sort_versions-IsSorted vs = (
  sort_stable-perm version_lt vs,
  sort_stable-IsSorted version_lt version_lt_asym version_lt_trans vs,
)
