-- ===== src/Semver.antt =====
-- internal/registry/common/semver/semver.go: the comparator of the goproxy, npm and helm registries.
-- A number is the 64 bits of a Go int, which wrap; a rune is a byte.
pub mod Order
mod Tests
use Prim.Native.Nat.{◌%◌}
use kutu.Prelude.{
  ℕ, ◌+◌, ◌-◌, ◌*◌, Text, codes, List, [], ◌∷◌, Option, none, some, Bool, true, false, ◌==◌, leb,
  ◌&&◌, if◌then◌else◌, has_prefix, after, trim_prefix, cut, split,
}
use kutu.Prelude.Sort.{sort_stable}
use kutu.Versions.{Sign, less, same, more, or_next, compare_int, compare_text, is_more}

pub data Mode : Type 0 where
  strict : Mode
  lenient : Mode

abbrev two_63 : ℕ
two_63 = 9223372036854775808

abbrev two_64 : ℕ
two_64 = 18446744073709551616

-- The loop over the runes of a component.
unfoldable pub digits_from : ℕ → Text → Option ℕ
digits_from n [] = some n
digits_from n (c ∷ s) =
    let rest = digits_from ((n * 10 + (c - b'0')) % two_64) s in
    if leb b'0' c && leb c b'9' then rest else none

unfoldable pub component : Text → Option ℕ
unfolding digits_from
component [] = none
component (c ∷ s) = digits_from 0 (c ∷ s)

unfoldable pub components : List Text → Option (List ℕ)
unfolding component
components [] = some []
components (p ∷ ps) = elim (component p) [
  | none ↦ none
  | some n ↦ elim (components ps) [ none ↦ none | some ns ↦ some (n ∷ ns) ]
]

-- The body after the prefix, without build metadata, as its components and the pre-release tag.
unfoldable pub numbered : Text → Text → Option (List ℕ × Text)
unfolding components split
numbered body pre = elim (components (split body b'.')) [ none ↦ none | some ns ↦ some (ns, pre) ]

unfoldable pub split_tag : Text → Option (List ℕ × Text)
unfolding numbered cut
split_tag v = elim (cut v b'-') [ none ↦ numbered v [] | some (body, pre) ↦ numbered body pre ]

unfoldable pub split_body : Text → Option (List ℕ × Text)
unfolding split_tag cut
split_body [] = none
split_body (c ∷ v) = elim (cut (c ∷ v) b'+') [
  | none ↦ split_tag (c ∷ v)
  | some (w, _) ↦ split_tag w
]

-- split of semver.go
unfoldable pub split_version : Text → Mode → Option (List ℕ × Text)
unfolding split_body has_prefix after trim_prefix
split_version v strict = if has_prefix v (codes "v") then split_body (after v (codes "v")) else none
split_version v lenient = split_body (trim_prefix v (codes "v"))

-- The order of two Go ints, given by their bits.
unfoldable pub compare_signed : ℕ → ℕ → Sign
unfolding compare_int
compare_signed a b = compare_int ((a + two_63) % two_64) ((b + two_63) % two_64)

-- The loop over the components; a missing one is zero.
unfoldable pub compare_numbers : List ℕ → List ℕ → Sign
unfolding compare_signed or_next
compare_numbers [] [] = same
compare_numbers [] (b ∷ bs) = or_next (compare_signed 0 b) (compare_numbers [] bs)
compare_numbers (a ∷ as_) [] = or_next (compare_signed a 0) (compare_numbers as_ [])
compare_numbers (a ∷ as_) (b ∷ bs) = or_next (compare_signed a b) (compare_numbers as_ bs)

unfoldable pub compare_tags : Text → Text → Sign
unfolding compare_text
compare_tags [] [] = same
compare_tags [] (y ∷ t) = more
compare_tags (x ∷ s) [] = less
compare_tags (x ∷ s) (y ∷ t) = compare_text (x ∷ s) (y ∷ t)

unfoldable pub compare_parsed : List ℕ × Text → List ℕ × Text → Sign
unfolding compare_numbers compare_tags or_next
compare_parsed (an, apre) (bn, bpre) = or_next (compare_numbers an bn) (compare_tags apre bpre)

-- The texts decide where one of them does not parse.
unfoldable pub compare_or : Text → Text → Option (List ℕ × Text) → Option (List ℕ × Text) → Sign
unfolding compare_parsed compare_text
compare_or a b none q = compare_text a b
compare_or a b (some v) none = compare_text a b
compare_or a b (some v) (some w) = compare_parsed v w

-- Compare of semver.go
unfoldable pub compare_semver : Text → Text → Mode → Sign
unfolding compare_or split_version ◌==◌
compare_semver a b m =
    if a == b then same else compare_or a b (split_version a m) (split_version b m)

-- SortDesc
unfoldable pub sort_desc : List Text → Mode → List Text
unfolding sort_stable compare_semver is_more
sort_desc vs m = sort_stable (λ a b. is_more (compare_semver a b m)) vs
