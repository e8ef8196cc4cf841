-- ===== src/Prelude/Texts.antt =====
-- Go strings. A string is the list of its bytes; case mapping, folding and white space are those of
-- ASCII. Each function does on a list what the function of Go's `strings` package does.
use Prim.Native.Char.{code}
use Prim.Native.Nat.{ℕ, ◌+◌, ◌-◌}
use Prim.Native.String.{String}
use mathlib.Core.Path.{◌≡◌, refl}
use mathlib.Core.Logic.{◌↔◌, inl, inr}
use mathlib.Core.Bool.{Bool, true, false, ◌&&◌, ◌||◌}
use mathlib.Core.List.{List, [], ◌∷◌, ◌++◌, map, reverse}
use mathlib.Core.Option.{Option, none, some}
use native.Mathlib.Omega.{arith}
use kutu.Prelude.Tests.{ltb, leb, eqb, if◌then◌else◌, Bool-cases}
use kutu.Prelude.Lists.{In, any}

abbrev pub Text : Type 0
Text = List ℕ

-- The bytes of a literal in ASCII.
abbrev pub codes : String → Text
codes String.[] = []
codes (String.◌∷◌ c s) = code c ∷ codes s

infix 50 ◌==◌
unfoldable pub ◌==◌ : Text → Text → Bool
[] == [] = true
[] == (y ∷ t) = false
(x ∷ s) == [] = false
(x ∷ s) == (y ∷ t) = eqb x y && s == t

pub eq_iff : (s t : Text) → ((s == t) ≡ true) ↔ (s ≡ t)
unfolding ◌==◌
eq_iff [] [] = (λ _. refl, λ _. refl)
eq_iff [] (y ∷ t) = (λ h. cc, λ h. cc)
eq_iff (x ∷ s) [] = (λ h. cc, λ h. cc)
eq_iff (x ∷ s) (y ∷ t) = let ih = eq_iff s t in (λ h. ground (arith, ih), λ h. ground (arith, ih))

pub eq_refl : (s : Text) → (s == s) ≡ true
eq_refl s = (eq_iff s s).1 refl

-- A map's key test, a loop that compares each element.
unfoldable pub has : List Text → Text → Bool
has xs k = any (λ x. x == k) xs

pub has_iff : (xs : List Text) (k : Text) → (has xs k ≡ true) ↔ In k xs
unfolding has
has_iff xs k = (to xs, from xs)
  where
    to : (ys : List Text) → any (λ x. x == k) ys ≡ true → In k ys
    to [] h = cc
    to (y ∷ ys) h = elim (Bool-cases (y == k)) [
      | inl e ↦ inl ((eq_iff y k).0 e)
      | inr e ↦ inr (to ys (ground arith))
    ]

    from : (ys : List Text) → In k ys → any (λ x. x == k) ys ≡ true
    from [] h = absurd h
    from (y ∷ ys) (inl e) = ground (arith, eq_iff y k)
    from (y ∷ ys) (inr h) = ground (arith, from ys h)

-- `s < t`: by the first byte that differs, a proper prefix being smaller.
unfoldable pub text_lt : Text → Text → Bool
text_lt [] [] = false
text_lt [] (y ∷ t) = true
text_lt (x ∷ s) [] = false
text_lt (x ∷ s) (y ∷ t) = ltb x y || (eqb x y && text_lt s t)

-- strings.HasPrefix, TrimPrefix
unfoldable pub has_prefix : Text → Text → Bool
has_prefix s [] = true
has_prefix [] (y ∷ p) = false
has_prefix (x ∷ s) (y ∷ p) = eqb x y && has_prefix s p

-- What follows a prefix of that length.
unfoldable pub after : Text → Text → Text
after s [] = s
after [] (y ∷ p) = []
after (x ∷ s) (y ∷ p) = after s p

unfoldable pub trim_prefix : Text → Text → Text
unfolding has_prefix after
trim_prefix s p = if has_prefix s p then after s p else s

-- strings.TrimSuffix with a suffix of one byte
unfoldable pub trim_suffix : Text → ℕ → Text
trim_suffix [] c = []
trim_suffix (x ∷ []) c = if eqb x c then [] else x ∷ []
trim_suffix (x ∷ y ∷ s) c = x ∷ trim_suffix (y ∷ s) c

-- strings.HasSuffix, and TrimSuffix of a suffix that is there
unfoldable pub has_suffix : Text → Text → Bool
unfolding has_prefix
has_suffix s p = has_prefix (reverse s) (reverse p)

unfoldable pub drop_suffix : Text → Text → Text
unfolding after
drop_suffix s p = reverse (after (reverse s) (reverse p))

-- strings.TrimLeft with a cutset of one byte
unfoldable pub trim_left : Text → ℕ → Text
trim_left [] c = []
trim_left (x ∷ s) c = let rest = trim_left s c in if eqb x c then rest else x ∷ s

-- strings.Trim with a cutset of one byte
unfoldable pub trim : Text → ℕ → Text
unfolding trim_left
trim s c = reverse (trim_left (reverse (trim_left s c)) c)

-- strings.Cut with a separator of one byte; `none` where it does not occur.
unfoldable pub cut : Text → ℕ → Option (Text × Text)
cut [] c = none
cut (x ∷ s) c =
    let rest = cut s c in
    if eqb x c then some ([], s) else elim rest [ none ↦ none | some (a, b) ↦ some (x ∷ a, b) ]

-- strings.Split with a separator of one byte: never empty.
split_first : ℕ → List Text → List Text
split_first x [] = (x ∷ []) ∷ []
split_first x (w ∷ ws) = (x ∷ w) ∷ ws

unfoldable pub split : Text → ℕ → List Text
unfolding split_first
split [] c = [] ∷ []
split (x ∷ s) c = let rest = split s c in if eqb x c then [] ∷ rest else split_first x rest

-- strings.Join with a separator of one byte
unfoldable pub join : List Text → ℕ → Text
join [] c = []
join (w ∷ []) c = w
join (w ∷ v ∷ ws) c = w ++ c ∷ join (v ∷ ws) c

-- strings.Contains
unfoldable pub contains : Text → Text → Bool
unfolding has_prefix
contains [] p = has_prefix [] p
contains (x ∷ s) p = has_prefix (x ∷ s) p || contains s p

unfoldable pub lower_byte : ℕ → ℕ
lower_byte c = if leb b'A' c && leb c b'Z' then c + 32 else c

unfoldable pub upper_byte : ℕ → ℕ
upper_byte c = if leb b'a' c && leb c b'z' then c - 32 else c

unfoldable pub to_lower : Text → Text
unfolding lower_byte
to_lower s = map lower_byte s

unfoldable pub to_upper : Text → Text
unfolding upper_byte
to_upper s = map upper_byte s

-- strings.EqualFold
unfoldable pub equal_fold : Text → Text → Bool
unfolding to_lower ◌==◌
equal_fold s t = to_lower s == to_lower t

unfoldable pub is_space : ℕ → Bool
is_space c = eqb c 32 || (leb 9 c && leb c 13)

trim_space_left : Text → Text
unfolding is_space
trim_space_left [] = []
trim_space_left (x ∷ s) = let rest = trim_space_left s in if is_space x then rest else x ∷ s

-- strings.TrimSpace
unfoldable pub trim_space : Text → Text
unfolding trim_space_left
trim_space s = reverse (trim_space_left (reverse (trim_space_left s)))

pub lower_byte_idem : (c : ℕ) → lower_byte (lower_byte c) ≡ lower_byte c
unfolding lower_byte
lower_byte_idem c = ground arith

pub to_lower_idem : (s : Text) → to_lower (to_lower s) ≡ to_lower s
unfolding to_lower
to_lower_idem [] = refl
to_lower_idem (c ∷ s) = cc (lower_byte_idem c, to_lower_idem s)
