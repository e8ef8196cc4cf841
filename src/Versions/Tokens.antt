-- ===== src/Versions/Tokens.antt =====
-- The order of signs, numbers, texts and version tokens.
use kutu.Prelude.{ℕ, ◌<◌, Text, [], ◌∷◌, ltb, ◌≡◌, refl, sym, ◌∙◌, ap, arith, inl, inr, Bool-cases}
use kutu.Versions.{
  Sign, less, same, more, or_next, compare_int, compare_text, VersionToken, num, word,
  compare_token,
}

abbrev pub flip : Sign → Sign
flip less = more
flip same = same
flip more = less

-- What two results say of the third: equal elements can be exchanged and strict results chain.
abbrev pub Chain : Sign → Sign → Sign → Type 0
Chain less less r = r ≡ less
Chain less same r = r ≡ less
Chain less more r = Unit
Chain same t r = r ≡ t
Chain more less r = Unit
Chain more same r = r ≡ more
Chain more more r = r ≡ more

-- An element equals itself, the other way round flips, and results chain.
pub record IsOrder {A : Type 0} (compare : A → A → Sign) : Type 0 where
  pub equal : (a : A) → compare a a ≡ same
  pub flipped : (a b : A) → compare b a ≡ flip (compare a b)
  pub chained : (a b c : A) → Chain (compare a b) (compare b c) (compare a c)

pub or_next-flip : (s t : Sign) → or_next (flip s) (flip t) ≡ flip (or_next s t)
unfolding or_next
or_next-flip less t = refl
or_next-flip same t = refl
or_next-flip more t = refl

same-Chain : (t r : Sign) → r ≡ t → Chain same t r
same-Chain t r e = e

pub Chain-same_less : (s : Sign) → Chain s less less
Chain-same_less less = refl
Chain-same_less same = refl
Chain-same_less more = tt

pub Chain-same_more : (s : Sign) → Chain s more more
Chain-same_more less = tt
Chain-same_more same = refl
Chain-same_more more = refl

pub Chain-less : (t : Sign) → Chain less t less
Chain-less less = refl
Chain-less same = refl
Chain-less more = tt

pub Chain-more : (t : Sign) → Chain more t more
Chain-more less = tt
Chain-more same = refl
Chain-more more = refl

pub or_next-Chain :
    (s t r s2 t2 r2 : Sign)
    → Chain s t r
    → Chain s2 t2 r2
    → Chain (or_next s s2) (or_next t t2) (or_next r r2)
unfolding or_next
or_next-Chain less less r s2 t2 r2 h k = rw h refl
or_next-Chain less same r s2 t2 r2 h k = rw h (Chain-less t2)
or_next-Chain less more r s2 t2 r2 h k = tt
or_next-Chain same less r s2 t2 r2 h k = rw h (Chain-same_less s2)
or_next-Chain same same r s2 t2 r2 h k = rw h k
or_next-Chain same more r s2 t2 r2 h k = rw h (Chain-same_more s2)
or_next-Chain more less r s2 t2 r2 h k = tt
or_next-Chain more same r s2 t2 r2 h k = rw h (Chain-more t2)
or_next-Chain more more r s2 t2 r2 h k = rw h refl

data Cases (a b : ℕ) : Type 0 where
  below : a < b → compare_int a b ≡ less → Cases a b
  equal : a ≡ b → compare_int a b ≡ same → Cases a b
  above : b < a → compare_int a b ≡ more → Cases a b

cases : (a b : ℕ) → Cases a b
unfolding compare_int
cases a b = elim (Bool-cases (ltb a b)) [
  | inl e ↦ below (ground arith) (rw e refl)
  | inr e ↦ elim (Bool-cases (ltb b a)) [
    | inl f ↦ above (ground arith) (rw (e, f) refl)
    | inr f ↦ equal (ground arith) (rw (e, f) refl)
  ]
]

is_below : (a b : ℕ) → a < b → compare_int a b ≡ less
unfolding compare_int
is_below a b h = ground arith

is_above : (a b : ℕ) → b < a → compare_int a b ≡ more
unfolding compare_int
is_above a b h = ground arith

is_same : (a : ℕ) → compare_int a a ≡ same
unfolding compare_int
is_same a = ground arith

compare_int-Chain : (a b c : ℕ) → Chain (compare_int a b) (compare_int b c) (compare_int a c)
compare_int-Chain a b c = go (cases a b) (cases b c)
  where
    go : Cases a b → Cases b c → Chain (compare_int a b) (compare_int b c) (compare_int a c)
    go (below x e) (below y f) = rw (e, f) (is_below a c (omega arith))
    go (below x e) (equal y f) = rw (e, f) (is_below a c (omega arith))
    go (below x e) (above y f) = rw (e, f) tt
    go (equal x e) _ = rw e (ap (λ z. compare_int z c) x)
    go (above x e) (below y f) = rw (e, f) tt
    go (above x e) (equal y f) = rw (e, f) (is_above a c (omega arith))
    go (above x e) (above y f) = rw (e, f) (is_above a c (omega arith))

pub compare_int-IsOrder : IsOrder compare_int
compare_int-IsOrder = record {
  equal = is_same;
  flipped = λ a b. elim (cases a b) [
    | below x e ↦ is_above b a x ∙ sym (ap flip e)
    | equal x e ↦ (ap (λ z. compare_int b z) x ∙ is_same b) ∙ sym (ap flip e)
    | above x e ↦ is_below b a x ∙ sym (ap flip e)
  ];
  chained = compare_int-Chain;
}

compare_text-equal : (s : Text) → compare_text s s ≡ same
unfolding compare_text or_next
compare_text-equal [] = refl
compare_text-equal (x ∷ s) = rw (is_same x) (compare_text-equal s)

compare_text-flip : (s t : Text) → compare_text t s ≡ flip (compare_text s t)
unfolding compare_text
compare_text-flip [] [] = refl
compare_text-flip [] (y ∷ t) = refl
compare_text-flip (x ∷ s) [] = refl
compare_text-flip (x ∷ s) (y ∷ t) =
    rw (compare_int-IsOrder.flipped x y, compare_text-flip s t)
      (or_next-flip (compare_int x y) (compare_text s t))

compare_text-Chain : (s t u : Text) → Chain (compare_text s t) (compare_text t u) (compare_text s u)
unfolding compare_text
compare_text-Chain [] [] [] = refl
compare_text-Chain [] [] (z ∷ u) = refl
compare_text-Chain [] (y ∷ t) [] = tt
compare_text-Chain [] (y ∷ t) (z ∷ u) = Chain-less (compare_text (y ∷ t) (z ∷ u))
compare_text-Chain (x ∷ s) [] [] = refl
compare_text-Chain (x ∷ s) [] (z ∷ u) = tt
compare_text-Chain (x ∷ s) (y ∷ t) [] = Chain-same_more (compare_text (x ∷ s) (y ∷ t))
compare_text-Chain (x ∷ s) (y ∷ t) (z ∷ u) =
    or_next-Chain (compare_int x y) (compare_int y z) (compare_int x z) (compare_text s t)
      (compare_text t u) (compare_text s u) (compare_int-Chain x y z) (compare_text-Chain s t u)

pub compare_text-IsOrder : IsOrder compare_text
compare_text-IsOrder = record {
  equal = compare_text-equal;
  flipped = compare_text-flip;
  chained = compare_text-Chain;
}

pub compare_token-IsOrder : IsOrder compare_token
unfolding compare_token
compare_token-IsOrder = record { equal = equal_token; flipped = flip_token; chained = chain_token }
  where
    equal_token : (x : VersionToken) → compare_token x x ≡ same
    equal_token (num a) = is_same a
    equal_token (word s) = compare_text-equal s

    flip_token : (x y : VersionToken) → compare_token y x ≡ flip (compare_token x y)
    flip_token (num a) (num b) = compare_int-IsOrder.flipped a b
    flip_token (num a) (word t) = refl
    flip_token (word s) (num b) = refl
    flip_token (word s) (word t) = compare_text-flip s t

    chain_token :
        (x y z : VersionToken) → Chain (compare_token x y) (compare_token y z) (compare_token x z)
    chain_token (num a) (num b) (num c) = compare_int-Chain a b c
    chain_token (num a) (num b) (word u) = Chain-same_more (compare_int a b)
    chain_token (num a) (word t) (num c) = tt
    chain_token (num a) (word t) (word u) = Chain-more (compare_text t u)
    chain_token (word s) (num b) (num c) = Chain-less (compare_int b c)
    chain_token (word s) (num b) (word u) = tt
    chain_token (word s) (word t) (num c) = Chain-same_less (compare_text s t)
    chain_token (word s) (word t) (word u) = compare_text-Chain s t u
