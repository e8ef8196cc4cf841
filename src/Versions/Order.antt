-- ===== src/Versions/Order.antt =====
-- The comparators of pkgbase/version.go as orders.
use kutu.Prelude.{Text, List, [], ◌∷◌, ◌==◌, eq_iff, ◌≡◌, refl, sym, ◌∙◌, ap, inl, inr, Bool-cases}
use kutu.Versions.{
  same, or_next, VersionToken, num, word, compare_token, compare_tokens, compare_pre, compare_split,
  tokenize, compare_versions, split_pre, strip,
}
use kutu.Versions.Tokens.{
  Chain, Chain-less, Chain-more, Chain-same_less, Chain-same_more, IsOrder, compare_token-IsOrder,
  flip, or_next-Chain, or_next-flip,
}

compare_tokens-equal : (xs : List VersionToken) → compare_tokens xs xs ≡ same
unfolding compare_tokens or_next
compare_tokens-equal [] = refl
compare_tokens-equal (num a ∷ xs) =
    rw (compare_token-IsOrder.equal (num a)) (compare_tokens-equal xs)
compare_tokens-equal (word s ∷ xs) =
    rw (compare_token-IsOrder.equal (word s)) (compare_tokens-equal xs)

compare_tokens-cons :
    (x y : VersionToken) (xs ys : List VersionToken)
    → compare_tokens (x ∷ xs) (y ∷ ys) ≡ or_next (compare_token x y) (compare_tokens xs ys)
unfolding compare_tokens
compare_tokens-cons (num a) y xs ys = refl
compare_tokens-cons (word s) y xs ys = refl

compare_tokens-flip :
    (xs ys : List VersionToken) → compare_tokens ys xs ≡ flip (compare_tokens xs ys)
unfolding compare_tokens
compare_tokens-flip [] [] = refl
compare_tokens-flip [] (num b ∷ ys) = refl
compare_tokens-flip [] (word t ∷ ys) = refl
compare_tokens-flip (num a ∷ xs) [] = refl
compare_tokens-flip (word s ∷ xs) [] = refl
compare_tokens-flip (x ∷ xs) (y ∷ ys) =
    compare_tokens-cons y x ys xs
    ∙ (ap (λ z. or_next z (compare_tokens ys xs)) (compare_token-IsOrder.flipped x y)
        ∙ (ap (or_next (flip (compare_token x y))) (compare_tokens-flip xs ys)
            ∙ (or_next-flip (compare_token x y) (compare_tokens xs ys)
                ∙ ap flip (sym (compare_tokens-cons x y xs ys)))))

compare_tokens-Chain :
    (xs ys zs : List VersionToken)
    → Chain (compare_tokens xs ys) (compare_tokens ys zs) (compare_tokens xs zs)
unfolding compare_tokens
compare_tokens-Chain (x ∷ xs) (y ∷ ys) (z ∷ zs) =
    rw (compare_tokens-cons x y xs ys, compare_tokens-cons y z ys zs, compare_tokens-cons x z xs zs)
      (or_next-Chain (compare_token x y) (compare_token y z) (compare_token x z)
        (compare_tokens xs ys) (compare_tokens ys zs) (compare_tokens xs zs)
        (compare_token-IsOrder.chained x y z) (compare_tokens-Chain xs ys zs))
compare_tokens-Chain [] [] zs = refl
compare_tokens-Chain [] (num b ∷ ys) [] = tt
compare_tokens-Chain [] (word t ∷ ys) [] = tt
compare_tokens-Chain [] (num b ∷ ys) (num c ∷ zs) =
    Chain-less (compare_tokens (num b ∷ ys) (num c ∷ zs))
compare_tokens-Chain [] (num b ∷ ys) (word u ∷ zs) = tt
compare_tokens-Chain [] (word t ∷ ys) (num c ∷ zs) = tt
compare_tokens-Chain [] (word t ∷ ys) (word u ∷ zs) =
    Chain-more (compare_tokens (word t ∷ ys) (word u ∷ zs))
compare_tokens-Chain (num a ∷ xs) [] [] = refl
compare_tokens-Chain (word s ∷ xs) [] [] = refl
compare_tokens-Chain (num a ∷ xs) [] (num c ∷ zs) = tt
compare_tokens-Chain (num a ∷ xs) [] (word u ∷ zs) = refl
compare_tokens-Chain (word s ∷ xs) [] (num c ∷ zs) = refl
compare_tokens-Chain (word s ∷ xs) [] (word u ∷ zs) = tt
compare_tokens-Chain (num a ∷ xs) (num b ∷ ys) [] =
    Chain-same_more (compare_tokens (num a ∷ xs) (num b ∷ ys))
compare_tokens-Chain (num a ∷ xs) (word t ∷ ys) [] = tt
compare_tokens-Chain (word s ∷ xs) (num b ∷ ys) [] = tt
compare_tokens-Chain (word s ∷ xs) (word t ∷ ys) [] =
    Chain-same_less (compare_tokens (word s ∷ xs) (word t ∷ ys))

compare_pre-IsOrder : IsOrder compare_pre
unfolding compare_pre
compare_pre-IsOrder = record { equal = equal_pre; flipped = flip_pre; chained = chain_pre }
  where
    equal_pre : (s : Text) → compare_pre s s ≡ same
    equal_pre [] = refl
    equal_pre (x ∷ s) = compare_tokens-equal (tokenize (x ∷ s))

    flip_pre : (s t : Text) → compare_pre t s ≡ flip (compare_pre s t)
    flip_pre [] [] = refl
    flip_pre [] (y ∷ t) = refl
    flip_pre (x ∷ s) [] = refl
    flip_pre (x ∷ s) (y ∷ t) = compare_tokens-flip (tokenize (x ∷ s)) (tokenize (y ∷ t))

    chain_pre : (s t u : Text) → Chain (compare_pre s t) (compare_pre t u) (compare_pre s u)
    chain_pre [] [] u = refl
    chain_pre [] (y ∷ t) [] = tt
    chain_pre [] (y ∷ t) (z ∷ u) = Chain-more (compare_pre (y ∷ t) (z ∷ u))
    chain_pre (x ∷ s) [] [] = refl
    chain_pre (x ∷ s) [] (z ∷ u) = tt
    chain_pre (x ∷ s) (y ∷ t) [] = Chain-same_less (compare_pre (x ∷ s) (y ∷ t))
    chain_pre (x ∷ s) (y ∷ t) (z ∷ u) =
        compare_tokens-Chain (tokenize (x ∷ s)) (tokenize (y ∷ t)) (tokenize (z ∷ u))

compare_split-IsOrder : IsOrder compare_split
unfolding compare_split or_next
compare_split-IsOrder = record {
  equal = λ v. rw (compare_tokens-equal (tokenize v.0)) (compare_pre-IsOrder.equal v.1);
  flipped = λ v w.
      rw (compare_tokens-flip (tokenize v.0) (tokenize w.0), compare_pre-IsOrder.flipped v.1 w.1)
        (or_next-flip (compare_tokens (tokenize v.0) (tokenize w.0)) (compare_pre v.1 w.1));
  chained = λ u v w.
      or_next-Chain (compare_tokens (tokenize u.0) (tokenize v.0))
        (compare_tokens (tokenize v.0) (tokenize w.0))
        (compare_tokens (tokenize u.0) (tokenize w.0)) (compare_pre u.1 v.1) (compare_pre v.1 w.1)
        (compare_pre u.1 w.1) (compare_tokens-Chain (tokenize u.0) (tokenize v.0) (tokenize w.0))
        (compare_pre-IsOrder.chained u.1 v.1 w.1);
}

key : Text → Text × Text
key a = split_pre (strip a)

-- The shortcut for equal texts changes nothing.
compare_versions-key : (a b : Text) → compare_versions a b ≡ compare_split (key a) (key b)
unfolding compare_versions key
compare_versions-key a b = elim (Bool-cases (a == b)) [
  | inl e ↦
      let q : a ≡ b = (eq_iff a b).0 e in
      rw e (
        sym (ap (λ z. compare_split (key a) (key z)) (sym q) ∙ compare_split-IsOrder.equal (key a)))
  | inr e ↦ rw e refl
]

-- Two versions compare in one way, seen from either side, and comparisons chain: versions that
-- compare equal compare alike with every third one, and strictly smaller is transitive.
pub compare_versions-IsOrder : IsOrder compare_versions
compare_versions-IsOrder = record {
  equal = λ a. compare_versions-key a a ∙ compare_split-IsOrder.equal (key a);
  flipped = λ a b.
      compare_versions-key b a
      ∙ (compare_split-IsOrder.flipped (key a) (key b) ∙ ap flip (sym (compare_versions-key a b)));
  chained = λ a b c.
      rw (compare_versions-key a b, compare_versions-key b c, compare_versions-key a c)
        (compare_split-IsOrder.chained (key a) (key b) (key c));
}
