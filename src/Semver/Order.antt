-- ===== src/Semver/Order.antt =====
-- The comparison of semver.go as an order.
use Prim.Native.Nat.{◌%◌}
use kutu.Prelude.{
  ℕ, ◌+◌, Text, List, [], ◌∷◌, Option, none, some, ◌==◌, eq_iff, ◌≡◌, refl, sym, ap, subst, ◌∙◌,
  inl, inr, Bool-cases,
}
use kutu.Versions.{Sign, less, same, more, or_next}
use kutu.Versions.Tokens.{
  flip, Chain, IsOrder, or_next-flip, or_next-Chain, compare_int-IsOrder, compare_text-IsOrder,
  Chain-same_less, Chain-more,
}
use kutu.Semver.{
  Mode, compare_signed, compare_numbers, compare_tags, compare_parsed, compare_or, compare_semver,
  split_version,
}

compare_signed-IsOrder : IsOrder compare_signed
unfolding compare_signed
compare_signed-IsOrder = record {
  equal = λ a. compare_int-IsOrder.equal ((a + 9223372036854775808) % 18446744073709551616);
  flipped = λ a b.
      compare_int-IsOrder.flipped ((a + 9223372036854775808) % 18446744073709551616)
        ((b + 9223372036854775808) % 18446744073709551616);
  chained = λ a b c.
      compare_int-IsOrder.chained ((a + 9223372036854775808) % 18446744073709551616)
        ((b + 9223372036854775808) % 18446744073709551616)
        ((c + 9223372036854775808) % 18446744073709551616);
}

-- The comparison of one component, and of the rest.
both-flip :
    (a b : ℕ) (s t : Sign)
    → t ≡ flip s
    → or_next (compare_signed b a) t ≡ flip (or_next (compare_signed a b) s)
both-flip a b s t e =
    rw (compare_signed-IsOrder.flipped a b, e) (or_next-flip (compare_signed a b) s)

compare_numbers-flip : (xs ys : List ℕ) → compare_numbers ys xs ≡ flip (compare_numbers xs ys)
unfolding compare_numbers
compare_numbers-flip [] [] = refl
compare_numbers-flip [] (b ∷ bs) =
    both-flip 0 b (compare_numbers [] bs) (compare_numbers bs []) (compare_numbers-flip [] bs)
compare_numbers-flip (a ∷ as_) [] =
    both-flip a 0 (compare_numbers as_ []) (compare_numbers [] as_) (compare_numbers-flip as_ [])
compare_numbers-flip (a ∷ as_) (b ∷ bs) =
    both-flip a b (compare_numbers as_ bs) (compare_numbers bs as_) (compare_numbers-flip as_ bs)

both-Chain :
    (a b c : ℕ) (s t r : Sign)
    → Chain s t r
    → Chain
        (or_next (compare_signed a b) s)
        (or_next (compare_signed b c) t)
        (or_next (compare_signed a c) r)
both-Chain a b c s t r k =
    or_next-Chain (compare_signed a b) (compare_signed b c) (compare_signed a c) s t r
      (compare_signed-IsOrder.chained a b c) k

-- A missing component is a zero: two empty lists stand for any number of zeros.
same_zero : (s : Sign) → or_next (compare_signed 0 0) s ≡ s
unfolding or_next
same_zero s = rw (compare_signed-IsOrder.equal 0) refl

compare_numbers-Chain :
    (xs ys zs : List ℕ)
    → Chain (compare_numbers xs ys) (compare_numbers ys zs) (compare_numbers xs zs)
unfolding compare_numbers
compare_numbers-Chain [] [] zs = refl
compare_numbers-Chain [] (b ∷ bs) [] =
    subst (Chain (compare_numbers [] (b ∷ bs)) (compare_numbers (b ∷ bs) [])) (same_zero same) (
      both-Chain 0 b 0 (compare_numbers [] bs) (compare_numbers bs []) same
        (compare_numbers-Chain [] bs []))
compare_numbers-Chain [] (b ∷ bs) (c ∷ cs) =
    both-Chain 0 b c (compare_numbers [] bs) (compare_numbers bs cs) (compare_numbers [] cs)
      (compare_numbers-Chain [] bs cs)
compare_numbers-Chain (a ∷ as_) [] [] =
    subst (λ s. Chain (compare_numbers (a ∷ as_) []) s (compare_numbers (a ∷ as_) []))
      (same_zero same)
      (both-Chain a 0 0 (compare_numbers as_ []) same (compare_numbers as_ [])
        (compare_numbers-Chain as_ [] []))
compare_numbers-Chain (a ∷ as_) [] (c ∷ cs) =
    both-Chain a 0 c (compare_numbers as_ []) (compare_numbers [] cs) (compare_numbers as_ cs)
      (compare_numbers-Chain as_ [] cs)
compare_numbers-Chain (a ∷ as_) (b ∷ bs) [] =
    both-Chain a b 0 (compare_numbers as_ bs) (compare_numbers bs []) (compare_numbers as_ [])
      (compare_numbers-Chain as_ bs [])
compare_numbers-Chain (a ∷ as_) (b ∷ bs) (c ∷ cs) =
    both-Chain a b c (compare_numbers as_ bs) (compare_numbers bs cs) (compare_numbers as_ cs)
      (compare_numbers-Chain as_ bs cs)

compare_tags-flip : (s t : Text) → compare_tags t s ≡ flip (compare_tags s t)
unfolding compare_tags
compare_tags-flip [] [] = refl
compare_tags-flip [] (y ∷ t) = refl
compare_tags-flip (x ∷ s) [] = refl
compare_tags-flip (x ∷ s) (y ∷ t) = compare_text-IsOrder.flipped (x ∷ s) (y ∷ t)

compare_tags-Chain : (s t u : Text) → Chain (compare_tags s t) (compare_tags t u) (compare_tags s u)
unfolding compare_tags
compare_tags-Chain [] [] u = refl
compare_tags-Chain [] (y ∷ t) [] = tt
compare_tags-Chain [] (y ∷ t) (z ∷ u) = Chain-more (compare_tags (y ∷ t) (z ∷ u))
compare_tags-Chain (x ∷ s) [] [] = refl
compare_tags-Chain (x ∷ s) [] (z ∷ u) = tt
compare_tags-Chain (x ∷ s) (y ∷ t) [] = Chain-same_less (compare_tags (x ∷ s) (y ∷ t))
compare_tags-Chain (x ∷ s) (y ∷ t) (z ∷ u) = compare_text-IsOrder.chained (x ∷ s) (y ∷ t) (z ∷ u)

compare_parsed-flip : (v w : List ℕ × Text) → compare_parsed w v ≡ flip (compare_parsed v w)
unfolding compare_parsed
compare_parsed-flip (an, apre) (bn, bpre) =
    rw (compare_numbers-flip an bn, compare_tags-flip apre bpre)
      (or_next-flip (compare_numbers an bn) (compare_tags apre bpre))

compare_parsed-Chain :
    (u v w : List ℕ × Text) → Chain (compare_parsed u v) (compare_parsed v w) (compare_parsed u w)
unfolding compare_parsed
compare_parsed-Chain (an, apre) (bn, bpre) (cn, cpre) =
    or_next-Chain (compare_numbers an bn) (compare_numbers bn cn) (compare_numbers an cn)
      (compare_tags apre bpre) (compare_tags bpre cpre) (compare_tags apre cpre)
      (compare_numbers-Chain an bn cn) (compare_tags-Chain apre bpre cpre)

compare_or-flip :
    (a b : Text) (p q : Option (List ℕ × Text)) → compare_or b a q p ≡ flip (compare_or a b p q)
unfolding compare_or
compare_or-flip a b none none = compare_text-IsOrder.flipped a b
compare_or-flip a b none (some w) = compare_text-IsOrder.flipped a b
compare_or-flip a b (some v) none = compare_text-IsOrder.flipped a b
compare_or-flip a b (some v) (some w) = compare_parsed-flip v w

compare_or-equal : (a : Text) (p : Option (List ℕ × Text)) → compare_or a a p p ≡ same
unfolding compare_or
compare_or-equal a none = compare_text-IsOrder.equal a
compare_or-equal a (some v) = self (compare_parsed v v) (compare_parsed-flip v v)
  where
    self : (s : Sign) → s ≡ flip s → s ≡ same
    self less e = cc
    self same e = refl
    self more e = cc

-- The shortcut for equal texts changes nothing.
compare_semver-or :
    (a b : Text) (m : Mode)
    → compare_semver a b m ≡ compare_or a b (split_version a m) (split_version b m)
unfolding compare_semver
compare_semver-or a b m = elim (Bool-cases (a == b)) [
  | inl e ↦
      let q : a ≡ b = (eq_iff a b).0 e in
      rw e (
        sym (
          ap (λ z. compare_or a z (split_version a m) (split_version z m)) (sym q)
          ∙ compare_or-equal a (split_version a m)))
  | inr e ↦ rw e refl
]

-- Seen from the other side a comparison flips, for all texts, parsed or not, in both modes.
pub compare_semver-flip :
    (a b : Text) (m : Mode) → compare_semver b a m ≡ flip (compare_semver a b m)
compare_semver-flip a b m =
    compare_semver-or b a m
    ∙ (compare_or-flip a b (split_version a m) (split_version b m)
        ∙ ap flip (sym (compare_semver-or a b m)))

-- Comparisons of three versions that parse chain: strictly newer is transitive, and versions that
-- compare equal compare alike with the third.
pub compare_semver-Chain :
    (a b c : Text) (m : Mode) (u v w : List ℕ × Text)
    → split_version a m ≡ some u
    → split_version b m ≡ some v
    → split_version c m ≡ some w
    → Chain (compare_semver a b m) (compare_semver b c m) (compare_semver a c m)
unfolding compare_or
compare_semver-Chain a b c m u v w p q r =
    rw (compare_semver-or a b m, compare_semver-or b c m, compare_semver-or a c m, p, q, r)
      (compare_parsed-Chain u v w)
