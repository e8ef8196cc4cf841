-- ===== src/Retention/Newest.antt =====
-- The plan of retention.go and the newest version of a package.
use mathlib.Core.List.{Perm}
use kutu.Prelude.{
  ℕ, zero, suc, ◌<◌, Text, List, [], ◌∷◌, Option, Bool, true, false, ◌≡◌, refl, sym, subst, arith,
  inl, inr, In, In-All,
}
use kutu.Prelude.Sort.{IsSorted, sort_stable-perm, sort_stable-IsSorted, In-sort_stable}
use kutu.Versions.{compare_versions, is_more}
use kutu.Versions.Order.{compare_versions-IsOrder}
use kutu.Versions.Latest.{more-flip, Chain-not_more}
use kutu.Retention.{
  Reason, beyond_newest, older_than, RetentionPolicy, RetentionItem, Package, newer,
  sort_newest_first, plan_package,
}
use kutu.Retention.Loop.{At, PassesTests, plan_package_tests}

newer_asym : (a b : Text) → newer a b ≡ true → newer b a ≡ false
unfolding newer
newer_asym a b h =
    subst (λ s. is_more s ≡ false) (sym (compare_versions-IsOrder.flipped a b))
      (more-flip (compare_versions a b) h)

newer_trans : (a b c : Text) → newer a b ≡ false → newer b c ≡ false → newer a c ≡ false
unfolding newer
newer_trans a b c =
    Chain-not_more (compare_versions a b) (compare_versions b c) (compare_versions a c)
      (compare_versions-IsOrder.chained a b c)

At-In : (k : ℕ) (v : Text) (vs : List Text) → At k v vs → In v vs
At-In k v [] h = absurd h
At-In zero v (w ∷ vs) h = inl h
At-In (suc k) v (w ∷ vs) h = inr (At-In k v vs h)

At-tail : (k : ℕ) (v w : Text) (vs : List Text) → 0 < k → At k v (w ∷ vs) → In v vs
At-tail zero v w vs p h = absurd (omega arith)
At-tail (suc k) v w vs p h = At-In k v vs h

newer_refl : (a : Text) → newer a a ≡ false
unfolding newer is_more
newer_refl a = rw (compare_versions-IsOrder.equal a) refl

module _ (path_match : Text → Text → Bool) (pol : RetentionPolicy) (times : Text → Option ℕ)
    (now : ℕ) where
  positive : (k : ℕ) (v : Text) (r : Reason) → PassesTests path_match pol times now k v r → 0 < k
  positive k v beyond_newest p = p.0
  positive k v older_than p = p.0

  -- Nothing is planned at the first position of the sorted versions.
  abbrev LeavesFirst : Package → List Text → Type 0
  LeavesFirst p vs =
      (best : Text) × (rest : List Text) × (vs ≡ best ∷ rest)
      × ((it : RetentionItem)
          → In it (plan_package path_match pol times now p)
          → In it.version rest)

  leaves_first :
      (p : Package) (x : Text) (vs : List Text)
      → sort_newest_first p.versions ≡ vs
      → In x vs
      → LeavesFirst p vs
  leaves_first p x [] e i = absurd i
  leaves_first p x (best ∷ rest) e i = (
    best,
    rest,
    refl,
    λ it m.
        let (k, at, a, q) = (plan_package_tests path_match pol times now p it).0 m in
        At-tail k it.version best rest (positive k it.version it.reason q)
          (subst (At k it.version) e at),
  )

  -- A package that has a version has a newest one: the versions are a permutation of `best ∷ rest`,
  -- no version is newer than `best`, and the plan takes its deletions from `rest` only, whatever the
  -- policy, the publish times and the clock.
  pub plan_package-newest :
      (p : Package) (x : Text)
      → In x p.versions
      → (best : Text) × (rest : List Text) × Perm (best ∷ rest) p.versions
        × ((v : Text) → In v p.versions → newer v best ≡ false)
        × ((it : RetentionItem)
            → In it (plan_package path_match pol times now p)
            → In it.version rest)
  unfolding sort_newest_first newer
  plan_package-newest p x i =
      let (best, rest, e, plan) =
        leaves_first p x (sort_newest_first p.versions) refl
          ((In-sort_stable newer x p.versions).1 i) in
      let sorted =
        subst (IsSorted newer) e (sort_stable-IsSorted newer newer_asym newer_trans p.versions) in
      (
        best,
        rest,
        subst (λ vs. Perm vs p.versions) e (sort_stable-perm newer p.versions),
        λ v m. elim (subst (In v) e ((In-sort_stable newer v p.versions).1 m)) [
          | inl q ↦ subst (λ z. newer z best ≡ false) q (newer_refl best)
          | inr k ↦ In-All (λ z. newer z best ≡ false) v rest sorted.0 k
        ],
        plan,
      )
