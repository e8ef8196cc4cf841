-- ===== src/Retention/Plan.antt =====
-- Exactly which versions the loop of PlanRetention plans to delete.
use kutu.Prelude.{
  ℕ, ◌+◌, ◌*◌, ◌<◌, ◌≤◌, Text, [], ◌∷◌, Option, some, Bool, true, false, ◌&&◌, not, ltb, is_empty,
  any_iff, ◌≡◌, ◌≢◌, ◌↔◌, refl, sym, subst, arith, ◌⊎◌, inl, inr, In, Bool-cases, Option-cases,
}
use Prim.Native.Nat.{◌%◌}
use kutu.Retention.{
  RetentionPolicy, RetentionItem, Reason, beyond_newest, older_than, Package, sort_newest_first,
  keep_by_pattern, over_age, max_age, older, plan_package,
}
use kutu.Retention.Loop.{At, PassesTests, plan_package_tests}

-- The limit in nanoseconds, as the 64 bits of an int64.
abbrev pub limit : ℕ → ℕ
limit days = (days * 86400000000000) % 18446744073709551616

-- More time than the limit has passed since `t`, in int64 nanoseconds: a limit whose 64 bits are a
-- negative number is passed by a time after `now` too, and a difference beyond the int64 counts as the
-- largest or the least of them.
abbrev pub IsOlder : ℕ → ℕ → ℕ → Type 0
IsOlder days now t =
    ((limit days < 9223372036854775807) × (t + limit days < now))
    ⊎ ((9223372036854775808 ≤ limit days) × (t + limit days < now + 18446744073709551616))

older_at :
    (l now t : ℕ)
    → l < 18446744073709551616
    → (older l now t ≡ true) ↔ (
        ((l < 9223372036854775807) × (t + l < now))
        ⊎ ((9223372036854775808 ≤ l) × (t + l < now + 18446744073709551616)))
unfolding older
older_at l now t h = (
  λ e. elim (Bool-cases (ltb l 9223372036854775808)) [
    | inl s ↦ inl (ground (arith, e, s), ground (arith, e, s))
    | inr s ↦ inr (ground (arith, e, s), ground (arith, e, s))
  ],
  λ o. elim o [ inl (a, b) ↦ ground (arith, a, b) | inr (a, b) ↦ ground (arith, a, b) ],
)

limit-bound : (days : ℕ) → limit days < 18446744073709551616
limit-bound days = omega arith

older_iff : (days now t : ℕ) → (older (max_age days) now t ≡ true) ↔ IsOlder days now t
unfolding max_age
older_iff days now t = older_at (limit days) now t (limit-bound days)

module _ (path_match : Text → Text → Bool) (pol : RetentionPolicy) (times : Text → Option ℕ)
    (now : ℕ) where
  -- A keep pattern that is not empty matches the version.
  abbrev pub IsKept : Text → Type 0
  IsKept v = (p : Text) × In p pol.keep_patterns × (p ≢ []) × (path_match p v ≡ true)

  -- There is an age limit, the version has a publish time, and it is older than the limit.
  abbrev pub IsOverAge : Text → Type 0
  IsOverAge v =
      (0 < pol.max_version_age_days)
      × ((t : ℕ) × (times v ≡ some t) × IsOlder pol.max_version_age_days now t)

  -- The conditions under which index `i` of the sorted versions is planned for a reason.
  abbrev pub IsPlanned : ℕ → Text → Reason → Type 0
  IsPlanned i v beyond_newest =
      (0 < i) × (¬ IsKept v) × (0 < pol.keep_last_versions) × (pol.keep_last_versions ≤ i)
  IsPlanned i v older_than =
      (0 < i)
      × (¬ IsKept v)
      × (0 < pol.keep_last_versions → i < pol.keep_last_versions)
      × IsOverAge v

  matches :
      (p v : Text)
      → ((not (is_empty p) && path_match p v) ≡ true) ↔ ((p ≢ []) × (path_match p v ≡ true))
  matches [] v = (λ h. cc h, λ h. absurd (h.0 refl))
  matches (c ∷ p) v = (λ h. ((λ q. cc q), h), λ h. h.1)

  kept_iff : (v : Text) → (keep_by_pattern path_match pol.keep_patterns v ≡ true) ↔ IsKept v
  unfolding keep_by_pattern
  kept_iff v =
      let k = any_iff (λ p. not (is_empty p) && path_match p v) pol.keep_patterns in
      (
        λ h. let (p, i, e) = k.0 h in (p, i, ((matches p v).0 e).0, ((matches p v).0 e).1),
        λ (p, i, n, e). k.1 (p, i, (matches p v).1 (n, e)),
      )

  not_kept_iff :
      (v : Text) → (keep_by_pattern path_match pol.keep_patterns v ≡ false) ↔ (¬ IsKept v)
  not_kept_iff v = (
    λ h i. let yes_it = (kept_iff v).1 i in cc (yes_it, h),
    λ h. elim (Bool-cases (keep_by_pattern path_match pol.keep_patterns v)) [
      | inl e ↦ absurd (h ((kept_iff v).0 e))
      | inr e ↦ e
    ],
  )

  over_age_iff : (v : Text) → (over_age path_match pol times now v ≡ true) ↔ IsOverAge v
  over_age_iff v = elim (Bool-cases (ltb 0 pol.max_version_age_days)) [
    | inr e ↦ rw e (λ h. cc h, λ (a, b). absurd (ground (arith, a, e)))
    | inl e ↦ elim (Option-cases (times v)) [
      | inl n ↦ rw (e, n) (λ h. cc h, λ (a, (t, q, b)). cc q)
      | inr (t, n) ↦
          let k = older_iff pol.max_version_age_days now t in
          rw (e, n)
            (
              λ h. (ground (arith, e), (t, refl, k.0 h)),
              λ (a, (x, q, b)).
                  let same : t ≡ x = cc q in
                  k.1 (subst (IsOlder pol.max_version_age_days now) (sym same) b),
            )
    ]
  ]

  PassesTests-IsPlanned :
      (i : ℕ) (v : Text) (r : Reason) → PassesTests path_match pol times now i v r ↔ IsPlanned i v r
  PassesTests-IsPlanned i v beyond_newest = (
    λ (a, b, c, d). (a, (not_kept_iff v).0 b, c, d),
    λ (a, b, c, d). (a, (not_kept_iff v).1 b, c, d),
  )
  PassesTests-IsPlanned i v older_than = (
    λ (a, b, c, d). (a, (not_kept_iff v).0 b, c, (over_age_iff v).0 d),
    λ (a, b, c, d). (a, (not_kept_iff v).1 b, c, (over_age_iff v).1 d),
  )

  -- An item is in the plan of a package exactly when it has the package's name and its version is at
  -- a position after the first of the versions, sorted newest first, and no keep pattern that is not empty
  -- matches it; for the reason of the count if a number of versions to keep is set and the position is at
  -- or beyond it; for the reason of age if it is not, an age limit is set and the version's publish time
  -- is known and older than the limit, as int64 nanoseconds compare.
  pub plan_package_iff :
      (p : Package) (it : RetentionItem)
      → In it (plan_package path_match pol times now p) ↔ (
          (k : ℕ) × At k it.version (sort_newest_first p.versions)
          × (it.name ≡ p.name)
          × IsPlanned k it.version it.reason)
  plan_package_iff p it =
      let all = plan_package_tests path_match pol times now p it in
      (
        λ h.
            let (k, at, a, q) = all.0 h in
            (k, at, a, (PassesTests-IsPlanned k it.version it.reason).0 q),
        λ (k, at, a, q). all.1 (k, at, a, (PassesTests-IsPlanned k it.version it.reason).1 q),
      )
