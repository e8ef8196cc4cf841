-- ===== src/Retention/Loop.antt =====
-- Which versions the loop of PlanRetention plans to delete, by the tests of the source.
use kutu.Prelude.{
  ℕ, zero, suc, ◌+◌, ◌<◌, ◌≤◌, Text, List, [], ◌∷◌, Option, Bool, true, false, ◌&&◌, ◌||◌, not, ltb,
  leb, ◌≡◌, ◌↔◌, refl, sym, subst, arith, ◌⊎◌, inl, inr, In, Bool-cases, In-append, In-append_left,
  In-append_right,
}
use kutu.Retention.{
  RetentionPolicy, RetentionItem, Reason, beyond_newest, older_than, Package, sort_newest_first,
  keep_by_pattern, over_age, plan_version, plan_from, plan_package,
}

-- The version at an index of the sorted list.
abbrev pub At : ℕ → Text → List Text → Type 0
At i v [] = ⊥
At zero v (w ∷ ws) = w ≡ v
At (suc i) v (w ∷ ws) = At i v ws

module _ (path_match : Text → Text → Bool) (pol : RetentionPolicy) (times : Text → Option ℕ)
    (now : ℕ) where
  -- The tests of the source at index `i` of the sorted versions, for a reason.
  abbrev pub PassesTests : ℕ → Text → Reason → Type 0
  PassesTests i v beyond_newest =
      (0 < i)
      × (keep_by_pattern path_match pol.keep_patterns v ≡ false)
      × (0 < pol.keep_last_versions)
      × (pol.keep_last_versions ≤ i)
  PassesTests i v older_than =
      (0 < i)
      × (keep_by_pattern path_match pol.keep_patterns v ≡ false)
      × (0 < pol.keep_last_versions → i < pol.keep_last_versions)
      × (over_age path_match pol times now v ≡ true)

  abbrev spared : ℕ → Text → Bool
  spared i v = not (ltb 0 i) || keep_by_pattern path_match pol.keep_patterns v

  abbrev beyond : ℕ → Bool
  beyond i = ltb 0 pol.keep_last_versions && leb pol.keep_last_versions i

  item : Text → Text → Reason → RetentionItem
  item name v r = record { name = name; version = v; reason = r }

  planned_not_spared : (i : ℕ) (v : Text) (r : Reason) → PassesTests i v r → spared i v ≡ false
  planned_not_spared i v beyond_newest (a, b, c, d) = ground arith
  planned_not_spared i v older_than (a, b, c, d) = ground arith

  planned_beyond :
      (i : ℕ) (v : Text) (r : Reason) → beyond i ≡ true → PassesTests i v r → r ≡ beyond_newest
  planned_beyond i v beyond_newest e p = refl
  planned_beyond i v older_than e (a, b, c, d) =
      let low : 0 < pol.keep_last_versions = ground arith in
      let high : pol.keep_last_versions ≤ i = ground arith in
      let less = c low in absurd (omega arith)

  planned_older :
      (i : ℕ) (v : Text) (r : Reason)
      → beyond i ≡ false
      → PassesTests i v r
      → (r ≡ older_than) × (over_age path_match pol times now v ≡ true)
  planned_older i v older_than e (a, b, c, d) = (refl, d)
  planned_older i v beyond_newest e (a, b, c, d) = absurd (ground arith)

  abbrev Fits : Text → ℕ → Text → RetentionItem → Type 0
  Fits name i v it = (it.name ≡ name) × (it.version ≡ v) × PassesTests i v it.reason

  plan_version_iff :
      (name : Text) (i : ℕ) (v : Text) (it : RetentionItem)
      → In it (plan_version path_match pol times now name i v) ↔ Fits name i v it
  unfolding plan_version
  plan_version_iff name i v it = elim (Bool-cases (spared i v)) [
    | inl s ↦
        rw s (λ h. absurd h, λ (a, b, p). let q = planned_not_spared i v it.reason p in cc (s, q))
    | inr s ↦ elim (Bool-cases (beyond i)) [
      | inl b ↦
          rw (s, b)
            (
              λ h. elim h [
                | inl e ↦
                    subst (Fits name i v) e
                      (refl, refl, (ground arith, ground arith, ground arith, ground arith))
                | inr m ↦ absurd m
              ],
              λ (x, y, p). inl (let q = planned_beyond i v it.reason b p in cc (x, y, q)),
            )
      | inr b ↦ elim (Bool-cases (over_age path_match pol times now v)) [
        | inl o ↦
            rw (s, b, o)
              (
                λ h. elim h [
                  | inl e ↦
                      subst (Fits name i v) e
                        (refl, refl, (ground arith, ground arith, (λ k. ground arith), o))
                  | inr m ↦ absurd m
                ],
                λ (x, y, p). inl (let q = (planned_older i v it.reason b p).0 in cc (x, y, q)),
              )
        | inr o ↦
            rw (s, b, o)
              (λ h. absurd h, λ (x, y, p). let q = (planned_older i v it.reason b p).1 in cc (o, q))
      ]
    ]
  ]

  shift :
      (i j : ℕ) (v : Text) {w : Text} (r : Reason)
      → w ≡ v
      → i ≡ j
      → PassesTests i w r
      → PassesTests j v r
  shift i j v r e q p = subst (λ n. PassesTests n v r) q (subst (λ z. PassesTests i z r) e p)

  plan_from_iff :
      (name : Text) (start : ℕ) (vs : List Text) (it : RetentionItem)
      → In it (plan_from path_match pol times now name start vs) ↔ (
          (k : ℕ) × At k it.version vs
          × (it.name ≡ name)
          × PassesTests (start + k) it.version it.reason)
  unfolding plan_from
  plan_from_iff name start [] it = (λ h. absurd h, λ h. absurd h.1)
  plan_from_iff name start (v ∷ vs) it =
      let one = plan_version_iff name start v it in
      let ih = plan_from_iff name (suc start) vs it in
      let here = plan_version path_match pol times now name start v in
      let rest = plan_from path_match pol times now name (suc start) vs in
      (
        λ h. elim (In-append it here rest h) [
          | inl m ↦
              let (a, b, p) = one.0 m in
              (0, sym b, a, shift start (start + 0) it.version it.reason (sym b) (omega arith) p)
          | inr m ↦
              let (k, at, a, p) = ih.0 m in
              (
                suc k,
                at,
                a,
                shift (suc start + k) (start + suc k) it.version it.reason refl (omega arith) p,
              )
        ],
        λ h. elim (found h.0 h.1 h.2 h.3) [
          | inl p ↦ In-append_left it here rest (one.1 p)
          | inr p ↦ In-append_right it here rest (ih.1 p)
        ],
      )
    where
      found :
          (k : ℕ)
          → At k it.version (v ∷ vs)
          → it.name ≡ name
          → PassesTests (start + k) it.version it.reason
          → Fits name start v it
            ⊎ ((j : ℕ) × At j it.version vs
                × (it.name ≡ name)
                × PassesTests (suc start + j) it.version it.reason)
      found zero at a p =
          inl (a, sym at, shift (start + 0) start v it.reason (sym at) (omega arith) p)
      found (suc k) at a p = inr (
        k,
        at,
        a,
        shift (start + suc k) (suc start + k) it.version it.reason refl (omega arith) p,
      )

  pub plan_package_tests :
      (p : Package) (it : RetentionItem)
      → In it (plan_package path_match pol times now p) ↔ (
          (k : ℕ) × At k it.version (sort_newest_first p.versions)
          × (it.name ≡ p.name)
          × PassesTests k it.version it.reason)
  unfolding plan_package
  plan_package_tests p it =
      let all = plan_from_iff p.name 0 (sort_newest_first p.versions) it in
      (
        λ h.
            let (k, at, a, q) = all.0 h in
            (k, at, a, shift (0 + k) k it.version it.reason refl (omega arith) q),
        λ (k, at, a, q).
            all.1 (k, at, a, shift k (0 + k) it.version it.reason refl (omega arith) q),
      )
