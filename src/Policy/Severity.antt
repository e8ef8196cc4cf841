-- ===== src/Policy/Severity.antt =====
-- internal/registry/policy/cvss.go and osv.go: severity buckets and the advisories that block.
use kutu.Prelude.{
  ℕ, Text, codes, List, [], ◌∷◌, ◌++◌, Bool, true, false, ◌&&◌, ◌||◌, ◌==◌, ltb, if◌then◌else◌, not,
  eqb, to_lower, trim_space, has_prefix, has, has_iff, ◌≡◌, refl, ◌↔◌, ◌⊎◌, inl, inr, In, arith,
  Bool-cases, In-append, In-append_left, In-append_right, eq_iff, ◌≢◌, ◌∙◌, ◌≤◌, zero, suc, sym,
  subst,
}

unfoldable pub severity_rank : Text → ℕ
unfolding to_lower trim_space ◌==◌
severity_rank s =
    let t = to_lower (trim_space s) in
    if t == codes "low"
    then 1
    else if t == codes "moderate" || t == codes "medium"
    then 2
    else if t == codes "high"
    then 3
    else if t == codes "critical"
    then 4
    else 0

unfoldable pub severity_bucket : ℕ → Text
severity_bucket r =
    if eqb r 1
    then codes "low"
    else if eqb r 2
    then codes "moderate"
    else if eqb r 3
    then codes "high"
    else if eqb r 4
    then codes "critical"
    else codes "unknown"

unfoldable pub normalize_severity : Text → Text
unfolding severity_bucket severity_rank
normalize_severity s = severity_bucket (severity_rank s)

-- An advisory; the block decision reads its id, its severity and its aliases.
pub record Vuln : Type 0 where
  pub id : Text
  pub summary : Text
  pub severity : Text
  pub aliases : List Text
  pub fixed_in : List Text
  pub url : Text

-- The closure `add` of blocking: `ids` is both the list and the set of ids seen.
add_id : List Text → Text → List Text
add_id ids id = if not (id == []) && not (has ids id) then ids ++ id ∷ [] else ids

add_aliases : List Text → List Text → List Text
unfolding add_id has_prefix
add_aliases ids [] = ids
add_aliases ids (a ∷ as_) =
    add_aliases (if has_prefix a (codes "CVE-") then add_id ids a else ids) as_

blocking_from : ℕ → List Text → List Vuln → List Text
unfolding add_aliases
blocking_from floor ids [] = ids
blocking_from floor ids (v ∷ vulns) =
    blocking_from floor
      (if ltb 0 floor && ltb (severity_rank v.severity) floor
        then ids
        else add_aliases (add_id ids v.id) v.aliases)
      vulns

unfoldable pub blocking : List Vuln → Text → List Text
unfolding blocking_from
blocking vulns min_severity = blocking_from (severity_rank min_severity) [] vulns

-- An advisory that the floor does not exempt.
abbrev pub Reaches : ℕ → Vuln → Type 0
Reaches floor v = (ltb 0 floor && ltb (severity_rank v.severity) floor) ≡ false

-- The ids under which an advisory is reported.
abbrev pub Names : Text → Vuln → Type 0
Names id v = (id ≢ []) × ((v.id ≡ id) ⊎ (In id v.aliases × (has_prefix id (codes "CVE-") ≡ true)))

empty-ne : (a id : Text) → (a == []) ≡ false → a ≡ id → id ≢ []
empty-ne a id h e q = cc (h, (eq_iff a []).1 (e ∙ q))

In-add_id-from :
    (ids : List Text) (a id : Text) → In id ids ⊎ ((a ≡ id) × (id ≢ [])) → In id (add_id ids a)
unfolding add_id
In-add_id-from ids a id h = elim (Bool-cases (a == [])) [
  | inl e ↦ rw e (elim h [ inl m ↦ m | inr q ↦ absurd (q.1 (sym q.0 ∙ (eq_iff a []).0 e)) ])
  | inr e ↦ elim (Bool-cases (has ids a)) [
    | inl k ↦
        rw (e, k) (elim h [ inl m ↦ m | inr q ↦ subst (λ x. In x ids) q.0 ((has_iff ids a).0 k) ])
    | inr k ↦
        rw (e, k)
          (elim h [
            | inl m ↦ In-append_left id ids (a ∷ []) m
            | inr q ↦ In-append_right id ids (a ∷ []) (inl q.0)
          ])
  ]
]

In-add_id-to :
    (ids : List Text) (a id : Text) → In id (add_id ids a) → In id ids ⊎ ((a ≡ id) × (id ≢ []))
unfolding add_id
In-add_id-to ids a id h = elim (Bool-cases (a == [])) [
  | inl e ↦ inl (rw e at h)
  | inr e ↦ elim (Bool-cases (has ids a)) [
    | inl k ↦ inl (rw (e, k) at h)
    | inr k ↦ elim (In-append id ids (a ∷ []) (rw (e, k) at h)) [
      | inl m ↦ inl m
      | inr m ↦ elim m [ inl q ↦ inr (q, empty-ne a id e q) | inr z ↦ absurd z ]
    ]
  ]
]

abbrev CveIn : Text → List Text → Type 0
CveIn id as_ = In id as_ × (has_prefix id (codes "CVE-") ≡ true) × (id ≢ [])

In-add_aliases :
    (ids as_ : List Text) (id : Text) → In id (add_aliases ids as_) ↔ (In id ids ⊎ CveIn id as_)
unfolding add_aliases
In-add_aliases ids [] id = (λ h. inl h, λ h. elim h [ inl m ↦ m | inr q ↦ absurd q.0 ])
In-add_aliases ids (a ∷ as_) id = elim (Bool-cases (has_prefix a (codes "CVE-"))) [
  | inl e ↦
      let ih = In-add_aliases (add_id ids a) as_ id in
      rw e (
        λ h. elim (ih.0 h) [
          | inl m ↦ elim (In-add_id-to ids a id m) [
            | inl k ↦ inl k
            | inr q ↦ inr (inl q.0, subst (λ x. has_prefix x (codes "CVE-") ≡ true) q.0 e, q.1)
          ]
          | inr q ↦ inr (inr q.0, q.1, q.2)
        ],
        λ h. elim h [
          | inl m ↦ ih.1 (inl (In-add_id-from ids a id (inl m)))
          | inr q ↦ elim q.0 [
            | inl same ↦ ih.1 (inl (In-add_id-from ids a id (inr (same, q.2))))
            | inr m ↦ ih.1 (inr (m, q.1, q.2))
          ]
        ],
      )
  | inr e ↦
      let ih = In-add_aliases ids as_ id in
      rw e (
        λ h. elim (ih.0 h) [ inl m ↦ inl m | inr q ↦ inr (inr q.0, q.1, q.2) ],
        λ h. elim h [
          | inl m ↦ ih.1 (inl m)
          | inr q ↦ elim q.0 [
            | inl same ↦ cc (subst (λ x. has_prefix x (codes "CVE-") ≡ false) same e, q.1)
            | inr m ↦ ih.1 (inr (m, q.1, q.2))
          ]
        ],
      )
]

In-add_vuln :
    (ids : List Text) (v : Vuln) (id : Text)
    → In id (add_aliases (add_id ids v.id) v.aliases) ↔ (In id ids ⊎ Names id v)
In-add_vuln ids v id =
    let both = In-add_aliases (add_id ids v.id) v.aliases id in
    (
      λ h. elim (both.0 h) [
        | inl m ↦ elim (In-add_id-to ids v.id id m) [ inl k ↦ inl k | inr q ↦ inr (q.1, inl q.0) ]
        | inr q ↦ inr (q.2, inr (q.0, q.1))
      ],
      λ h. elim h [
        | inl m ↦ both.1 (inl (In-add_id-from ids v.id id (inl m)))
        | inr q ↦ elim q.1 [
          | inl same ↦ both.1 (inl (In-add_id-from ids v.id id (inr (same, q.0))))
          | inr k ↦ both.1 (inr (k.0, k.1, q.0))
        ]
      ],
    )

abbrev Reported : ℕ → List Vuln → Text → Type 0
Reported floor vulns id = (v : Vuln) × In v vulns × Reaches floor v × Names id v

In-blocking_from :
    (floor : ℕ) (ids : List Text) (vulns : List Vuln) (id : Text)
    → In id (blocking_from floor ids vulns) ↔ (In id ids ⊎ Reported floor vulns id)
unfolding blocking_from
In-blocking_from floor ids [] id = (λ h. inl h, λ h. elim h [ inl m ↦ m | inr q ↦ absurd q.1 ])
In-blocking_from floor ids (v ∷ vulns) id =
    elim (Bool-cases (ltb 0 floor && ltb (severity_rank v.severity) floor)) [
      | inl e ↦
          let ih = In-blocking_from floor ids vulns id in
          rw e (
            λ h. elim (ih.0 h) [ inl m ↦ inl m | inr q ↦ inr (q.0, inr q.1, q.2, q.3) ],
            λ h. elim h [
              | inl m ↦ ih.1 (inl m)
              | inr q ↦ elim q.1 [
                | inl same ↦ cc (subst (Reaches floor) (sym same) q.2, e)
                | inr m ↦ ih.1 (inr (q.0, m, q.2, q.3))
              ]
            ],
          )
      | inr e ↦
          let one = In-add_vuln ids v id in
          let ih = In-blocking_from floor (add_aliases (add_id ids v.id) v.aliases) vulns id in
          rw e (
            λ h. elim (ih.0 h) [
              | inl m ↦ elim (one.0 m) [ inl k ↦ inl k | inr q ↦ inr (v, inl refl, e, q) ]
              | inr q ↦ inr (q.0, inr q.1, q.2, q.3)
            ],
            λ h. elim h [
              | inl m ↦ ih.1 (inl (one.1 (inl m)))
              | inr q ↦ elim q.1 [
                | inl same ↦ ih.1 (inl (one.1 (inr (subst (Names id) (sym same) q.3))))
                | inr m ↦ ih.1 (inr (q.0, m, q.2, q.3))
              ]
            ],
          )
    ]

-- An id blocks a version exactly when it is not empty and some advisory of the version reaches the
-- floor of the policy and has it as its id or as an alias that begins with "CVE-". With no known
-- floor every advisory reaches it.
pub In-blocking :
    (vulns : List Vuln) (min_severity id : Text)
    → In id (blocking vulns min_severity)
      ↔ ((v : Vuln) × In v vulns × Reaches (severity_rank min_severity) v × Names id v)
unfolding blocking
In-blocking vulns min_severity id =
    let both = In-blocking_from (severity_rank min_severity) [] vulns id in
    (λ h. elim (both.0 h) [ inl m ↦ absurd m | inr q ↦ q ], λ q. both.1 (inr q))

ladder-le :
    (a b c d : Bool) → (if a then 1 else if b then 2 else if c then 3 else if d then 4 else 0) ≤ 4
ladder-le a b c d = ground arith

severity_rank-le : (s : Text) → severity_rank s ≤ 4
severity_rank-le s =
    let t = to_lower (trim_space s) in
    unfold severity_rank in
    ladder-le (t == codes "low") (t == codes "moderate" || t == codes "medium") (t == codes "high")
      (t == codes "critical")

severity_rank-bucket : (r : ℕ) → r ≤ 4 → severity_rank (severity_bucket r) ≡ r
unfolding severity_rank severity_bucket
severity_rank-bucket zero h = refl
severity_rank-bucket (suc zero) h = refl
severity_rank-bucket (suc (suc zero)) h = refl
severity_rank-bucket (suc (suc (suc zero))) h = refl
severity_rank-bucket (suc (suc (suc (suc zero)))) h = refl
severity_rank-bucket (suc (suc (suc (suc (suc r))))) h = absurd (omega arith)

-- Normalizing a severity label keeps its rank, so no label changes what a floor blocks.
pub severity_rank-normalize_severity :
    (s : Text) → severity_rank (normalize_severity s) ≡ severity_rank s
severity_rank-normalize_severity s =
    unfold normalize_severity in severity_rank-bucket (severity_rank s) (severity_rank-le s)
