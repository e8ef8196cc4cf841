-- ===== src/Policy/License/Choices.antt =====
-- The ways to satisfy a license expression, and LicensePermitted as a choice among them.
use kutu.Prelude.{
  true, ◌↔◌, ◌⊎◌, inl, inr, sym, ◌∙◌, In, All, All-intro, In-All, any_iff, all_iff, is_empty,
  is_empty_iff, ◌==◌, eq_iff, Bool-cases, trim_suffix, Text, List, [], ◌∷◌, ◌++◌, Bool, ◌&&◌, ◌||◌,
  ◌≡◌, refl, any, all, arith,
}
use kutu.Policy.License.{
  LicenseExpr, leaf, any_of, all_of, Exprs, nil, cons, leaf_permitted, license_permitted,
  some_permitted, every_permitted, normalize_id, license_in,
}

with_each : List Text → List (List Text) → List (List Text)
with_each x [] = []
with_each x (y ∷ ys) = (x ++ y) ∷ with_each x ys

-- Each way of the first list together with each way of the second.
pub pair_up : List (List Text) → List (List Text) → List (List Text)
unfolding with_each
pair_up [] ys = []
pair_up (x ∷ xs) ys = with_each x ys ++ pair_up xs ys

-- The sets of licenses that satisfy an expression: any one member of a disjunction, all of a
-- conjunction.
unfoldable mutual
  pub choices : LicenseExpr → List (List Text)
  choices (leaf id) = (id ∷ []) ∷ []
  choices (any_of es) = choices_any es
  choices (all_of es) = choices_all es

  pub choices_any : Exprs → List (List Text)
  choices_any nil = []
  choices_any (cons e es) = choices e ++ choices_any es

  pub choices_all : Exprs → List (List Text)
  choices_all nil = [] ∷ []
  choices_all (cons e es) = pair_up (choices e) (choices_all es)

module _ (ok : Text → Bool) where
  -- Some way uses only licenses that pass.
  abbrev feasible : List (List Text) → Bool
  feasible cs = any (λ c. all ok c) cs

  all-append : (xs ys : List Text) → all ok (xs ++ ys) ≡ (all ok xs && all ok ys)
  all-append [] ys = refl
  all-append (x ∷ xs) ys = ground (arith, all-append xs ys)

  feasible-append : (xs ys : List (List Text)) → feasible (xs ++ ys) ≡ (feasible xs || feasible ys)
  feasible-append [] ys = refl
  feasible-append (x ∷ xs) ys = ground (arith, feasible-append xs ys)

  feasible-with_each :
      (x : List Text) (ys : List (List Text))
      → feasible (with_each x ys) ≡ (all ok x && feasible ys)
  unfolding with_each
  feasible-with_each x [] = ground arith
  feasible-with_each x (y ∷ ys) = ground (arith, all-append x y, feasible-with_each x ys)

  feasible-pair_up :
      (xs ys : List (List Text)) → feasible (pair_up xs ys) ≡ (feasible xs && feasible ys)
  unfolding pair_up
  feasible-pair_up [] ys = refl
  feasible-pair_up (x ∷ xs) ys = ground (
    arith,
    feasible-append (with_each x ys) (pair_up xs ys),
    feasible-with_each x ys,
    feasible-pair_up xs ys,
  )

module _ (allowed denied : List Text) where
  mutual
    unfolding license_permitted choices

    permitted-feasible :
        (e : LicenseExpr)
        → license_permitted allowed denied e ≡ feasible (leaf_permitted allowed denied) (choices e)
    permitted-feasible (leaf id) = ground arith
    permitted-feasible (any_of es) = some-feasible es
    permitted-feasible (all_of es) = every-feasible es

    some-feasible :
        (es : Exprs)
        → some_permitted allowed denied es
          ≡ feasible (leaf_permitted allowed denied) (choices_any es)
    some-feasible nil = refl
    some-feasible (cons e es) =
        rw
          (
            permitted-feasible e,
            some-feasible es,
            feasible-append (leaf_permitted allowed denied) (choices e) (choices_any es),
          )
          refl

    every-feasible :
        (es : Exprs)
        → every_permitted allowed denied es
          ≡ feasible (leaf_permitted allowed denied) (choices_all es)
    every-feasible nil = refl
    every-feasible (cons e es) =
        rw
          (
            permitted-feasible e,
            every-feasible es,
            feasible-pair_up (leaf_permitted allowed denied) (choices e) (choices_all es),
          )
          refl

-- The list has the license, or the license without its "+".
abbrev pub IsOn : Text → List Text → Type 0
IsOn id list =
    (l : Text) × In l list × ((normalize_id l ≡ id) ⊎ (normalize_id l ≡ trim_suffix id b'+'))

-- The license is not denied and, if there is an allowlist, is on it.
abbrev pub IsPermitted : List Text → List Text → Text → Type 0
IsPermitted allowed denied id = (¬ IsOn id denied) × ((allowed ≡ []) ⊎ IsOn id allowed)

license_in_iff : (id : Text) (list : List Text) → (license_in id list ≡ true) ↔ IsOn id list
unfolding license_in
license_in_iff id list =
    let k = any_iff (λ l. normalize_id l == id || normalize_id l == trim_suffix id b'+') list in
    (
      λ h. let (l, i, e) = k.0 h in (l, i, either (normalize_id l) (trim_suffix id b'+') e),
      λ (l, i, o). k.1 (l, i, from (normalize_id l) (trim_suffix id b'+') o),
    )
  where
    either : (n base : Text) → (n == id || n == base) ≡ true → (n ≡ id) ⊎ (n ≡ base)
    either n base e = elim (Bool-cases (n == id)) [
      | inl q ↦ inl ((eq_iff n id).0 q)
      | inr q ↦ inr ((eq_iff n base).0 (rw q at e))
    ]

    from : (n base : Text) → (n ≡ id) ⊎ (n ≡ base) → (n == id || n == base) ≡ true
    from n base (inl q) = rw ((eq_iff n id).1 q) refl
    from n base (inr q) = rw ((eq_iff n base).1 q) (ground arith)

leaf_permitted_iff :
    (allowed denied : List Text) (id : Text)
    → (leaf_permitted allowed denied id ≡ true) ↔ IsPermitted allowed denied id
unfolding leaf_permitted
leaf_permitted_iff allowed denied id =
    let d = license_in_iff id denied in
    let a = license_in_iff id allowed in
    let e = is_empty_iff allowed in
    elim (Bool-cases (license_in id denied)) [
      | inl on ↦ rw on (λ h. cc h, λ h. absurd (h.0 (d.0 on)))
      | inr off ↦
          let not_on : ¬ IsOn id denied = λ i. let yes_it = d.1 i in cc (yes_it, off) in
          rw off (
            λ h. elim (Bool-cases (is_empty allowed)) [
              | inl q ↦ (not_on, inl (e.0 q))
              | inr q ↦ (not_on, inr (a.0 (rw q at h)))
            ],
            λ h. elim h.1 [ inl q ↦ rw (e.1 q) refl | inr q ↦ rw (a.1 q) (ground arith) ],
          )
    ]

-- LicensePermitted holds exactly when one of the sets of licenses that satisfy the expression has
-- only members that are not denied and, if there is an allowlist, are on it. A license is on a list if
-- an entry of the list normalizes to it, or to it without its last "+".
pub license_permitted-choices :
    (allowed denied : List Text) (e : LicenseExpr)
    → (license_permitted allowed denied e ≡ true)
      ↔ ((c : List Text) × In c (choices e) × All (IsPermitted allowed denied) c)
license_permitted-choices allowed denied e =
    let ok = leaf_permitted allowed denied in
    let some_way = any_iff (λ c. all ok c) (choices e) in
    let same = permitted-feasible allowed denied e in
    (
      λ h.
          let (c, i, y) = some_way.0 (sym same ∙ h) in
          (
            c,
            i,
            All-intro (IsPermitted allowed denied) c
                (λ x m. (leaf_permitted_iff allowed denied x).0 ((all_iff ok c).0 y x m)),
          ),
      λ (c, i, y).
          same
          ∙ some_way.1 (
            c,
            i,
            (all_iff ok c).1 (λ x m.
                (leaf_permitted_iff allowed denied x).1
                  (In-All (IsPermitted allowed denied) x c y m)),
          ),
    )
