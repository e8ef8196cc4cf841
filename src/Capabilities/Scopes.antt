-- ===== src/Capabilities/Scopes.antt =====
-- Which areas the path of a scope reaches, and which operations a scope lists.
use kutu.Prelude.{
  Text, codes, [], ◌∷◌, ◌++◌, Option, none, some, true, ◌||◌, eqb, eqb_iff, has, any_iff, ◌==◌,
  eq_iff, eq_refl, In-append_right, cut, ◌≡◌, ◌≢◌, ◌↔◌, refl, sym, ap, subst, ◌∙◌, ◌⊎◌, inl, inr,
  In, Bool-cases, arith,
}
use kutu.Token.{TokenScope}
use kutu.Capabilities.{scope_has_any_op, pattern_after, scope_pattern_for}

-- The text is the first segment, a slash and the rest.
abbrev pub IsSplit : Text → Text → Text → Type 0
IsSplit path head rest = (path ≡ head ++ b'/' ∷ rest) × (¬ In b'/' head)

-- The path is "*" or "**", or its first segment is "**", or its first segment is "*" or the area's
-- prefix and there is more after it.
abbrev pub ReachesArea : Text → Text → Type 0
ReachesArea path prefix =
    (path ≡ codes "**")
    ⊎ (path ≡ codes "*")
    ⊎ ((head : Text) × (rest : Text) × IsSplit path head rest
        × ((head ≡ codes "**") ⊎ (((head ≡ codes "*") ⊎ (head ≡ prefix)) × (rest ≢ []))))

abbrev CutLaw : Text → Option (Text × Text) → Type 0
CutLaw s none = ¬ In b'/' s
CutLaw s (some (a, b)) = IsSplit s a b

cut-CutLaw : (s : Text) → CutLaw s (cut s b'/')
unfolding cut
cut-CutLaw [] = λ h. absurd h
cut-CutLaw (x ∷ s) = elim (Bool-cases (eqb x b'/')) [
  | inl e ↦ rw e ((λ i. (eqb_iff x b'/').0 e i ∷ s), λ h. absurd h)
  | inr e ↦
      rw e (
        next (cut s b'/') (cut-CutLaw s) (λ q. let yes_it = (eqb_iff x b'/').1 q in cc (yes_it, e)))
]
  where
    next :
        (o : Option (Text × Text))
        → CutLaw s o
        → x ≢ b'/'
        → CutLaw (x ∷ s) (elim o [ none ↦ none | some (a, b) ↦ some (x ∷ a, b) ])
    next none h d = λ m. elim m [ inl q ↦ d q | inr i ↦ h i ]
    next (some (a, b)) h d = (ap (λ z. x ∷ z) h.0, λ m. elim m [ inl q ↦ d q | inr i ↦ h.1 i ])

-- A text has one first segment.
split_unique :
    (a b c d : Text) → a ++ b'/' ∷ b ≡ c ++ b'/' ∷ d → ¬ In b'/' a → ¬ In b'/' c → (a ≡ c) × (b ≡ d)
split_unique [] b [] d e p q = (refl, cc e)
split_unique [] b (z ∷ c) d e p q = absurd (q (inl (cc e)))
split_unique (x ∷ a) b [] d e p q = absurd (p (inl (cc e)))
split_unique (x ∷ a) b (z ∷ c) d e p q =
    let same : x ≡ z = cc e in
    let tails : a ++ b'/' ∷ b ≡ c ++ b'/' ∷ d = cc e in
    let (r, t) = split_unique a b c d tails (λ m. p (inr m)) (λ m. q (inr m)) in
    ((λ i. same i ∷ r i), t)

abbrev IsGiven : Option Text → Type 0
IsGiven o = (p : Text) × (o ≡ some p)

abbrev Enters : Text → Text → Text → Type 0
Enters prefix head rest =
    (head ≡ codes "**") ⊎ (((head ≡ codes "*") ⊎ (head ≡ prefix)) × (rest ≢ []))

pattern_after_iff :
    (prefix head rest : Text) → IsGiven (pattern_after prefix head rest) ↔ Enters prefix head rest
unfolding pattern_after
pattern_after_iff prefix head rest =
    let star = eq_iff head (codes "*") in
    let own = eq_iff head prefix in
    let nothing = eq_iff rest [] in
    elim (Bool-cases (head == codes "**")) [
      | inl e ↦ rw e (λ h. inl ((eq_iff head (codes "**")).0 e), λ h. ([], refl))
      | inr e ↦
          let not_all : head ≢ codes "**" =
            λ q. let yes_it = (eq_iff head (codes "**")).1 q in cc (yes_it, e) in
          elim (Bool-cases (head == codes "*" || head == prefix)) [
            | inr f ↦
                rw (e, f)
                  (
                    λ (p, q). cc q,
                    λ h. elim h [
                      | inl q ↦ absurd (not_all q)
                      | inr (o, r) ↦ elim o [
                        | inl q ↦ let yes_it = star.1 q in absurd (ground (arith, yes_it, f))
                        | inr q ↦ let yes_it = own.1 q in absurd (ground (arith, yes_it, f))
                      ]
                    ],
                  )
            | inl f ↦
                let enters : (head ≡ codes "*") ⊎ (head ≡ prefix) =
                  elim (Bool-cases (head == codes "*")) [
                    | inl q ↦ inl (star.0 q)
                    | inr q ↦ inr (own.0 (rw q at f))
                  ] in
                elim (Bool-cases (rest == [])) [
                  | inl r ↦
                      rw (e, f, r)
                        (
                          λ (p, q). cc q,
                          λ h. elim h [
                            | inl q ↦ absurd (not_all q)
                            | inr (o, n) ↦ absurd (n (nothing.0 r))
                          ],
                        )
                  | inr r ↦
                      let more : rest ≢ [] = λ q. let yes_it = nothing.1 q in cc (yes_it, r) in
                      elim (Bool-cases (rest == codes "**")) [
                        | inl w ↦ rw (e, f, r, w) (λ h. inr (enters, more), λ h. ([], refl))
                        | inr w ↦ rw (e, f, r, w) (λ h. inr (enters, more), λ h. (_, refl))
                      ]
                ]
          ]
    ]

-- scopePatternFor gives a pattern exactly when the path reaches the area.
pub scope_pattern_for_iff :
    (path prefix : Text)
    → ((p : Text) × (scope_pattern_for path prefix ≡ some p)) ↔ ReachesArea path prefix
unfolding scope_pattern_for
scope_pattern_for_iff path prefix = elim (Bool-cases (path == codes "**" || path == codes "*")) [
  | inl e ↦ rw e (
    λ h. elim (Bool-cases (path == codes "**")) [
      | inl q ↦ inl ((eq_iff path (codes "**")).0 q)
      | inr q ↦ inr (inl ((eq_iff path (codes "*")).0 (rw q at e)))
    ],
    λ h. ([], refl),
  )
  | inr e ↦
      let plain : (path ≢ codes "**") × (path ≢ codes "*") = (
        λ q. let yes_it = (eq_iff path (codes "**")).1 q in absurd (ground (arith, yes_it, e)),
        λ q. let yes_it = (eq_iff path (codes "*")).1 q in absurd (ground (arith, yes_it, e)),
      ) in
      rw e (by (cut path b'/') (cut-CutLaw path) plain)
]
  where
    by :
        (o : Option (Text × Text))
        → CutLaw path o
        → (path ≢ codes "**") × (path ≢ codes "*")
        → IsGiven (elim o [
          | none ↦ pattern_after prefix path []
          | some (head, rest) ↦ pattern_after prefix head rest
        ])
          ↔ ReachesArea path prefix
    by none h plain =
        let k = pattern_after_iff prefix path [] in
        (
          λ g. elim (k.0 g) [ inl q ↦ absurd (plain.0 q) | inr (o, n) ↦ absurd (n refl) ],
          λ r. elim r [
            | inl q ↦ absurd (plain.0 q)
            | inr s ↦ elim s [
              | inl q ↦ absurd (plain.1 q)
              | inr (head, rest, cut_at, w) ↦ absurd (
                  h (
                    subst (In b'/') (sym cut_at.0)
                      (In-append_right b'/' head (b'/' ∷ rest) (inl refl))))
            ]
          ],
        )
    by (some (a, b)) h plain =
        let k = pattern_after_iff prefix a b in
        (
          λ g. inr (inr (a, b, h, k.0 g)),
          λ r. elim r [
            | inl q ↦ absurd (plain.0 q)
            | inr s ↦ elim s [
              | inl q ↦ absurd (plain.1 q)
              | inr (head, rest, cut_at, w) ↦
                  let (u, v) = split_unique head rest a b (sym cut_at.0 ∙ h.0) cut_at.1 h.1 in
                  k.1 (subst (λ z. Enters prefix z b) u (subst (λ z. Enters prefix head z) v w))
            ]
          ],
        )

-- The scope lists the operation, or "*".
abbrev pub ListsOp : TokenScope → Text → Type 0
ListsOp sc op = In op sc.operations ⊎ In (codes "*") sc.operations

pub scope_has_any_op_iff :
    (sc : TokenScope) (op : Text) → (scope_has_any_op sc (op ∷ []) ≡ true) ↔ ListsOp sc op
unfolding scope_has_any_op has
scope_has_any_op_iff sc op =
    let k = any_iff (λ have. have == codes "*" || has (op ∷ []) have) sc.operations in
    (
      λ h.
          let (x, i, e) = k.0 h in
          elim (Bool-cases (x == codes "*")) [
            | inl q ↦ inr (subst (λ z. In z sc.operations) ((eq_iff x (codes "*")).0 q) i)
            | inr q ↦
                let same : (op == x) ≡ true = ground (arith, e, q) in
                inl (subst (λ z. In z sc.operations) (sym ((eq_iff op x).0 same)) i)
          ],
      λ o. elim o [
        | inl i ↦ let same = eq_refl op in k.1 (op, i, ground (arith, same))
        | inr i ↦ let same = eq_refl (codes "*") in k.1 (codes "*", i, ground (arith, same))
      ],
    )
