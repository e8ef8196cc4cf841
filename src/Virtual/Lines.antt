-- ===== src/Virtual/Lines.antt =====
-- The union of the lists of the members of a virtual registry.
use kutu.Prelude.{
  Text, List, [], ◌∷◌, ◌++◌, ◌||◌, Option, none, some, Bool, true, false, has, ◌≡◌, ◌≢◌, ◌⊎◌, ◌↔◌,
  inl, inr, refl, sym, ap, subst, ◌∙◌, Bool-cases, Option-cases, In, In-append, In-append_left,
  In-append_right, has_iff, split, trim_space, eqb, eqb_iff, is_empty,
}
use kutu.Virtual.{
  Response, Base, visit_members, for_each_member, add_lines, collect_member, collect_list_lines,
}

-- No text stands twice in the list.
abbrev pub IsDistinct : List Text → Type 0
IsDistinct [] = Unit {0}
IsDistinct (x ∷ xs) = (¬ In x xs) × IsDistinct xs

IsDistinct-snoc :
    (xs : List Text) (x : Text) → IsDistinct xs → ¬ In x xs → IsDistinct (xs ++ x ∷ [])
IsDistinct-snoc [] x d n = (λ h. absurd h, tt)
IsDistinct-snoc (y ∷ xs) x d n = (
  λ h. elim (In-append y xs (x ∷ []) h) [
    | inl m ↦ d.0 m
    | inr m ↦ elim m [ inl q ↦ n (inl (sym q)) | inr z ↦ absurd z ]
  ],
  IsDistinct-snoc xs x d.1 (λ m. n (inr m)),
)

-- A line of a body, trimmed and not empty.
abbrev pub LineOf : Text → List Text → Type 0
LineOf x lines = (x ≢ []) × ((line : Text) × In line lines × (trim_space line ≡ x))

module _ {Registry : Type 0} (lookup : Text → Text → Option Registry) (check_gate : Registry → Bool)
    (serve_http : Registry → Response) where
  abbrev adds : List Text → List Text → List Text
  adds = add_lines lookup check_gate serve_http

  skipped :
      (line : Text) (lines out : List Text)
      → (is_empty (trim_space line) || has out (trim_space line)) ≡ true
      → adds (line ∷ lines) out ≡ adds lines out
  unfolding add_lines
  skipped line lines out e = rw e refl

  taken :
      (line : Text) (lines out : List Text)
      → (is_empty (trim_space line) || has out (trim_space line)) ≡ false
      → adds (line ∷ lines) out ≡ adds lines (out ++ trim_space line ∷ [])
  unfolding add_lines
  taken line lines out e = rw e refl

  known : (a b : Text) (out : List Text) → (is_empty a || has out a) ≡ true → (a ≡ []) ⊎ In a out
  known [] b out h = inl refl
  known (c ∷ a) b out h = inr ((has_iff out (c ∷ a)).0 h)

  unknown :
      (a : Text) (out : List Text) → (is_empty a || has out a) ≡ false → (a ≢ []) × (¬ In a out)
  unknown [] out h = cc h
  unknown (c ∷ a) out h = (λ e. cc e, λ m. cc ((has_iff out (c ∷ a)).1 m, h))

  add_lines-IsDistinct : (lines out : List Text) → IsDistinct out → IsDistinct (adds lines out)
  add_lines-IsDistinct [] out d = unfold add_lines in d
  add_lines-IsDistinct (line ∷ lines) out d =
      elim (Bool-cases (is_empty (trim_space line) || has out (trim_space line))) [
        | inl e ↦ rw (skipped line lines out e) (add_lines-IsDistinct lines out d)
        | inr e ↦ rw (taken line lines out e) (
            add_lines-IsDistinct lines (out ++ trim_space line ∷ [])
              (IsDistinct-snoc out (trim_space line) d (unknown (trim_space line) out e).1))
      ]

  In-add_lines :
      (x : Text) (lines out : List Text) → In x (adds lines out) ↔ (In x out ⊎ LineOf x lines)
  In-add_lines x [] out =
      unfold add_lines in (inl, λ h. elim h [ inl m ↦ m | inr (_, w) ↦ absurd w.1 ])
  In-add_lines x (line ∷ lines) out =
      elim (Bool-cases (is_empty (trim_space line) || has out (trim_space line))) [
        | inl e ↦
            let ih = In-add_lines x lines out in
            rw (skipped line lines out e) (
              λ h. elim (ih.0 h) [ inl m ↦ inl m | inr (n, w) ↦ inr (n, (w.0, inr w.1, w.2)) ],
              λ h. elim h [
                | inl m ↦ ih.1 (inl m)
                | inr (n, w) ↦ elim w.1 [
                  | inl q ↦
                      let same : trim_space line ≡ x = ap trim_space q ∙ w.2 in
                      elim (known (trim_space line) [] out e) [
                        | inl z ↦ absurd (n (sym same ∙ z))
                        | inr m ↦ ih.1 (inl (subst (λ z. In z out) same m))
                      ]
                  | inr m ↦ ih.1 (inr (n, (w.0, m, w.2)))
                ]
              ],
            )
        | inr e ↦
            let ih = In-add_lines x lines (out ++ trim_space line ∷ []) in
            rw (taken line lines out e) (
              λ h. elim (ih.0 h) [
                | inl m ↦ elim (In-append x out (trim_space line ∷ []) m) [
                  | inl old ↦ inl old
                  | inr new ↦ elim new [
                    | inl q ↦
                        inr (λ z. (unknown (trim_space line) out e).0 (q ∙ z), (line, inl refl, q))
                    | inr z ↦ absurd z
                  ]
                ]
                | inr (n, w) ↦ inr (n, (w.0, inr w.1, w.2))
              ],
              λ h. elim h [
                | inl m ↦ ih.1 (inl (In-append_left x out (trim_space line ∷ []) m))
                | inr (n, w) ↦ elim w.1 [
                  | inl q ↦
                      let same : trim_space line ≡ x = ap trim_space q ∙ w.2 in
                      ih.1 (inl (In-append_right x out (trim_space line ∷ []) (inl same)))
                  | inr m ↦ ih.1 (inr (n, (w.0, m, w.2)))
                ]
              ],
            )
      ]

  module _ (namespace : Text) where
    abbrev collects : List Text → List Text → List Text
    collects = visit_members lookup (collect_member lookup check_gate serve_http) namespace

    -- The request passes the gate to the member, which answers 200.
    abbrev pub Answers : Registry → Type 0
    Answers reg = (check_gate reg ≡ true) × ((serve_http reg).code ≡ 200)

    unresolved :
        (name : Text) (names out : List Text)
        → lookup namespace name ≡ none
        → collects (name ∷ names) out ≡ collects names out
    unfolding visit_members
    unresolved name names out e = rw e refl

    barred :
        (name : Text) (names out : List Text) (reg : Registry)
        → lookup namespace name ≡ some reg
        → check_gate reg ≡ false
        → collects (name ∷ names) out ≡ collects names out
    unfolding visit_members collect_member
    barred name names out reg e g = rw e (rw g refl)

    refused :
        (name : Text) (names out : List Text) (reg : Registry)
        → lookup namespace name ≡ some reg
        → check_gate reg ≡ true
        → eqb (serve_http reg).code 200 ≡ false
        → collects (name ∷ names) out ≡ collects names out
    unfolding visit_members collect_member
    refused name names out reg e g c = rw e (rw g (rw c refl))

    collected :
        (name : Text) (names out : List Text) (reg : Registry)
        → lookup namespace name ≡ some reg
        → check_gate reg ≡ true
        → eqb (serve_http reg).code 200 ≡ true
        → collects (name ∷ names) out ≡ collects names (adds (split (serve_http reg).body 10) out)
    unfolding visit_members collect_member
    collected name names out reg e g c = rw e (rw g (rw c refl))

    -- Either the member adds the lines of its body, or it answers nothing and adds none.
    visited :
        (name : Text) (names out : List Text)
        → ((reg : Registry) × (lookup namespace name ≡ some reg)
            × Answers reg
            × (collects (name ∷ names) out
                ≡ collects names (adds (split (serve_http reg).body 10) out)))
          ⊎ (((reg : Registry) → lookup namespace name ≡ some reg → ¬ Answers reg)
              × (collects (name ∷ names) out ≡ collects names out))
    visited name names out = elim (Option-cases (lookup namespace name)) [
      | inl e ↦ inr ((λ reg f _. cc (e, f)), unresolved name names out e)
      | inr (reg, e) ↦ elim (Bool-cases (check_gate reg)) [
        | inl g ↦ elim (Bool-cases (eqb (serve_http reg).code 200)) [
          | inl c ↦ inl (
            reg,
            e,
            (g, (eqb_iff (serve_http reg).code 200).0 c),
            collected name names out reg e g c,
          )
          | inr c ↦ inr (
            (λ r f h. cc (
              (eqb_iff (serve_http reg).code 200).1
                  (subst (λ z. (serve_http z).code ≡ 200) (same e f) h.1),
              c,
            )),
            refused name names out reg e g c,
          )
        ]
        | inr g ↦ inr (
          (λ r f h. cc (subst (λ z. check_gate z ≡ true) (same e f) h.0, g)),
          barred name names out reg e g,
        )
      ]
    ]
      where
        same : {o : Option Registry} {a b : Registry} → o ≡ some a → o ≡ some b → b ≡ a
        same e f = cc (e, f)

    abbrev pub MemberLine : List Text → Text → Type 0
    MemberLine names x =
        (name : Text) × (reg : Registry) × In name names
        × (lookup namespace name ≡ some reg)
        × Answers reg
        × LineOf x (split (serve_http reg).body 10)

    collects-IsDistinct : (names out : List Text) → IsDistinct out → IsDistinct (collects names out)
    collects-IsDistinct [] out d = unfold visit_members in d
    collects-IsDistinct (name ∷ names) out d = elim (visited name names out) [
      | inl (reg, e, a, v) ↦ rw v (
          collects-IsDistinct names (adds (split (serve_http reg).body 10) out)
            (add_lines-IsDistinct (split (serve_http reg).body 10) out d))
      | inr (none_there, v) ↦ rw v (collects-IsDistinct names out d)
    ]

    In-collects :
        (x : Text) (names out : List Text)
        → In x (collects names out) ↔ (In x out ⊎ MemberLine names x)
    In-collects x [] out =
        unfold visit_members in (inl, λ h. elim h [ inl m ↦ m | inr (n, r, m, f, b, l) ↦ absurd m ])
    In-collects x (name ∷ names) out = elim (visited name names out) [
      | inl (reg, e, a, v) ↦
          let ih = In-collects x names (adds (split (serve_http reg).body 10) out) in
          let here = In-add_lines x (split (serve_http reg).body 10) out in
          rw v (
            λ h. elim (ih.0 h) [
              | inl m ↦ elim (here.0 m) [
                | inl old ↦ inl old
                | inr l ↦ inr (name, reg, inl refl, e, a, l)
              ]
              | inr (n, r, m, f, b, l) ↦ inr (n, r, inr m, f, b, l)
            ],
            λ h. elim h [
              | inl old ↦ ih.1 (inl (here.1 (inl old)))
              | inr (n, r, m, f, b, l) ↦ elim m [
                | inl q ↦
                    let same : r ≡ reg = cc (e, f, q) in
                    ih.1 (
                      inl (
                        here.1 (inr (subst (λ z. LineOf x (split (serve_http z).body 10)) same l))))
                | inr i ↦ ih.1 (inr (n, r, i, f, b, l))
              ]
            ],
          )
      | inr (none_there, v) ↦
          let ih = In-collects x names out in
          rw v (
            λ h. elim (ih.0 h) [
              | inl m ↦ inl m
              | inr (n, r, m, f, b, l) ↦ inr (n, r, inr m, f, b, l)
            ],
            λ h. elim h [
              | inl old ↦ ih.1 (inl old)
              | inr (n, r, m, f, b, l) ↦ elim m [
                | inl q ↦
                    absurd (none_there r (subst (λ z. lookup namespace z ≡ some r) (sym q) f) b)
                | inr i ↦ ih.1 (inr (n, r, i, f, b, l))
              ]
            ],
          )
    ]

  -- The union has exactly the trimmed lines, but the empty ones, of the bodies of the members that
  -- resolve, that the gate lets through and that answer 200, and each of them once. A member with any
  -- other code contributes nothing, also with another 2xx code.
  pub collect_list_lines_iff :
      (b : Base)
      → IsDistinct (collect_list_lines lookup check_gate serve_http b)
        × ((x : Text)
            → In x (collect_list_lines lookup check_gate serve_http b)
              ↔ MemberLine b.namespace b.member_names x)
  unfolding collect_list_lines for_each_member
  collect_list_lines_iff b = (
    collects-IsDistinct b.namespace b.member_names [] tt,
    λ x.
        let all = In-collects b.namespace x b.member_names [] in
        (λ h. elim (all.0 h) [ inl m ↦ absurd m | inr w ↦ w ], λ w. all.1 (inr w)),
  )
