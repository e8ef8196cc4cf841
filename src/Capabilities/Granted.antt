-- ===== src/Capabilities/Granted.antt =====
-- What the report of a token's scopes contains.
use kutu.Prelude.{
  Text, List, [], ◌∷◌, none, some, true, false, has, has_iff, is_empty, ◌≡◌, ◌↔◌, refl, sym, ap,
  subst, ◌⊎◌, inl, inr, In, Bool-cases, Option-cases, In-append, In-append_left, In-append_right,
  trim, All, In-All,
}
use kutu.Token.{TokenScope}
use kutu.Capabilities.Scopes.{ReachesArea, ListsOp, scope_pattern_for_iff, scope_has_any_op_iff}
use kutu.Capabilities.{
  raw_read, raw_write, registry_read, registry_write, registry_delete, Area, Report, empty_report,
  has_capability, with_capability, grant, grant_ops, grant_areas, grant_scopes, scope_has_any_op,
  scope_pattern_for, token_scope_areas, token_report,
}

In-with_capability :
    (x k : Text) (caps : List Text) → In x (with_capability k caps) ↔ (In x caps ⊎ (k ≡ x))
unfolding has_capability
In-with_capability x k caps = elim (Bool-cases (has caps k)) [
  | inl e ↦
      rw e
        (inl, λ h. elim h [ inl m ↦ m | inr q ↦ subst (λ z. In z caps) q ((has_iff caps k).0 e) ])
  | inr e ↦ rw e (
    λ h. elim (In-append x caps (k ∷ []) h) [
      | inl m ↦ inl m
      | inr m ↦ elim m [ inl q ↦ inr q | inr z ↦ absurd z ]
    ],
    λ h. elim h [
      | inl m ↦ In-append_left x caps (k ∷ []) m
      | inr q ↦ In-append_right x caps (k ∷ []) (inl q)
    ],
  )
]

grant-capabilities :
    (k p : Text) (rep : Report) → (grant k p rep).capabilities ≡ with_capability k rep.capabilities
unfolding grant
grant-capabilities k p rep = elim (Bool-cases (is_empty p)) [
  | inl e ↦ rw e refl
  | inr e ↦ rw e refl
]

-- The operation `op` of an area stands for `k`, and the test of the source finds it in the scope.
abbrev Passes : TokenScope → List (Text × Text) → Text → Type 0
Passes sc ops k =
    (op : Text) × In {A = Text × Text} (op, k) ops × (scope_has_any_op sc (op ∷ []) ≡ true)

granted :
    (sc : TokenScope) (p op k : Text) (ops : List (Text × Text)) (rep : Report)
    → scope_has_any_op sc (op ∷ []) ≡ true
    → grant_ops sc p ((op, k) ∷ ops) rep ≡ grant_ops sc p ops (grant k p rep)
unfolding grant_ops
granted sc p op k ops rep e = rw e refl

not_granted :
    (sc : TokenScope) (p op k : Text) (ops : List (Text × Text)) (rep : Report)
    → scope_has_any_op sc (op ∷ []) ≡ false
    → grant_ops sc p ((op, k) ∷ ops) rep ≡ grant_ops sc p ops rep
unfolding grant_ops
not_granted sc p op k ops rep e = rw e refl

grant_ops-capabilities :
    (x : Text) (sc : TokenScope) (p : Text) (ops : List (Text × Text)) (rep : Report)
    → In x (grant_ops sc p ops rep).capabilities ↔ (In x rep.capabilities ⊎ Passes sc ops x)
grant_ops-capabilities x sc p [] rep =
    unfold grant_ops in (inl, λ h. elim h [ inl m ↦ m | inr g ↦ absurd g.1 ])
grant_ops-capabilities x sc p ((op, k) ∷ ops) rep =
    elim (Bool-cases (scope_has_any_op sc (op ∷ []))) [
      | inl e ↦
          let ih = grant_ops-capabilities x sc p ops (grant k p rep) in
          let here = In-with_capability x k rep.capabilities in
          rw (granted sc p op k ops rep e) (
            λ h. elim (ih.0 h) [
              | inl m ↦ elim (here.0 (subst (In x) (grant-capabilities k p rep) m)) [
                | inl old ↦ inl old
                | inr q ↦ inr (op, inl (ap (λ z. (op, z)) q), e)
              ]
              | inr (o, m, y) ↦ inr (o, inr m, y)
            ],
            λ h. elim h [
              | inl old ↦
                  ih.1 (inl (subst (In x) (sym (grant-capabilities k p rep)) (here.1 (inl old))))
              | inr (o, m, y) ↦ elim m [
                | inl q ↦ ih.1 (
                    inl (
                      subst (In x) (sym (grant-capabilities k p rep))
                        (here.1 (inr (ap (λ z. z.1) q)))))
                | inr n ↦ ih.1 (inr (o, n, y))
              ]
            ],
          )
      | inr e ↦
          let ih = grant_ops-capabilities x sc p ops rep in
          rw (not_granted sc p op k ops rep e) (
            λ h. elim (ih.0 h) [ inl m ↦ inl m | inr (o, m, y) ↦ inr (o, inr m, y) ],
            λ h. elim h [
              | inl old ↦ ih.1 (inl old)
              | inr (o, m, y) ↦ elim m [
                | inl q ↦
                    let same : op ≡ o = ap (λ z. z.0) q in
                    let no_op : scope_has_any_op sc (o ∷ []) ≡ false =
                      subst (λ z. scope_has_any_op sc (z ∷ []) ≡ false) same e in
                    cc (no_op, y)
                | inr n ↦ ih.1 (inr (o, n, y))
              ]
            ],
          )
    ]

-- An area for which the source finds a pattern, with an operation that stands for `k`.
abbrev Enters : TokenScope → List Area → Text → Type 0
Enters sc areas k =
    (area : Area) × (p : Text) × In area areas
    × (scope_pattern_for (trim sc.path b'/') area.prefix ≡ some p)
    × Passes sc area.ops k

area_skipped :
    (sc : TokenScope) (area : Area) (areas : List Area) (rep : Report)
    → scope_pattern_for (trim sc.path b'/') area.prefix ≡ none
    → grant_areas sc (area ∷ areas) rep ≡ grant_areas sc areas rep
unfolding grant_areas
area_skipped sc area areas rep e = rw (grant_areas, e) refl

area_granted :
    (sc : TokenScope) (area : Area) (areas : List Area) (rep : Report) (p : Text)
    → scope_pattern_for (trim sc.path b'/') area.prefix ≡ some p
    → grant_areas sc (area ∷ areas) rep ≡ grant_areas sc areas (grant_ops sc p area.ops rep)
unfolding grant_areas
area_granted sc area areas rep p e = rw (grant_areas, e) refl

grant_areas-capabilities :
    (x : Text) (sc : TokenScope) (areas : List Area) (rep : Report)
    → In x (grant_areas sc areas rep).capabilities ↔ (In x rep.capabilities ⊎ Enters sc areas x)
grant_areas-capabilities x sc [] rep =
    unfold grant_areas in (inl, λ h. elim h [ inl m ↦ m | inr (a, p, m, r, o) ↦ absurd m ])
grant_areas-capabilities x sc (area ∷ areas) rep =
    elim (Option-cases (scope_pattern_for (trim sc.path b'/') area.prefix)) [
      | inl e ↦
          let ih = grant_areas-capabilities x sc areas rep in
          rw (area_skipped sc area areas rep e) (
            λ h. elim (ih.0 h) [ inl m ↦ inl m | inr (a, p, m, r, o) ↦ inr (a, p, inr m, r, o) ],
            λ h. elim h [
              | inl old ↦ ih.1 (inl old)
              | inr (a, p, m, r, o) ↦ elim m [
                | inl q ↦
                    let gone : scope_pattern_for (trim sc.path b'/') a.prefix ≡ none =
                      subst (λ z. scope_pattern_for (trim sc.path b'/') z.prefix ≡ none) q e in
                    cc (gone, r)
                | inr n ↦ ih.1 (inr (a, p, n, r, o))
              ]
            ],
          )
      | inr (p, e) ↦
          let ih = grant_areas-capabilities x sc areas (grant_ops sc p area.ops rep) in
          let here = grant_ops-capabilities x sc p area.ops rep in
          rw (area_granted sc area areas rep p e) (
            λ h. elim (ih.0 h) [
              | inl m ↦ elim (here.0 m) [
                | inl old ↦ inl old
                | inr o ↦ inr (area, p, inl refl, e, o)
              ]
              | inr (a, p2, m, r, o) ↦ inr (a, p2, inr m, r, o)
            ],
            λ h. elim h [
              | inl old ↦ ih.1 (inl (here.1 (inl old)))
              | inr (a, p2, m, r, o) ↦ elim m [
                | inl q ↦ ih.1 (inl (here.1 (inr (subst (λ z. Passes sc z.ops x) (sym q) o))))
                | inr n ↦ ih.1 (inr (a, p2, n, r, o))
              ]
            ],
          )
    ]

grant_scopes-capabilities :
    (x : Text) (scopes : List TokenScope) (rep : Report)
    → In x (grant_scopes scopes rep).capabilities
      ↔ (In x rep.capabilities ⊎ ((sc : TokenScope) × In sc scopes × Enters sc token_scope_areas x))
unfolding grant_scopes
grant_scopes-capabilities x [] rep = (inl, λ h. elim h [ inl m ↦ m | inr g ↦ absurd g.1 ])
grant_scopes-capabilities x (sc ∷ scopes) rep =
    let ih = grant_scopes-capabilities x scopes (grant_areas sc token_scope_areas rep) in
    let here = grant_areas-capabilities x sc token_scope_areas rep in
    (
      λ h. elim (ih.0 h) [
        | inl m ↦ elim (here.0 m) [ inl old ↦ inl old | inr r ↦ inr (sc, inl refl, r) ]
        | inr w ↦ inr (w.0, inr w.1, w.2)
      ],
      λ h. elim h [
        | inl old ↦ ih.1 (inl (here.1 (inl old)))
        | inr w ↦ elim w.1 [
          | inl q ↦
              ih.1 (inl (here.1 (inr (subst (λ z. Enters z token_scope_areas x) (sym q) w.2))))
          | inr n ↦ ih.1 (inr (w.0, n, w.2))
        ]
      ],
    )

-- The operation `op` of an area stands for `k`, and the scope lists it or "*".
abbrev pub Operates : TokenScope → List (Text × Text) → Text → Type 0
Operates sc ops k = (op : Text) × In {A = Text × Text} (op, k) ops × ListsOp sc op

-- An area that the scope's path, without the slashes round it, reaches, with an operation that stands
-- for `k`.
abbrev pub Reached : TokenScope → List Area → Text → Type 0
Reached sc areas k =
    (area : Area) × In area areas
    × ReachesArea (trim sc.path b'/') area.prefix
    × Operates sc area.ops k

Enters-Reached :
    (sc : TokenScope) (areas : List Area) (k : Text) → Enters sc areas k ↔ Reached sc areas k
Enters-Reached sc areas k = (
  λ (area, p, m, r, (op, i, y)). (
    area,
    m,
    (scope_pattern_for_iff (trim sc.path b'/') area.prefix).0 (p, r),
    (op, i, (scope_has_any_op_iff sc op).0 y),
  ),
  λ (area, m, r, (op, i, y)).
      let (p, e) = (scope_pattern_for_iff (trim sc.path b'/') area.prefix).1 r in
      (area, p, m, e, (op, i, (scope_has_any_op_iff sc op).1 y)),
)

-- The report of a list of scopes has a capability exactly when some scope reaches an area in which
-- an operation stands for that capability and the scope lists that operation or "*". A path reaches
-- an area if it is "*" or "**", if its first segment is "**", or if that is "*" or the area's prefix
-- and something follows.
pub token_report_iff :
    (scopes : List TokenScope) (k : Text)
    → In k (token_report scopes).capabilities
      ↔ ((sc : TokenScope) × In sc scopes × Reached sc token_scope_areas k)
unfolding token_report
token_report_iff scopes k =
    let all = grant_scopes-capabilities k scopes empty_report in
    (
      λ h. elim (all.0 h) [
        | inl m ↦ absurd m
        | inr (sc, i, r) ↦ (sc, i, (Enters-Reached sc token_scope_areas k).0 r)
      ],
      λ (sc, i, r). all.1 (inr (sc, i, (Enters-Reached sc token_scope_areas k).1 r)),
    )

-- The capabilities that a token can reach.
abbrev pub data_plane : List Text
data_plane = raw_read ∷ raw_write ∷ registry_read ∷ registry_write ∷ registry_delete ∷ []

areas-data_plane : All (λ a. All (λ o. In o.1 data_plane) a.ops) token_scope_areas
areas-data_plane = (
  (inl refl, (inr (inl refl), (inr (inl refl), tt))),
  (
    (inr (inr (inl refl)), (inr (inr (inr (inl refl))), (inr (inr (inr (inr (inl refl)))), tt))),
    tt,
  ),
)

-- Whatever its scopes, a token has no capability but reading and writing raw files and reading,
-- writing and deleting in registries: no administrative one.
pub token_report-data_plane :
    (scopes : List TokenScope) (k : Text)
    → In k (token_report scopes).capabilities
    → In k data_plane
token_report-data_plane scopes k h =
    let (sc, i, reached) = (token_report_iff scopes k).0 h in
    let (area, m, r, operates) = reached in
    let (op, o, y) = operates in
    In-All (λ z. In z.1 data_plane) (op, k) area.ops
      (In-All (λ a. All (λ z. In z.1 data_plane) a.ops) area token_scope_areas areas-data_plane m) o
