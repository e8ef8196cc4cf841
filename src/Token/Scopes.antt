-- ===== src/Token/Scopes.antt =====
-- What a token's scopes allow, by an inductive relation on path segments.
use kutu.Prelude.{
  Text, List, [], ◌∷◌, Bool, true, ◌&&◌, ◌==◌, eq_iff, any_iff, ◌≡◌, ◌↔◌, refl, ◌⊎◌, inl, inr, In,
  Bool-cases, arith, trim, split,
}
use kutu.Token.{TokenScope, star, double_star, match_path, contains_operation, token_scopes_allow}
use kutu.Token.Paths.{Matches, eq-false, match_path_parts_iff}

-- A scope path covers a path if it is a bare "*" or "**", or if its segments match the path's.
abbrev pub Covers : Text → Text → Type 0
Covers pattern path =
    (pattern ≡ star)
    ⊎ (pattern ≡ double_star)
    ⊎ Matches (split (trim pattern b'/') b'/') (split (trim path b'/') b'/')

match_path_iff : (pattern path : Text) → (match_path pattern path ≡ true) ↔ Covers pattern path
match_path_iff pattern path = elim (Bool-cases (pattern == star)) [
  | inl e ↦ unfold match_path in rw e (λ _. inl ((eq_iff pattern star).0 e), λ _. refl)
  | inr e ↦ elim (Bool-cases (pattern == double_star)) [
    | inl q ↦
        unfold match_path in
        rw (e, q) (λ _. inr (inl ((eq_iff pattern double_star).0 q)), λ _. refl)
    | inr q ↦
        unfold match_path in
        rw (e, q)
          (
            λ h. inr (inr ((match_path_parts_iff _ _).0 h)),
            λ c. elim c [
              | inl k ↦ absurd (eq-false pattern star e k)
              | inr d ↦ elim d [
                | inl k ↦ absurd (eq-false pattern double_star q k)
                | inr m ↦ (match_path_parts_iff _ _).1 m
              ]
            ],
          )
  ]
]

contains_operation_iff :
    (ops : List Text) (op : Text) → (contains_operation ops op ≡ true) ↔ (In op ops ⊎ In star ops)
unfolding contains_operation
contains_operation_iff [] op = (λ h. cc h, λ c. elim c [ inl m ↦ absurd m | inr m ↦ absurd m ])
contains_operation_iff (o ∷ ops) op =
    let ih = contains_operation_iff ops op in
    (
      λ h. elim (Bool-cases (o == op)) [
        | inl e ↦ inl (inl ((eq_iff o op).0 e))
        | inr e ↦ elim (Bool-cases (o == star)) [
          | inl q ↦ inr (inl ((eq_iff o star).0 q))
          | inr q ↦ elim (ih.0 (rw (e, q) at h)) [ inl m ↦ inl (inr m) | inr m ↦ inr (inr m) ]
        ]
      ],
      λ c. elim c [
        | inl m ↦ elim m [
          | inl e ↦ rw ((eq_iff o op).1 e) refl
          | inr k ↦ ground (arith, ih.1 (inl k))
        ]
        | inr m ↦ elim m [
          | inl e ↦ ground (arith, (eq_iff o star).1 e)
          | inr k ↦ ground (arith, ih.1 (inr k))
        ]
      ],
    )

-- A list of scopes allows an operation on a path exactly when some scope covers the path and lists the
-- operation or "*". A scope path covers every path if it is a bare "*" or "**"; otherwise its segments,
-- without the slashes round it, must match those of the path, a "*" one segment, a "**" any number.
pub token_scopes_allow_iff :
    (scopes : List TokenScope) (path operation : Text)
    → (token_scopes_allow scopes path operation ≡ true) ↔ (
        (sc : TokenScope) × In sc scopes
        × Covers sc.path path
        × (In operation sc.operations ⊎ In star sc.operations))
token_scopes_allow_iff scopes path operation =
    unfold token_scopes_allow in
    (
      λ h.
          let (sc, m, q) = (any_iff grants scopes).0 h in
          (
            sc,
            m,
            (match_path_iff sc.path path).0 (ground (arith, q)),
            (contains_operation_iff sc.operations operation).0 (ground (arith, q)),
          ),
      λ w.
          let (sc, m, c, o) = w in
          (any_iff grants scopes).1 (
            sc,
            m,
            ground (
              arith,
              (match_path_iff sc.path path).1 c,
              (contains_operation_iff sc.operations operation).1 o,
            ),
          ),
    )
  where
    grants : TokenScope → Bool
    grants sc = match_path sc.path path && contains_operation sc.operations operation
