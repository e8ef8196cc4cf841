-- ===== src/GoProxy/Bytes.antt =====
-- The case encoding byte by byte, there and back.
use kutu.Prelude.{
  ℕ, ◌+◌, ◌-◌, ◌≡◌, refl, sym, ap, subst, ◌∙◌, Text, [], ◌∷◌, ◌++◌, if◌then◌else◌, Option, none,
  some, true, false, eqb, eqb_iff, All, Bool-cases, inl, inr, arith,
}
use kutu.GoProxy.{is_upper, is_lower, written, decode_module_path}

-- The encoding of a text byte by byte.
unfoldable pub encode_bytes : Text → Text
encode_bytes [] = []
encode_bytes (c ∷ p) = (if is_upper c then b'!' ∷ (c + 32) ∷ [] else c ∷ []) ++ encode_bytes p

-- A path without the escape byte.
abbrev pub NoEscape : Text → Type 0
NoEscape p = All (λ c. eqb c b'!' ≡ false) p

-- A path without capital letters.
abbrev pub NoUpper : Text → Type 0
NoUpper p = All (λ c. is_upper c ≡ false) p

decode_escaped :
    (d : ℕ) (p : Text)
    → is_lower d ≡ true
    → decode_module_path (b'!' ∷ d ∷ p) ≡ written (d - 32) (decode_module_path p)
unfolding decode_module_path
decode_escaped d p h = rw h refl

decode_bad : (d : ℕ) (p : Text) → is_lower d ≡ false → decode_module_path (b'!' ∷ d ∷ p) ≡ none
unfolding decode_module_path
decode_bad d p h = rw h refl

decode_plain :
    (c : ℕ) (p : Text)
    → eqb c b'!' ≡ false
    → decode_module_path (c ∷ p) ≡ written c (decode_module_path p)
unfolding decode_module_path
decode_plain c [] h = rw h refl
decode_plain c (d ∷ p) h = rw h refl

pub encode_upper :
    (c : ℕ) (p : Text) → is_upper c ≡ true → encode_bytes (c ∷ p) ≡ b'!' ∷ (c + 32) ∷ encode_bytes p
unfolding encode_bytes
encode_upper c p h = rw h refl

pub encode_other :
    (c : ℕ) (p : Text) → is_upper c ≡ false → encode_bytes (c ∷ p) ≡ c ∷ encode_bytes p
unfolding encode_bytes
encode_other c p h = rw h refl

lowered :
    (c : ℕ)
    → is_upper c ≡ true
    → (is_lower (c + 32) ≡ true) × (c + 32 - 32 ≡ c) × (is_upper (c + 32) ≡ false)
lowered c h = ground arith

raised : (d : ℕ) → is_lower d ≡ true → (is_upper (d - 32) ≡ true) × (d - 32 + 32 ≡ d)
raised d h = ground arith

pub decode-encode_bytes :
    (p : Text)
    → NoEscape p
    → NoUpper (encode_bytes p) × (decode_module_path (encode_bytes p) ≡ some p)
decode-encode_bytes [] h = unfold encode_bytes decode_module_path in (tt, refl)
decode-encode_bytes (c ∷ p) (plain, h) =
    let (lower, back) = decode-encode_bytes p h in
    elim (Bool-cases (is_upper c)) [
      | inl u ↦
          let (l, r, n) = lowered c u in
          rw (encode_upper c p u)
            ((refl, (n, lower)), decode_escaped (c + 32) (encode_bytes p) l ∙ (rw (back, r) refl))
      | inr u ↦
          rw (encode_other c p u)
            ((u, lower), decode_plain c (encode_bytes p) plain ∙ (rw back refl))
    ]

written-some :
    (c : ℕ) (o : Option Text) (p : Text)
    → written c o ≡ some p
    → (q : Text) × (o ≡ some q) × (c ∷ q ≡ p)
written-some c none p h = cc h
written-some c (some q) p h = (q, refl, cc h)

abbrev Restores : Text → Text → Type 0
Restores q p = (encode_bytes p ≡ q) × NoEscape p

upper_ne_escape : (c : ℕ) → is_upper c ≡ true → eqb c b'!' ≡ false
upper_ne_escape c h = ground arith

-- One step of the way back, at a byte that is no escape.
Restores-plain :
    (c : ℕ) (q p : Text)
    → eqb c b'!' ≡ false
    → is_upper c ≡ false
    → ((r : Text) → decode_module_path q ≡ some r → Restores q r)
    → decode_module_path (c ∷ q) ≡ some p
    → Restores (c ∷ q) p
Restores-plain c q p e u ih h =
    let (r, d, same) = written-some c (decode_module_path q) p (sym (decode_plain c q e) ∙ h) in
    let (back, free) = ih r d in
    subst (Restores (c ∷ q)) same (encode_other c r u ∙ ap (λ t. c ∷ t) back, (e, free))

-- One step of the way back, at an escape.
Restores-escaped :
    (d : ℕ) (q p : Text)
    → ((r : Text) → decode_module_path q ≡ some r → Restores q r)
    → decode_module_path (b'!' ∷ d ∷ q) ≡ some p
    → Restores (b'!' ∷ d ∷ q) p
Restores-escaped d q p ih h = elim (Bool-cases (is_lower d)) [
  | inl l ↦
      let (r, e, same) =
        written-some (d - 32) (decode_module_path q) p (sym (decode_escaped d q l) ∙ h) in
      let (back, free) = ih r e in
      let (u, same_d) = raised d l in
      subst (Restores (b'!' ∷ d ∷ q)) same (
        encode_upper (d - 32) r u ∙ (λ i. b'!' ∷ same_d i ∷ back i),
        (upper_ne_escape (d - 32) u, free),
      )
  | inr l ↦ cc (decode_bad d q l, h)
]

pub encode_bytes-decode_module_path :
    (q p : Text) → NoUpper q → decode_module_path q ≡ some p → (encode_bytes p ≡ q) × NoEscape p
encode_bytes-decode_module_path [] p n h =
    unfold encode_bytes decode_module_path in
    let same : [] ≡ p = cc h in subst (Restores []) same (refl, tt)
encode_bytes-decode_module_path (c ∷ []) p n h = elim (Bool-cases (eqb c b'!')) [
  | inl e ↦
      let no_p : decode_module_path (c ∷ []) ≡ none = unfold decode_module_path in rw e refl in
      cc (no_p, h)
  | inr e ↦ Restores-plain c [] p e n.0 (λ r d. encode_bytes-decode_module_path [] r tt d) h
]
encode_bytes-decode_module_path (c ∷ d ∷ q) p n h = elim (Bool-cases (eqb c b'!')) [
  | inl e ↦
      let at : c ≡ b'!' = (eqb_iff c b'!').0 e in
      subst (λ z. Restores (z ∷ d ∷ q) p) (sym at)
        (Restores-escaped d q p (λ r f. encode_bytes-decode_module_path q r n.1.1 f)
          (subst (λ z. decode_module_path (z ∷ d ∷ q) ≡ some p) at h))
  | inr e ↦
      Restores-plain c (d ∷ q) p e n.0 (λ r f. encode_bytes-decode_module_path (d ∷ q) r n.1 f) h
]
