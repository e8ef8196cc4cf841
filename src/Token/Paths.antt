-- ===== src/Token/Paths.antt =====
-- matchPathParts of internal/service/token.go, against patterns and paths as a relation.
use kutu.Prelude.{
  is_empty_iff, Text, List, [], ◌∷◌, Bool, true, false, ◌==◌, eq_iff, if◌then◌else◌, is_empty, ◌≡◌,
  ◌≢◌, ◌↔◌, refl, sym, ◌∙◌, subst, inl, inr, Bool-cases, arith,
}
use kutu.Token.{star, double_star, any_tail, match_path_parts}

-- "*" stands for one segment, "**" for any number of them, anything else for itself.
pub data Matches : List Text → List Text → Type 0 where
  here : Matches [] []
  one :
      {p s : Text} {pattern path : List Text}
      → p ≡ star
      → Matches pattern path
      → Matches (p ∷ pattern) (s ∷ path)
  same :
      {p s : Text} {pattern path : List Text}
      → p ≢ double_star
      → p ≡ s
      → Matches pattern path
      → Matches (p ∷ pattern) (s ∷ path)
  skip :
      {p : Text} {pattern path : List Text}
      → p ≡ double_star
      → Matches pattern path
      → Matches (p ∷ pattern) path
  more :
      {p s : Text} {pattern path : List Text}
      → p ≡ double_star
      → Matches (p ∷ pattern) path
      → Matches (p ∷ pattern) (s ∷ path)

-- A "**" takes the whole path.
all-Matches : (p : Text) (path : List Text) → p ≡ double_star → Matches (p ∷ []) path
all-Matches p [] e = skip e here
all-Matches p (s ∷ path) e = more e (all-Matches p path e)

any_tail-Matches :
    (p : Text) (pattern path : List Text)
    → p ≡ double_star
    → ((t : List Text) → match_path_parts pattern t ≡ true → Matches pattern t)
    → any_tail (match_path_parts pattern) path ≡ true
    → Matches (p ∷ pattern) path
unfolding any_tail
any_tail-Matches p pattern [] e f h = skip e (f [] h)
any_tail-Matches p pattern (s ∷ path) e f h =
    elim (Bool-cases (match_path_parts pattern (s ∷ path))) [
      | inl q ↦ skip e (f (s ∷ path) q)
      | inr q ↦ more e (any_tail-Matches p pattern path e f (rw q at h))
    ]

-- One round of the loop at a segment, for each kind of pattern segment.
module _ (p s : Text) (pattern path : List Text) where
  round_stars :
      (p == double_star) ≡ true
      → is_empty pattern ≡ false
      → match_path_parts (p ∷ pattern) (s ∷ path) ≡ any_tail (match_path_parts pattern) (s ∷ path)
  unfolding match_path_parts
  round_stars e f = rw (e, f) refl

  round_star :
      (p == double_star) ≡ false
      → (p == star) ≡ true
      → match_path_parts (p ∷ pattern) (s ∷ path) ≡ match_path_parts pattern path
  unfolding match_path_parts
  round_star e f = rw (e, f) refl

  round_literal :
      (p == double_star) ≡ false
      → (p == star) ≡ false
      → match_path_parts (p ∷ pattern) (s ∷ path)
        ≡ (if p == s then match_path_parts pattern path else false)
  unfolding match_path_parts
  round_literal e f = rw (e, f) refl

pub eq-false : (a b : Text) → (a == b) ≡ false → a ≢ b
eq-false a b h e = cc (h, (eq_iff a b).1 e)

match_path_parts_sound :
    (pattern path : List Text) → match_path_parts pattern path ≡ true → Matches pattern path
unfolding match_path_parts
match_path_parts_sound [] [] h = here
match_path_parts_sound [] (s ∷ path) h = cc h
match_path_parts_sound (p ∷ pattern) [] h = elim (Bool-cases (p == double_star)) [
  | inl e ↦ skip ((eq_iff p double_star).0 e) (match_path_parts_sound pattern [] (rw e at h))
  | inr e ↦ cc (rw e at h)
]
match_path_parts_sound (p ∷ pattern) (s ∷ path) h = elim (Bool-cases (p == double_star)) [
  | inl e ↦ elim (Bool-cases (is_empty pattern)) [
    | inl q ↦
        subst (λ ps. Matches (p ∷ ps) (s ∷ path)) (sym ((is_empty_iff pattern).0 q))
          (all-Matches p (s ∷ path) ((eq_iff p double_star).0 e))
    | inr q ↦
        any_tail-Matches p pattern (s ∷ path) ((eq_iff p double_star).0 e)
          (match_path_parts_sound pattern) (sym (round_stars p s pattern path e q) ∙ h)
  ]
  | inr e ↦ elim (Bool-cases (p == star)) [
    | inl q ↦
        one ((eq_iff p star).0 q)
          (match_path_parts_sound pattern path (sym (round_star p s pattern path e q) ∙ h))
    | inr q ↦ elim (Bool-cases (p == s)) [
      | inl k ↦ same (eq-false p double_star e) ((eq_iff p s).0 k) (
          match_path_parts_sound pattern path
            (rw k at (sym (round_literal p s pattern path e q) ∙ h)))
      | inr k ↦ cc (rw k at (sym (round_literal p s pattern path e q) ∙ h))
    ]
  ]
]

any_tail-head : (f : List Text → Bool) (path : List Text) → f path ≡ true → any_tail f path ≡ true
unfolding any_tail
any_tail-head f [] h = h
any_tail-head f (s ∷ path) h = rw h refl

any_tail-tail :
    (f : List Text → Bool) (s : Text) (path : List Text)
    → any_tail f path ≡ true
    → any_tail f (s ∷ path) ≡ true
unfolding any_tail
any_tail-tail f s path h = ground (arith, h)

is_double : (p : Text) → p ≡ double_star → (p == double_star) ≡ true
is_double p e = (eq_iff p double_star).1 e

-- A "**" segment finds a tail of the path that the rest of the pattern matches.
stars_intro :
    (p : Text) (pattern path : List Text)
    → p ≡ double_star
    → any_tail (match_path_parts pattern) path ≡ true
    → match_path_parts (p ∷ pattern) path ≡ true
stars_intro p pattern [] e h = unfold match_path_parts in rw (is_double p e) h
stars_intro p pattern (s ∷ path) e h = elim (Bool-cases (is_empty pattern)) [
  | inl q ↦ unfold match_path_parts in rw (is_double p e, q) refl
  | inr q ↦ round_stars p s pattern path (is_double p e) q ∙ h
]

stars_elim :
    (p : Text) (pattern path : List Text)
    → p ≡ double_star
    → is_empty pattern ≡ false
    → match_path_parts (p ∷ pattern) path ≡ true
    → any_tail (match_path_parts pattern) path ≡ true
unfolding match_path_parts
stars_elim p pattern [] e q h = rw (is_double p e) at h
stars_elim p pattern (s ∷ path) e q h = sym (round_stars p s pattern path (is_double p e) q) ∙ h

stars_more :
    (p s : Text) (pattern path : List Text)
    → p ≡ double_star
    → match_path_parts (p ∷ pattern) path ≡ true
    → match_path_parts (p ∷ pattern) (s ∷ path) ≡ true
stars_more p s pattern path e h = elim (Bool-cases (is_empty pattern)) [
  | inl q ↦ unfold match_path_parts in rw (is_double p e, q) refl
  | inr q ↦
      stars_intro p pattern (s ∷ path) e
        (any_tail-tail (match_path_parts pattern) s path (stars_elim p pattern path e q h))
]

star_round :
    (p s : Text) (pattern path : List Text)
    → p ≡ star
    → match_path_parts pattern path ≡ true
    → match_path_parts (p ∷ pattern) (s ∷ path) ≡ true
star_round p s pattern path e h =
    round_star p s pattern path (unfold ◌==◌ in rw e refl) ((eq_iff p star).1 e) ∙ h

literal_round :
    (p s : Text) (pattern path : List Text)
    → p ≢ double_star
    → p ≡ s
    → match_path_parts pattern path ≡ true
    → match_path_parts (p ∷ pattern) (s ∷ path) ≡ true
literal_round p s pattern path n e h = elim (Bool-cases (p == double_star)) [
  | inl q ↦ absurd (n ((eq_iff p double_star).0 q))
  | inr q ↦ elim (Bool-cases (p == star)) [
    | inl k ↦ round_star p s pattern path q k ∙ h
    | inr k ↦ round_literal p s pattern path q k ∙ rw ((eq_iff p s).1 e) h
  ]
]

match_path_parts_complete :
    {pattern path : List Text} → Matches pattern path → match_path_parts pattern path ≡ true
match_path_parts_complete here = unfold match_path_parts in refl
match_path_parts_complete (one e m) = star_round _ _ _ _ e (match_path_parts_complete m)
match_path_parts_complete (same n e m) = literal_round _ _ _ _ n e (match_path_parts_complete m)
match_path_parts_complete (skip e m) =
    stars_intro _ _ _ e (any_tail-head _ _ (match_path_parts_complete m))
match_path_parts_complete (more e m) = stars_more _ _ _ _ e (match_path_parts_complete m)

-- The matcher of segment lists decides the relation Matches, in both directions.
pub match_path_parts_iff :
    (pattern path : List Text) → (match_path_parts pattern path ≡ true) ↔ Matches pattern path
match_path_parts_iff pattern path = (match_path_parts_sound pattern path, match_path_parts_complete)
