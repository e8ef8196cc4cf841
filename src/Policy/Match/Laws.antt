-- ===== src/Policy/Match/Laws.antt =====
-- What the name patterns of match.go match.
use kutu.Prelude.{
  ℕ, zero, suc, ◌≤◌, ◌<◌, Text, codes, [], ◌∷◌, ◌++◌, Option, some, Bool, true, false, ◌&&◌, ◌==◌,
  eqb, length, has_prefix, trim_left, ◌≡◌, ◌↔◌, refl, ap, ◌∙◌, arith, Bool-cases, Option-cases, inl,
  inr, All,
}
use mathlib.Core.Path.{fun_ext}
use mathlib.Core.List.{append-nil, append_assoc}
use kutu.Policy.Match.{
  index_stars, any_split, matched, glob_step, glob_fuel, glob_match, match_name,
}

-- The recursive calls are on shorter patterns.
trim_left-le : (s : Text) (c : ℕ) → length (trim_left s c) ≤ length s
unfolding trim_left
trim_left-le [] c = omega arith
trim_left-le (x ∷ s) c = ground (arith, trim_left-le s c)

trim_left-lt : (s : Text) → has_prefix s (codes "**") ≡ true → length (trim_left s b'*') < length s
unfolding has_prefix trim_left
trim_left-lt [] h = cc
trim_left-lt (x ∷ s) h = ground (arith, trim_left-le s b'*')

index_stars-le : (s a b : Text) → index_stars s ≡ some (a, b) → length b ≤ length s
unfolding index_stars
index_stars-le [] a b h = cc
index_stars-le (c ∷ s) a b h = elim (Option-cases (index_stars s)) [
  | inl e ↦ ground (arith, e)
  | inr found ↦ ground (arith, found.1, index_stars-le s found.0.0 found.0.1 found.1)
]

index_stars-lt :
    (s a b : Text)
    → has_prefix s (codes "**") ≡ false
    → index_stars s ≡ some (a, b)
    → length b < length s
unfolding index_stars
index_stars-lt [] a b p h = cc
index_stars-lt (c ∷ s) a b p h = elim (Option-cases (index_stars s)) [
  | inl e ↦ cc (rw (p, e, index_stars) at h)
  | inr found ↦ ground (arith, found.1, index_stars-le s found.0.0 found.0.1 found.1)
]

module _ (path_match : Text → Text → Option Bool) where
  -- Two ways to make the recursive calls that agree on shorter patterns give the same answer.
  glob_step-ext :
      (f g : Text → Text → Bool) (pattern name : Text)
      → ((p : Text) → length p < length pattern → f p ≡ g p)
      → glob_step path_match f pattern name ≡ glob_step path_match g pattern name
  glob_step-ext f g pattern name same = elim (Bool-cases (has_prefix pattern (codes "**"))) [
    | inl e ↦
        unfold glob_step in rw (e, same (trim_left pattern b'*') (trim_left-lt pattern e)) refl
    | inr e ↦ elim (Option-cases (index_stars pattern)) [
      | inl q ↦ unfold glob_step in rw (e, q) refl
      | inr found ↦
          unfold glob_step in
          rw (e, found.1, same found.0.1 (index_stars-lt pattern found.0.0 found.0.1 e found.1))
            refl
    ]
  ]

  glob_step-found :
      (f : Text → Text → Bool) (pattern name head tail : Text)
      → has_prefix pattern (codes "**") ≡ false
      → index_stars pattern ≡ some (head, tail)
      → glob_step path_match f pattern name
        ≡ any_split (λ a b. matched (path_match head a) && f tail b) [] name
  unfolding glob_step
  glob_step-found f pattern name head tail e q = rw (e, q) refl

  glob_fuel-enough :
      (m n : ℕ) (pattern : Text)
      → length pattern < m
      → length pattern < n
      → glob_fuel path_match m pattern ≡ glob_fuel path_match n pattern
  unfolding glob_fuel
  glob_fuel-enough zero n pattern h k = absurd (omega arith)
  glob_fuel-enough (suc m) zero pattern h k = absurd (omega arith)
  glob_fuel-enough (suc m) (suc n) pattern h k = fun_ext λ name.
      glob_step-ext (glob_fuel path_match m) (glob_fuel path_match n) pattern name
        λ p l. glob_fuel-enough m n p (omega arith) (omega arith)

  -- globMatch satisfies the recursion of the source, with no fuel, at every pattern and name.
  pub glob_match-step :
      (pattern name : Text)
      → glob_match path_match pattern name
        ≡ glob_step path_match (glob_match path_match) pattern name
  unfolding glob_match
  glob_match-step pattern name =
      glob_step-ext (glob_fuel path_match (length pattern)) (glob_match path_match) pattern name
        λ p l. glob_fuel-enough (length pattern) (suc (length p)) p l (omega arith)

abbrev NoStar : Text → Type 0
NoStar head = All (λ c. eqb c b'*' ≡ false) head

index_stars-append :
    (head : Text) → NoStar head → index_stars (head ++ codes "**") ≡ some (head, codes "**")
unfolding index_stars
index_stars-append [] h = refl
index_stars-append (c ∷ head) h =
    rw (index_stars-append head h.1, has_prefix-NoStar c (head ++ codes "**") h.0) refl
  where
    has_prefix-NoStar :
        (d : ℕ) (s : Text) → eqb d b'*' ≡ false → has_prefix (d ∷ s) (codes "**") ≡ false
    has_prefix-NoStar d s e = unfold has_prefix in rw e refl

any_split-find :
    (p : Text → Text → Bool) (q s : Text)
    → any_split p q s ≡ true
    → (a : Text) × (b : Text) × (s ≡ a ++ b) × (p (q ++ a) b ≡ true)
unfolding any_split
any_split-find p q [] h = ([], [], refl, rw append-nil h)
any_split-find p q (c ∷ s) h = elim (Bool-cases (p q (c ∷ s))) [
  | inl e ↦ ([], c ∷ s, refl, rw append-nil e)
  | inr e ↦
      let (a, b, same, ok) = any_split-find p (q ++ c ∷ []) s (rw e at h) in
      (c ∷ a, b, ap (λ t. c ∷ t) same, rw append_assoc at ok)
]

any_split-found :
    (p : Text → Text → Bool) (q s a b : Text)
    → s ≡ a ++ b
    → p (q ++ a) b ≡ true
    → any_split p q s ≡ true
unfolding any_split
any_split-found p q [] [] b e h = rw (append-nil, ← e) at h
any_split-found p q [] (d ∷ a) b e h = cc
any_split-found p q (c ∷ s) [] b e h =
    let here : p q (c ∷ s) ≡ true = rw (append-nil, ← e) at h in rw here refl
any_split-found p q (c ∷ s) (d ∷ a) b e h =
    let first : d ≡ c = cc in
    let later : p ((q ++ c ∷ []) ++ a) b ≡ true = rw append_assoc (rw first at h) in
    ground (arith, any_split-found p (q ++ c ∷ []) s a b (cc) later)

module _ (path_match : Text → Text → Option Bool) where
  glob_match-stars : (b : Text) → glob_match path_match (codes "**") b ≡ true
  unfolding glob_match
  glob_match-stars b = refl

  -- The part before the stars is matched by path.Match, and the rest of the name is free.
  abbrev head_then_any : Text → Text → Text → Bool
  head_then_any head a b = matched (path_match head a) && glob_match path_match (codes "**") b

  scope-split :
      (c : ℕ) (hd name : Text)
      → NoStar (c ∷ hd)
      → match_name path_match (c ∷ hd ++ codes "**") name
        ≡ any_split (head_then_any (c ∷ hd)) [] name
  scope-split c hd name plain =
      shape ∙ (glob_match-step path_match (c ∷ hd ++ codes "**") name ∙ step)
    where
      shape :
          match_name path_match (c ∷ hd ++ codes "**") name
          ≡ glob_match path_match (c ∷ hd ++ codes "**") name
      shape = unfold match_name in unfold ◌==◌ in rw plain.0 refl

      no_stars : has_prefix (c ∷ hd ++ codes "**") (codes "**") ≡ false
      no_stars = unfold has_prefix in rw plain.0 refl

      step :
          glob_step path_match (glob_match path_match) (c ∷ hd ++ codes "**") name
          ≡ any_split (head_then_any (c ∷ hd)) [] name
      step =
          glob_step-found path_match (glob_match path_match) (c ∷ hd ++ codes "**") name (c ∷ hd)
            (codes "**") no_stars (index_stars-append (c ∷ hd) plain)

  -- A pattern that ends in "**" after a head that path.Match takes literally, such as "@acme/**",
  -- matches exactly the names that begin with the head.
  pub match_name-scope :
      (head name : Text)
      → NoStar head
      → ((x : Text) → (path_match head x ≡ some true) ↔ (x ≡ head))
      → (match_name path_match (head ++ codes "**") name ≡ true) ↔ ((s : Text) × (name ≡ head ++ s))
  match_name-scope [] name plain literal = (λ _. (name, refl), λ _. unfold match_name in refl)
  match_name-scope (c ∷ hd) name plain literal = rw (scope-split c hd name plain) (to, from)
    where
      to : any_split (head_then_any (c ∷ hd)) [] name ≡ true → (s : Text) × (name ≡ c ∷ hd ++ s)
      to h =
          let (a, b, same, ok) = any_split-find (head_then_any (c ∷ hd)) [] name h in
          let is_head : a ≡ c ∷ hd = (literal a).0 (unfold matched in ground (arith, ok)) in
          (b, same ∙ ap (λ t. t ++ b) is_head)

      from : ((s : Text) × (name ≡ c ∷ hd ++ s)) → any_split (head_then_any (c ∷ hd)) [] name ≡ true
      from (s, same) =
          any_split-found (head_then_any (c ∷ hd)) [] name (c ∷ hd) s same
            (unfold matched in rw ((literal (c ∷ hd)).1 refl, glob_match-stars s) refl)
