-- ===== src/Capabilities/Ancestors.antt =====
-- Which directories AllowsAncestor of capabilities.go lets through.
use kutu.Prelude.{
  is_empty_iff, Text, codes, List, [], ◌∷◌, Bool, true, false, ◌||◌, ◌==◌, eq_iff, any, any_iff,
  is_empty, split, trim, trim_left, ◌≡◌, ◌↔◌, refl, arith, ◌⊎◌, inl, inr, In, Bool-cases,
}
use kutu.Capabilities.{
  CapabilityPatterns, patterns_of, allows, ancestor_segments, is_ancestor_of_pattern,
  allows_ancestor, split_segments,
}

one_of :
    (a b c d : Bool)
    → ((a || b || c) || a || d) ≡ true
    → (a ≡ true) ⊎ (b ≡ true) ⊎ (c ≡ true) ⊎ (d ≡ true)
one_of true b c d h = inl refl
one_of false true c d h = inr (inl refl)
one_of false false true d h = inr (inr (inl refl))
one_of false false false d h = inr (inr (inr h))

module _ (path_match : Text → Text → Bool) where
  -- The segments of a directory on the way to what a pattern matches: each segment is matched until
  -- the directory ends before the pattern does, or the pattern's segment is "**".
  pub data LeadsTo : List Text → List Text → Type 0 where
    short : {p : Text} {pats : List Text} → LeadsTo [] (p ∷ pats)
    below : {s p : Text} {segs pats : List Text} → p ≡ codes "**" → LeadsTo (s ∷ segs) (p ∷ pats)
    step :
        {s p : Text} {segs pats : List Text}
        → path_match p s ≡ true
        → LeadsTo segs pats
        → LeadsTo (s ∷ segs) (p ∷ pats)

  ancestor_sound :
      (segs pats : List Text) → ancestor_segments path_match segs pats ≡ true → LeadsTo segs pats
  unfolding ancestor_segments
  ancestor_sound [] [] h = cc
  ancestor_sound [] (p ∷ pats) h = short
  ancestor_sound (s ∷ segs) [] h = cc
  ancestor_sound (s ∷ segs) (p ∷ pats) h = elim (Bool-cases (p == codes "**")) [
    | inl e ↦ below ((eq_iff p (codes "**")).0 e)
    | inr e ↦ elim (Bool-cases (path_match p s)) [
      | inl m ↦ step m (ancestor_sound segs pats (rw (e, m) at h))
      | inr m ↦ cc (rw (e, m) at h)
    ]
  ]

  below_any :
      (s p : Text) (segs pats : List Text)
      → p ≡ codes "**"
      → ancestor_segments path_match (s ∷ segs) (p ∷ pats) ≡ true
  unfolding ancestor_segments
  below_any s p segs pats e = rw ((eq_iff p (codes "**")).1 e) refl

  step_on :
      (s p : Text) (segs pats : List Text)
      → path_match p s ≡ true
      → ancestor_segments path_match segs pats ≡ true
      → ancestor_segments path_match (s ∷ segs) (p ∷ pats) ≡ true
  unfolding ancestor_segments
  step_on s p segs pats m h = ground (arith, m, h)

  ancestor_complete :
      {segs pats : List Text} → LeadsTo segs pats → ancestor_segments path_match segs pats ≡ true
  ancestor_complete short = unfold ancestor_segments in refl
  ancestor_complete (below e) = below_any _ _ _ _ e
  ancestor_complete (step m l) = step_on _ _ _ _ m (ancestor_complete l)

  -- A path is listed for a key exactly when the key is not restricted, the path is empty, a pattern of
  -- the key matches the path, or the path is a directory that leads to what a pattern matches.
  pub allows_ancestor_iff :
      (cp : CapabilityPatterns) (k path : Text)
      → (allows_ancestor path_match cp k path ≡ true) ↔ (
          (patterns_of cp k ≡ [])
          ⊎ (path ≡ [])
          ⊎ ((pat : Text) × In pat (patterns_of cp k)
              × ((path_match pat (trim_left path b'/') ≡ true)
                  ⊎ LeadsTo (split_segments (trim path b'/')) (split pat b'/'))))
  allows_ancestor_iff cp k path =
      unfold allows_ancestor allows is_ancestor_of_pattern in
      (
        λ h. elim (one_of none_left no_path matches leads h) [
          | inl e ↦ inl ((is_empty_iff pats).0 e)
          | inr h2 ↦ elim h2 [
            | inl e ↦ inr (inl ((is_empty_iff path).0 e))
            | inr h3 ↦ elim h3 [
              | inl e ↦ let (pat, m, y) = (any_iff matching pats).0 e in inr (inr (pat, m, inl y))
              | inr e ↦
                  let (pat, m, y) = (any_iff leading pats).0 e in
                  inr (inr (pat, m, inr (ancestor_sound segs (split pat b'/') y)))
            ]
          ]
        ],
        λ h. elim h [
          | inl e ↦ let q = (is_empty_iff pats).1 e in ground arith
          | inr h2 ↦ elim h2 [
            | inl e ↦ let q = (is_empty_iff path).1 e in ground arith
            | inr (pat, m, w) ↦ elim w [
              | inl y ↦ let q = (any_iff matching pats).1 (pat, m, y) in ground arith
              | inr l ↦
                  let q = (any_iff leading pats).1 (pat, m, ancestor_complete l) in ground arith
            ]
          ]
        ],
      )
    where
      pats : List Text
      pats = patterns_of cp k

      segs : List Text
      segs = split_segments (trim path b'/')

      matching : Text → Bool
      matching pat = path_match pat (trim_left path b'/')

      leading : Text → Bool
      leading pat = ancestor_segments path_match segs (split pat b'/')

      none_left : Bool
      none_left = is_empty pats

      no_path : Bool
      no_path = is_empty path

      matches : Bool
      matches = any matching pats

      leads : Bool
      leads = any leading pats
