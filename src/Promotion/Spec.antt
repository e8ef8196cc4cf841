-- ===== src/Promotion/Spec.antt =====
-- How a package spec is cut.
use kutu.Prelude.{
  ℕ, ◌≡◌, ◌≢◌, ◌⊎◌, inl, inr, refl, sym, ap, subst, ◌∙◌, Text, [], ◌∷◌, ◌++◌, Option, none, some,
  eqb, eqb_iff, trim_space, In, In-append_right, Bool-cases,
}
use kutu.Promotion.{around, cut_last_at, spec_of, split_package_spec}

-- The separator is at the cut and not after it.
abbrev pub IsLastCut : ℕ → Text → Text × Text → Type 0
IsLastCut sep s (a, b) = (s ≡ a ++ sep ∷ b) × (¬ In sep b)

abbrev CutLaw : ℕ → Text → Option (Text × Text) → Type 0
CutLaw sep s none = ¬ In sep s
CutLaw sep s (some x) = IsLastCut sep s x

around-CutLaw :
    (sep c : ℕ) (s : Text) (o : Option (Text × Text))
    → CutLaw sep s o
    → CutLaw sep (c ∷ s) (around sep c s o)
around-CutLaw sep c s none h = elim (Bool-cases (eqb c sep)) [
  | inl e ↦ rw e (ap (λ z. z ∷ s) ((eqb_iff c sep).0 e), h)
  | inr e ↦ rw e (λ m. elim m [ inl q ↦ (let t = (eqb_iff c sep).1 q in cc (t, e)) | inr i ↦ h i ])
]
around-CutLaw sep c s (some (a, b)) h = (ap (λ z. c ∷ z) h.0, h.1)

cut_last_at-CutLaw : (sep : ℕ) (s : Text) → CutLaw sep s (cut_last_at sep s)
unfolding cut_last_at
cut_last_at-CutLaw sep [] = λ m. absurd m
cut_last_at-CutLaw sep (c ∷ s) =
    around-CutLaw sep c s (cut_last_at sep s) (cut_last_at-CutLaw sep s)

-- Every separator of the text stands at its start.
abbrev pub OnlyLeads : ℕ → Text → Type 0
OnlyLeads sep s = (a b : Text) → s ≡ a ++ sep ∷ b → a ≡ []

abbrev pub IsSpec : Text → Text × Text → Type 0
IsSpec s r =
    ((r ≡ (s, [])) × OnlyLeads b'@' s) ⊎ ((r.0 ≢ []) × (s ≡ r.0 ++ b'@' ∷ r.1) × (¬ In b'@' r.1))

spec_of-IsSpec : (s : Text) (o : Option (Text × Text)) → CutLaw b'@' s o → IsSpec s (spec_of s o)
spec_of-IsSpec s none h = inl (
  refl,
  λ a b q. absurd (h (subst (In b'@') (sym q) (In-append_right b'@' a (b'@' ∷ b) (inl refl)))),
)
spec_of-IsSpec s (some ([], b)) h = inl (refl, leads)
  where
    leads : OnlyLeads b'@' s
    leads [] d q = refl
    leads (x ∷ a) d q =
        let same : a ++ b'@' ∷ d ≡ b = cc (sym q ∙ h.0) in
        absurd (h.1 (subst (In b'@') same (In-append_right b'@' a (b'@' ∷ d) (inl refl))))
spec_of-IsSpec s (some (c ∷ a, b)) h = inr ((λ q. cc q), h.0, h.1)

-- A package spec, without the white space around it, is cut at its last '@' into a name and a version,
-- unless every '@' stands at its start: then it is a name, and the version is empty.
pub split_package_spec-IsSpec : (spec : Text) → IsSpec (trim_space spec) (split_package_spec spec)
unfolding split_package_spec
split_package_spec-IsSpec spec =
    spec_of-IsSpec (trim_space spec) (cut_last_at b'@' (trim_space spec))
      (cut_last_at-CutLaw b'@' (trim_space spec))
