-- ===== src/Versions/Latest.antt =====
-- Latest of pkgbase/version.go against the comparator.
use kutu.Prelude.{
  Text, List, [], ◌∷◌, true, false, is_empty, if◌then◌else◌, ◌≡◌, refl, sym, ap, subst, Bool-cases,
  inl, inr, ◌⊎◌, ◌∙◌, In, All,
}
use kutu.Versions.{Sign, less, same, more, is_more, compare_versions, latest_from, latest}
use kutu.Versions.Order.{compare_versions-IsOrder}
use kutu.Versions.Tokens.{flip, Chain}

-- `a` is at least as new as `b`.
abbrev AtLeast : Text → Text → Type 0
AtLeast a b = is_more (compare_versions b a) ≡ false

AtLeast-refl : (a : Text) → AtLeast a a
unfolding is_more
AtLeast-refl a = rw (compare_versions-IsOrder.equal a) refl

pub more-flip : (s : Sign) → is_more s ≡ true → is_more (flip s) ≡ false
unfolding is_more
more-flip less h = cc
more-flip same h = cc
more-flip more h = refl

newer-AtLeast : (a b : Text) → is_more (compare_versions a b) ≡ true → AtLeast a b
newer-AtLeast a b h =
    subst (λ s. is_more s ≡ false) (sym (compare_versions-IsOrder.flipped a b))
      (more-flip (compare_versions a b) h)

pub Chain-not_more :
    (s t r : Sign) → Chain s t r → is_more s ≡ false → is_more t ≡ false → is_more r ≡ false
unfolding is_more
Chain-not_more less less r h p q = rw h refl
Chain-not_more less same r h p q = rw h refl
Chain-not_more less more r h p q = cc
Chain-not_more same t r h p q = rw h q
Chain-not_more more t r h p q = cc

AtLeast-trans : (a b c : Text) → AtLeast a b → AtLeast b c → AtLeast a c
AtLeast-trans a b c p q =
    Chain-not_more (compare_versions c b) (compare_versions b a) (compare_versions c a)
      (compare_versions-IsOrder.chained c b a) q p

-- One of the texts read, at least as new as the first and as all the others.
abbrev IsNewest : Text → Text → List Text → Type 0
IsNewest r best vs = ((r ≡ best) ⊎ In r vs) × AtLeast r best × ((v : Text) → In v vs → AtLeast r v)

latest_from-taken :
    (best w : Text) (vs : List Text)
    → is_empty best ≡ false
    → latest_from best (w ∷ vs)
      ≡ (if is_more (compare_versions w best) then latest_from w vs else latest_from best vs)
unfolding latest_from
latest_from-taken best w vs full = rw full refl

latest_from-IsNewest :
    (best : Text) (vs : List Text)
    → is_empty best ≡ false
    → All (λ v. is_empty v ≡ false) vs
    → IsNewest (latest_from best vs) best vs
unfolding latest_from
latest_from-IsNewest best [] full each = (inl refl, AtLeast-refl best, λ v m. absurd m)
latest_from-IsNewest best (w ∷ vs) full each =
    elim (Bool-cases (is_more (compare_versions w best))) [
      | inl e ↦
          let (place, top, all) = latest_from-IsNewest w vs each.0 each.1 in
          subst (λ r. IsNewest r best (w ∷ vs))
            (sym (
              latest_from-taken best w vs full
              ∙ ap (λ c. if c then latest_from w vs else latest_from best vs) e))
            (
              inr (elim place [ inl q ↦ inl (sym q) | inr m ↦ inr m ]),
              AtLeast-trans (latest_from w vs) w best top (newer-AtLeast w best e),
              λ v m. elim m [ inl q ↦ subst (AtLeast (latest_from w vs)) q top | inr k ↦ all v k ],
            )
      | inr e ↦
          let (place, top, all) = latest_from-IsNewest best vs full each.1 in
          subst (λ r. IsNewest r best (w ∷ vs))
            (sym (
              latest_from-taken best w vs full
              ∙ ap (λ c. if c then latest_from w vs else latest_from best vs) e))
            (
              elim place [ inl q ↦ inl q | inr m ↦ inr (inr m) ],
              top,
              λ v m. elim m [
                | inl q ↦ AtLeast-trans (latest_from best vs) best v top (subst (AtLeast best) q e)
                | inr k ↦ all v k
              ],
            )
    ]

-- Of a list with at least one version, none of them the empty text, Latest returns a member that
-- compares as at least as new as every member.
pub latest-newest :
    (w : Text) (vs : List Text)
    → All (λ v. is_empty v ≡ false) (w ∷ vs)
    → In (latest (w ∷ vs)) (w ∷ vs)
      × ((v : Text) → In v (w ∷ vs) → is_more (compare_versions v (latest (w ∷ vs))) ≡ false)
unfolding latest latest_from
latest-newest w vs each =
    let (place, top, all) = latest_from-IsNewest w vs each.0 each.1 in
    (
      elim place [ inl q ↦ inl (sym q) | inr m ↦ inr m ],
      λ v m. elim m [ inl q ↦ subst (AtLeast (latest_from w vs)) q top | inr k ↦ all v k ],
    )
