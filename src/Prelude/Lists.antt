-- ===== src/Prelude/Lists.antt =====
-- Lists over the native numbers, membership and Boolean quantifiers that compute.
use Prim.Native.Nat.{ℕ, zero, suc, ◌+◌}
use mathlib.Core.Path.{◌≡◌, refl, ap, subst}
use mathlib.Core.Logic.{◌↔◌, ◌⊎◌, inl, inr}
use mathlib.Core.Bool.{Bool, true, false, ◌&&◌, ◌||◌}
use mathlib.Core.List.{List, [], ◌∷◌, ◌++◌, map}
use native.Mathlib.Omega.{arith}
use kutu.Prelude.Tests.{if◌then◌else◌, Bool-cases}

module _ {ℓ} {A : Type ℓ} where
  abbrev pub length : List A → ℕ
  length [] = 0
  length (x ∷ xs) = suc (length xs)

  abbrev pub take : ℕ → List A → List A
  take zero xs = []
  take (suc n) [] = []
  take (suc n) (x ∷ xs) = x ∷ take n xs

  abbrev pub drop : ℕ → List A → List A
  drop zero xs = xs
  drop (suc n) [] = []
  drop (suc n) (x ∷ xs) = drop n xs

  pub take-append : (xs ys : List A) → take (length xs) (xs ++ ys) ≡ xs
  take-append [] ys = refl
  take-append (x ∷ xs) ys = ap (λ t. x ∷ t) (take-append xs ys)

  pub drop-append : (xs ys : List A) → drop (length xs) (xs ++ ys) ≡ ys
  drop-append [] ys = refl
  drop-append (x ∷ xs) ys = drop-append xs ys

  pub length-append : (xs ys : List A) → length (xs ++ ys) ≡ length xs + length ys
  length-append [] ys = omega arith
  length-append (x ∷ xs) ys = omega (arith, length-append xs ys)

  -- `all` and `any` as the loops of the source: they stop at the first answer.
  abbrev pub all : (A → Bool) → List A → Bool
  all p [] = true
  all p (x ∷ xs) = p x && all p xs

  abbrev pub any : (A → Bool) → List A → Bool
  any p [] = false
  any p (x ∷ xs) = p x || any p xs

  abbrev pub is_empty : List A → Bool
  is_empty [] = true
  is_empty (x ∷ xs) = false

  pub is_empty_iff : (xs : List A) → (is_empty xs ≡ true) ↔ (xs ≡ [])
  is_empty_iff [] = (λ _. refl, λ _. refl)
  is_empty_iff (x ∷ xs) = (λ h. cc h, λ h. cc h)

  abbrev pub All {κ} : (A → Type κ) → List A → Type κ
  All P [] = Unit
  All P (x ∷ xs) = P x × All P xs

  pub All-append {κ} : (P : A → Type κ) (xs ys : List A) → All P xs → All P ys → All P (xs ++ ys)
  All-append P [] ys hx hy = hy
  All-append P (x ∷ xs) ys hx hy = (hx.0, All-append P xs ys hx.1 hy)

-- Membership with its position kept, as a type that computes.
module _ {A : Type 0} where
  abbrev pub In : A → List A → Type 0
  In a [] = ⊥
  In a (x ∷ xs) = (x ≡ a) ⊎ In a xs

  pub In-append_left : (a : A) (xs ys : List A) → In a xs → In a (xs ++ ys)
  In-append_left a [] ys h = absurd h
  In-append_left a (x ∷ xs) ys (inl e) = inl e
  In-append_left a (x ∷ xs) ys (inr h) = inr (In-append_left a xs ys h)

  pub In-append_right : (a : A) (xs ys : List A) → In a ys → In a (xs ++ ys)
  In-append_right a [] ys h = h
  In-append_right a (x ∷ xs) ys h = inr (In-append_right a xs ys h)

  pub In-append : (a : A) (xs ys : List A) → In a (xs ++ ys) → In a xs ⊎ In a ys
  In-append a [] ys h = inr h
  In-append a (x ∷ xs) ys (inl e) = inl (inl e)
  In-append a (x ∷ xs) ys (inr h) = elim (In-append a xs ys h) [
    | inl l ↦ inl (inr l)
    | inr r ↦ inr r
  ]

  pub In-All : (P : A → Type 0) (a : A) (xs : List A) → All P xs → In a xs → P a
  In-All P a [] h m = absurd m
  In-All P a (x ∷ xs) h (inl e) = subst P e h.0
  In-All P a (x ∷ xs) h (inr m) = In-All P a xs h.1 m

  pub All-intro : (P : A → Type 0) (xs : List A) → ((a : A) → In a xs → P a) → All P xs
  All-intro P [] f = tt
  All-intro P (x ∷ xs) f = (f x (inl refl), All-intro P xs (λ a m. f a (inr m)))

  -- The Boolean quantifiers are the quantifiers over the members.
  pub any_iff :
      (p : A → Bool) (xs : List A) → (any p xs ≡ true) ↔ ((a : A) × In a xs × (p a ≡ true))
  any_iff p xs = (find xs, λ m. found xs m.0 m.1 m.2)
    where
      found : (ys : List A) (a : A) → In a ys → p a ≡ true → any p ys ≡ true
      found [] a h e = absurd h
      found (x ∷ ys) a (inl q) e = rw (q, e) refl
      found (x ∷ ys) a (inr h) e = rw (found ys a h e) (ground arith)

      find : (ys : List A) → any p ys ≡ true → (a : A) × In a ys × (p a ≡ true)
      find [] h = cc
      find (x ∷ ys) h = elim (Bool-cases (p x)) [
        | inl e ↦ (x, inl refl, e)
        | inr e ↦ let (a, m, q) = find ys (ground arith) in (a, inr m, q)
      ]

  pub all_iff : (p : A → Bool) (xs : List A) → (all p xs ≡ true) ↔ ((a : A) → In a xs → p a ≡ true)
  all_iff p xs = (every xs, check xs)
    where
      every : (ys : List A) → all p ys ≡ true → (a : A) → In a ys → p a ≡ true
      every [] h a m = absurd m
      every (x ∷ ys) h a (inl e) = subst (λ b. p b ≡ true) e (ground arith)
      every (x ∷ ys) h a (inr m) = every ys (ground arith) a m

      check : (ys : List A) → ((a : A) → In a ys → p a ≡ true) → all p ys ≡ true
      check [] f = refl
      check (x ∷ ys) f = rw (f x (inl refl)) (check ys (λ a m. f a (inr m)))

  unfoldable pub filter : (A → Bool) → List A → List A
  filter p [] = []
  filter p (x ∷ xs) = if p x then x ∷ filter p xs else filter p xs

  pub In-filter_iff :
      (p : A → Bool) (a : A) (xs : List A) → In a (filter p xs) ↔ (In a xs × (p a ≡ true))
  unfolding filter
  In-filter_iff p a [] = (λ h. absurd h, λ h. h.0)
  In-filter_iff p a (x ∷ xs) =
      let ih = In-filter_iff p a xs in
      elim (Bool-cases (p x)) [
        | inl e ↦ rw e (
          λ h. elim h [ inl q ↦ (inl q, rw (← q) e) | inr m ↦ (inr (ih.0 m).0, (ih.0 m).1) ],
          λ h. elim h.0 [ inl q ↦ inl q | inr m ↦ inr (ih.1 (m, h.1)) ],
        )
        | inr e ↦ rw e (
          λ h. (inr (ih.0 h).0, (ih.0 h).1),
          λ h. elim h.0 [ inl q ↦ cc | inr m ↦ ih.1 (m, h.1) ],
        )
      ]

pub In-map : {A B : Type 0} (f : A → B) (a : A) (xs : List A) → In a xs → In (f a) (map f xs)
In-map f a [] h = absurd h
In-map f a (x ∷ xs) (inl e) = inl (ap f e)
In-map f a (x ∷ xs) (inr h) = inr (In-map f a xs h)
