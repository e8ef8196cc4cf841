-- ===== src/Prelude/Sort.antt =====
-- sort.SliceStable of Go's library: a stable insertion sort by a strict test, with its laws.
use mathlib.Core.List.{Perm}
use mathlib.Core.List.Perm
use kutu.Prelude.{
  Bool, true, false, List, [], ◌∷◌, if◌then◌else◌, In, All, ◌≡◌, ◌⊎◌, ◌↔◌, inl, inr, Bool-cases,
}

module _ {A : Type 0} (less : A → A → Bool) where
  -- An element goes before the first one that is not smaller than it.
  insert : A → List A → List A
  insert x [] = x ∷ []
  insert x (y ∷ ys) = let rest = insert x ys in if less y x then y ∷ rest else x ∷ y ∷ ys

  unfoldable pub sort_stable : List A → List A
  unfolding insert
  sort_stable [] = []
  sort_stable (x ∷ xs) = insert x (sort_stable xs)

  -- No later element is smaller than an earlier one.
  abbrev pub IsSorted : List A → Type 0
  IsSorted [] = Unit
  IsSorted (x ∷ xs) = All (λ y. less y x ≡ false) xs × IsSorted xs

  insert-perm : (x : A) (ys : List A) → Perm (insert x ys) (x ∷ ys)
  unfolding insert
  insert-perm x [] = Perm.refl (x ∷ [])
  insert-perm x (y ∷ ys) = elim (Bool-cases (less y x)) [
    | inl e ↦ rw e (Perm.trans (Perm.cons y (insert-perm x ys)) (Perm.swap x y ys))
    | inr e ↦ rw e (Perm.refl (x ∷ y ∷ ys))
  ]

  -- The sort permutes.
  pub sort_stable-perm : (xs : List A) → Perm (sort_stable xs) xs
  unfolding sort_stable
  sort_stable-perm [] = Perm.refl []
  sort_stable-perm (x ∷ xs) =
      Perm.trans (insert-perm x (sort_stable xs)) (Perm.cons x (sort_stable-perm xs))

  In-insert : (a x : A) (ys : List A) → In a (insert x ys) ↔ ((x ≡ a) ⊎ In a ys)
  unfolding insert
  In-insert a x [] = (λ h. h, λ h. h)
  In-insert a x (y ∷ ys) =
      let ih = In-insert a x ys in
      elim (Bool-cases (less y x)) [
        | inl e ↦ rw e (
          λ h. elim h [
            | inl q ↦ inr (inl q)
            | inr m ↦ elim (ih.0 m) [ inl q ↦ inl q | inr k ↦ inr (inr k) ]
          ],
          λ h. elim h [
            | inl q ↦ inr (ih.1 (inl q))
            | inr m ↦ elim m [ inl q ↦ inl q | inr k ↦ inr (ih.1 (inr k)) ]
          ],
        )
        | inr e ↦ rw e (λ h. h, λ h. h)
      ]

  pub In-sort_stable : (a : A) (xs : List A) → In a (sort_stable xs) ↔ In a xs
  unfolding sort_stable
  In-sort_stable a [] = (λ h. h, λ h. h)
  In-sort_stable a (x ∷ xs) =
      let ih = In-sort_stable a xs in
      let one = In-insert a x (sort_stable xs) in
      (
        λ h. elim (one.0 h) [ inl q ↦ inl q | inr m ↦ inr (ih.0 m) ],
        λ h. elim h [ inl q ↦ one.1 (inl q) | inr m ↦ one.1 (inr (ih.1 m)) ],
      )

-- With a strict weak order the result is sorted.
module _ {A : Type 0} (less : A → A → Bool) (asym : (a b : A) → less a b ≡ true → less b a ≡ false)
    (trans : (a b c : A) → less a b ≡ false → less b c ≡ false → less a c ≡ false) where
  All-insert : (P : A → Type 0) (x : A) (ys : List A) → P x → All P ys → All P (insert less x ys)
  unfolding insert
  All-insert P x [] p h = (p, tt)
  All-insert P x (y ∷ ys) p h = elim (Bool-cases (less y x)) [
    | inl e ↦ rw e (h.0, All-insert P x ys p h.1)
    | inr e ↦ rw e (p, h)
  ]

  weaken :
      (x y : A) (ys : List A)
      → less y x ≡ false
      → All (λ z. less z y ≡ false) ys
      → All (λ z. less z x ≡ false) ys
  weaken x y [] h k = tt
  weaken x y (z ∷ ys) h k = (trans z y x k.0 h, weaken x y ys h k.1)

  insert-IsSorted : (x : A) (ys : List A) → IsSorted less ys → IsSorted less (insert less x ys)
  unfolding insert
  insert-IsSorted x [] h = (tt, tt)
  insert-IsSorted x (y ∷ ys) h = elim (Bool-cases (less y x)) [
    | inl e ↦
        rw e (All-insert (λ z. less z y ≡ false) x ys (asym y x e) h.0, insert-IsSorted x ys h.1)
    | inr e ↦ rw e ((e, weaken x y ys e h.0), h)
  ]

  pub sort_stable-IsSorted : (xs : List A) → IsSorted less (sort_stable less xs)
  unfolding sort_stable
  sort_stable-IsSorted [] = tt
  sort_stable-IsSorted (x ∷ xs) = insert-IsSorted x (sort_stable less xs) (sort_stable-IsSorted xs)
