-- ===== src/Capabilities/Resolve/Sources.antt =====
-- What the lists that the resolver collects contain.
use kutu.Prelude.{
  Text, List, [], ◌∷◌, ◌++◌, Option, none, some, true, not, is_empty, has, has_iff, In-filter_iff,
  if◌then◌else◌, ◌≡◌, ◌≢◌, ◌↔◌, ◌⊎◌, inl, inr, refl, sym, subst, In, In-append, In-append_left,
  In-append_right, Bool-cases,
}
use kutu.Prelude.Maps.{Map}
use kutu.Capabilities.{CapabilityPatterns}
use kutu.Capabilities.Roles.{add_roles}
use kutu.Capabilities.Resolve.{
  Permission, Database, mapped, add_keys, collect_keys, permissions_by_keys, or_no_bundles,
  subtract_denied, collect_mapped, wanted, matching,
}

-- Adding a text to the end of a list unless it is there.
In-add_once :
    (x k : Text) (xs : List Text)
    → In x (if has xs k then xs else xs ++ k ∷ []) ↔ (In x xs ⊎ (k ≡ x))
In-add_once x k xs = elim (Bool-cases (has xs k)) [
  | inl e ↦
      rw e (inl, λ h. elim h [ inl m ↦ m | inr q ↦ subst (λ z. In z xs) q ((has_iff xs k).0 e) ])
  | inr e ↦ rw e (
    λ h. elim (In-append x xs (k ∷ []) h) [
      | inl m ↦ inl m
      | inr m ↦ elim m [ inl q ↦ inr q | inr z ↦ absurd z ]
    ],
    λ h. elim h [
      | inl m ↦ In-append_left x xs (k ∷ []) m
      | inr q ↦ In-append_right x xs (k ∷ []) (inl q)
    ],
  )
]

In-add_keys : (x : Text) (ks keys : List Text) → In x (add_keys ks keys) ↔ (In x keys ⊎ In x ks)
unfolding add_keys
In-add_keys x [] keys = (inl, λ h. elim h [ inl m ↦ m | inr z ↦ absurd z ])
In-add_keys x (k ∷ ks) keys =
    let ih = In-add_keys x ks (if has keys k then keys else keys ++ k ∷ []) in
    let here = In-add_once x k keys in
    (
      λ h. elim (ih.0 h) [
        | inl m ↦ elim (here.0 m) [ inl old ↦ inl old | inr q ↦ inr (inl q) ]
        | inr m ↦ inr (inr m)
      ],
      λ h. elim h [
        | inl old ↦ ih.1 (inl (here.1 (inl old)))
        | inr m ↦ elim m [ inl q ↦ ih.1 (inl (here.1 (inr q))) | inr n ↦ ih.1 (inr n) ]
      ],
    )

-- Some bundle lists the key.
abbrev pub Lists : List Permission → Text → Type 0
Lists perms k = (p : Permission) × In p perms × In k p.keys

pub In-collect_keys :
    (x : Text) (perms : List Permission) (keys : List Text)
    → In x (collect_keys perms keys) ↔ (In x keys ⊎ Lists perms x)
unfolding collect_keys
In-collect_keys x [] keys = (inl, λ h. elim h [ inl m ↦ m | inr w ↦ absurd w.1 ])
In-collect_keys x (p ∷ perms) keys =
    let ih = In-collect_keys x perms (add_keys p.keys keys) in
    let here = In-add_keys x p.keys keys in
    (
      λ h. elim (ih.0 h) [
        | inl m ↦ elim (here.0 m) [ inl old ↦ inl old | inr l ↦ inr (p, inl refl, l) ]
        | inr (q, m, l) ↦ inr (q, inr m, l)
      ],
      λ h. elim h [
        | inl old ↦ ih.1 (inl (here.1 (inl old)))
        | inr (q, m, l) ↦ elim m [
          | inl e ↦ ih.1 (inl (here.1 (inr (subst (λ z. In x z.keys) (sym e) l))))
          | inr n ↦ ih.1 (inr (q, n, l))
        ]
      ],
    )

pub In-subtract_denied :
    (x : Text) (keys : List Text) (patterns : CapabilityPatterns) (denied : List Text)
    → In x (subtract_denied keys patterns denied).0 ↔ (In x keys × (¬ In x denied))
unfolding subtract_denied
In-subtract_denied x keys patterns [] = (λ m. (m, λ z. absurd z), λ h. h.0)
In-subtract_denied x keys patterns (d ∷ denied) =
    let here = In-filter_iff (λ k. not (has (d ∷ denied) k)) x keys in
    (
      λ m.
          let (i, t) = here.0 m in
          (i, λ bad. let t' = (has_iff (d ∷ denied) x).1 bad in cc (rw t' at t)),
      λ h. here.1 (
        h.0,
        elim (Bool-cases (has (d ∷ denied) x)) [
          | inl e ↦ absurd (h.1 ((has_iff (d ∷ denied) x).0 e))
          | inr e ↦ rw e refl
        ],
      ),
    )

In-add_roles :
    (x : Text) (roles out : List Text)
    → In x (add_roles roles out) ↔ (In x out ⊎ ((x ≢ []) × In x roles))
unfolding add_roles
In-add_roles x [] out = (inl, λ h. elim h [ inl m ↦ m | inr w ↦ absurd w.1 ])
In-add_roles x ([] ∷ roles) out =
    let ih = In-add_roles x roles out in
    (
      λ h. elim (ih.0 h) [ inl m ↦ inl m | inr w ↦ inr (w.0, inr w.1) ],
      λ h. elim h [
        | inl m ↦ ih.1 (inl m)
        | inr w ↦ elim w.1 [ inl q ↦ absurd (w.0 (sym q)) | inr n ↦ ih.1 (inr (w.0, n)) ]
      ],
    )
In-add_roles x ((c ∷ r) ∷ roles) out =
    let ih = In-add_roles x roles (if has out (c ∷ r) then out else out ++ (c ∷ r) ∷ []) in
    let here = In-add_once x (c ∷ r) out in
    (
      λ h. elim (ih.0 h) [
        | inl m ↦ elim (here.0 m) [ inl old ↦ inl old | inr q ↦ inr ((λ z. cc (q, z)), inl q) ]
        | inr w ↦ inr (w.0, inr w.1)
      ],
      λ h. elim h [
        | inl old ↦ ih.1 (inl (here.1 (inl old)))
        | inr w ↦ elim w.1 [ inl q ↦ ih.1 (inl (here.1 (inr q))) | inr n ↦ ih.1 (inr (w.0, n)) ]
      ],
    )

-- Some name is mapped to the key of a bundle.
abbrev pub Maps : Map (List Text) → List Text → Text → Type 0
Maps m names k = (name : Text) × In name names × In k (mapped m name)

pub In-collect_mapped :
    (x : Text) (m : Map (List Text)) (names out : List Text)
    → In x (collect_mapped m names out) ↔ (In x out ⊎ ((x ≢ []) × Maps m names x))
unfolding collect_mapped
In-collect_mapped x m [] out = (inl, λ h. elim h [ inl i ↦ i | inr (n, w) ↦ absurd w.1 ])
In-collect_mapped x m (name ∷ names) out =
    let ih = In-collect_mapped x m names (add_roles (mapped m name) out) in
    let here = In-add_roles x (mapped m name) out in
    (
      λ h. elim (ih.0 h) [
        | inl i ↦ elim (here.0 i) [ inl old ↦ inl old | inr w ↦ inr (w.0, (name, inl refl, w.1)) ]
        | inr (n, w) ↦ inr (n, (w.0, inr w.1, w.2))
      ],
      λ h. elim h [
        | inl old ↦ ih.1 (inl (here.1 (inl old)))
        | inr (n, w) ↦ elim w.1 [
          | inl q ↦ ih.1 (inl (here.1 (inr (n, subst (λ z. In x (mapped m z)) (sym q) w.2))))
          | inr i ↦ ih.1 (inr (n, (w.0, i, w.2)))
        ]
      ],
    )

nonempty_iff : (k : Text) → (not (is_empty k) ≡ true) ↔ (k ≢ [])
nonempty_iff [] = (λ h. cc h, λ n. absurd (n refl))
nonempty_iff (c ∷ k) = (λ _ e. cc e, λ _. refl)

In-wanted : (k : Text) (keys : List Text) → In k (wanted keys) ↔ ((k ≢ []) × In k keys)
In-wanted k keys =
    let here = In-filter_iff (λ z. not (is_empty z)) k keys in
    (
      λ m. let (i, t) = here.0 m in ((nonempty_iff k).0 t, i),
      λ h. here.1 (h.1, (nonempty_iff k).1 h.0),
    )

no_member : (ks : List Text) (k : Text) → is_empty ks ≡ true → ¬ In k ks
no_member [] k e m = absurd m
no_member (x ∷ ks) k e m = cc e

In-matching :
    (p : Permission) (keys : List Text) (o : Option (List Permission))
    → In p (or_no_bundles (matching keys o))
      ↔ ((all : List Permission) × (o ≡ some all) × In p all × (p.key ≢ []) × In p.key keys)
In-matching p keys none = (λ h. absurd h, λ w. cc w.1)
In-matching p keys (some all) =
    let here = In-filter_iff (λ (q : Permission). has (wanted keys) q.key) p all in
    (
      λ m.
          let (i, t) = here.0 m in
          let (n, k) = (In-wanted p.key keys).0 ((has_iff (wanted keys) p.key).0 t) in
          (all, refl, i, n, k),
      λ w.
          let (a, e, i, n, k) = w in
          let same : a ≡ all = cc e in
          here.1 (
            subst (λ z. In p z) same i,
            (has_iff (wanted keys) p.key).1 ((In-wanted p.key keys).1 (n, k)),
          ),
    )

pub In-permissions_by_keys :
    (p : Permission) (db : Database) (keys : List Text)
    → In p (or_no_bundles (permissions_by_keys db keys)) ↔ (
        (all : List Permission) × (db.list_permissions ≡ some all)
        × In p all
        × (p.key ≢ [])
        × In p.key keys)
unfolding permissions_by_keys
In-permissions_by_keys p db keys = elim (Bool-cases (is_empty (wanted keys))) [
  | inl e ↦ rw e (
    λ h. absurd h,
    λ w.
        let (a, f, i, n, k) = w in
        absurd (no_member (wanted keys) p.key e ((In-wanted p.key keys).1 (n, k))),
  )
  | inr e ↦ rw e (In-matching p keys db.list_permissions)
]
