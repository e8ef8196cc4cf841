-- ===== src/Capabilities/Resolve/Bundles.antt =====
-- Which permission bundles an identity holds.
use kutu.Prelude.{
  Text, List, [], ◌∷◌, ◌++◌, Option, none, some, Bool, true, false, ◌&&◌, is_empty, if◌then◌else◌,
  ◌≡◌, ◌≢◌, ◌↔◌, ◌⊎◌, inl, inr, refl, sym, subst, In, In-append, In-append_left, In-append_right,
  Bool-cases, Option-cases,
}
use kutu.Prelude.Maps.{Map}
use kutu.Capabilities.Resolve.{
  Identity, UserInfo, Permission, Settings, Database, permissions_by_keys, or_no_bundles,
  effective_roles, collect_mapped, mapped_permission_keys, load_user, user_bundles, all_bundles,
}
use kutu.Capabilities.Resolve.Sources.{Maps, In-collect_mapped, In-permissions_by_keys}

module _ (settings : Settings) (db : Database) (id : Identity) where
  -- The bundle is assigned to the user, or a role or a scope is mapped to its key.
  abbrev pub Holds : Permission → Type 0
  Holds p =
      ((user : UserInfo) × (bundles : List Permission) × (load_user db id ≡ some user)
        × (db.get_user_permissions user.id ≡ some bundles)
        × In p bundles)
      ⊎ ((all : List Permission) × (db.list_permissions ≡ some all)
          × In p all
          × (p.key ≢ [])
          × (Maps settings.role_mapping (effective_roles settings id) p.key
              ⊎ Maps settings.scope_mapping id.scopes p.key))

  In-user_bundles :
      (p : Permission) (o : Option UserInfo)
      → In p (user_bundles db o) ↔ (
          (user : UserInfo) × (bundles : List Permission) × (o ≡ some user)
          × (db.get_user_permissions user.id ≡ some bundles)
          × In p bundles)
  In-user_bundles p none = (λ h. absurd h, λ w. cc w.2)
  In-user_bundles p (some user) = elim (Option-cases (db.get_user_permissions user.id)) [
    | inl e ↦ (
      λ h. absurd (subst (λ z. In p (or_no_bundles z)) e h),
      λ w.
          let (u, bundles, f, g, i) = w in
          let same : u ≡ user = cc f in
          cc (subst (λ z. db.get_user_permissions z.id ≡ some bundles) same g, e),
    )
    | inr (all, e) ↦ (
      λ h. (user, all, refl, e, subst (λ z. In p (or_no_bundles z)) e h),
      λ w.
          let (u, bundles, f, g, i) = w in
          let same : u ≡ user = cc f in
          subst (λ z. In p (or_no_bundles z))
            (sym (subst (λ z. db.get_user_permissions z.id ≡ some bundles) same g)) i,
    )
  ]

  nobody :
      (names : List Text) (m : Map (List Text)) (k : Text)
      → is_empty names ≡ true
      → ¬ Maps m names k
  nobody [] m k e w = absurd w.1
  nobody (x ∷ names) m k e w = cc e

  both : (a b : Bool) → (a && b) ≡ true → (a ≡ true) × (b ≡ true)
  both true b h = (refl, h)
  both false b h = cc h

  In-mapped_permission_keys :
      (k : Text)
      → In k (mapped_permission_keys settings (effective_roles settings id) id.scopes) ↔ (
          (k ≢ [])
          × (Maps settings.role_mapping (effective_roles settings id) k
              ⊎ Maps settings.scope_mapping id.scopes k))
  unfolding mapped_permission_keys
  In-mapped_permission_keys k =
      let outer =
        In-collect_mapped k settings.scope_mapping id.scopes
          (collect_mapped settings.role_mapping (effective_roles settings id) []) in
      let inner = In-collect_mapped k settings.role_mapping (effective_roles settings id) [] in
      (
        λ h. elim (outer.0 h) [
          | inl m ↦ elim (inner.0 m) [ inl z ↦ absurd z | inr w ↦ (w.0, inl w.1) ]
          | inr w ↦ (w.0, inr w.1)
        ],
        λ w. elim w.1 [
          | inl r ↦ outer.1 (inl (inner.1 (inr (w.0, r))))
          | inr s ↦ outer.1 (inr (w.0, s))
        ],
      )

  mapped_bundles : List Permission
  mapped_bundles = or_no_bundles (
      permissions_by_keys db
        (mapped_permission_keys settings (effective_roles settings id) id.scopes))

  In-mapped_bundles :
      (p : Permission)
      → In p mapped_bundles ↔ (
          (all : List Permission) × (db.list_permissions ≡ some all)
          × In p all
          × (p.key ≢ [])
          × (Maps settings.role_mapping (effective_roles settings id) p.key
              ⊎ Maps settings.scope_mapping id.scopes p.key))
  unfolding mapped_bundles
  In-mapped_bundles p =
      let all_keys = mapped_permission_keys settings (effective_roles settings id) id.scopes in
      let here = In-permissions_by_keys p db all_keys in
      let keys = In-mapped_permission_keys p.key in
      (
        λ h. let (all, e, i, n, k) = here.0 h in (all, e, i, n, (keys.0 k).1),
        λ w. let (all, e, i, n, m) = w in here.1 (all, e, i, n, keys.1 (n, m)),
      )

  bundles_if : List Permission
  bundles_if =
      if is_empty (effective_roles settings id) && is_empty id.scopes then [] else mapped_bundles

  In-bundles_if : (p : Permission) → In p bundles_if ↔ In p mapped_bundles
  unfolding bundles_if
  In-bundles_if p =
      elim (Bool-cases (is_empty (effective_roles settings id) && is_empty id.scopes)) [
        | inl e ↦
            let (r, s) = both (is_empty (effective_roles settings id)) (is_empty id.scopes) e in
            rw e (
              λ h. absurd h,
              λ h.
                  let (all, f, i, n, m) = (In-mapped_bundles p).0 h in
                  elim m [
                    | inl w ↦ nobody (effective_roles settings id) settings.role_mapping p.key r w
                    | inr w ↦ nobody id.scopes settings.scope_mapping p.key s w
                  ],
            )
        | inr e ↦ rw e (λ h. h, λ h. h)
      ]

  all_bundles_lem : all_bundles settings db id ≡ user_bundles db (load_user db id) ++ bundles_if
  unfolding all_bundles bundles_if mapped_bundles
  all_bundles_lem = refl

  pub In-all_bundles : (p : Permission) → In p (all_bundles settings db id) ↔ Holds p
  In-all_bundles p =
      let mine = In-user_bundles p (load_user db id) in
      rw all_bundles_lem (
        λ h. elim (In-append p (user_bundles db (load_user db id)) bundles_if h) [
          | inl m ↦ inl (mine.0 m)
          | inr m ↦ inr ((In-mapped_bundles p).0 ((In-bundles_if p).0 m))
        ],
        λ h. elim h [
          | inl w ↦ In-append_left p (user_bundles db (load_user db id)) bundles_if (mine.1 w)
          | inr w ↦
              In-append_right p (user_bundles db (load_user db id)) bundles_if
                ((In-bundles_if p).1 ((In-mapped_bundles p).1 w))
        ],
      )
