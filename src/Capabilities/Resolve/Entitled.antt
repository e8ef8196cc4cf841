-- ===== src/Capabilities/Resolve/Entitled.antt =====
-- Whom the resolver gives a capability.
use kutu.Prelude.{
  Text, List, [], none, true, false, has, has_iff, ◌≡◌, ◌≢◌, ◌↔◌, inl, inr, refl, sym, ap, subst,
  ◌∙◌, In, Bool-cases, ◌==◌, eq_iff,
}
use kutu.Capabilities.{CapabilityPatterns, known_capability_keys, token_report}
use kutu.Capabilities.Granted.{data_plane, token_report-data_plane}
use kutu.Capabilities.Resolve.{
  Identity, Permission, Settings, Database, token_provider, capabilities_from_bundles,
  subtract_denied, load_user, denied_of, is_admin, all_bundles, Reason, reported, token_reported,
  allowlist, column, none_given, resolve_detailed,
}
use kutu.Capabilities.Resolve.Sources.{In-collect_keys, In-subtract_denied}
use kutu.Capabilities.Resolve.Bundles.{Holds, In-all_bundles}

module _ (settings : Settings) (db : Database) (id : Identity) where
  abbrev by_admin : List Text × CapabilityPatterns
  by_admin = subtract_denied known_capability_keys none (denied_of (load_user db id))

  abbrev by_bundles : List Text × CapabilityPatterns
  by_bundles =
      subtract_denied (capabilities_from_bundles (all_bundles settings db id)).0
        (capabilities_from_bundles (all_bundles settings db id)).1 (denied_of (load_user db id))

  -- What the identity is entitled to.
  pub data Entitled : Text → Type 0 where
    by_token :
        {k : Text}
        → id.provider ≡ token_provider
        → In k (token_report id.token_scopes).capabilities
        → Entitled k
    by_allowlist :
        {k : Text}
        → id.provider ≢ token_provider
        → In id.subject settings.superadmins
        → In k known_capability_keys
        → Entitled k
    by_column :
        {k : Text}
        → id.provider ≢ token_provider
        → ¬ In id.subject settings.superadmins
        → is_admin (load_user db id) ≡ true
        → In k known_capability_keys
        → ¬ In k (denied_of (load_user db id))
        → Entitled k
    by_bundle :
        {k : Text} (p : Permission)
        → id.provider ≢ token_provider
        → ¬ In id.subject settings.superadmins
        → is_admin (load_user db id) ≡ false
        → Holds settings db id p
        → In k p.keys
        → ¬ In k (denied_of (load_user db id))
        → Entitled k

  for_token :
      (id.provider == token_provider) ≡ true
      → resolve_detailed settings db id ≡ token_reported id.token_scopes
  unfolding resolve_detailed
  for_token e = rw e refl

  for_allowlist :
      (id.provider == token_provider) ≡ false
      → has settings.superadmins id.subject ≡ true
      → resolve_detailed settings db id ≡ reported allowlist (known_capability_keys, none)
  unfolding resolve_detailed
  for_allowlist e f = rw e (rw f refl)

  for_column :
      (id.provider == token_provider) ≡ false
      → has settings.superadmins id.subject ≡ false
      → is_admin (load_user db id) ≡ true
      → resolve_detailed settings db id
        ≡ reported column (subtract_denied known_capability_keys none (denied_of (load_user db id)))
  unfolding resolve_detailed
  for_column e f g = rw e (rw f (rw g refl))

  for_bundles :
      (id.provider == token_provider) ≡ false
      → has settings.superadmins id.subject ≡ false
      → is_admin (load_user db id) ≡ false
      → resolve_detailed settings db id
        ≡ reported none_given (
            subtract_denied
              (capabilities_from_bundles (all_bundles settings db id)).0
              (capabilities_from_bundles (all_bundles settings db id)).1
              (denied_of (load_user db id)))
  unfolding resolve_detailed
  for_bundles e f g = rw e (rw f (rw g refl))

  reported-capabilities :
      (reason : Reason) (x : List Text × CapabilityPatterns)
      → (reported reason x).capabilities ≡ x.0
  reported-capabilities reason (keys, patterns) = refl

  same_provider : (id.provider == token_provider) ≡ true → id.provider ≡ token_provider
  same_provider e = (eq_iff id.provider token_provider).0 e

  other_provider : (id.provider == token_provider) ≡ false → id.provider ≢ token_provider
  other_provider e q = cc ((eq_iff id.provider token_provider).1 q, e)

  not_listed : has settings.superadmins id.subject ≡ false → ¬ In id.subject settings.superadmins
  not_listed e m = cc ((has_iff settings.superadmins id.subject).1 m, e)

  In-bundled :
      (k : Text)
      → In k (capabilities_from_bundles (all_bundles settings db id)).0
        ↔ ((p : Permission) × Holds settings db id p × In k p.keys)
  unfolding capabilities_from_bundles
  In-bundled k =
      let here = In-collect_keys k (all_bundles settings db id) [] in
      (
        λ h. elim (here.0 h) [
          | inl z ↦ absurd z
          | inr (p, i, m) ↦ (p, (In-all_bundles settings db id p).0 i, m)
        ],
        λ w. here.1 (inr (w.0, (In-all_bundles settings db id w.0).1 w.1, w.2)),
      )

  sound : (k : Text) → In k (resolve_detailed settings db id).capabilities → Entitled k
  sound k h = elim (Bool-cases (id.provider == token_provider)) [
    | inl e ↦ by_token (same_provider e) (subst (λ z. In k z.capabilities) (for_token e) h)
    | inr e ↦ elim (Bool-cases (has settings.superadmins id.subject)) [
      | inl f ↦
          by_allowlist (other_provider e) ((has_iff settings.superadmins id.subject).0 f)
            (subst (λ z. In k z.capabilities) (for_allowlist e f) h)
      | inr f ↦ elim (Bool-cases (is_admin (load_user db id))) [
        | inl g ↦
            let h' =
              subst (In k)
                (ap (λ z. z.capabilities) (for_column e f g)
                  ∙ reported-capabilities column by_admin)
                h in
            let (m, n) =
              (In-subtract_denied k known_capability_keys none (denied_of (load_user db id))).0
                h' in
            by_column (other_provider e) (not_listed f) g m n
        | inr g ↦
            let h' =
              subst (In k)
                (ap (λ z. z.capabilities) (for_bundles e f g)
                  ∙ reported-capabilities none_given by_bundles)
                h in
            let (m, n) =
              (In-subtract_denied k (capabilities_from_bundles (all_bundles settings db id)).0
                  (capabilities_from_bundles (all_bundles settings db id)).1
                  (denied_of (load_user db id))).0
                h' in
            let (p, holds, i) = (In-bundled k).0 m in
            by_bundle p (other_provider e) (not_listed f) g holds i n
      ]
    ]
  ]

  is_token : id.provider ≡ token_provider → (id.provider == token_provider) ≡ true
  is_token q = (eq_iff id.provider token_provider).1 q

  no_token : id.provider ≢ token_provider → (id.provider == token_provider) ≡ false
  no_token n = elim (Bool-cases (id.provider == token_provider)) [
    | inl e ↦ absurd (n (same_provider e))
    | inr e ↦ e
  ]

  unlisted : (¬ In id.subject settings.superadmins) → has settings.superadmins id.subject ≡ false
  unlisted n = elim (Bool-cases (has settings.superadmins id.subject)) [
    | inl e ↦ absurd (n ((has_iff settings.superadmins id.subject).0 e))
    | inr e ↦ e
  ]

  complete : (k : Text) → Entitled k → In k (resolve_detailed settings db id).capabilities
  complete k (by_token q m) = subst (λ z. In k z.capabilities) (sym (for_token (is_token q))) m
  complete k (by_allowlist n l m) =
      subst (λ z. In k z.capabilities)
        (sym (for_allowlist (no_token n) ((has_iff settings.superadmins id.subject).1 l))) m
  complete k (by_column n l g m d) =
      subst (In k)
        (sym (
          ap (λ z. z.capabilities) (for_column (no_token n) (unlisted l) g)
          ∙ reported-capabilities column by_admin))
        ((In-subtract_denied k known_capability_keys none (denied_of (load_user db id))).1 (m, d))
  complete k (by_bundle p n l g holds i d) =
      subst (In k)
        (sym (
          ap (λ z. z.capabilities) (for_bundles (no_token n) (unlisted l) g)
          ∙ reported-capabilities none_given by_bundles))
        ((In-subtract_denied k (capabilities_from_bundles (all_bundles settings db id)).0
            (capabilities_from_bundles (all_bundles settings db id)).1
            (denied_of (load_user db id))).1
          ((In-bundled k).1 (p, holds, i), d))

  -- An identity has a capability exactly when it is an API token whose scopes grant it; or when its
  -- subject is on the superadmin allowlist and the capability is a known one; or else, if the capability
  -- is not denied to the user, when the user is a superadmin by the database and it is a known one, or
  -- when the user is none and a bundle lists it that is assigned to the user or that a role or scope of
  -- the identity is mapped to.
  pub resolve_detailed_iff :
      (k : Text) → In k (resolve_detailed settings db id).capabilities ↔ Entitled k
  resolve_detailed_iff k = (sound k, complete k)

  -- An API token has no administrative capability, whatever its name and its user are.
  pub resolve_detailed-token :
      (k : Text)
      → id.provider ≡ token_provider
      → In k (resolve_detailed settings db id).capabilities
      → In k data_plane
  resolve_detailed-token k q h =
      token_report-data_plane id.token_scopes k
        (subst (λ z. In k z.capabilities) (for_token (is_token q)) h)
