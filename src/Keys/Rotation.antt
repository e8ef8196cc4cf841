-- ===== src/Keys/Rotation.antt =====
-- What a rotation of the server's key does to the stored repositories.
use kutu.Prelude.{
  ◌≡◌, refl, sym, ap, subst, ◌∙◌, Text, List, [], ◌∷◌, Option, none, some, true, false, Bool-cases,
  inl, inr, In, In-append, In-append_left, In-append_right, In-map, filter, In-filter_iff, map,
  ◌==◌, eq_iff,
}
use kutu.Keys.{Error, Result, ok, err, Primitives, PrimitiveLaws, Manager, unlock, storage}
use kutu.Keys.Cipher.{NonceSized}
use kutu.Keys.Store.{scan_repo, load_registry_tree}
use kutu.Keys.Repository.{Repository, Secrets, Row, restore}
use kutu.Keys.Service.{
  Server, Environment, with_manager, in_order, rewrap, rotation, rewrapped, persist_rotation,
  install_rotation, rotate_server_key,
}
use kutu.Keys.Verifier.{Opens, rotation-Opens}
use kutu.Keys.Passphrase.{built}

-- What the database keeps of its rows: the foreign key, the key, and the name in the data column.
pub record IsStored (s : Server) : Type 0 where
  pub within : (r : Row) → In r s.rows → In r.namespace s.namespaces
  pub named : (r : Row) → In r s.rows → r.data_column.name ≡ r.name
  pub unique :
      (a b : Row) → In a s.rows → In b s.rows → a.namespace ≡ b.namespace → a.name ≡ b.name → a ≡ b

In-unmap :
    {A B : Type 0} (f : A → B) (b : B) (xs : List A)
    → In b (map f xs)
    → (a : A) × In a xs × (f a ≡ b)
In-unmap f b [] h = absurd h
In-unmap f b (x ∷ xs) (inl q) = (x, inl refl, q)
In-unmap f b (x ∷ xs) (inr m) = let (a, i, e) = In-unmap f b xs m in (a, inr i, e)

-- The rows of a namespace.
abbrev here : Text → List Row → List Row
here n rows = filter (λ row. row.namespace == n) rows

module _ (p : Primitives) (unmarshal : Text → Secrets) where
  -- A repository of the tree is a row as the manager opens it.
  pub In-tree :
      (mgr : Option Manager) (namespaces : List Text) (rows : List Row) (ns : Text)
      (repo : Repository)
      → In {A = Text × Repository}
          (ns, repo)
          (in_order (load_registry_tree p unmarshal mgr namespaces rows))
      → (r : Row) × In r rows × (scan_repo p unmarshal mgr r ≡ repo) × (r.namespace ≡ ns)
  unfolding load_registry_tree
  In-tree mgr [] rows ns repo h = absurd h
  In-tree mgr (n ∷ namespaces) rows ns repo h =
      elim (In-append {A = Text × Repository} (ns, repo)
        (map (λ (x : Repository). (n, x)) (map (scan_repo p unmarshal mgr) (here n rows)))
        (in_order (load_registry_tree p unmarshal mgr namespaces rows)) h) [
          | inl m ↦
              let (x, i, e) =
                In-unmap {B = Text × Repository} (λ (x : Repository). (n, x)) (ns, repo)
                  (map (scan_repo p unmarshal mgr) (here n rows)) m in
              let (r, j, f) = In-unmap (scan_repo p unmarshal mgr) x (here n rows) i in
              let (k, t) = (In-filter_iff (λ (r : Row). r.namespace == n) r rows).0 j in
              (r, k, f ∙ ap (λ z. z.1) e, (eq_iff r.namespace n).0 t ∙ ap (λ z. z.0) e)
          | inr m ↦ In-tree mgr namespaces rows ns repo m
        ]

  pub In-tree_row :
      (mgr : Option Manager) (namespaces : List Text) (rows : List Row) (r : Row)
      → In r rows
      → In r.namespace namespaces
      → In {A = Text × Repository}
          (r.namespace, scan_repo p unmarshal mgr r)
          (in_order (load_registry_tree p unmarshal mgr namespaces rows))
  unfolding load_registry_tree
  In-tree_row mgr [] rows r i h = absurd h
  In-tree_row mgr (n ∷ namespaces) rows r i (inl q) =
      let j =
        (In-filter_iff (λ (r : Row). r.namespace == n) r rows).1
          (i, (eq_iff r.namespace n).1 (sym q)) in
      let k = In-map (scan_repo p unmarshal mgr) r (here n rows) j in
      let l =
        In-map {B = Text × Repository} (λ (x : Repository). (n, x)) (scan_repo p unmarshal mgr r)
          (map (scan_repo p unmarshal mgr) (here n rows)) k in
      In-append_left {A = Text × Repository} (r.namespace, scan_repo p unmarshal mgr r)
        (map (λ (x : Repository). (n, x)) (map (scan_repo p unmarshal mgr) (here n rows)))
        (in_order (load_registry_tree p unmarshal mgr namespaces rows))
        (subst
          (λ z.
            In {A = Text × Repository} (z, scan_repo p unmarshal mgr r)
              (map (λ (x : Repository). (n, x)) (map (scan_repo p unmarshal mgr) (here n rows))))
          q l)
  In-tree_row mgr (n ∷ namespaces) rows r i (inr m) =
      In-append_right {A = Text × Repository} (r.namespace, scan_repo p unmarshal mgr r)
        (map (λ (x : Repository). (n, x)) (map (scan_repo p unmarshal mgr) (here n rows)))
        (in_order (load_registry_tree p unmarshal mgr namespaces rows))
        (In-tree_row mgr namespaces rows r i m)

  pub scan_repo-name :
      (mgr : Option Manager) (r : Row) → (scan_repo p unmarshal mgr r).name ≡ r.data_column.name
  unfolding scan_repo restore
  scan_repo-name mgr r = refl

-- The manager after the new key is installed.
abbrev pub rekeyed : Manager → Text → Manager
rekeyed m enc = record m { active = some enc }

module _ (p : Primitives) (marshal : Secrets → Text) (unmarshal : Text → Secrets) where
  -- What a successful installation has done.
  abbrev pub Installed :
      Environment → Manager → Server → Server → Text → Text → List (Text × Repository) → Type 0
  Installed env m s t enc nv repos =
      ((rewrap p marshal unmarshal (some (rekeyed m enc)) env repos s.rows).1 ≡ none)
      × (t.key_manager ≡ some (rekeyed m enc))
      × (t.verifier ≡ nv)
      × (t.rows ≡ (rewrap p marshal unmarshal (some (rekeyed m enc)) env repos s.rows).0)

  rewrapped_as :
      (env : Environment) (m : Manager) (s : Server) (enc nv : Text)
      → (repos : List (Text × Repository)) (result : List Row × Option Error)
      → rewrap p marshal unmarshal (some (rekeyed m enc)) env repos s.rows ≡ result
      → (rewrapped p marshal unmarshal
          (record s { key_manager = some (rekeyed m enc); verifier = nv })
          result).1
        ≡ none
      → Installed env m s
          (rewrapped p marshal unmarshal
            (record s { key_manager = some (rekeyed m enc); verifier = nv })
            result).0
          enc
          nv
          repos
  unfolding rewrapped
  rewrapped_as env m s enc nv repos (rows, e) same h =
      (ap (λ z. z.1) same ∙ h, refl, refl, sym (ap (λ z. z.0) same))

  persists :
      (env : Environment) (nv : Text) (repos : List (Text × Repository)) (s : Server) (m : Manager)
      → env.write_fails ≡ false
      → persist_rotation p marshal unmarshal env nv repos s (ok m)
        ≡ rewrapped p marshal unmarshal
            (record s { key_manager = some m; verifier = nv })
            (rewrap p marshal unmarshal (some m) env repos s.rows)
  unfolding persist_rotation
  persists env nv repos s m f = simp f

  not_persisted :
      (env : Environment) (nv : Text) (repos : List (Text × Repository)) (s : Server) (m : Manager)
      → env.write_fails ≡ true
      → (persist_rotation p marshal unmarshal env nv repos s (ok m)).1 ≡ some storage
  unfolding persist_rotation
  not_persisted env nv repos s m f = simp f

  installed :
      (env : Environment) (m : Manager) (s : Server)
      → (r : Result (Text × Text × List (Text × Repository)))
      → (install_rotation p marshal unmarshal env m s r).1 ≡ none
      → (enc : Text) × (nv : Text) × (repos : List (Text × Repository)) × (r ≡ ok (enc, nv, repos))
        × Installed env m s (install_rotation p marshal unmarshal env m s r).0 enc nv repos
  unfolding install_rotation unlock
  installed env m s (err e) h = cc h
  installed env m s (ok (enc, nv, repos)) h = elim (Bool-cases env.write_fails) [
    | inl f ↦ cc (not_persisted env nv repos s (rekeyed m enc) f, h)
    | inr f ↦
        let by = persists env nv repos s (rekeyed m enc) f in
        (enc, nv, repos, refl, rw by (rewrapped_as env m s enc nv repos _ refl (rw by at h)))
  ]

  rotates_by :
      (env : Environment) (old_pass new_pass : Text) (s : Server) (m : Manager)
      → s.key_manager ≡ some m
      → rotate_server_key p marshal unmarshal env old_pass new_pass s
        ≡ install_rotation p marshal unmarshal env m s
            (rotation p marshal unmarshal env old_pass new_pass s)
  unfolding rotate_server_key with_manager
  rotates_by env old_pass new_pass s m managed =
      ap
        (with_manager
          (λ m s.
            install_rotation p marshal unmarshal env m s
              (rotation p marshal unmarshal env old_pass new_pass s))
          s)
        managed

  -- A successful rotation, seen from its result.
  pub rotated :
      (laws : PrimitiveLaws p)
      → (env : Environment) (old_pass new_pass : Text) (s : Server) (m : Manager)
      → s.key_manager ≡ some m
      → NonceSized env.nonce
      → (rotate_server_key p marshal unmarshal env old_pass new_pass s).1 ≡ none
      → (nv : Text) × Opens p (p.sha256 new_pass) nv
        × Installed env m s
            (rotate_server_key p marshal unmarshal env old_pass new_pass s).0
            (p.sha256 new_pass)
            nv
            (in_order (load_registry_tree p unmarshal s.key_manager s.namespaces s.rows))
  rotated laws env old_pass new_pass s m managed sized h =
      let by = rotates_by env old_pass new_pass s m managed in
      let (enc, nv, repos, r, done) =
        installed env m s (rotation p marshal unmarshal env old_pass new_pass s) (rw by at h) in
      let (opens, made, tree) =
        rotation-Opens p marshal unmarshal env old_pass new_pass s enc nv repos laws sized r in
      let same : enc ≡ p.sha256 new_pass = cc (built p laws new_pass, made) in
      (
        nv,
        subst (λ z. Opens p z nv) same opens,
        rw by (
            subst
              (λ z.
                Installed env m s
                  (install_rotation p marshal unmarshal env m s
                    (rotation p marshal unmarshal env old_pass new_pass s)).0
                  (p.sha256 new_pass) nv z)
              tree
              (subst
                (λ z.
                  Installed env m s
                    (install_rotation p marshal unmarshal env m s
                      (rotation p marshal unmarshal env old_pass new_pass s)).0
                    z nv repos)
                same done)),
      )
