-- ===== src/Keys/Credentials.antt =====
-- Which stored credentials a rotation of the server's key keeps.
use kutu.Prelude.{
  map, not, is_empty, none, ◌≡◌, ◌≢◌, ◌⊎◌, refl, sym, ap, subst, ◌∙◌, Text, [], ◌∷◌, Option, none,
  some, true, false, ◌&&◌, Bool-cases, inl, inr, In, eq_iff,
}
use kutu.Keys.{
  Error, ok, err, >>=-eq-ok, Primitives, PrimitiveLaws, Manager, decryption_failed, open_envelope,
}
use kutu.Keys.Cipher.{NonceSized, open-seal_other}
use kutu.Keys.RoundTrip.{scan_repo-repo_record, live, seals, seals_nothing}
use kutu.Keys.Store.{
  columns, repo_record, scan_repo, load_registry_tree, addresses, seal_repo_secrets, open_secrets,
}
use kutu.Keys.Repository.{
  Auth, Repository, Secrets, Row, no_secrets, meta_of, strip, restore, has_secret, secrets_of,
  unlocked,
}
use kutu.Keys.Service.{Server, Environment, carries_credential, in_order, rotate_server_key}
use kutu.Keys.Verifier.{live_key, Opens, active_of}
use kutu.Keys.Rewrap.{
  address, same_address, repo_record-address, In-rewrap, rewrap-spares, rewrap-addresses,
}
use kutu.Keys.Rotation.{IsStored, In-tree, In-tree_row, scan_repo-name, rekeyed, rotated}

-- There is no credential for the default upstream, or all its secrets are empty.
abbrev pub HasNoCredential : Option Auth → Type 0
HasNoCredential none = Unit {0}
HasNoCredential (some a) = (a.password ≡ []) × (a.token ≡ []) × (a.value ≡ [])

blank : (a : Option Auth) → carries_credential a ≡ false → HasNoCredential a
blank none h = tt
blank (some a) h = empty_fields a.password a.token a.value h
  where
    empty_fields :
        (x y z : Text)
        → not (is_empty x && is_empty y && is_empty z) ≡ false
        → (x ≡ []) × (y ≡ []) × (z ≡ [])
    empty_fields [] [] [] h = (refl, refl, refl)
    empty_fields [] [] (c ∷ z) h = cc h
    empty_fields [] (c ∷ y) z h = cc h
    empty_fields (c ∷ x) y z h = cc h

addresses_itself : (r : Row) (name : Text) → name ≡ r.name → addresses r.namespace name r ≡ true
addresses_itself r name e =
    rw ((eq_iff r.namespace r.namespace).1 refl) ((eq_iff r.name name).1 (sym e))

module _ (p : Primitives) (laws : PrimitiveLaws p) (marshal : Secrets → Text)
    (unmarshal : Text → Secrets) (read : (sec : Secrets) → unmarshal (marshal sec) ≡ sec) where
  -- Let the server be unlocked with the old key, its rows be as the database keeps them (IsStored) and
  -- the nonces have the size of the cipher's. After a successful rotation the addresses of the rows are
  -- what they were, in order, and every row now at an address either has the repository, read with the
  -- new key, that the row at the address had as the old key read it, or is the row that was there, whose
  -- repository, as the old key read it, carries no credential for its default upstream. The new key is
  -- the live one and opens the new verifier.
  pub rotate_server_key-rows :
      (env : Environment) (old_pass new_pass : Text) (s : Server) (m : Manager)
      → s.key_manager ≡ some m
      → m.active ≡ some (p.sha256 old_pass)
      → IsStored s
      → NonceSized env.nonce
      → ((ns name : Text) → NonceSized (env.repo_nonce ns name))
      → (rotate_server_key p marshal unmarshal env old_pass new_pass s).1 ≡ none
      → let t = (rotate_server_key p marshal unmarshal env old_pass new_pass s).0 in
        (live_key t ≡ some (p.sha256 new_pass))
        × Opens p (p.sha256 new_pass) t.verifier
        × (map address t.rows ≡ map address s.rows)
        × ((r : Row)
            → In r t.rows
            → (old : Row) × In old s.rows
              × (address r ≡ address old)
              × ((scan_repo p unmarshal t.key_manager r ≡ scan_repo p unmarshal s.key_manager old)
                  ⊎ ((r ≡ old) × HasNoCredential (scan_repo p unmarshal s.key_manager old).auth)))
  rotate_server_key-rows env old_pass new_pass s m managed unlocked_by stored sized all_sized h =
      let (nv, opens, inst) =
        rotated p marshal unmarshal laws env old_pass new_pass s m managed sized h in
      let (done, manager, verifier, rows) = inst in
      let tree = in_order (load_registry_tree p unmarshal s.key_manager s.namespaces s.rows) in
      let mgr : Option Manager = some (rekeyed m (p.sha256 new_pass)) in
      (
        ap active_of manager,
        subst (Opens p (p.sha256 new_pass)) (sym verifier) opens,
        ap (map address) rows ∙ rewrap-addresses p marshal unmarshal mgr env tree s.rows,
        λ r i.
            elim (In-rewrap p marshal unmarshal mgr env tree s.rows r done (subst (In r) rows i)) [
              | inl (ns, repo, in_tree, carries, made) ↦
                  let (old, j, e, at_ns) =
                    In-tree p unmarshal s.key_manager s.namespaces s.rows ns repo in_tree in
                  let back =
                    scan_repo-repo_record p laws marshal unmarshal read
                      (rekeyed m (p.sha256 new_pass)) (p.sha256 new_pass) ns
                      (env.repo_nonce ns repo.name) repo r refl (all_sized ns repo.name) made in
                  let (r_ns, r_name) =
                    repo_record-address p marshal mgr (env.repo_nonce ns repo.name) ns repo r
                      made in
                  let old_name : repo.name ≡ old.name =
                    sym (ap (λ z. z.name) e)
                    ∙ (scan_repo-name p unmarshal s.key_manager old ∙ stored.named old j) in
                  (
                    old,
                    j,
                    (λ k. ((r_ns ∙ sym at_ns) k, (r_name ∙ old_name) k)),
                    inl (
                        subst
                          (λ z. scan_repo p unmarshal z r ≡ scan_repo p unmarshal s.key_manager old)
                          (sym manager) (back ∙ sym e)),
                  )
              | inr (j, spared) ↦ (
                r,
                j,
                refl,
                elim (Bool-cases
                    (carries_credential (scan_repo p unmarshal s.key_manager r).auth)) [
                      | inl c ↦
                          let in_tree =
                            In-tree_row p unmarshal s.key_manager s.namespaces s.rows r j
                              (stored.within r j) in
                          let off =
                            spared r.namespace (scan_repo p unmarshal s.key_manager r) in_tree c in
                          let on =
                            addresses_itself r (scan_repo p unmarshal s.key_manager r).name
                              (scan_repo-name p unmarshal s.key_manager r ∙ stored.named r j) in
                          absurd (cc (off, on))
                      | inr c ↦ inr (refl, blank (scan_repo p unmarshal s.key_manager r).auth c)
                    ],
              )
            ],
      )

  opens_blank :
      (n : Manager) (c : Text) (e : Error)
      → open_envelope p (some n) c ≡ err e
      → open_secrets p unmarshal (some n) c ≡ no_secrets
  unfolding open_secrets
  opens_blank n [] e h = refl
  opens_blank n (x ∷ c) e h = elim (Bool-cases (unlocked (some n))) [
    | inl u ↦ rw (u, h) refl
    | inr u ↦ rw u refl
  ]

  -- What the old key sealed, the new one does not open.
  stays_shut :
      (m n : Manager) (k j c : Text) (fresh : Option Text) (repo : Repository)
      → m.active ≡ some k
      → n.active ≡ some j
      → j ≢ k
      → NonceSized fresh
      → seal_repo_secrets p marshal (some m) fresh repo ≡ ok c
      → open_secrets p unmarshal (some n) c ≡ no_secrets
  stays_shut m n k j c fresh repo a b d sized h = elim (Bool-cases (has_secret (secrets_of repo))) [
    | inl e ↦ opens_blank n c decryption_failed (
        open-seal_other p laws m n k j (marshal (secrets_of repo)) c fresh a b sized d (
          sym (
            seals p laws marshal unmarshal read m fresh repo
              (live p laws marshal unmarshal read m k a) e)
          ∙ h))
    | inr e ↦
        let same : [] ≡ c = cc (seals_nothing p laws marshal unmarshal read m fresh repo e, h) in
        subst (λ z. open_secrets p unmarshal (some n) z ≡ no_secrets) same
          (unfold open_secrets in refl)
  ]

  lost :
      (m n : Manager) (k j ns : Text) (fresh : Option Text) (repo : Repository) (r : Row)
      → m.active ≡ some k
      → n.active ≡ some j
      → j ≢ k
      → NonceSized fresh
      → repo_record p marshal (some m) fresh ns repo ≡ ok r
      → scan_repo p unmarshal (some n) r ≡ restore (meta_of repo.auth) no_secrets (strip repo)
  unfolding repo_record
  lost m n k j ns fresh repo r a b d sized made =
      let (c, sealed, q) =
        >>=-eq-ok (seal_repo_secrets p marshal (some m) fresh repo) _ {b = r} made in
      let same : columns ns repo c ≡ r = cc q in
      let shut = stays_shut m n k j c fresh repo a b d sized sealed in
      subst
        (λ z.
          scan_repo p unmarshal (some n) z ≡ restore (meta_of repo.auth) no_secrets (strip repo))
        same (unfold scan_repo columns in rw shut refl)

  -- A repository that carries no credential for its default upstream, but may have a signing key, a
  -- replication token or keys for its other upstreams, keeps its row in a successful rotation to another
  -- key: before it the row was read as the repository, after it the row is read without its secrets.
  pub rotate_server_key-loses :
      (env : Environment) (old_pass new_pass : Text) (s : Server) (m : Manager) (k : Text)
      → (ns : Text) (fresh : Option Text) (repo : Repository) (r : Row) → s.key_manager ≡ some m
      → m.active ≡ some k
      → p.sha256 new_pass ≢ k
      → IsStored s
      → NonceSized env.nonce
      → NonceSized fresh
      → repo_record p marshal (some m) fresh ns repo ≡ ok r
      → In r s.rows
      → carries_credential repo.auth ≡ false
      → (rotate_server_key p marshal unmarshal env old_pass new_pass s).1 ≡ none
      → let t = (rotate_server_key p marshal unmarshal env old_pass new_pass s).0 in
        In r t.rows
        × (scan_repo p unmarshal s.key_manager r ≡ repo)
        × (scan_repo p unmarshal t.key_manager r
            ≡ restore (meta_of repo.auth) no_secrets (strip repo))
  rotate_server_key-loses env old_pass new_pass s m k ns fresh repo r managed a other stored sized
        sized' made i blank h =
      let (nv, opens, inst) =
        rotated p marshal unmarshal laws env old_pass new_pass s m managed sized h in
      let (done, manager, verifier, rows) = inst in
      let back : scan_repo p unmarshal s.key_manager r ≡ repo =
        ap (λ z. scan_repo p unmarshal z r) managed
        ∙ scan_repo-repo_record p laws marshal unmarshal read m k ns fresh repo r a sized' made in
      (
        subst (In r) (sym rows) (
            rewrap-spares p marshal unmarshal (some (rekeyed m (p.sha256 new_pass))) env
              (in_order (load_registry_tree p unmarshal s.key_manager s.namespaces s.rows)) s.rows r
              done
              (λ ns' repo' tree carries. elim (Bool-cases (addresses ns' repo'.name r)) [
                | inl on ↦
                    let (old, j, e, f) =
                      In-tree p unmarshal s.key_manager s.namespaces s.rows ns' repo' tree in
                    let (at_ns, at_name) = same_address ns' repo'.name r on in
                    let name : repo'.name ≡ old.name =
                      sym (ap (λ z. z.name) e)
                      ∙ (scan_repo-name p unmarshal s.key_manager old ∙ stored.named old j) in
                    let same = stored.unique r old i j (at_ns ∙ sym f) (at_name ∙ name) in
                    let known : repo ≡ repo' =
                      sym back ∙ (ap (scan_repo p unmarshal s.key_manager) same ∙ e) in
                    cc (subst (λ z. carries_credential z.auth ≡ false) known blank, carries)
                | inr off ↦ off
              ])
              i),
        back,
        ap (λ z. scan_repo p unmarshal z r) manager
            ∙ lost m (rekeyed m (p.sha256 new_pass)) k (p.sha256 new_pass) ns fresh repo r a refl
                other sized' made,
      )
