-- ===== src/Keys/Rewrap.antt =====
-- The loop of RotateServerKey over the repositories: which rows it writes and which it spares.
use kutu.Prelude.{
  ◌≡◌, ◌⊎◌, refl, sym, ap, subst, ◌∙◌, Text, List, [], ◌∷◌, Option, none, Bool, true, false,
  Bool-cases, inl, inr, In, any, if◌then◌else◌, map, ◌&&◌, ◌==◌, eq_iff,
}
use kutu.Keys.{Error, Result, ok, err, >>=-eq-ok, Primitives, Manager, storage}
use kutu.Keys.Store.{
  columns, seal_repo_secrets, repo_record, addresses, replace_rows, updated_rows, update_repository,
}
use kutu.Keys.Repository.{Repository, Secrets, Row}
use kutu.Keys.Service.{Environment, carries_credential, continue_with, rewrap}

In-replace :
    (r new : Row) (rows : List Row)
    → In r (replace_rows new rows)
    → (new ≡ r) ⊎ (In r rows × (addresses new.namespace new.name r ≡ false))
unfolding replace_rows
In-replace r new [] h = absurd h
In-replace r new (x ∷ rows) h = elim (Bool-cases (addresses new.namespace new.name x)) [
  | inl e ↦ elim (rw e at h) [ inl q ↦ inl q | inr m ↦ later (In-replace r new rows m) ]
  | inr e ↦ elim (rw e at h) [
    | inl q ↦ inr (inl q, subst (λ z. addresses new.namespace new.name z ≡ false) q e)
    | inr m ↦ later (In-replace r new rows m)
  ]
]
  where
    later :
        (new ≡ r) ⊎ (In r rows × (addresses new.namespace new.name r ≡ false))
        → (new ≡ r) ⊎ (In r (x ∷ rows) × (addresses new.namespace new.name r ≡ false))
    later (inl q) = inl q
    later (inr (m, e)) = inr (inr m, e)

-- A row at another address stays.
In-replace_other :
    (r new : Row) (rows : List Row)
    → addresses new.namespace new.name r ≡ false
    → In r rows
    → In r (replace_rows new rows)
unfolding replace_rows
In-replace_other r new [] o h = absurd h
In-replace_other r new (x ∷ rows) o (inl q) =
    let e : addresses new.namespace new.name x ≡ false =
      subst (λ z. addresses new.namespace new.name z ≡ false) (sym q) o in
    inl (rw e q)
In-replace_other r new (x ∷ rows) o (inr m) = inr (In-replace_other r new rows o m)

updated :
    (new : Row) (rows after : List Row)
    → updated_rows new rows ≡ ok after
    → replace_rows new rows ≡ after
unfolding updated_rows
updated new rows after h = elim (Bool-cases (any (addresses new.namespace new.name) rows)) [
  | inl e ↦ cc (rw e at h)
  | inr e ↦ cc (rw e at h)
]

ran :
    (written : Bool) (r : Result (List Row)) (after : List Row)
    → (if written then r else err storage) ≡ ok after
    → r ≡ ok after
ran true r after h = h
ran false r after h = cc h

-- The primary key of a row.
abbrev pub address : Row → Text × Text
address r = (r.namespace, r.name)

pub same_address :
    (ns name : Text) (r : Row) → addresses ns name r ≡ true → (r.namespace ≡ ns) × (r.name ≡ name)
same_address ns name r h =
    let (a, b) = both (r.namespace == ns) (r.name == name) h in
    ((eq_iff r.namespace ns).0 a, (eq_iff r.name name).0 b)
  where
    both : (a b : Bool) → (a && b) ≡ true → (a ≡ true) × (b ≡ true)
    both true b h = (refl, h)
    both false b h = cc h

replace_rows-addresses :
    (new : Row) (rows : List Row) → map address (replace_rows new rows) ≡ map address rows
unfolding replace_rows
replace_rows-addresses new [] = refl
replace_rows-addresses new (x ∷ rows) = elim (Bool-cases (addresses new.namespace new.name x)) [
  | inl e ↦
      let (a, b) = same_address new.namespace new.name x e in
      let back_ns = sym a in
      let back_name = sym b in
      rw e (λ i. (back_ns i, back_name i) ∷ replace_rows-addresses new rows i)
  | inr e ↦ rw e (ap (λ z. address x ∷ z) (replace_rows-addresses new rows))
]

module _ (p : Primitives) (marshal : Secrets → Text) where
  pub repo_record-address :
      (mgr : Option Manager) (fresh : Option Text) (ns : Text) (repo : Repository) (new : Row)
      → repo_record p marshal mgr fresh ns repo ≡ ok new
      → (new.namespace ≡ ns) × (new.name ≡ repo.name)
  unfolding repo_record columns
  repo_record-address mgr fresh ns repo new made =
      let (c, sealed, q) =
        >>=-eq-ok (seal_repo_secrets p marshal mgr fresh repo) _ {b = new} made in
      let same : columns ns repo c ≡ new = cc q in
      (ap (λ r. r.namespace) (sym same), ap (λ r. r.name) (sym same))

  -- What a successful update has written.
  update_written :
      (mgr : Option Manager) (fresh : Option Text) (written : Bool) (ns : Text) (repo : Repository)
      → (rows after : List Row)
      → update_repository p marshal mgr fresh written ns repo rows ≡ ok after
      → (new : Row) × (repo_record p marshal mgr fresh ns repo ≡ ok new)
        × (replace_rows new rows ≡ after)
        × (new.namespace ≡ ns)
        × (new.name ≡ repo.name)
  unfolding update_repository repo_record columns
  update_written mgr fresh written ns repo rows after h =
      let (new, made, h2) = >>=-eq-ok (repo_record p marshal mgr fresh ns repo) _ {b = after} h in
      let (c, sealed, q) =
        >>=-eq-ok (seal_repo_secrets p marshal mgr fresh repo) _ {b = new} made in
      let same : columns ns repo c ≡ new = cc q in
      (
        new,
        made,
        updated new rows after (ran written (updated_rows new rows) after h2),
        ap (λ r. r.namespace) (sym same),
        ap (λ r. r.name) (sym same),
      )

module _ (p : Primitives) (marshal : Secrets → Text) (unmarshal : Text → Secrets) where
  -- The row is written by the loop, for a repository among `repos` that carries a credential.
  abbrev pub Rewrapped : Option Manager → Environment → List (Text × Repository) → Row → Type 0
  Rewrapped mgr env repos r =
      (ns : Text) × (repo : Repository) × In {A = Text × Repository} (ns, repo) repos
      × (carries_credential repo.auth ≡ true)
      × (repo_record p marshal mgr (env.repo_nonce ns repo.name) ns repo ≡ ok r)

  -- No repository among `repos` with a credential has the address of the row.
  abbrev pub Spared : List (Text × Repository) → Row → Type 0
  Spared repos r =
      (ns : Text) (repo : Repository)
      → In {A = Text × Repository} (ns, repo) repos
      → carries_credential repo.auth ≡ true
      → addresses ns repo.name r ≡ false

  skips :
      (mgr : Option Manager) (env : Environment) (ns : Text) (repo : Repository)
      → (repos : List (Text × Repository)) (rows : List Row) → carries_credential repo.auth ≡ false
      → rewrap p marshal unmarshal mgr env ((ns, repo) ∷ repos) rows
        ≡ rewrap p marshal unmarshal mgr env repos rows
  unfolding rewrap
  skips mgr env ns repo repos rows e = rw e refl

  writes :
      (mgr : Option Manager) (env : Environment) (ns : Text) (repo : Repository)
      → (repos : List (Text × Repository)) (rows : List Row) → carries_credential repo.auth ≡ true
      → rewrap p marshal unmarshal mgr env ((ns, repo) ∷ repos) rows
        ≡ continue_with p marshal unmarshal (rewrap p marshal unmarshal mgr env repos) rows (
            update_repository p marshal mgr
              (env.repo_nonce ns repo.name)
              (env.repo_written ns repo.name)
              ns
              repo
              rows)
  unfolding rewrap
  writes mgr env ns repo repos rows e = rw e refl

  continued :
      (rest : List Row → List Row × Option Error) (rows : List Row) (r : Result (List Row))
      → (continue_with p marshal unmarshal rest rows r).1 ≡ none
      → (after : List Row) × (r ≡ ok after)
  continued rest rows (ok after) h = (after, refl)
  continued rest rows (err e) h = cc h

  continue_with-addresses :
      (rest : List Row → List Row × Option Error) (rows : List Row) (r : Result (List Row))
      → ((after : List Row) → map address (rest after).0 ≡ map address after)
      → ((after : List Row) → r ≡ ok after → map address after ≡ map address rows)
      → map address (continue_with p marshal unmarshal rest rows r).0 ≡ map address rows
  continue_with-addresses rest rows (ok after) kept step = kept after ∙ step after refl
  continue_with-addresses rest rows (err e) kept step = refl

  spared_at :
      (ns : Text) (repo : Repository) (new r : Row)
      → new.namespace ≡ ns
      → new.name ≡ repo.name
      → addresses new.namespace new.name r ≡ addresses ns repo.name r
  spared_at ns repo new r e f = λ i. addresses (e i) (f i) r

  Spared-cons :
      (ns : Text) (repo : Repository) (repos : List (Text × Repository)) (r : Row)
      → (carries_credential repo.auth ≡ true → addresses ns repo.name r ≡ false)
      → Spared repos r
      → Spared ((ns, repo) ∷ repos) r
  Spared-cons ns repo repos r here spared ns' repo' (inl q) c =
      subst (λ z. addresses z.0 z.1.name r ≡ false) q
        (here (subst (λ z. carries_credential z.1.auth ≡ true) (sym q) c))
  Spared-cons ns repo repos r here spared ns' repo' (inr z) c = spared ns' repo' z c

  -- After the loop, a row is one that the loop wrote or one that was there and whose address it spared.
  pub In-rewrap :
      (mgr : Option Manager) (env : Environment) (repos : List (Text × Repository))
      → (rows : List Row) (r : Row) → (rewrap p marshal unmarshal mgr env repos rows).1 ≡ none
      → In r (rewrap p marshal unmarshal mgr env repos rows).0
      → Rewrapped mgr env repos r ⊎ (In r rows × Spared repos r)
  In-rewrap mgr env [] rows r h i =
      let i' : In r rows = unfold rewrap in i in inr (i', λ ns repo z. absurd z)
  In-rewrap mgr env ((ns, repo) ∷ repos) rows r h i =
      elim (Bool-cases (carries_credential repo.auth)) [
        | inl e ↦
            let h' = rw (writes mgr env ns repo repos rows e) at h in
            let i' = rw (writes mgr env ns repo repos rows e) at i in
            let (after, u) = continued (rewrap p marshal unmarshal mgr env repos) rows _ h' in
            let (new, made, rep, at_ns, at_name) =
              update_written p marshal mgr (env.repo_nonce ns repo.name)
                (env.repo_written ns repo.name) ns repo rows after u in
            elim (In-rewrap mgr env repos after r (rw u at h') (rw u at i')) [
              | inl (ns', repo', m, c, w) ↦ inl (ns', repo', inr m, c, w)
              | inr (m, spared) ↦ elim (In-replace r new rows (subst (In r) (sym rep) m)) [
                | inl q ↦ inl (
                  ns,
                  repo,
                  inl refl,
                  e,
                  subst
                      (λ z. repo_record p marshal mgr (env.repo_nonce ns repo.name) ns repo ≡ ok z)
                      q made,
                )
                | inr (m', off) ↦ inr (
                  m',
                  Spared-cons ns repo repos r
                      (λ _. sym (spared_at ns repo new r at_ns at_name) ∙ off) spared,
                )
              ]
            ]
        | inr e ↦
            elim (In-rewrap mgr env repos rows r (rw (skips mgr env ns repo repos rows e) at h)
              (rw (skips mgr env ns repo repos rows e) at i)) [
                | inl (ns', repo', m, c, w) ↦ inl (ns', repo', inr m, c, w)
                | inr (m, spared) ↦ inr (m, Spared-cons ns repo repos r (λ c. cc (c, e)) spared)
              ]
      ]

  -- A row whose address the loop spares stays.
  pub rewrap-spares :
      (mgr : Option Manager) (env : Environment) (repos : List (Text × Repository))
      → (rows : List Row) (r : Row) → (rewrap p marshal unmarshal mgr env repos rows).1 ≡ none
      → Spared repos r
      → In r rows
      → In r (rewrap p marshal unmarshal mgr env repos rows).0
  rewrap-spares mgr env [] rows r h spared i = unfold rewrap in i
  rewrap-spares mgr env ((ns, repo) ∷ repos) rows r h spared i =
      elim (Bool-cases (carries_credential repo.auth)) [
        | inl e ↦
            let h' = rw (writes mgr env ns repo repos rows e) at h in
            let (after, u) = continued (rewrap p marshal unmarshal mgr env repos) rows _ h' in
            let (new, made, rep, at_ns, at_name) =
              update_written p marshal mgr (env.repo_nonce ns repo.name)
                (env.repo_written ns repo.name) ns repo rows after u in
            let off = spared_at ns repo new r at_ns at_name ∙ spared ns repo (inl refl) e in
            rw (writes mgr env ns repo repos rows e, u)
              (rewrap-spares mgr env repos after r (rw u at h')
                (λ ns' repo' m c. spared ns' repo' (inr m) c)
                (subst (In r) rep (In-replace_other r new rows off i)))
        | inr e ↦ rw (skips mgr env ns repo repos rows e) (
            rewrap-spares mgr env repos rows r (rw (skips mgr env ns repo repos rows e) at h)
              (λ ns' repo' m c. spared ns' repo' (inr m) c) i)
      ]

  -- The loop keeps the addresses of the rows, whether it ends well or not.
  pub rewrap-addresses :
      (mgr : Option Manager) (env : Environment) (repos : List (Text × Repository))
      → (rows : List Row)
      → map address (rewrap p marshal unmarshal mgr env repos rows).0 ≡ map address rows
  rewrap-addresses mgr env [] rows = unfold rewrap in refl
  rewrap-addresses mgr env ((ns, repo) ∷ repos) rows =
      elim (Bool-cases (carries_credential repo.auth)) [
        | inl e ↦
            let fresh = env.repo_nonce ns repo.name in
            let written = env.repo_written ns repo.name in
            rw (writes mgr env ns repo repos rows e) (
              continue_with-addresses (rewrap p marshal unmarshal mgr env repos) rows
                (update_repository p marshal mgr fresh written ns repo rows)
                (rewrap-addresses mgr env repos)
                (λ after u.
                  let (new, made, rep, at_ns, at_name) =
                    update_written p marshal mgr fresh written ns repo rows after u in
                  ap (map address) (sym rep) ∙ replace_rows-addresses new rows))
        | inr e ↦ rw (skips mgr env ns repo repos rows e) (rewrap-addresses mgr env repos rows)
      ]
