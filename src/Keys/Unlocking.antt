-- ===== src/Keys/Unlocking.antt =====
-- How a passphrase that was set keeps unlocking the server.
use kutu.Prelude.{
  ◌≡◌, ◌≢◌, refl, sym, subst, ◌∙◌, Text, List, [], ◌∷◌, Option, none, some, false, not, is_empty,
  Bool-cases, inl, inr, All,
}
use kutu.Keys.{
  Result, ok, err, forbidden, Primitives, PrimitiveLaws, Manager, encrypt, lock, mark_initialized,
  unlock, new_manager,
}
use kutu.Keys.Cipher.{NonceSized, decrypt-encrypt, decrypt-encrypt_other}
use kutu.Keys.Repository.{Secrets}
use kutu.Keys.Service.{
  Server, Environment, with_manager, mark, get_key_status, first_verifier, persist_first,
  install_first, initialize_server_key, opened_key, marked, install_opened, unlock_server_key,
  lock_server_key, restart,
}
use kutu.Keys.Verifier.{
  Operation, status, restarted, initialize, unlocking, locking, rotate, live_key, Opens,
  first_verifier-Opens, guarded, with_manager-keeps, emptied,
}
use kutu.Keys.Consistent.{perform, run}
use kutu.Keys.Passphrase.{Opens-nonempty, built, decrypts-nonempty, refused, unlocks}

-- There is a manager, and the verifier is `v`.
abbrev Holds : Text → Server → Type 0
Holds v s = (s.verifier ≡ v) × ((m : Manager) × (s.key_manager ≡ some m))

-- No rotation.
abbrev pub KeepsKey : Operation → Type 0
KeepsKey (rotate env old_pass new_pass) = ⊥
KeepsKey _ = Unit {0}

first_verifier_free :
    (p : Primitives) (env : Environment) (passphrase : Text) (s : Server) (r : Text × Text)
    → first_verifier p env passphrase s ≡ ok r
    → s.verifier ≡ []
unfolding first_verifier
first_verifier_free p env passphrase s r h =
    let (_, h1) = guarded (not (is_empty passphrase)) _ _ r h in
    let (_, h2) = guarded (not env.read_fails) _ _ r h1 in
    let (free, h3) = guarded (is_empty s.verifier) _ _ r h2 in emptied s.verifier free

marked_managed : (o : Option Manager) (m : Manager) → o ≡ some m → (n : Manager) × (mark o ≡ some n)
marked_managed o m e = rw e (mark_initialized m, refl)

get_key_status-Holds :
    (env : Environment) (v : Text) (s : Server) → Holds v s → Holds v (get_key_status env s).0
unfolding get_key_status
get_key_status-Holds env v s h = elim (Bool-cases env.read_fails) [
  | inl f ↦ rw f h
  | inr f ↦ elim (Bool-cases (is_empty s.verifier)) [
    | inl e ↦ rw (f, e) h
    | inr e ↦ rw (f, e) (h.0, marked_managed s.key_manager h.1.0 h.1.1)
  ]
]

module _ (p : Primitives) (marshal : Secrets → Text) (unmarshal : Text → Secrets) where
  install_first-Holds :
      (env : Environment) (m : Manager) (v : Text) (s : Server) (r : Result (Text × Text))
      → ((x : Text × Text) → r ≢ ok x)
      → Holds v s
      → Holds v (install_first p env m s r).0
  unfolding install_first
  install_first-Holds env m v s (err e) no_key h = h
  install_first-Holds env m v s (ok x) no_key h = absurd (no_key x refl)

  install_opened-Holds :
      (m : Manager) (v : Text) (s : Server) (r : Result (Text × Text))
      → Holds v s
      → Holds v (install_opened p m s r).0
  unfolding install_opened unlock marked
  install_opened-Holds m v s (err e) h = h
  install_opened-Holds m v s (ok (enc, plain)) h = (h.0, (_, refl))

  perform-Holds :
      (o : Operation) (v : Text) (s : Server)
      → KeepsKey o
      → v ≢ []
      → Holds v s
      → Holds v (perform p marshal unmarshal o s).0
  unfolding perform
  perform-Holds (status env) v s k there h = get_key_status-Holds env v s h
  perform-Holds (restarted env) v s k there h =
      unfold restart in
      get_key_status-Holds env v (record s { key_manager = some new_manager })
        (h.0, (new_manager, refl))
  perform-Holds (initialize env pass) v s k there h =
      unfold initialize_server_key in
      with_manager-keeps (Holds v) (λ m s. install_first p env m s (first_verifier p env pass s)) s
        s.key_manager h
        λ m.
          install_first-Holds env m v s (first_verifier p env pass s)
            (λ x e. there (sym h.0 ∙ first_verifier_free p env pass s x e)) h
  perform-Holds (unlocking env pass) v s k there h =
      unfold unlock_server_key in
      with_manager-keeps (Holds v) (λ m s. install_opened p m s (opened_key p env pass s)) s
        s.key_manager h λ m. install_opened-Holds m v s (opened_key p env pass s) h
  perform-Holds locking v s k there h =
      unfold lock_server_key in
      with_manager-keeps (Holds v) (λ m s. (record s { key_manager = some (lock m) }, none)) s
        s.key_manager h (λ m. (h.0, (lock m, refl)))
  perform-Holds (rotate env old_pass new_pass) v s k there h = absurd k

  pub run-Holds :
      (operations : List Operation) (v : Text) (s : Server)
      → All KeepsKey operations
      → v ≢ []
      → Holds v s
      → Holds v (run p marshal unmarshal operations s)
  unfolding run
  run-Holds [] v s k there h = h
  run-Holds (o ∷ operations) v s k there h =
      run-Holds operations v (perform p marshal unmarshal o s).0 k.1 there
        (perform-Holds o v s k.0 there h)

  first_verifier_given :
      (env : Environment) (passphrase : Text) (s : Server) (r : Text × Text)
      → first_verifier p env passphrase s ≡ ok r
      → passphrase ≢ []
  unfolding first_verifier
  first_verifier_given env [] s r h e = cc h
  first_verifier_given env (x ∷ passphrase) s r h e = cc e

  -- What a success of the first installation has stored.
  installed :
      (env : Environment) (m : Manager) (s : Server) (r : Result (Text × Text))
      → (install_first p env m s r).1 ≡ none
      → (enc : Text) × (nv : Text) × (r ≡ ok (enc, nv)) × Holds nv (install_first p env m s r).0
  unfolding install_first persist_first unlock
  installed env m s (err e) h = cc h
  installed env m s (ok (enc, nv)) h = elim (Bool-cases env.write_fails) [
    | inl f ↦ cc (rw f at h)
    | inr f ↦ (enc, nv, refl, rw f (refl, (_, refl)))
  ]

  initialized :
      (env : Environment) (passphrase : Text) (s : Server)
      → PrimitiveLaws p
      → NonceSized env.nonce
      → (initialize_server_key p env passphrase s).1 ≡ none
      → (nv : Text) × Opens p (p.sha256 passphrase) nv
        × (passphrase ≢ [])
        × Holds nv (initialize_server_key p env passphrase s).0
  unfolding initialize_server_key with_manager
  initialized env passphrase s laws sized h = with_key s.key_manager h
    where
      with_key :
          (o : Option Manager)
          → (with_manager
              (λ m s. install_first p env m s (first_verifier p env passphrase s))
              s
              o).1
            ≡ none
          → (nv : Text) × Opens p (p.sha256 passphrase) nv
            × (passphrase ≢ [])
            × Holds nv
                (with_manager
                  (λ m s. install_first p env m s (first_verifier p env passphrase s))
                  s
                  o).0
      with_key none e = cc e
      with_key (some m) e =
          let (enc, nv, r, holds) = installed env m s (first_verifier p env passphrase s) e in
          let (opens, made, _) = first_verifier-Opens p env passphrase s enc nv laws sized r in
          let same : p.sha256 passphrase ≡ enc = cc (built p laws passphrase, made) in
          (
            nv,
            subst (λ z. Opens p z nv) (sym same) opens,
            first_verifier_given env passphrase s (enc, nv) r,
            holds,
          )

  -- Once the server was initialised with a passphrase, that passphrase unlocks it after any number of
  -- requests and restarts that do not rotate the key, failing ones included, if the verifier can be
  -- read; the live key is then the one derived from the passphrase.
  pub initialize-unlocks :
      (laws : PrimitiveLaws p)
      → (env later : Environment) (passphrase : Text) (s : Server) (operations : List Operation)
      → NonceSized env.nonce
      → (initialize_server_key p env passphrase s).1 ≡ none
      → All KeepsKey operations
      → later.read_fails ≡ false
      → let t = run p marshal unmarshal operations (initialize_server_key p env passphrase s).0 in
        ((unlock_server_key p later passphrase t).1 ≡ none)
        × (live_key (unlock_server_key p later passphrase t).0 ≡ some (p.sha256 passphrase))
  initialize-unlocks laws env later passphrase s operations sized h keeps readable =
      let (nv, opens, given, holds) = initialized env passphrase s laws sized h in
      let (same, managed) =
        run-Holds operations nv (initialize_server_key p env passphrase s).0 keeps
          (Opens-nonempty p laws _ nv opens) holds in
      unlocks p laws later passphrase _ managed.0 managed.1 given readable
        (subst (Opens p (p.sha256 passphrase)) (sym same) opens)

-- A passphrase whose key is not the one that the verifier was encrypted under is refused as forbidden,
-- and nothing changes.
pub unlock_server_key-forbidden :
    (p : Primitives)
    → (laws : PrimitiveLaws p)
    → (env : Environment) (passphrase : Text) (s : Server) (m : Manager) (k plain : Text)
    → (fresh : Option Text) → s.key_manager ≡ some m
    → passphrase ≢ []
    → env.read_fails ≡ false
    → NonceSized fresh
    → encrypt p k fresh plain ≡ ok s.verifier
    → p.sha256 passphrase ≢ k
    → unlock_server_key p env passphrase s ≡ (s, some forbidden)
unfolding unlock_server_key with_manager install_opened
unlock_server_key-forbidden p laws env passphrase s m k plain fresh managed given readable sized
      made other =
    let opens = decrypt-encrypt p laws k plain s.verifier fresh sized made in
    let there = decrypts-nonempty p laws k s.verifier plain opens in
    let shut =
      decrypt-encrypt_other p laws (p.sha256 passphrase) k plain s.verifier fresh sized other
        made in
    simp managed (rw (refused p laws env passphrase s given readable there shut) refl)
