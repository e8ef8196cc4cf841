-- ===== src/Keys/Gate.antt =====
-- internal/server/lockgate/lockgate.go: which requests pass while the server is locked. The model
-- answers whether the next handler is called; if not, the response is a 503.
use kutu.Prelude.{
  ◌≡◌, ◌≢◌, refl, sym, ap, ◌∙◌, Text, codes, List, [], ◌∷◌, Option, none, some, Bool, true, false,
  ◌||◌, not, has, has_prefix, if◌then◌else◌, inl, inr, Bool-cases, subst, ◌==◌,
}
use kutu.Keys.{Primitives, PrimitiveLaws, Manager, is_unlocked, new_manager, mark_initialized}
use kutu.Keys.Service.{Server, Environment, get_key_status, restart, unlock_server_key}
use kutu.Keys.Verifier.{active_of, Opens}
use kutu.Keys.Consistent.{get_key_status-live_key}
use kutu.Keys.Repository.{no_secrets}
use kutu.Keys.Passphrase.{nonempty, unlocks, decrypts-nonempty}

abbrev pub gated_prefix : Text
gated_prefix = codes "/api/v1/"

abbrev pub me_prefix : Text
me_prefix = codes "/api/v1/me/"

abbrev pub allow_exact : List Text
allow_exact = codes "/api/v1/info" ∷ codes "/api/v1/key/status" ∷ codes "/api/v1/key/unlock" ∷ []

unfoldable pub passes : Option Manager → Text → Bool
unfolding is_unlocked has has_prefix
passes none path = true
passes (some m) path =
    if not m.initialized || is_unlocked m
    then true
    else if not (has_prefix path gated_prefix)
    then true
    else has allow_exact path || has_prefix path me_prefix

module _ (p : Primitives) (laws : PrimitiveLaws p) where
  restarted_manager :
      (env : Environment) (s : Server)
      → env.read_fails ≡ false
      → s.verifier ≢ []
      → (restart env s).0.key_manager ≡ some (record { active = none; initialized = true })
  unfolding restart get_key_status mark_initialized
  restarted_manager env s f there = rw (f, nonempty p laws s.verifier there) refl

  restart-verifier : (env : Environment) (s : Server) → (restart env s).0.verifier ≡ s.verifier
  unfolding restart
  restart-verifier env s =
      (get_key_status-live_key p laws (λ _. []) (λ _. no_secrets) env
        (record s { key_manager = some new_manager })).1

  locked_gate :
      (path : Text)
      → passes (some (record { active = none; initialized = true })) path
        ≡ (not (has_prefix path gated_prefix) || has allow_exact path || has_prefix path me_prefix)
  unfolding passes
  locked_gate path = elim (Bool-cases (has_prefix path gated_prefix)) [
    | inl e ↦ rw e refl
    | inr e ↦ rw e refl
  ]

  opened_gate : (o : Option Manager) (k path : Text) → active_of o ≡ some k → passes o path ≡ true
  unfolding passes
  opened_gate none k path h = refl
  opened_gate (some m) k path h = elim (Bool-cases m.initialized) [
    | inl e ↦ simp (e, h)
    | inr e ↦ simp e
  ]

  -- After a restart of a server whose verifier is stored and can be read, exactly the requests outside
  -- /api/v1/, on the list of exceptions or under /api/v1/me/ pass, the unlock request among them; an
  -- unlock with a passphrase whose key opens the verifier succeeds, and then every request passes.
  pub restart-unlock_passes :
      (env later : Environment) (passphrase : Text) (s : Server)
      → env.read_fails ≡ false
      → later.read_fails ≡ false
      → passphrase ≢ []
      → Opens p (p.sha256 passphrase) s.verifier
      → let t = (restart env s).0 in
        let u = unlock_server_key p later passphrase t in
        ((path : Text)
          → passes t.key_manager path ≡ (
              not (has_prefix path gated_prefix)
              || has allow_exact path
              || has_prefix path me_prefix))
        × (passes t.key_manager (codes "/api/v1/key/unlock") ≡ true)
        × (u.1 ≡ none)
        × ((path : Text) → passes u.0.key_manager path ≡ true)
  restart-unlock_passes env later passphrase s readable later_readable given opens =
      let there = decrypts-nonempty p laws (p.sha256 passphrase) s.verifier opens.0 opens.1 in
      let e = restarted_manager env s readable there in
      let (done, live) =
        unlocks p laws later passphrase (restart env s).0
          (record { active = none; initialized = true }) e given later_readable
          (subst (Opens p (p.sha256 passphrase)) (sym (restart-verifier env s)) opens) in
      (
        λ path. ap (λ o. passes o path) e ∙ locked_gate path,
        ap (λ o. passes o (codes "/api/v1/key/unlock")) e ∙ (unfold passes ◌==◌ in refl),
        done,
        λ path.
            opened_gate (unlock_server_key p later passphrase (restart env s).0).0.key_manager
              (p.sha256 passphrase) path live,
      )
