-- ===== src/Keys/Consistent.antt =====
-- internal/server/api/keyops.go, which calls the operations of keyops.go, and what they keep of the
-- stored verifier and the live key.
use kutu.Prelude.{
  ◌≡◌, refl, sym, subst, ◌∙◌, Text, List, [], ◌∷◌, Option, none, some, false, is_empty, Bool-cases,
  inl, inr, All,
}
use kutu.Keys.{
  Error, Result, ok, err, Primitives, PrimitiveLaws, Manager, lock, mark_initialized, unlock,
  new_manager,
}
use kutu.Keys.Cipher.{NonceSized}
use kutu.Keys.Repository.{Secrets, Repository, Row}
use kutu.Keys.Service.{
  Server, Environment, Outcome, mark, get_key_status, first_verifier, persist_first, install_first,
  initialize_server_key, opened_key, marked, install_opened, unlock_server_key, lock_server_key,
  rotation, rewrap, rewrapped, persist_rotation, install_rotation, rotate_server_key, restart,
}
use kutu.Keys.Verifier.{
  opened_key-Opens, status, restarted, initialize, unlocking, rotate, IsConsistent, Opens,
  Operation, active_of, first_verifier-Opens, live_key, locking, rotation-Opens, with_manager-keeps,
}

module _ (p : Primitives) where
  -- A live key after an operation was live before it, or opens the verifier that is stored now.
  install_first-IsConsistent :
      (env : Environment) (m : Manager) (s : Server) (r : Result (Text × Text))
      → ((enc nv : Text) → r ≡ ok (enc, nv) → Opens p enc nv)
      → IsConsistent p s
      → IsConsistent p (install_first p env m s r).0
  unfolding install_first persist_first unlock lock mark_initialized
  install_first-IsConsistent env m s (err e) opens h = h
  install_first-IsConsistent env m s (ok (enc, nv)) opens h = elim (Bool-cases env.write_fails) [
    | inl f ↦ rw f (λ k live. cc live)
    | inr f ↦ rw f (λ k live. subst (λ z. Opens p z nv) (cc live) (opens enc nv refl))
  ]

  install_opened-IsConsistent :
      (m : Manager) (s : Server) (r : Result (Text × Text))
      → ((enc plain : Text) → r ≡ ok (enc, plain) → Opens p enc s.verifier)
      → IsConsistent p s
      → IsConsistent p (install_opened p m s r).0
  unfolding install_opened marked unlock mark_initialized
  install_opened-IsConsistent m s (err e) opens h = h
  install_opened-IsConsistent m s (ok (enc, plain)) opens h =
      λ k live. subst (λ z. Opens p z s.verifier) (cc live) (opens enc plain refl)

  module _ (marshal : Secrets → Text) (unmarshal : Text → Secrets) where
    rewrapped-IsConsistent :
        (s : Server) (result : List Row × Option Error)
        → IsConsistent p s
        → IsConsistent p (rewrapped p marshal unmarshal s result).0
    unfolding rewrapped
    rewrapped-IsConsistent s (rows, e) h = h

    install_rotation-IsConsistent :
        (env : Environment) (m : Manager) (s : Server)
        → (r : Result (Text × Text × List (Text × Repository))) → env.write_fails ≡ false
        → ((enc nv : Text) (repos : List (Text × Repository))
            → r ≡ ok (enc, nv, repos)
            → Opens p enc nv)
        → IsConsistent p s
        → IsConsistent p (install_rotation p marshal unmarshal env m s r).0
    unfolding install_rotation persist_rotation unlock
    install_rotation-IsConsistent env m s (err e) f opens h = h
    install_rotation-IsConsistent env m s (ok (enc, nv, repos)) f opens h = rw f (
        rewrapped-IsConsistent
          (record s { key_manager = some (record m { active = some enc }); verifier = nv })
          (rewrap p marshal unmarshal (some (record m { active = some enc })) env repos s.rows)
          (λ k live. subst (λ z. Opens p z nv) (cc live) (opens enc nv repos refl)))

    -- What a request does to the server: the call that its handler makes once the body is read. A body that
    -- cannot be read calls nothing. One request ends before the next: two that run at the same time, which
    -- the source does not exclude, are not modelled.
    unfoldable pub perform : Operation → Server → Outcome
    unfolding get_key_status restart initialize_server_key unlock_server_key lock_server_key
        rotate_server_key
    perform (status env) s = get_key_status env s
    perform (restarted env) s = restart env s
    perform (initialize env passphrase) s = initialize_server_key p env passphrase s
    perform (unlocking env passphrase) s = unlock_server_key p env passphrase s
    perform locking s = lock_server_key s
    perform (rotate env old_pass new_pass) s =
        rotate_server_key p marshal unmarshal env old_pass new_pass s

    unfoldable pub run : List Operation → Server → Server
    unfolding perform
    run [] s = s
    run (o ∷ operations) s = run operations (perform o s).0

-- rand.Read fills the whole nonce, and the verifier of a rotation is written.
abbrev pub IsReliable : Operation → Type 0
IsReliable (initialize env passphrase) = NonceSized env.nonce
IsReliable (rotate env old_pass new_pass) = NonceSized env.nonce × (env.write_fails ≡ false)
IsReliable _ = Unit {0}

marked_same : (o : Option Manager) → active_of (mark o) ≡ active_of o
unfolding mark_initialized
marked_same none = refl
marked_same (some m) = refl

module _ (p : Primitives) (laws : PrimitiveLaws p) (marshal : Secrets → Text)
    (unmarshal : Text → Secrets) where
  pub get_key_status-live_key :
      (env : Environment) (s : Server)
      → (live_key (get_key_status env s).0 ≡ live_key s)
        × ((get_key_status env s).0.verifier ≡ s.verifier)
  unfolding get_key_status
  get_key_status-live_key env s = elim (Bool-cases env.read_fails) [
    | inl f ↦ rw f (refl, refl)
    | inr f ↦ elim (Bool-cases (is_empty s.verifier)) [
      | inl e ↦ rw (f, e) (refl, refl)
      | inr e ↦ rw (f, e) (marked_same s.key_manager, refl)
    ]
  ]

  pub perform-IsConsistent :
      (o : Operation) (s : Server)
      → IsReliable o
      → IsConsistent p s
      → IsConsistent p (perform p marshal unmarshal o s).0
  unfolding perform
  perform-IsConsistent (status env) s r h =
      let (same_key, same) = get_key_status-live_key env s in
      λ k live. subst (Opens p k) (sym same) (h k (sym same_key ∙ live))
  perform-IsConsistent (restarted env) s r h =
      unfold restart in
      let (same_key, same) =
        get_key_status-live_key env (record s { key_manager = some new_manager }) in
      λ k live. cc (sym same_key ∙ live)
  perform-IsConsistent (initialize env pass) s r h =
      unfold initialize_server_key in
      with_manager-keeps (IsConsistent p)
        (λ m s. install_first p env m s (first_verifier p env pass s)) s s.key_manager h
        λ m.
          install_first-IsConsistent p env m s (first_verifier p env pass s)
            (λ enc nv e. (first_verifier-Opens p env pass s enc nv laws r e).0) h
  perform-IsConsistent (unlocking env pass) s r h =
      unfold unlock_server_key in
      with_manager-keeps (IsConsistent p) (λ m s. install_opened p m s (opened_key p env pass s)) s
        s.key_manager h
        λ m.
          install_opened-IsConsistent p m s (opened_key p env pass s)
            (λ enc plain e. (opened_key-Opens p env pass s enc plain e).0) h
  perform-IsConsistent locking s r h =
      unfold lock_server_key lock in
      with_manager-keeps (IsConsistent p) (λ m s. (record s { key_manager = some (lock m) }, none))
        s s.key_manager h (λ m k live. cc live)
  perform-IsConsistent (rotate env old_pass new_pass) s r h =
      unfold rotate_server_key in
      with_manager-keeps (IsConsistent p)
        (λ m s.
          install_rotation p marshal unmarshal env m s
            (rotation p marshal unmarshal env old_pass new_pass s))
        s s.key_manager h
        λ m.
          install_rotation-IsConsistent p marshal unmarshal env m s
            (rotation p marshal unmarshal env old_pass new_pass s) r.1
            (λ enc nv repos e.
              (rotation-Opens p marshal unmarshal env old_pass new_pass s enc nv repos laws r.0
                e).0)
            h

  -- Starting from a server whose live key, if any, opens the stored verifier, and after any requests
  -- and restarts, failing ones included, but no failed write of the verifier in a rotation, the live
  -- key again opens the stored verifier, to a text that starts with the magic words.
  pub run-IsConsistent :
      (operations : List Operation) (s : Server)
      → All IsReliable operations
      → IsConsistent p s
      → IsConsistent p (run p marshal unmarshal operations s)
  unfolding run
  run-IsConsistent [] s r h = h
  run-IsConsistent (o ∷ operations) s r h =
      run-IsConsistent operations (perform p marshal unmarshal o s).0 r.1
        (perform-IsConsistent o s r.0 h)
