-- ===== src/Keys/Service.antt =====
-- internal/service/keyops.go: the operations on the server's key, over the manager, the verifier and
-- the stored repositories. Each returns the new state and its error. Reads and writes of the database
-- and rand.Read succeed or fail as the environment of the call says.
use kutu.Prelude.{
  Text, codes, List, [], ◌∷◌, ◌++◌, Option, none, some, Bool, true, false, ◌||◌, not, is_empty,
  ◌==◌, if◌then◌else◌, has_prefix, map,
}
use kutu.Keys.{
  Error, Result, ok, err, ◌>>=◌, internal, bad_request, conflict, forbidden, storage,
  generating_nonce, Primitives, Manager, new_manager, mark_initialized, unlock, lock, new_chacha20,
  encrypt, decrypt,
}
use kutu.Keys.Store.{load_registry_tree, update_repository}
use kutu.Keys.Repository.{Repository, Secrets, Row, Auth, no_credential}

pub record Server : Type 0 where
  pub key_manager : Option Manager
  pub verifier : Text
  pub namespaces : List Text
  pub rows : List Row

-- What a call meets: whether the reads and writes of the metadata and the read of the registry fail,
-- the 16 random bytes, the nonce of the verifier, and for each repository the nonce of its secrets and
-- whether its statement runs.
pub record Environment : Type 0 where
  pub read_fails : Bool
  pub write_fails : Bool
  pub load_fails : Bool
  pub random : Option Text
  pub nonce : Option Text
  pub repo_nonce : Text → Text → Option Text
  pub repo_written : Text → Text → Bool

abbrev pub verifier_magic : Text
verifier_magic = codes "KUTU_KEY_VERIFIER_v1|"

unfoldable pub verifier_plaintext : Option Text → Result Text
verifier_plaintext none = err generating_nonce
verifier_plaintext (some random) = ok (verifier_magic ++ random)

-- A failed condition ends the operation with the error.
abbrev pub require : Bool → Error → Result (Unit {0})
require false failure = err failure
require true failure = ok tt

infixl 5 ◌>>◌
abbrev pub ◌>>◌ : {B : Type 0} → Result (Unit {0}) → Result B → Result B
err failure >> rest = err failure
ok _ >> rest = rest

abbrev pub Outcome : Type 0
Outcome = Server × Option Error

-- The nil check with which every operation starts.
unfoldable pub with_manager : (Manager → Server → Outcome) → Server → Option Manager → Outcome
with_manager operation s none = (s, some internal)
with_manager operation s (some m) = operation m s

abbrev pub mark : Option Manager → Option Manager
mark none = none
mark (some m) = some (mark_initialized m)

-- GetKeyStatus, its effect on the manager.
unfoldable pub get_key_status : Environment → Server → Outcome
unfolding mark_initialized
get_key_status env s =
    if env.read_fails
    then (s, some storage)
    else if is_empty s.verifier
    then (s, none)
    else (record s { key_manager = mark s.key_manager }, none)

module _ (p : Primitives) where
  unfoldable pub derive_key_material : Text → Text
  derive_key_material passphrase = p.sha256 passphrase

  -- InitializeServerKey up to the first change: the encryptor and the new verifier.
  unfoldable pub first_verifier : Environment → Text → Server → Result (Text × Text)
  unfolding derive_key_material verifier_plaintext new_chacha20 encrypt
  first_verifier env passphrase s = do
    require (not (is_empty passphrase)) bad_request
    require (not env.read_fails) storage
    require (is_empty s.verifier) conflict
    enc ← new_chacha20 (derive_key_material passphrase)
    plain ← verifier_plaintext env.random
    new_verifier ← encrypt p enc env.nonce plain
    ok (enc, new_verifier)

  -- The rest: a failed write locks the manager again.
  unfoldable pub persist_first : Environment → Text → Server → Result Manager → Outcome
  unfolding lock mark_initialized
  persist_first env new_verifier s (err e) = (s, some e)
  persist_first env new_verifier s (ok m) =
      if env.write_fails
      then (record s { key_manager = some (lock m) }, some storage)
      else (record s { key_manager = some (mark_initialized m); verifier = new_verifier }, none)

  unfoldable pub install_first : Environment → Manager → Server → Result (Text × Text) → Outcome
  unfolding unlock persist_first
  install_first env m s (err e) = (s, some e)
  install_first env m s (ok (enc, new_verifier)) =
      persist_first env new_verifier s (unlock (some enc) m)

  unfoldable pub initialize_server_key : Environment → Text → Server → Outcome
  unfolding with_manager first_verifier install_first
  initialize_server_key env passphrase s =
      with_manager (λ m s. install_first env m s (first_verifier env passphrase s)) s s.key_manager

  abbrev pub or_forbidden : Result Text → Result Text
  or_forbidden (ok plain) = ok plain
  or_forbidden (err e) = err forbidden

  -- The check of a passphrase against the stored verifier: the encryptor and the plaintext.
  unfoldable pub check_key : Text → Text → Result (Text × Text)
  unfolding derive_key_material new_chacha20 decrypt has_prefix
  check_key passphrase verifier = do
    enc ← new_chacha20 (derive_key_material passphrase)
    plain ← or_forbidden (decrypt p enc verifier)
    require (has_prefix plain verifier_magic) forbidden
    ok (enc, plain)

  unfoldable pub opened_key : Environment → Text → Server → Result (Text × Text)
  unfolding check_key
  opened_key env passphrase s = do
    require (not (is_empty passphrase)) bad_request
    require (not env.read_fails) storage
    require (not (is_empty s.verifier)) bad_request
    check_key passphrase s.verifier

  unfoldable pub marked : Server → Result Manager → Outcome
  unfolding mark_initialized
  marked s (err e) = (s, some e)
  marked s (ok m) = (record s { key_manager = some (mark_initialized m) }, none)

  unfoldable pub install_opened : Manager → Server → Result (Text × Text) → Outcome
  unfolding unlock marked
  install_opened m s (err e) = (s, some e)
  install_opened m s (ok (enc, plain)) = marked s (unlock (some enc) m)

  unfoldable pub unlock_server_key : Environment → Text → Server → Outcome
  unfolding with_manager opened_key install_opened
  unlock_server_key env passphrase s =
      with_manager (λ m s. install_opened m s (opened_key env passphrase s)) s s.key_manager

-- LockServerKey
unfoldable pub lock_server_key : Server → Outcome
unfolding with_manager lock
lock_server_key s =
    with_manager (λ m s. (record s { key_manager = some (lock m) }, none)) s s.key_manager

-- The two `continue`s of the loop of RotateServerKey.
abbrev pub carries_credential : Option Auth → Bool
carries_credential none = false
carries_credential (some a) = not (no_credential a)

abbrev pub in_order : List (Text × List Repository) → List (Text × Repository)
in_order [] = []
in_order ((ns, repos) ∷ tree) = map (λ repo. (ns, repo)) repos ++ in_order tree

module _ (p : Primitives) (marshal : Secrets → Text) (unmarshal : Text → Secrets) where
  abbrev pub continue_with :
      (List Row → List Row × Option Error) → List Row → Result (List Row) → List Row × Option Error
  continue_with rest rows (err e) = (rows, some e)
  continue_with rest rows (ok rows') = rest rows'

  -- The nested loops over the repositories of the tree, in their order.
  unfoldable pub rewrap :
      Option Manager → Environment → List (Text × Repository) → List Row → List Row × Option Error
  unfolding update_repository
  rewrap mgr env [] rows = (rows, none)
  rewrap mgr env ((ns, repo) ∷ repos) rows =
      let rest = rewrap mgr env repos in
      if carries_credential repo.auth
      then continue_with rest rows (
          update_repository p marshal mgr (env.repo_nonce ns repo.name)
            (env.repo_written ns repo.name) ns repo rows)
      else rest rows

  -- RotateServerKey up to the first change: the new encryptor, the new verifier and the repositories
  -- as the current key opens them.
  unfoldable pub rotation :
      Environment → Text → Text → Server → Result (Text × Text × List (Text × Repository))
  unfolding check_key load_registry_tree derive_key_material new_chacha20 encrypt ◌==◌
  rotation env old_passphrase new_passphrase s = do
    require (not (is_empty old_passphrase || is_empty new_passphrase)) bad_request
    require (not (old_passphrase == new_passphrase)) bad_request
    require (not env.read_fails) storage
    require (not (is_empty s.verifier)) bad_request
    old ← check_key p old_passphrase s.verifier
    require (not env.load_fails) storage
    new_enc ← new_chacha20 (derive_key_material p new_passphrase)
    new_verifier ← encrypt p new_enc env.nonce old.1
    ok (
      new_enc,
      new_verifier,
      in_order (load_registry_tree p unmarshal s.key_manager s.namespaces s.rows),
    )

  unfoldable pub rewrapped : Server → List Row × Option Error → Outcome
  rewrapped s (rows, e) = (record s { rows = rows }, e)

  -- A failed write of the verifier leaves the new key installed.
  unfoldable pub persist_rotation :
      Environment → Text → List (Text × Repository) → Server → Result Manager → Outcome
  unfolding rewrap rewrapped
  persist_rotation env new_verifier repos s (err e) = (s, some e)
  persist_rotation env new_verifier repos s (ok m) =
      if env.write_fails
      then (record s { key_manager = some m }, some storage)
      else rewrapped (record s { key_manager = some m; verifier = new_verifier })
          (rewrap (some m) env repos s.rows)

  unfoldable pub install_rotation :
      Environment → Manager → Server → Result (Text × Text × List (Text × Repository)) → Outcome
  unfolding unlock persist_rotation
  install_rotation env m s (err e) = (s, some e)
  install_rotation env m s (ok (new_enc, new_verifier, repos)) =
      persist_rotation env new_verifier repos s (unlock (some new_enc) m)

  unfoldable pub rotate_server_key : Environment → Text → Text → Server → Outcome
  unfolding with_manager rotation install_rotation
  rotate_server_key env old_passphrase new_passphrase s =
      with_manager (λ m s. install_rotation env m s (rotation env old_passphrase new_passphrase s))
        s s.key_manager

-- A restart: a new manager, marked as in cmd/kutu/main.go when the verifier is there. The unlock by a
-- password of the configuration, which may come next, is an operation of its own.
unfoldable pub restart : Environment → Server → Outcome
unfolding get_key_status
restart env s = get_key_status env (record s { key_manager = some new_manager })
