-- ===== src/Keys/Verifier.antt =====
-- The requests that reach keyops.go, and which verifier a key opens.
use kutu.Prelude.{
  ◌≡◌, refl, ap, subst, ◌∙◌, ◌++◌, ◌||◌, ◌==◌, Text, List, [], ◌∷◌, Option, none, some, Bool, true,
  false, not, is_empty, has_prefix,
}
use kutu.Keys.{
  Error, Result, ok, err, >>=-eq-ok, Primitives, PrimitiveLaws, Manager, new_chacha20, encrypt,
  decrypt,
}
use kutu.Keys.Cipher.{NonceSized, decrypt-encrypt}
use kutu.Keys.Store.{load_registry_tree}
use kutu.Keys.Repository.{Secrets, Repository}
use kutu.Keys.Service.{
  Server, Environment, Outcome, in_order, verifier_magic, verifier_plaintext, require, ◌>>◌,
  with_manager, derive_key_material, first_verifier, or_forbidden, check_key, opened_key, rotation,
}

-- The requests of the key endpoints, and a restart of the process.
pub data Operation : Type 0 where
  status restarted : Environment → Operation
  initialize unlocking : Environment → Text → Operation
  locking : Operation
  rotate : Environment → Text → Text → Operation

-- The encryptor of the manager, if there is one.
abbrev pub active_of : Option Manager → Option Text
active_of none = none
active_of (some m) = m.active

abbrev pub live_key : Server → Option Text
live_key s = active_of s.key_manager

pub guarded :
    {B : Type 0} (b : Bool) (e : Error) (r : Result B) (x : B)
    → (require b e >> r) ≡ ok x
    → (b ≡ true) × (r ≡ ok x)
guarded true e r x h = (refl, h)
guarded false e r x h = cc h

pub with_manager-keeps :
    (P : Server → Type 0) (operation : Manager → Server → Outcome) (s : Server) (o : Option Manager)
    → P s
    → ((m : Manager) → P (operation m s).0)
    → P (with_manager operation s o).0
unfolding with_manager
with_manager-keeps P operation s none h k = h
with_manager-keeps P operation s (some m) h k = k m

pub emptied : (v : Text) → is_empty v ≡ true → v ≡ []
emptied [] h = refl
emptied (x ∷ v) h = cc h

module _ (p : Primitives) where
  -- The key decrypts the verifier to a text that starts with the magic words.
  abbrev pub Opens : Text → Text → Type 0
  Opens key verifier =
      (plain : Text) × (decrypt p key verifier ≡ ok plain)
      × (has_prefix plain verifier_magic ≡ true)

  -- The live key, if there is one, opens the stored verifier.
  abbrev pub IsConsistent : Server → Type 0
  IsConsistent s = (k : Text) → live_key s ≡ some k → Opens k s.verifier

  decrypted : (r : Result Text) (plain : Text) → or_forbidden p r ≡ ok plain → r ≡ ok plain
  decrypted (ok x) plain h = h
  decrypted (err e) plain h = cc h

  check_key-Opens :
      (passphrase verifier enc plain : Text)
      → check_key p passphrase verifier ≡ ok (enc, plain)
      → (decrypt p enc verifier ≡ ok plain)
        × (has_prefix plain verifier_magic ≡ true)
        × (new_chacha20 (derive_key_material p passphrase) ≡ ok enc)
  unfolding check_key
  check_key-Opens passphrase verifier enc plain h =
      let (e, built, h2) =
        >>=-eq-ok (new_chacha20 (derive_key_material p passphrase)) _ {b = (enc, plain)} h in
      let (x, dec, h3) =
        >>=-eq-ok (or_forbidden p (decrypt p e verifier)) _ {b = (enc, plain)} h2 in
      let (magic, h4) = guarded (has_prefix x verifier_magic) _ _ (enc, plain) h3 in
      let same_e : e ≡ enc = cc h4 in
      let same_x : x ≡ plain = cc h4 in
      let d = decrypted (decrypt p e verifier) x dec in
      (
        subst (λ z. decrypt p z verifier ≡ ok plain) same_e (d ∙ ap ok same_x),
        subst (λ z. has_prefix z verifier_magic ≡ true) same_x magic,
        built ∙ ap ok same_e,
      )

  magic_first :
      (random : Option Text) (plain : Text)
      → verifier_plaintext random ≡ ok plain
      → has_prefix plain verifier_magic ≡ true
  unfolding verifier_plaintext has_prefix
  magic_first none plain h = cc h
  magic_first (some b) plain h =
      let same : verifier_magic ++ b ≡ plain = cc h in
      subst (λ z. has_prefix z verifier_magic ≡ true) same refl

  pub first_verifier-Opens :
      (env : Environment) (passphrase : Text) (s : Server) (enc nv : Text)
      → PrimitiveLaws p
      → NonceSized env.nonce
      → first_verifier p env passphrase s ≡ ok (enc, nv)
      → Opens enc nv
        × (new_chacha20 (derive_key_material p passphrase) ≡ ok enc)
        × (s.verifier ≡ [])
  unfolding first_verifier
  first_verifier-Opens env passphrase s enc nv laws sized h =
      let (_, h1) = guarded (not (is_empty passphrase)) _ _ (enc, nv) h in
      let (_, h2) = guarded (not env.read_fails) _ _ (enc, nv) h1 in
      let (free, h3) = guarded (is_empty s.verifier) _ _ (enc, nv) h2 in
      let (e, built, h4) =
        >>=-eq-ok (new_chacha20 (derive_key_material p passphrase)) _ {b = (enc, nv)} h3 in
      let (plain, random, h5) = >>=-eq-ok (verifier_plaintext env.random) _ {b = (enc, nv)} h4 in
      let (c, sealed, h6) = >>=-eq-ok (encrypt p e env.nonce plain) _ {b = (enc, nv)} h5 in
      let same_e : e ≡ enc = cc h6 in
      let same_c : c ≡ nv = cc h6 in
      let opens = decrypt-encrypt p laws e plain c env.nonce sized sealed in
      (
        (
          plain,
          subst (λ z. decrypt p enc z ≡ ok plain) same_c
              (subst (λ z. decrypt p z c ≡ ok plain) same_e opens),
          magic_first env.random plain random,
        ),
        built ∙ ap ok same_e,
        emptied s.verifier free,
      )

  pub opened_key-Opens :
      (env : Environment) (passphrase : Text) (s : Server) (enc plain : Text)
      → opened_key p env passphrase s ≡ ok (enc, plain)
      → Opens enc s.verifier × (new_chacha20 (derive_key_material p passphrase) ≡ ok enc)
  unfolding opened_key
  opened_key-Opens env passphrase s enc plain h =
      let (_, h1) = guarded (not (is_empty passphrase)) _ _ (enc, plain) h in
      let (_, h2) = guarded (not env.read_fails) _ _ (enc, plain) h1 in
      let (_, h3) = guarded (not (is_empty s.verifier)) _ _ (enc, plain) h2 in
      let (opens, magic, built) = check_key-Opens passphrase s.verifier enc plain h3 in
      ((plain, opens, magic), built)

  module _ (marshal : Secrets → Text) (unmarshal : Text → Secrets) where
    pub rotation-Opens :
        (env : Environment) (old_pass new_pass : Text) (s : Server) (enc nv : Text)
        → (repos : List (Text × Repository)) → PrimitiveLaws p
        → NonceSized env.nonce
        → rotation p marshal unmarshal env old_pass new_pass s ≡ ok (enc, nv, repos)
        → Opens enc nv
          × (new_chacha20 (derive_key_material p new_pass) ≡ ok enc)
          × (repos ≡ in_order (load_registry_tree p unmarshal s.key_manager s.namespaces s.rows))
    unfolding rotation
    rotation-Opens env old_pass new_pass s enc nv repos laws sized h =
        let (_, h1) =
          guarded (not (is_empty old_pass || is_empty new_pass)) _ _ (enc, nv, repos) h in
        let (_, h2) = guarded (not (old_pass == new_pass)) _ _ (enc, nv, repos) h1 in
        let (_, h3) = guarded (not env.read_fails) _ _ (enc, nv, repos) h2 in
        let (_, h4) = guarded (not (is_empty s.verifier)) _ _ (enc, nv, repos) h3 in
        let (old, checked, h5) =
          >>=-eq-ok (check_key p old_pass s.verifier) _ {b = (enc, nv, repos)} h4 in
        let (_, h6) = guarded (not env.load_fails) _ _ (enc, nv, repos) h5 in
        let (e, built, h7) =
          >>=-eq-ok (new_chacha20 (derive_key_material p new_pass)) _ {b = (enc, nv, repos)} h6 in
        let (c, sealed, h8) = >>=-eq-ok (encrypt p e env.nonce old.1) _ {b = (enc, nv, repos)} h7 in
        let (_, magic, _) = check_key-Opens old_pass s.verifier old.0 old.1 checked in
        let same_e : e ≡ enc = cc h8 in
        let same_c : c ≡ nv = cc h8 in
        let opens = decrypt-encrypt p laws e old.1 c env.nonce sized sealed in
        (
          (
            old.1,
            subst (λ z. decrypt p enc z ≡ ok old.1) same_c
                (subst (λ z. decrypt p z c ≡ ok old.1) same_e opens),
            magic,
          ),
          built ∙ ap ok same_e,
          cc h8,
        )
