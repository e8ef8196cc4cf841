-- ===== src/Keys/Passphrase.antt =====
-- A passphrase against the stored verifier.
use kutu.Prelude.{◌≡◌, ◌≢◌, refl, subst, Text, [], ◌∷◌, none, some, false, is_empty, arith}
use kutu.Keys.{
  ok, err, forbidden, decryption_failed, Primitives, PrimitiveLaws, Manager, new_chacha20, decrypt,
  mark_initialized, unlock,
}
use kutu.Keys.Service.{
  Server, Environment, with_manager, derive_key_material, check_key, opened_key, marked,
  install_opened, unlock_server_key,
}
use kutu.Keys.Verifier.{live_key, Opens}

module _ (p : Primitives) (laws : PrimitiveLaws p) where
  pub built :
      (passphrase : Text)
      → new_chacha20 (derive_key_material p passphrase) ≡ ok (p.sha256 passphrase)
  unfolding new_chacha20 derive_key_material
  built passphrase = rw (laws.sha256_size passphrase) refl

  check_key_opens :
      (passphrase verifier : Text)
      → (o : Opens p (p.sha256 passphrase) verifier)
      → check_key p passphrase verifier ≡ ok (p.sha256 passphrase, o.0)
  unfolding check_key
  check_key_opens passphrase verifier (plain, dec, magic) = rw (built passphrase, dec, magic) refl

  pub nonempty : (v : Text) → v ≢ [] → is_empty v ≡ false
  nonempty [] h = absurd (h refl)
  nonempty (x ∷ v) h = refl

  opened_key_opens :
      (env : Environment) (passphrase : Text) (s : Server)
      → passphrase ≢ []
      → env.read_fails ≡ false
      → s.verifier ≢ []
      → (o : Opens p (p.sha256 passphrase) s.verifier)
      → opened_key p env passphrase s ≡ ok (p.sha256 passphrase, o.0)
  unfolding opened_key
  opened_key_opens env passphrase s given readable there o =
      rw (nonempty passphrase given, readable, nonempty s.verifier there)
        (check_key_opens passphrase s.verifier o)

  -- An empty text is no ciphertext of any key.
  pub decrypts-nonempty : (k v plain : Text) → decrypt p k v ≡ ok plain → v ≢ []
  unfolding decrypt
  decrypts-nonempty k v plain o e =
      let o' = subst (λ z. decrypt p k z ≡ ok plain) e o in ground arith

  pub Opens-nonempty : (k v : Text) → Opens p k v → v ≢ []
  Opens-nonempty k v o = decrypts-nonempty k v o.0 o.1

  pub refused :
      (env : Environment) (passphrase : Text) (s : Server)
      → passphrase ≢ []
      → env.read_fails ≡ false
      → s.verifier ≢ []
      → decrypt p (p.sha256 passphrase) s.verifier ≡ err decryption_failed
      → opened_key p env passphrase s ≡ err forbidden
  unfolding opened_key check_key
  refused env passphrase s given readable there shut =
      rw (nonempty passphrase given, readable, nonempty s.verifier there, built passphrase, shut)
        refl

  pub unlocks :
      (env : Environment) (passphrase : Text) (s : Server) (m : Manager)
      → s.key_manager ≡ some m
      → passphrase ≢ []
      → env.read_fails ≡ false
      → Opens p (p.sha256 passphrase) s.verifier
      → ((unlock_server_key p env passphrase s).1 ≡ none)
        × (live_key (unlock_server_key p env passphrase s).0 ≡ some (p.sha256 passphrase))
  unfolding unlock_server_key with_manager install_opened marked unlock mark_initialized
  unlocks env passphrase s m managed given readable o =
      let opens = opened_key_opens env passphrase s given readable (Opens-nonempty _ _ o) o in
      rw (unlock_server_key, managed) (rw opens (refl, refl))
