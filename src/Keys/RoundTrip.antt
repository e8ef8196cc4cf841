-- ===== src/Keys/RoundTrip.antt =====
-- Stored repositories, written and read back.
use kutu.Prelude.{
  ◌≡◌, refl, sym, subst, ◌∙◌, Text, [], ◌∷◌, Option, some, true, inl, inr, false, Bool-cases,
}
use kutu.Keys.{ok, >>=-eq-ok, Primitives, PrimitiveLaws, Manager, seal, open_envelope}
use kutu.Keys.Store.{seal_repo_secrets, open_secrets, columns, repo_record, scan_repo}
use kutu.Keys.Repository.{
  Repository, Secrets, Row, no_secrets, strip, secrets_of, has_secret, meta_of, unlocked, restore,
}
use kutu.Keys.Cipher.{NonceSized, open-seal}
use kutu.Keys.Restore.{restore_all, restore_blank}

module _ (p : Primitives) (laws : PrimitiveLaws p) (marshal : Secrets → Text)
    (unmarshal : Text → Secrets)
    (unmarshal-marshal : (sec : Secrets) → unmarshal (marshal sec) ≡ sec) where
  pub live : (m : Manager) (k : Text) → m.active ≡ some k → unlocked (some m) ≡ true
  unfolding unlocked
  live m k a = rw a refl

  pub seals :
      (m : Manager) (fresh : Option Text) (repo : Repository)
      → unlocked (some m) ≡ true
      → has_secret (secrets_of repo) ≡ true
      → seal_repo_secrets p marshal (some m) fresh repo
        ≡ seal p (some m) fresh (marshal (secrets_of repo))
  unfolding seal_repo_secrets
  seals m fresh repo u s = rw (s, u) refl

  pub seals_nothing :
      (m : Manager) (fresh : Option Text) (repo : Repository)
      → has_secret (secrets_of repo) ≡ false
      → seal_repo_secrets p marshal (some m) fresh repo ≡ ok []
  unfolding seal_repo_secrets
  seals_nothing m fresh repo s = rw s refl

  opened_up :
      (m : Manager) (sec : Secrets) (c : Text)
      → unlocked (some m) ≡ true
      → open_envelope p (some m) c ≡ ok (marshal sec)
      → open_secrets p unmarshal (some m) c ≡ sec
  unfolding open_secrets open_envelope
  opened_up m sec [] u o = cc o
  opened_up m sec (x ∷ c) u o = rw (u, o) (unmarshal-marshal sec)

  opens_nothing : (m : Manager) → open_secrets p unmarshal (some m) [] ≡ no_secrets
  unfolding open_secrets
  opens_nothing m = refl

  opens_written :
      (m : Manager) (k c : Text) (fresh : Option Text) (repo : Repository)
      → m.active ≡ some k
      → NonceSized fresh
      → seal_repo_secrets p marshal (some m) fresh repo ≡ ok c
      → restore (meta_of repo.auth) (open_secrets p unmarshal (some m) c) (strip repo) ≡ repo
  opens_written m k c fresh repo a h e = elim (Bool-cases (has_secret (secrets_of repo))) [
    | inl s ↦
        let sealed =
          open-seal p laws m k (marshal (secrets_of repo)) c fresh a h
            (sym (seals m fresh repo (live m k a) s) ∙ e) in
        rw (opened_up m (secrets_of repo) c (live m k a) sealed) (restore_all repo)
    | inr s ↦
        let same : [] ≡ c = cc (seals_nothing m fresh repo s, e) in
        subst
          (λ t.
            restore (meta_of repo.auth) (open_secrets p unmarshal (some m) t) (strip repo) ≡ repo)
          same (rw (opens_nothing m) (restore_blank repo s))
  ]

  -- A repository that is written while the manager holds a key is read back with all its credentials.
  pub scan_repo-repo_record :
      (m : Manager) (k ns : Text) (fresh : Option Text) (repo : Repository) (row : Row)
      → m.active ≡ some k
      → NonceSized fresh
      → repo_record p marshal (some m) fresh ns repo ≡ ok row
      → scan_repo p unmarshal (some m) row ≡ repo
  scan_repo-repo_record m k ns fresh repo row a h e =
      let (c, sealed, q) =
        >>=-eq-ok (seal_repo_secrets p marshal (some m) fresh repo)
          (λ sealed. ok (columns ns repo sealed)) {b = row} (unfold repo_record in e) in
      let same : columns ns repo c ≡ row = cc in
      subst (λ r. scan_repo p unmarshal (some m) r ≡ repo) same
        (unfold scan_repo columns in opens_written m k c fresh repo a h sealed)
