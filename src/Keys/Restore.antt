-- ===== src/Keys/Restore.antt =====
-- The credentials that are split off a repository, put back.
use kutu.Prelude.{
  ◌≡◌, refl, sym, ◌∙◌, Text, List, [], ◌∷◌, ◌++◌, Option, none, some, Bool, inl, inr, false, ◌||◌,
  not, is_empty, any, map, Bool-cases, arith,
}
use kutu.Keys.Repository.{
  Auth, Upstream, UpstreamSecret, Replication, Repository, no_secrets, strip_upstream,
  strip_replication, strip, upstream_secret, replication_token_of, auth_field, secrets_of,
  has_upstream_secret, has_secret, meta_of, restore_auth, restore_upstreams, restore_replication,
  or_none, restore,
}

restored_auth :
    (a : Option Auth) (sk rt : Text) (ups : List UpstreamSecret)
    → or_none
        (restore_auth (meta_of a) (record {
          signing_key = sk;
          replication_token = rt;
          password = auth_field (λ a. a.password) a;
          token = auth_field (λ a. a.token) a;
          value = auth_field (λ a. a.value) a;
          upstreams = ups;
        }))
        none
      ≡ a
restored_auth none sk rt ups = refl
restored_auth (some a) sk rt ups = refl

restored_upstream :
    (a : Option Auth) (prefix url ssh_key : Text)
    → let u : Upstream = record { prefix = prefix; url = url; auth = a; ssh_key = ssh_key } in
      restore_upstreams (upstream_secret u ∷ []) (strip_upstream u ∷ []) ≡ u ∷ []
unfolding restore_upstreams
restored_upstream none prefix url ssh_key = refl
restored_upstream (some a) prefix url ssh_key = refl

restored_upstreams :
    (us : List Upstream) → restore_upstreams (map upstream_secret us) (map strip_upstream us) ≡ us
unfolding restore_upstreams
restored_upstreams [] = refl
restored_upstreams (u ∷ us) =
    λ i. restored_upstream u.auth u.prefix u.url u.ssh_key i ++ restored_upstreams us i

restored_replication :
    (r : Option Replication)
    → restore_replication (replication_token_of r) (strip_replication r) ≡ r
restored_replication none = refl
restored_replication (some r) = refl

pub restore_all :
    (repo : Repository) → restore (meta_of repo.auth) (secrets_of repo) (strip repo) ≡ repo
unfolding restore secrets_of strip
restore_all repo = λ i. record repo {
  auth =
      restored_auth repo.auth repo.signing_key (replication_token_of repo.replication)
        (map upstream_secret repo.upstreams) i;
  upstreams = restored_upstreams repo.upstreams i;
  replication = restored_replication repo.replication i;
}

blank_upstream :
    (u : Upstream) → has_upstream_secret (upstream_secret u) ≡ false → strip_upstream u ≡ u
blank_upstream u h = blank u.auth u.ssh_key u.prefix u.url h
  where
    blank :
        (a : Option Auth) (ssh_key prefix url : Text)
        → let u : Upstream = record { prefix = prefix; url = url; auth = a; ssh_key = ssh_key } in
          has_upstream_secret (upstream_secret u) ≡ false → strip_upstream u ≡ u
    blank none ssh_key prefix url h = ground arith
    blank (some a) ssh_key prefix url h = ground arith

blank_upstreams :
    (us : List Upstream)
    → any has_upstream_secret (map upstream_secret us) ≡ false
    → map strip_upstream us ≡ us
blank_upstreams [] h = refl
blank_upstreams (u ∷ us) h = elim (Bool-cases (has_upstream_secret (upstream_secret u))) [
  | inl e ↦ cc (rw e at h)
  | inr e ↦ λ i. blank_upstream u e i ∷ blank_upstreams us (rw e at h) i
]

restore_nothing : (us : List Upstream) → restore_upstreams [] us ≡ us
unfolding restore_upstreams
restore_nothing [] = refl
restore_nothing (u ∷ us) = refl

blank_fields :
    (a b c d e : Text) (f : Bool)
    → (not (is_empty a)
        || not (is_empty b)
        || not (is_empty c)
        || not (is_empty d)
        || not (is_empty e)
        || f)
      ≡ false
    → (a ≡ []) × (b ≡ []) × (c ≡ []) × (d ≡ []) × (e ≡ []) × (f ≡ false)
blank_fields [] [] [] [] [] f h = (refl, refl, refl, refl, refl, h)
blank_fields [] [] [] [] (x ∷ e) f h = cc h
blank_fields [] [] [] (x ∷ d) e f h = cc h
blank_fields [] [] (x ∷ c) d e f h = cc h
blank_fields [] (x ∷ b) c d e f h = cc h
blank_fields (x ∷ a) b c d e f h = cc h

blank_auth :
    (a : Option Auth)
    → auth_field (λ a. a.password) a ≡ []
    → auth_field (λ a. a.token) a ≡ []
    → auth_field (λ a. a.value) a ≡ []
    → or_none (restore_auth (meta_of a) no_secrets) none ≡ a
blank_auth none h k l = refl
blank_auth (some a) h k l =
    λ i. some (record a { password = sym h i; token = sym k i; value = sym l i })

blank_replication :
    (r : Option Replication)
    → replication_token_of r ≡ []
    → restore_replication [] (strip_replication r) ≡ r
blank_replication none h = refl
blank_replication (some r) h = λ i. some (record r { token = sym h i })

pub restore_blank :
    (repo : Repository)
    → has_secret (secrets_of repo) ≡ false
    → restore (meta_of repo.auth) no_secrets (strip repo) ≡ repo
unfolding restore secrets_of strip has_secret
restore_blank repo h =
    let (sk, rt, pw, tk, vl, ups) =
      blank_fields repo.signing_key (replication_token_of repo.replication)
        (auth_field (λ a. a.password) repo.auth) (auth_field (λ a. a.token) repo.auth)
        (auth_field (λ a. a.value) repo.auth)
        (any has_upstream_secret (map upstream_secret repo.upstreams)) h in
    λ i. record repo {
      auth = blank_auth repo.auth pw tk vl i;
      upstreams =
          (restore_nothing (map strip_upstream repo.upstreams) ∙ blank_upstreams repo.upstreams ups)
            i;
      replication = blank_replication repo.replication rt i;
      signing_key = sym sk i;
    }
