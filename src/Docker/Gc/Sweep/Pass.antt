-- ===== src/Docker/Gc/Sweep/Pass.antt =====
-- The whole pass of gc.go, against what the tags reach.
use kutu.Prelude.{
  ℕ, suc, Text, List, [], ◌∷◌, Option, some, length, ◌≡◌, refl, sym, ap, subst, inl, inr, In,
}
use kutu.Blobstore.{Digest, digest_string, parse_digest}
use kutu.Docker.Gc.{Manifest, parsed, Repository, Live, new_live, own_blobs, mark_repos}
use kutu.Docker.Gc.Reach.{AreDistinct, Reaches}
use kutu.Docker.Gc.Fuel.{Lists, mark_repos_complete}
use kutu.Docker.Gc.Sweep.{
  Options, Contents, GcStats, ManifestStats, no_stats, no_manifests, sweep, sweep_blobs,
  sweep_repos, run_gc,
}
use kutu.Docker.Gc.Sweep.Laws.{sweep_blobs-deleted, sweep_manifests-removed}

module _ (opt : Options) (c : Contents) (now : ℕ) (live : Live) where
  live-blob :
      (x : Digest)
      → In (digest_string x) live.blobs
      → In x (sweep_blobs opt c.blob_fails now live c.blobs no_stats).deleted
      → ⊥
  live-blob x kept gone =
      elim ((sweep_blobs-deleted opt c.blob_fails now live x c.blobs no_stats).0 gone) [
        | inl m ↦ absurd m
        | inr (info, i, g, r, f) ↦ g.0 kept
      ]

  live-manifest :
      (name d : Text) (rs : List Repository) (st : ManifestStats)
      → In (name, d) live.marked
      → In (name, st) (sweep_repos opt c now live rs)
      → In d st.removed
      → ⊥
  unfolding sweep_repos
  live-manifest name d [] st kept i gone = absurd i
  live-manifest name d (r ∷ rs) st kept (inr i) gone = live-manifest name d rs st kept i gone
  live-manifest name d (r ∷ rs) st kept (inl e) gone =
      let named : r.name ≡ name = ap (λ z. z.0) e in
      let made = ap (λ z. z.1) e in
      elim ((sweep_manifests-removed opt (c.file_fails r.name) now r.name live d (c.entries r.name)
          no_manifests).0
        (subst (λ z. In d z.removed) (sym made) gone)) [
          | inl m ↦ absurd m
          | inr (en, m, g, _, _) ↦ g.1 (subst (λ z. In (z, d) live.marked) (sym named) kept)
        ]

-- What the pass leaves of one manifest: its file, its own blob, its config and its layers. The sets of
-- the pass hold the texts of the references, and a file or a blob is looked up by the spelling of the
-- store: each part is about references in that spelling.
abbrev pub IsUntouched : Contents → GcStats → Text → Text → Type 0
IsUntouched c g name d =
    ((st : ManifestStats) → In (name, st) g.manifests → In d st.removed → ⊥)
    × ((x : Digest) → digest_string x ≡ d → In x g.blob_stats.deleted → ⊥)
    × ((dg : Digest) (m : Manifest) (x : Digest)
        → parse_digest d ≡ some dg
        → c.read_manifest name dg ≡ parsed m
        → In (digest_string x) (own_blobs m)
        → In x g.blob_stats.deleted
        → ⊥)

run_gc-marked :
    (n : ℕ) (opt : Options) (c : Contents) (now : ℕ) (live : Live)
    → mark_repos c.read_manifest n c.repos new_live ≡ some live
    → run_gc n opt c now ≡ some (sweep opt c now live)
unfolding run_gc
run_gc-marked n opt c now live e = rw (run_gc, e) refl

-- If `stored` lists, as they are spelled, the readable manifests that the tags name and those that
-- readable manifests refer to, and the repositories have different names, then one unit of fuel more
-- than `stored` has members lets the pass end, whatever the options, the clock and the deletions that
-- fail. Of what the readable tags of a repository reach through readable manifests it deletes neither
-- the manifest file and blob, where the reference spells the digest as the store does (the hexadecimal
-- part in lower case), nor the config and layers, where the manifest spells their digests so.
pub run_gc-keeps :
    (opt : Options) (c : Contents) (now : ℕ) (stored : List (Text × Text))
    → Lists c.read_manifest stored c.repos
    → AreDistinct c.read_manifest c.repos
    → (g : GcStats) × (run_gc (suc (length stored)) opt c now ≡ some g)
      × ((repo : Repository) (tags : List (Option Digest)) (d : Text)
          → In repo c.repos
          → repo.tags ≡ some tags
          → Reaches c.read_manifest repo.name tags d
          → IsUntouched c g repo.name d)
run_gc-keeps opt c now stored listed distinct =
    let (live, e, kept) = mark_repos_complete c.read_manifest stored c.repos listed distinct in
    (
      sweep opt c now live,
      run_gc-marked (suc (length stored)) opt c now live e,
      λ repo tags d i q r.
          let (marked, k) = kept repo tags d i q r in
          (
            λ st. live-manifest opt c now live repo.name d c.repos st marked,
            λ x same. live-blob opt c now live x (subst (λ z. In z live.blobs) (sym same) k.self),
            λ dg m x p rd b. live-blob opt c now live x (k.blobs_in dg m (digest_string x) p rd b),
          ),
    )
