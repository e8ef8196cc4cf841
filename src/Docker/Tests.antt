-- ===== src/Docker/Tests.antt =====
-- A store with one tagged image, and the theorems of this tree at it.
use kutu.Prelude.{
  has, subst, Text, codes, List, [], ◌∷◌, ◌++◌, Option, none, some, Bool, false, ◌&&◌, ◌==◌,
  if◌then◌else◌, ◌≡◌, ◌↔◌, refl, sym, ◌∙◌, ap, ◌⊎◌, inl, inr, In, Bool-cases,
}
use kutu.Blobstore.{Digest, parse_digest, digest_string}
use kutu.Docker.Gc.{
  Manifest, next_manifests, own_blobs, Stored, unreadable, parsed, Referrers, Repository, Live,
  new_live, mark_index,
}
use kutu.Docker.Gc.Reach.{Reaches}
use kutu.Docker.Gc.Fuel.{Lists}
use kutu.Docker.Gc.Index.{mark_index_blobs}
use kutu.Docker.Gc.Sweep.{
  Options, BlobInfo, Entry, Contents, GcStats, no_stats, no_manifests, sweep_blobs, sweep_manifests,
  run_gc,
}
use kutu.Docker.Gc.Sweep.Laws.{IsGarbage, IsStale, sweep_blobs-deleted, sweep_manifests-removed}
use kutu.Docker.Gc.Sweep.Pass.{IsUntouched, run_gc-keeps}

abbrev ones : Text
ones = codes "1111111111111111111111111111111111111111111111111111111111111111"

abbrev twos : Text
twos = codes "2222222222222222222222222222222222222222222222222222222222222222"

abbrev image : Digest
image = record { algorithm = codes "sha256"; hex = ones }

abbrev layer : Digest
layer = record { algorithm = codes "sha256"; hex = twos }

abbrev manifest : Manifest
manifest = record {
  config = none;
  layers = (codes "sha256:" ++ twos) ∷ [];
  manifests = [];
  subject = none;
}

abbrev is_image : Text → Digest → Bool
is_image name dg = name == codes "app" && (dg.algorithm == codes "sha256" && dg.hex == ones)

abbrev read : Text → Digest → Stored
read name dg = if is_image name dg then parsed manifest else unreadable

abbrev stored : List (Text × Text)
stored = (codes "app", digest_string image) ∷ []

read-image : (name : Text) (dg : Digest) (m : Manifest) → read name dg ≡ parsed m → manifest ≡ m
read-image name dg m r = elim (Bool-cases (is_image name dg)) [
  | inl e ↦ cc (rw e at r)
  | inr e ↦ cc (rw e at r)
]

abbrev repository : Repository
repository = record { name = codes "app"; tags = some (some image ∷ []); referrers = [] }

read-Lists : Lists read stored (repository ∷ [])
read-Lists = (
  λ name dg m c r i.
      unfold next_manifests in
      absurd (subst (λ z. In c (next_manifests z)) (sym (read-image name dg m r)) i),
  λ repo tags i q dg j e m p r. elim i [
    | inl same ↦
        let same_tags : some (some image ∷ []) ≡ some tags = ap (λ z. z.tags) same ∙ q in
        let whole : (some image ∷ []) ≡ tags = cc same_tags in
        let found : In (some dg) (some image ∷ []) = subst (In (some dg)) (sym whole) j in
        elim found [
          | inl here ↦
              let is_dg : image ≡ dg = cc here in
              inl (λ k. ((same k).name, digest_string (is_dg k)))
          | inr z ↦ absurd z
        ]
    | inr z ↦ absurd z
  ],
)

abbrev options : Options
options = record { min_age = 3600; dry_run = false }

abbrev old_blob : Option BlobInfo
old_blob = some (record { mod_time = some 10; size = 512 })

abbrev contents : Contents
contents = record {
  repos = repository ∷ [];
  read_manifest = read;
  blobs = (layer, old_blob) ∷ [];
  entries = λ name. [];
  blob_fails = λ d. false;
  file_fails = λ name file. false;
}

run_gc-keeps_example :
    (g : GcStats) × (run_gc 2 options contents 9000 ≡ some g)
    × ((repo : Repository) (tags : List (Option Digest)) (d : Text)
        → In repo contents.repos
        → repo.tags ≡ some tags
        → Reaches contents.read_manifest repo.name tags d
        → IsUntouched contents g repo.name d)
run_gc-keeps_example = run_gc-keeps options contents 9000 stored read-Lists (tt, tt)

abbrev index : Referrers
index = record {
  of_subject = codes "sha256:" ++ twos;
  listed = some ((codes "sha256:" ++ ones) ∷ []);
}

mark_index_blobs_example :
    (b : Live) × (mark_index read 2 (codes "app") index new_live ≡ some b)
    × (b.blobs ≡ index.of_subject ∷ new_live.blobs)
mark_index_blobs_example = mark_index_blobs read 1 (codes "app") index new_live

sweep_blobs-deleted_example :
    In layer
      (sweep_blobs options (λ d. false) 9000 new_live ((layer, old_blob) ∷ []) no_stats).deleted
    ↔ (In layer no_stats.deleted
        ⊎ ((info : Option BlobInfo) × In {A = Digest × Option BlobInfo}
              (layer, info)
              ((layer, old_blob) ∷ [])
            × IsGarbage options 9000 new_live layer info
            × (options.dry_run ≡ false)
            × (false ≡ false)))
sweep_blobs-deleted_example =
    sweep_blobs-deleted options (λ d. false) 9000 new_live layer ((layer, old_blob) ∷ []) no_stats

abbrev entry : Entry
entry = record { file = codes "sha256:" ++ (ones ++ codes ".json"); is_dir = false; stat = some 10 }

sweep_manifests-removed_example :
    In
      (codes "sha256:" ++ ones)
      (sweep_manifests options
        (λ f. false)
        9000
        (codes "app")
        new_live
        (entry ∷ [])
        no_manifests).removed
    ↔ (In (codes "sha256:" ++ ones) no_manifests.removed
        ⊎ ((e : Entry) × In e (entry ∷ [])
            × IsStale options 9000 (codes "app") new_live (codes "sha256:" ++ ones) e
            × (options.dry_run ≡ false)
            × (false ≡ false)))
sweep_manifests-removed_example =
    sweep_manifests-removed options (λ f. false) 9000 (codes "app") new_live
      (codes "sha256:" ++ ones) (entry ∷ []) no_manifests

abbrev letters : Text → Text
letters a = a ++ a ++ a ++ a ++ a ++ a ++ a ++ a

abbrev capitals : Text
capitals = letters (codes "AAAAAAAA")

abbrev small : Digest
small = record { algorithm = codes "sha256"; hex = letters (codes "aaaaaaaa") }

abbrev shouting : Contents
shouting = record {
  repos = repository ∷ [];
  read_manifest =
      λ name dg. parsed (record manifest { layers = (codes "sha256:" ++ capitals) ∷ [] });
  blobs = (small, old_blob) ∷ [];
  entries = λ name. [];
  blob_fails = λ d. false;
  file_fails = λ name file. false;
}

abbrev deleted_of : Option GcStats → List Digest
deleted_of none = []
deleted_of (some g) = g.blob_stats.deleted

-- A layer of a tagged image, in the spelling of the store, where the manifest has capital letters.
capitals_deleted : deleted_of (run_gc 2 options shouting 9000) ≡ small ∷ []
unfolding run_gc parse_digest digest_string next_manifests has own_blobs
capitals_deleted = refl
