-- ===== src/Docker/Gc.antt =====
-- internal/registry/docker/gc.go: mark and sweep. What the pass reads from the store is its input:
-- the repositories with their tags and referrers indexes, the manifests, and the blob listing.
-- Times are seconds. A failed read is `none` or `unreadable`; the texts of stats.Errors are left out.
pub mod Mark
pub mod Reach
pub mod Index
pub mod Fuel
pub mod Sweep
use kutu.Prelude.{
  ℕ, zero, suc, ◌+◌, ◌-◌, Text, List, [], ◌∷◌, ◌++◌, Option, none, some, Bool, true, false, ◌&&◌,
  not, ◌==◌, eqb, ltb, if◌then◌else◌, any, has, length,
}
use kutu.Blobstore.{Digest, digest_string, parse_digest}

-- The digests that are not empty in the parsed body of a manifest.
pub record Manifest : Type 0 where
  pub config : Option Text
  pub layers : List Text
  pub manifests : List Text
  pub subject : Option Text

-- ReadManifest and the JSON decoding of its body.
pub data Stored : Type 0 where
  unreadable : Stored
  not_json : Stored
  parsed : Manifest → Stored

-- One referrers index file: its subject, and the digests it lists if it can be read.
pub record Referrers : Type 0 where
  pub of_subject : Text
  pub listed : Option (List Text)

pub record Repository : Type 0 where
  pub name : Text
  pub tags : Option (List (Option Digest))
  pub referrers : List Referrers

-- liveSet: the manifests are pairs of a repository name and a digest.
pub record Live : Type 0 where
  pub blobs : List Text
  pub marked : List (Text × Text)

abbrev pub new_live : Live
new_live = record { blobs = []; marked = [] }

abbrev pub add_blob : Text → Live → Live
add_blob d live = record live { blobs = d ∷ live.blobs }

abbrev pub add_manifest : Text → Text → Live → Live
add_manifest name d live = record live { marked = (name, d) ∷ live.marked }

unfoldable pub has_blob : Live → Text → Bool
has_blob live d = has live.blobs d

unfoldable pub has_manifest : Live → Text → Text → Bool
has_manifest live name d = any (λ m. m.0 == name && m.1 == d) live.marked

opt : Option Text → List Text
opt none = []
opt (some d) = d ∷ []

-- Config and layers, and the manifests to follow: sub-manifests in order, then the subject.
unfoldable pub own_blobs : Manifest → List Text
unfolding opt
own_blobs m = opt m.config ++ m.layers

unfoldable pub next_manifests : Manifest → List Text
unfolding opt
next_manifests m = m.manifests ++ opt m.subject

abbrev pub add_blobs : List Text → Live → Live
add_blobs ds live = record live { blobs = ds ++ live.blobs }

-- `none`: the fuel ran out. An error in one member does not stop the loop.
unfoldable pub mark_each : (Text → Live → Option Live) → List Text → Live → Option Live
mark_each mark [] live = some live
mark_each mark (d ∷ ds) live = elim (mark d live) [ none ↦ none | some l ↦ mark_each mark ds l ]

follow : (List Text → Live → Option Live) → Stored → Live → Option Live
follow each unreadable live = some live
follow each not_json live = some live
follow each (parsed m) live = each (next_manifests m) (add_blobs (own_blobs m) live)

visit :
    (Text → Digest → Stored)
    → (List Text → Live → Option Live)
    → Text
    → Text
    → Live
    → Option Digest
    → Option Live
unfolding follow
visit read each name d live none = some live
visit read each name d live (some dg) =
    follow each (read name dg) (add_blob d (add_manifest name d live))

module _ (read_manifest : Text → Digest → Stored) where
  -- markManifestRecursive; one unit of fuel for each level.
  unfoldable pub mark_manifest : ℕ → Text → Text → Live → Option Live
  unfolding visit mark_each has_manifest
  mark_manifest zero name d live = none
  mark_manifest (suc n) name d live =
      let go =
        visit read_manifest (mark_each (mark_manifest n name)) name d live (parse_digest d) in
      if has_manifest live name d then some live else go

  unfoldable pub mark_tags : ℕ → Text → List (Option Digest) → Live → Option Live
  mark_tags n name [] live = some live
  mark_tags n name (none ∷ tags) live = mark_tags n name tags live
  mark_tags n name (some dg ∷ tags) live = elim (mark_manifest n name (digest_string dg) live) [
    | none ↦ none
    | some l ↦ mark_tags n name tags l
  ]

  -- The loop body over idx.Manifests: the manifest is added before it is walked.
  unfoldable pub mark_referrer : ℕ → Text → Text → Live → Option Live
  unfolding mark_manifest
  mark_referrer n name d live = mark_manifest n name d (add_manifest name d live)

  unfoldable pub mark_index : ℕ → Text → Referrers → Live → Option Live
  unfolding mark_each mark_referrer
  mark_index n name r live =
      let kept = add_blob r.of_subject (add_manifest name r.of_subject live) in
      elim r.listed [ none ↦ some kept | some ds ↦ mark_each (mark_referrer n name) ds kept ]

  unfoldable pub mark_indexes : ℕ → Text → List Referrers → Live → Option Live
  unfolding mark_index
  mark_indexes n name [] live = some live
  mark_indexes n name (r ∷ rs) live = elim (mark_index n name r live) [
    | none ↦ none
    | some l ↦ mark_indexes n name rs l
  ]

  -- A repository whose tags cannot be listed is left unmarked.
  unfoldable pub mark_repo : ℕ → Repository → Live → Option Live
  unfolding mark_tags mark_indexes
  mark_repo n repo live = elim repo.tags [
    | none ↦ some live
    | some tags ↦ elim (mark_tags n repo.name tags live) [
      | none ↦ none
      | some l ↦ mark_indexes n repo.name repo.referrers l
    ]
  ]

  unfoldable pub mark_repos : ℕ → List Repository → Live → Option Live
  unfolding mark_repo
  mark_repos n [] live = some live
  mark_repos n (repo ∷ repos) live = elim (mark_repo n repo live) [
    | none ↦ none
    | some l ↦ mark_repos n repos l
  ]
