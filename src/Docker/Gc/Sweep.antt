-- ===== src/Docker/Gc/Sweep.antt =====
-- internal/registry/docker/gc.go: the sweep phase and the pass. The blob listing, the manifest
-- directories and which deletions fail are inputs; a modification time is `none` where it is not
-- known. `now - at < min_age` is written `now < at + min_age`, a file from the future being young.
-- stats.Errors is kept as a count; the prune of abandoned uploads is left out.
pub mod Steps
pub mod Laws
pub mod Pass
use kutu.Prelude.{
  ℕ, zero, suc, ◌+◌, Text, codes, List, [], ◌∷◌, ◌++◌, Option, none, some, Bool, true, false, ◌&&◌,
  ◌||◌, not, ltb, if◌then◌else◌, has_suffix, drop_suffix,
}
use kutu.Blobstore.{Digest, digest_string}
use kutu.Docker.Gc.{Stored, Repository, Live, new_live, has_blob, has_manifest, mark_repos}

pub record Options : Type 0 where
  pub min_age : ℕ
  pub dry_run : Bool

pub record BlobInfo : Type 0 where
  pub mod_time : Option ℕ
  pub size : ℕ

-- The blobs that were deleted and the counters.
pub record BlobStats : Type 0 where
  pub deleted : List Digest
  pub swept_blobs : ℕ
  pub swept_bytes : ℕ
  pub skipped_young : ℕ
  pub errors : ℕ

abbrev pub no_stats : BlobStats
no_stats = record { deleted = []; swept_blobs = 0; swept_bytes = 0; skipped_young = 0; errors = 0 }

-- The grace period, for a known time.
unfoldable pub within : ℕ → ℕ → Option ℕ → Bool
within min_age now none = false
within min_age now (some at) = ltb 0 min_age && ltb now (at + min_age)

unfoldable pub info_time : Option BlobInfo → Option ℕ
info_time none = none
info_time (some i) = i.mod_time

unfoldable pub info_size : Option BlobInfo → ℕ
info_size none = 0
info_size (some i) = i.size

abbrev pub counted : ℕ → BlobStats → BlobStats
counted size st = record st {
  swept_blobs = suc st.swept_blobs;
  swept_bytes = st.swept_bytes + size;
}

-- The callback of ListBlobs.
unfoldable pub sweep_blob :
    Options → (Digest → Bool) → ℕ → Live → Digest → Option BlobInfo → BlobStats → BlobStats
unfolding within info_time info_size has_blob
sweep_blob opt fails now live d info st =
    if has_blob live (digest_string d)
    then st
    else if within opt.min_age now (info_time info)
    then record st { skipped_young = suc st.skipped_young }
    else if opt.dry_run
    then counted (info_size info) st
    else if fails d
    then record st { errors = suc st.errors }
    else counted (info_size info) (record st { deleted = d ∷ st.deleted })

unfoldable pub sweep_blobs :
    Options → (Digest → Bool) → ℕ → Live → List (Digest × Option BlobInfo) → BlobStats → BlobStats
unfolding sweep_blob
sweep_blobs opt fails now live [] st = st
sweep_blobs opt fails now live ((d, info) ∷ rest) st =
    sweep_blobs opt fails now live rest (sweep_blob opt fails now live d info st)

-- An entry of a manifests directory; `stat` is the modification time where Stat gives one.
pub record Entry : Type 0 where
  pub file : Text
  pub is_dir : Bool
  pub stat : Option ℕ

-- The digests whose files were deleted, the count, and the failures.
pub record ManifestStats : Type 0 where
  pub removed : List Text
  pub count : ℕ
  pub failed : ℕ

abbrev pub no_manifests : ManifestStats
no_manifests = record { removed = []; count = 0; failed = 0 }

unfoldable pub manifest_file : Entry → Bool
unfolding has_suffix
manifest_file e =
    not (e.is_dir || has_suffix e.file (codes ".media")) && has_suffix e.file (codes ".json")

unfoldable pub digest_of : Entry → Text
unfolding drop_suffix
digest_of e = drop_suffix e.file (codes ".json")

unfoldable pub sweep_manifest :
    Options → (Text → Bool) → ℕ → Text → Live → Entry → ManifestStats → ManifestStats
unfolding within manifest_file digest_of has_manifest
sweep_manifest opt fails now name live e st =
    if not (manifest_file e)
    then st
    else if has_manifest live name (digest_of e)
    then st
    else if within opt.min_age now e.stat
    then st
    else if opt.dry_run
    then record st { count = suc st.count }
    else if fails e.file
    then record st { failed = suc st.failed }
    else record st { removed = digest_of e ∷ st.removed; count = suc st.count }

-- sweepUnreferencedManifests; a directory that cannot be read has no entries.
unfoldable pub sweep_manifests :
    Options → (Text → Bool) → ℕ → Text → Live → List Entry → ManifestStats → ManifestStats
unfolding sweep_manifest
sweep_manifests opt fails now name live [] st = st
sweep_manifests opt fails now name live (e ∷ es) st =
    sweep_manifests opt fails now name live es (sweep_manifest opt fails now name live e st)

-- What a pass finds in the store.
pub record Contents : Type 0 where
  pub repos : List Repository
  pub read_manifest : Text → Digest → Stored
  pub blobs : List (Digest × Option BlobInfo)
  pub entries : Text → List Entry
  pub blob_fails : Digest → Bool
  pub file_fails : Text → Text → Bool

pub record GcStats : Type 0 where
  pub live : Live
  pub blob_stats : BlobStats
  pub manifests : List (Text × ManifestStats)

unfoldable pub sweep_repos :
    Options → Contents → ℕ → Live → List Repository → List (Text × ManifestStats)
unfolding sweep_manifests
sweep_repos opt c now live [] = []
sweep_repos opt c now live (r ∷ rs) =
    (
      r.name,
      sweep_manifests opt (c.file_fails r.name) now r.name live (c.entries r.name) no_manifests,
    )
    ∷ sweep_repos opt c now live rs

abbrev pub sweep : Options → Contents → ℕ → Live → GcStats
sweep opt c now live = record {
  live = live;
  blob_stats = sweep_blobs opt c.blob_fails now live c.blobs no_stats;
  manifests = sweep_repos opt c now live c.repos;
}

-- runGC on a writable store whose repositories can be listed, with a context that is not cancelled during
-- the pass, up to the prune of uploads; the fuel bounds the depth of the mark phase.
unfoldable pub run_gc : ℕ → Options → Contents → ℕ → Option GcStats
unfolding mark_repos sweep_blobs sweep_repos
run_gc n opt c now = elim (mark_repos c.read_manifest n c.repos new_live) [
  | none ↦ none
  | some live ↦ some (sweep opt c now live)
]
