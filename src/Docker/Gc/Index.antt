-- ===== src/Docker/Gc/Index.antt =====
-- The referrers indexes in markRepo of gc.go: what they add to the live set.
use kutu.Prelude.{
  ℕ, suc, Text, List, [], ◌∷◌, none, some, eq_refl, ◌≡◌, refl, ◌∙◌, inl, inr, Option-cases,
}
use kutu.Blobstore.{Digest}
use kutu.Docker.Gc.{
  Stored, Referrers, Live, add_blob, add_manifest, has_manifest, mark_each, mark_manifest,
  mark_referrer, mark_index,
}

module _ (read : Text → Digest → Stored) where
  -- The manifest is in the set before the walk, so that the walk stops at its first test.
  pub mark_referrer-marked :
      (n : ℕ) (name d : Text) (live : Live)
      → mark_referrer read (suc n) name d live ≡ some (add_manifest name d live)
  unfolding mark_referrer mark_manifest has_manifest
  mark_referrer-marked n name d live = rw (eq_refl name, eq_refl d) refl

  mark_each-blobs :
      (n : ℕ) (name : Text) (ds : List Text) (live : Live)
      → (b : Live) × (mark_each (mark_referrer read (suc n) name) ds live ≡ some b)
        × (b.blobs ≡ live.blobs)
  unfolding mark_each
  mark_each-blobs n name [] live = (live, refl, refl)
  mark_each-blobs n name (d ∷ ds) live =
      let (b, e, same) = mark_each-blobs n name ds (add_manifest name d live) in (b, step ∙ e, same)
    where
      step :
          mark_each (mark_referrer read (suc n) name) (d ∷ ds) live
          ≡ mark_each (mark_referrer read (suc n) name) ds (add_manifest name d live)
      step = rw (mark_each, mark_referrer-marked n name d live) refl

  unlisted :
      (n : ℕ) (name : Text) (r : Referrers) (live : Live)
      → r.listed ≡ none
      → mark_index read n name r live
        ≡ some (add_blob r.of_subject (add_manifest name r.of_subject live))
  unfolding mark_index
  unlisted n name r live e = rw (mark_index, e) refl

  walked :
      (n : ℕ) (name : Text) (r : Referrers) (live : Live) (ds : List Text)
      → r.listed ≡ some ds
      → mark_index read n name r live
        ≡ mark_each
            (mark_referrer read n name)
            ds
            (add_blob r.of_subject (add_manifest name r.of_subject live))
  unfolding mark_index
  walked n name r live ds e = rw (mark_index, e) refl

  -- Marking a referrers index adds exactly one blob, the subject's digest, whatever manifests the
  -- index lists and whatever those manifests contain: no config and no layer of a listed manifest is
  -- added.
  pub mark_index_blobs :
      (n : ℕ) (name : Text) (r : Referrers) (live : Live)
      → (b : Live) × (mark_index read (suc n) name r live ≡ some b)
        × (b.blobs ≡ r.of_subject ∷ live.blobs)
  mark_index_blobs n name r live = elim (Option-cases r.listed) [
    | inl e ↦ (kept, unlisted (suc n) name r live e, refl)
    | inr (ds, e) ↦
        let (b, f, same) = mark_each-blobs n name ds kept in
        (b, walked (suc n) name r live ds e ∙ f, same)
  ]
    where
      kept : Live
      kept = add_blob r.of_subject (add_manifest name r.of_subject live)
