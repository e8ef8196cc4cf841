-- ===== src/Docker/Gc/Sweep/Steps.antt =====
-- What each step of the sweep of gc.go deletes, by the tests of the source, and what a dry run counts.
use kutu.Prelude.{
  ℕ, suc, ◌+◌, Text, List, [], ◌∷◌, Option, Bool, true, false, ◌≡◌, ◌↔◌, refl, sym, ap, subst, ◌⊎◌,
  inl, inr, In, Bool-cases,
}
use kutu.Blobstore.{Digest, digest_string}
use kutu.Docker.Gc.{Live, has_blob, has_manifest}
use kutu.Docker.Gc.Sweep.{
  Options, BlobInfo, BlobStats, within, info_time, info_size, sweep_blob, sweep_blobs, Entry,
  ManifestStats, manifest_file, digest_of, sweep_manifest, sweep_manifests,
}

-- The two tests on a blob before its deletion.
abbrev pub PassesBlob : Options → ℕ → Live → Digest → Option BlobInfo → Type 0
PassesBlob opt now live d info =
    (has_blob live (digest_string d) ≡ false) × (within opt.min_age now (info_time info) ≡ false)

module _ (opt : Options) (fails : Digest → Bool) (now : ℕ) (live : Live) where
  -- What one step deletes.
  sweep_blob-deleted :
      (x d : Digest) (info : Option BlobInfo) (st : BlobStats)
      → In x (sweep_blob opt fails now live d info st).deleted ↔ (
          In x st.deleted
          ⊎ ((d ≡ x) × PassesBlob opt now live d info × (opt.dry_run ≡ false) × (fails d ≡ false)))
  unfolding sweep_blob
  sweep_blob-deleted x d info st = elim (Bool-cases (has_blob live (digest_string d))) [
    | inl l ↦ rw l (inl, λ h. elim h [ inl m ↦ m | inr g ↦ cc ])
    | inr l ↦ elim (Bool-cases (within opt.min_age now (info_time info))) [
      | inl y ↦ rw (l, y) (inl, λ h. elim h [ inl m ↦ m | inr g ↦ cc ])
      | inr y ↦ elim (Bool-cases opt.dry_run) [
        | inl r ↦ rw (l, y, r) (inl, λ h. elim h [ inl m ↦ m | inr g ↦ cc ])
        | inr r ↦ elim (Bool-cases (fails d)) [
          | inl f ↦ rw (l, y, r, f) (inl, λ h. elim h [ inl m ↦ m | inr g ↦ cc ])
          | inr f ↦
              rw (l, y, r, f)
                (
                  λ h. elim h [ inl q ↦ inr (q, (refl, refl), refl, refl) | inr m ↦ inl m ],
                  λ h. elim h [ inl m ↦ inr m | inr g ↦ inl g.0 ],
                )
        ]
      ]
    ]
  ]

  pub sweep_blobs-steps :
      (x : Digest) (listing : List (Digest × Option BlobInfo)) (st : BlobStats)
      → In x (sweep_blobs opt fails now live listing st).deleted ↔ (
          In x st.deleted
          ⊎ ((info : Option BlobInfo) × In (x, info) listing
              × PassesBlob opt now live x info
              × (opt.dry_run ≡ false)
              × (fails x ≡ false)))
  unfolding sweep_blobs
  sweep_blobs-steps x [] st = (inl, λ h. elim h [ inl m ↦ m | inr g ↦ absurd g.1 ])
  sweep_blobs-steps x ((d, info) ∷ rest) st =
      let ih = sweep_blobs-steps x rest (sweep_blob opt fails now live d info st) in
      let here = sweep_blob-deleted x d info st in
      (
        λ h. elim (ih.0 h) [
          | inl m ↦ elim (here.0 m) [
            | inl old ↦ inl old
            | inr (q, g, r, f) ↦ inr (
              info,
              inl (ap (λ z. (z, info)) q),
              subst (λ z. PassesBlob opt now live z info) q g,
              r,
              subst (λ z. fails z ≡ false) q f,
            )
          ]
          | inr (i, m, g, r, f) ↦ inr (i, inr m, g, r, f)
        ],
        λ h. elim h [
          | inl old ↦ ih.1 (inl (here.1 (inl old)))
          | inr (i, m, g, r, f) ↦ elim m [
            | inl q ↦
                let same : d ≡ x = ap (λ z. z.0) q in
                let same_info : info ≡ i = ap (λ z. z.1) q in
                ih.1 (inl (here.1 (inr (same, rw (same, same_info) g, r, rw same f))))
            | inr k ↦ ih.1 (inr (i, k, g, r, f))
          ]
        ],
      )

-- The three tests on a directory entry before its deletion.
abbrev pub PassesFile : Options → ℕ → Text → Live → Entry → Type 0
PassesFile opt now name live e =
    (manifest_file e ≡ true)
    × (has_manifest live name (digest_of e) ≡ false)
    × (within opt.min_age now e.stat ≡ false)

module _ (opt : Options) (fails : Text → Bool) (now : ℕ) (name : Text) (live : Live) where
  sweep_manifest-removed :
      (x : Text) (e : Entry) (st : ManifestStats)
      → In x (sweep_manifest opt fails now name live e st).removed ↔ (
          In x st.removed
          ⊎ ((digest_of e ≡ x)
              × PassesFile opt now name live e
              × (opt.dry_run ≡ false)
              × (fails e.file ≡ false)))
  unfolding sweep_manifest
  sweep_manifest-removed x e st = elim (Bool-cases (manifest_file e)) [
    | inr k ↦ rw k (inl, λ h. elim h [ inl m ↦ m | inr g ↦ cc ])
    | inl k ↦ elim (Bool-cases (has_manifest live name (digest_of e))) [
      | inl l ↦ rw (k, l) (inl, λ h. elim h [ inl m ↦ m | inr g ↦ cc ])
      | inr l ↦ elim (Bool-cases (within opt.min_age now e.stat)) [
        | inl y ↦ rw (k, l, y) (inl, λ h. elim h [ inl m ↦ m | inr g ↦ cc ])
        | inr y ↦ elim (Bool-cases opt.dry_run) [
          | inl r ↦ rw (k, l, y, r) (inl, λ h. elim h [ inl m ↦ m | inr g ↦ cc ])
          | inr r ↦ elim (Bool-cases (fails e.file)) [
            | inl f ↦ rw (k, l, y, r, f) (inl, λ h. elim h [ inl m ↦ m | inr g ↦ cc ])
            | inr f ↦
                rw (k, l, y, r, f)
                  (
                    λ h. elim h [ inl q ↦ inr (q, (refl, refl, refl), refl, refl) | inr m ↦ inl m ],
                    λ h. elim h [ inl m ↦ inr m | inr g ↦ inl g.0 ],
                  )
          ]
        ]
      ]
    ]
  ]

  pub sweep_manifests-steps :
      (x : Text) (es : List Entry) (st : ManifestStats)
      → In x (sweep_manifests opt fails now name live es st).removed ↔ (
          In x st.removed
          ⊎ ((e : Entry) × In e es
              × (digest_of e ≡ x)
              × PassesFile opt now name live e
              × (opt.dry_run ≡ false)
              × (fails e.file ≡ false)))
  unfolding sweep_manifests
  sweep_manifests-steps x [] st = (inl, λ h. elim h [ inl m ↦ m | inr g ↦ absurd g.1 ])
  sweep_manifests-steps x (e ∷ es) st =
      let ih = sweep_manifests-steps x es (sweep_manifest opt fails now name live e st) in
      let here = sweep_manifest-removed x e st in
      (
        λ h. elim (ih.0 h) [
          | inl m ↦ elim (here.0 m) [
            | inl old ↦ inl old
            | inr (q, g, r, f) ↦ inr (e, inl refl, q, g, r, f)
          ]
          | inr (i, m, q, g, r, f) ↦ inr (i, inr m, q, g, r, f)
        ],
        λ h. elim h [
          | inl old ↦ ih.1 (inl (here.1 (inl old)))
          | inr (i, m, q, g, r, f) ↦ elim m [
            | inl s ↦ ih.1 (
                inl (
                  here.1 (
                    inr (
                      subst (λ z. digest_of z ≡ x) (sym s) q,
                      subst (PassesFile opt now name live) (sym s) g,
                      r,
                      subst (λ z. fails z.file ≡ false) (sym s) f,
                    ))))
            | inr k ↦ ih.1 (inr (i, k, q, g, r, f))
          ]
        ],
      )

-- The counters of a pass.
abbrev pub SameCounts : BlobStats → BlobStats → Type 0
SameCounts a b =
    (a.swept_blobs ≡ b.swept_blobs)
    × (a.swept_bytes ≡ b.swept_bytes)
    × (a.skipped_young ≡ b.skipped_young)

module _ (opt : Options) (fails : Digest → Bool) (now : ℕ) (live : Live) where
  abbrev pub estimate : Options
  estimate = record opt { dry_run = true }

  sweep_blob-dry_run :
      (d : Digest) (info : Option BlobInfo) (a b : BlobStats)
      → opt.dry_run ≡ false
      → fails d ≡ false
      → SameCounts a b
      → SameCounts
          (sweep_blob estimate fails now live d info a)
          (sweep_blob opt fails now live d info b)
  unfolding sweep_blob
  sweep_blob-dry_run d info a b real f same = elim (Bool-cases (has_blob live (digest_string d))) [
    | inl l ↦ rw l same
    | inr l ↦ elim (Bool-cases (within opt.min_age now (info_time info))) [
      | inl y ↦ rw (l, y) (same.0, same.1, ap suc same.2)
      | inr y ↦ rw (l, y, real, f) (ap suc same.0, ap (λ n. n + info_size info) same.1, same.2)
    ]
  ]

  -- An estimate deletes nothing and counts what the real pass counts when no deletion fails.
  pub sweep_blobs-dry_run :
      (listing : List (Digest × Option BlobInfo)) (a b : BlobStats)
      → opt.dry_run ≡ false
      → ((d : Digest) → fails d ≡ false)
      → SameCounts a b
      → SameCounts
          (sweep_blobs estimate fails now live listing a)
          (sweep_blobs opt fails now live listing b)
  unfolding sweep_blobs
  sweep_blobs-dry_run [] a b real f same = same
  sweep_blobs-dry_run ((d, info) ∷ rest) a b real f same =
      sweep_blobs-dry_run rest (sweep_blob estimate fails now live d info a)
        (sweep_blob opt fails now live d info b) real f
        (sweep_blob-dry_run d info a b real (f d) same)
