-- ===== src/Docker/Gc/Sweep/Laws.antt =====
-- Exactly which blobs and manifest files the sweep of gc.go deletes.
use kutu.Prelude.{
  ℕ, ◌+◌, ◌<◌, Text, codes, List, [], ◌∷◌, ◌++◌, Option, none, some, Bool, true, false, ◌&&◌, ltb,
  ◌≡◌, ◌↔◌, refl, sym, ap, subst, ◌⊎◌, inl, inr, In, Bool-cases, arith, has_iff, ◌∙◌,
}
use kutu.Prelude.{has_suffix, drop_suffix, has_prefix, after}
use mathlib.Core.List.{reverse, reverse-append, reverse-reverse}
use kutu.Blobstore.{Digest, digest_string}
use kutu.Docker.Gc.{Live, has_blob, has_manifest}
use kutu.Docker.Gc.Mark.{has_manifest-In}
use kutu.Docker.Gc.Fuel.{In-has_manifest}
use kutu.Docker.Gc.Sweep.{
  Options, BlobInfo, BlobStats, within, info_time, sweep_blobs, Entry, ManifestStats, manifest_file,
  digest_of, sweep_manifests,
}
use kutu.Docker.Gc.Sweep.Steps.{PassesBlob, PassesFile, sweep_blobs-steps, sweep_manifests-steps}

-- There is a grace period, the modification time is known, and the period has not passed since.
abbrev pub IsYoung : Options → ℕ → Option ℕ → Type 0
IsYoung opt now time = (at : ℕ) × (time ≡ some at) × (0 < opt.min_age) × (now < at + opt.min_age)

abbrev pub IsYoungBlob : Options → ℕ → Option BlobInfo → Type 0
IsYoungBlob opt now info = (i : BlobInfo) × (info ≡ some i) × IsYoung opt now i.mod_time

-- A blob that nothing live refers to and that is out of the grace period.
abbrev pub IsGarbage : Options → ℕ → Live → Digest → Option BlobInfo → Type 0
IsGarbage opt now live d info = (¬ In (digest_string d) live.blobs) × (¬ IsYoungBlob opt now info)

-- The file of a manifest, whose name is the digest and ".json".
abbrev pub IsFileOf : Text → Entry → Type 0
IsFileOf d e = (e.is_dir ≡ false) × (e.file ≡ d ++ codes ".json")

-- A manifest that nothing live refers to and whose file is out of the grace period.
abbrev pub IsStale : Options → ℕ → Text → Live → Text → Entry → Type 0
IsStale opt now name live d e =
    IsFileOf d e × (¬ In (name, d) live.marked) × (¬ IsYoung opt now e.stat)

within_iff :
    (opt : Options) (now : ℕ) (t : Option ℕ)
    → (within opt.min_age now t ≡ false) ↔ (¬ IsYoung opt now t)
unfolding within
within_iff opt now none = (λ h (at, q, a, b). cc q, λ h. refl)
within_iff opt now (some at) = (
  λ h (x, q, a, b).
      let same : at ≡ x = cc q in
      let late : now < at + opt.min_age = rw same b in ground (arith, h, a, late),
  λ h. elim (Bool-cases (ltb 0 opt.min_age && ltb now (at + opt.min_age))) [
    | inl e ↦ absurd (h (at, refl, ground (arith, e), ground (arith, e)))
    | inr e ↦ e
  ],
)

not_in : (t : Bool) (P : Type 0) → (t ≡ true) ↔ P → (t ≡ false) ↔ (¬ P)
not_in true P (f, g) = (λ h. cc h, λ h. absurd (h (f refl)))
not_in false P (f, g) = (λ h p. cc (g p), λ h. refl)

young_blob :
    (opt : Options) (now : ℕ) (info : Option BlobInfo)
    → (within opt.min_age now (info_time info) ≡ false) ↔ (¬ IsYoungBlob opt now info)
unfolding info_time
young_blob opt now none = (λ h (i, q, y). cc q, λ h. unfold within in refl)
young_blob opt now (some i) =
    let w = within_iff opt now i.mod_time in
    (
      λ h (j, q, y).
          let same : i ≡ j = cc q in w.0 h (subst (λ z. IsYoung opt now z.mod_time) (sym same) y),
      λ h. w.1 (λ y. h (i, refl, y)),
    )

PassesBlob-IsGarbage :
    (opt : Options) (now : ℕ) (live : Live) (d : Digest) (info : Option BlobInfo)
    → PassesBlob opt now live d info ↔ IsGarbage opt now live d info
PassesBlob-IsGarbage opt now live d info =
    let a =
      not_in (has_blob live (digest_string d)) (In (digest_string d) live.blobs)
        (unfold has_blob in let k = has_iff live.blobs (digest_string d) in k) in
    let b = young_blob opt now info in (λ (x, y). (a.0 x, b.0 y), λ (x, y). (a.1 x, b.1 y))

prefix-append : (p t : Text) → (has_prefix (p ++ t) p ≡ true) × (after (p ++ t) p ≡ t)
unfolding has_prefix after
prefix-append [] t = (refl, refl)
prefix-append (x ∷ p) t = let ih = prefix-append p t in (ground (arith, ih), ih.1)

prefix-inv : (s p : Text) → has_prefix s p ≡ true → s ≡ p ++ after s p
unfolding has_prefix after
prefix-inv s [] h = refl
prefix-inv [] (y ∷ p) h = cc h
prefix-inv (x ∷ s) (y ∷ p) h =
    let same : x ≡ y = ground (arith, h) in
    let rest : has_prefix s p ≡ true = ground (arith, h) in
    let ih = prefix-inv s p rest in λ i. same i ∷ ih i

-- A name that ends in ".json" is what was cut off and ".json".
json-inv :
    (s : Text)
    → has_suffix s (codes ".json") ≡ true
    → s ≡ drop_suffix s (codes ".json") ++ codes ".json"
unfolding has_suffix drop_suffix
json-inv s h =
    let back = prefix-inv (reverse s) (reverse (codes ".json")) h in
    sym (reverse-reverse s)
    ∙ (ap reverse back
        ∙ reverse-append (reverse (codes ".json")) (after (reverse s) (reverse (codes ".json"))))

reverse_json : (d : Text) → reverse (d ++ codes ".json") ≡ reverse (codes ".json") ++ reverse d
reverse_json d = reverse-append d (codes ".json")

json-suffix :
    (d : Text)
    → (has_suffix (d ++ codes ".json") (codes ".json") ≡ true)
      × (drop_suffix (d ++ codes ".json") (codes ".json") ≡ d)
      × (has_suffix (d ++ codes ".json") (codes ".media") ≡ false)
unfolding has_suffix drop_suffix
json-suffix d =
    let (a, b) = prefix-append (reverse (codes ".json")) (reverse d) in
    rw (reverse_json d) (a, ap reverse b ∙ reverse-reverse d, unfold has_prefix in refl)

file_iff : (d : Text) (e : Entry) → ((manifest_file e ≡ true) × (digest_of e ≡ d)) ↔ IsFileOf d e
unfolding manifest_file digest_of
file_iff d e = (
  λ (h, q).
      let cut = json-inv e.file (ground (arith, h)) in
      (ground (arith, h), cut ∙ ap (λ z. z ++ codes ".json") q),
  λ (plain, q). let (a, b, c) = json-suffix d in (rw (plain, q, a, c) refl, rw q b),
)

PassesFile-IsStale :
    (opt : Options) (now : ℕ) (name : Text) (live : Live) (d : Text) (e : Entry)
    → ((digest_of e ≡ d) × PassesFile opt now name live e) ↔ IsStale opt now name live d e
PassesFile-IsStale opt now name live d e =
    let f = file_iff d e in
    let k =
      not_in (has_manifest live name d) (In (name, d) live.marked)
        (has_manifest-In live name d, In-has_manifest live name d) in
    let w = within_iff opt now e.stat in
    (
      λ (q, (a, b, c)).
          (f.0 (a, q), k.0 (subst (λ z. has_manifest live name z ≡ false) q b), w.0 c),
      λ (g, b, c).
          let (a, q) = f.1 g in
          (q, (a, subst (λ z. has_manifest live name z ≡ false) (sym q) (k.1 b), w.1 c)),
    )

-- After the loop a blob is among the deleted exactly when it was before, or when the listing has it with
-- no live reference to it and out of the grace period, the pass is not a dry run and the backend deletes
-- it. It is out of the grace period unless there is one, the modification time is known and less than the
-- period has passed since.
pub sweep_blobs-deleted :
    (opt : Options) (fails : Digest → Bool) (now : ℕ) (live : Live) (x : Digest)
    (listing : List (Digest × Option BlobInfo)) (st : BlobStats)
    → In x (sweep_blobs opt fails now live listing st).deleted ↔ (
        In x st.deleted
        ⊎ ((info : Option BlobInfo) × In (x, info) listing
            × IsGarbage opt now live x info
            × (opt.dry_run ≡ false)
            × (fails x ≡ false)))
sweep_blobs-deleted opt fails now live x listing st =
    let k = sweep_blobs-steps opt fails now live x listing st in
    (
      λ h. elim (k.0 h) [
        | inl m ↦ inl m
        | inr (info, i, g, r, f) ↦
            inr (info, i, (PassesBlob-IsGarbage opt now live x info).0 g, r, f)
      ],
      λ h. elim h [
        | inl m ↦ k.1 (inl m)
        | inr (info, i, g, r, f) ↦
            k.1 (inr (info, i, (PassesBlob-IsGarbage opt now live x info).1 g, r, f))
      ],
    )

-- After the loop a manifest is among the removed exactly when it was before, or when the directory has its
-- file, which is no directory and is named by the digest and ".json", the manifest is not live in its
-- repository, the file is out of the grace period, the pass is not a dry run and the backend deletes the
-- file. It is out of the grace period unless there is one, the modification time is known and less than
-- the period has passed since.
pub sweep_manifests-removed :
    (opt : Options) (fails : Text → Bool) (now : ℕ) (name : Text) (live : Live) (x : Text)
    (es : List Entry) (st : ManifestStats)
    → In x (sweep_manifests opt fails now name live es st).removed ↔ (
        In x st.removed
        ⊎ ((e : Entry) × In e es
            × IsStale opt now name live x e
            × (opt.dry_run ≡ false)
            × (fails e.file ≡ false)))
sweep_manifests-removed opt fails now name live x es st =
    let k = sweep_manifests-steps opt fails now name live x es st in
    (
      λ h. elim (k.0 h) [
        | inl m ↦ inl m
        | inr (e, i, q, g, r, f) ↦
            inr (e, i, (PassesFile-IsStale opt now name live x e).0 (q, g), r, f)
      ],
      λ h. elim h [
        | inl m ↦ k.1 (inl m)
        | inr (e, i, g, r, f) ↦
            let (q, p) = (PassesFile-IsStale opt now name live x e).1 g in
            k.1 (inr (e, i, q, p, r, f))
      ],
    )
