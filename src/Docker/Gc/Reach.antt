-- ===== src/Docker/Gc/Reach.antt =====
-- The live set of gc.go against what the tags of a repository reach.
use kutu.Prelude.{
  ℕ, Text, List, [], ◌∷◌, Option, none, some, ◌≡◌, ◌≢◌, sym, ap, subst, inl, inr, In, Option-cases,
  All, All-intro, In-All,
}
use kutu.Blobstore.{Digest, digest_string, parse_digest}
use kutu.Docker.Gc.{
  Manifest, Stored, parsed, Referrers, Repository, Live, new_live, add_blob, add_manifest,
  next_manifests, mark_each, mark_manifest, mark_tags, mark_referrer, mark_index, mark_indexes,
  mark_repo, mark_repos,
}
use kutu.Docker.Gc.Mark.{
  Grows, Grows-refl, Grows-trans, IsKept, IsKept-Grows, Walked, Walked-refl, Walked-trans,
  mark_manifest-Walked,
}

module _ (read : Text → Digest → Stored) where
  -- A digest that a tag names, or that a stored manifest of the repository refers to.
  pub data Reaches (name : Text) (tags : List (Option Digest)) : Text → Type 0 where
    tagged :
        (dg : Digest)
        → In (some dg) tags
        → parse_digest (digest_string dg) ≡ some dg
        → Reaches name tags (digest_string dg)
    referred :
        (d c : Text) (dg cg : Digest) (m : Manifest)
        → Reaches name tags d
        → parse_digest d ≡ some dg
        → read name dg ≡ parsed m
        → In c (next_manifests m)
        → parse_digest c ≡ some cg
        → Reaches name tags c

  pub mark_tags-Walked :
      (n : ℕ) (name : Text) (tags : List (Option Digest)) (a b : Live)
      → mark_tags read n name tags a ≡ some b
      → Walked read name a b
        × ((dg : Digest)
            → In (some dg) tags
            → parse_digest (digest_string dg) ≡ some dg
            → In (name, digest_string dg) b.marked)
  unfolding mark_tags
  mark_tags-Walked n name [] a b h =
      let same : a ≡ b = cc in
      (subst (Walked read name a) same (Walked-refl read name a), λ dg m p. absurd m)
  mark_tags-Walked n name (none ∷ tags) a b h =
      let (w, all) = mark_tags-Walked n name tags a b h in
      (w, λ dg m p. elim m [ inl q ↦ cc | inr k ↦ all dg k p ])
  mark_tags-Walked n name (some t ∷ tags) a b h =
      elim (Option-cases (mark_manifest read n name (digest_string t) a)) [
        | inl e ↦ cc (rw (mark_tags, e) at h)
        | inr (l, e) ↦
            let (walk, at) = mark_manifest-Walked read n name (digest_string t) a l e in
            let (rest, all) = mark_tags-Walked n name tags l b (rw (mark_tags, e) at h) in
            (
              Walked-trans read name walk rest,
              λ dg m p. elim m [
                | inl q ↦
                    let same : t ≡ dg = cc in
                    rest.grows.marked_kept (name, digest_string dg)
                      (subst (λ z. In (name, z) l.marked) (ap digest_string same)
                        (at dg (rw same p)))
                | inr k ↦ all dg k p
              ],
            )
      ]

  -- Until its first mark a repository has none of its own.
  abbrev pub IsUnmarked : Text → Live → Type 0
  IsUnmarked name live = (x : Text) → In (name, x) live.marked → ⊥

  Walked-Reaches :
      (name : Text) (tags : List (Option Digest)) (a b : Live)
      → IsUnmarked name a
      → Walked read name a b
      → ((dg : Digest)
          → In (some dg) tags
          → parse_digest (digest_string dg) ≡ some dg
          → In (name, digest_string dg) b.marked)
      → (d : Text) → Reaches name tags d
      → In (name, d) b.marked × IsKept read b name d
  Walked-Reaches name tags a b fresh w at x (tagged dg m p) =
      let i = at dg m p in
      (
        i,
        elim (w.kept (digest_string dg) i) [
          | inl o ↦ absurd (fresh (digest_string dg) o)
          | inr k ↦ k
        ],
      )
  Walked-Reaches name tags a b fresh w at x (referred d c dg cg m r p q i pc) =
      let (_, k) = Walked-Reaches name tags a b fresh w at d r in
      let here = k.next_in dg m c cg p q i pc in
      (here, elim (w.kept c here) [ inl o ↦ absurd (fresh c o) | inr kc ↦ kc ])

  pub mark_each-Grows :
      (name : Text) (mark : Text → Live → Option Live)
      → ((d : Text) (a b : Live) → mark d a ≡ some b → Grows name a b)
      → (ds : List Text) (a b : Live) → mark_each mark ds a ≡ some b
      → Grows name a b
  unfolding mark_each
  mark_each-Grows name mark ok [] a b h =
      let same : a ≡ b = cc in subst (Grows name a) same (Grows-refl name a)
  mark_each-Grows name mark ok (d ∷ ds) a b h = elim (Option-cases (mark d a)) [
    | inl e ↦ cc (rw (mark_each, e) at h)
    | inr (l, e) ↦
        Grows-trans (ok d a l e) (mark_each-Grows name mark ok ds l b (rw (mark_each, e) at h))
  ]

  pub marked-Grows : (name d : Text) (a : Live) → Grows name a (add_manifest name d a)
  marked-Grows name d a = record {
    blobs_kept = λ x h. h;
    marked_kept = λ m h. inr h;
    only = λ m h. elim h [ inl q ↦ inr (ap (λ z. z.0) (sym q)) | inr i ↦ inl i ];
  }

  pub blob-Grows : (name d : Text) (a : Live) → Grows name a (add_blob d a)
  blob-Grows name d a = record {
    blobs_kept = λ x h. inr h;
    marked_kept = λ m h. h;
    only = λ m h. inl h;
  }

  pub mark_referrer-Grows :
      (n : ℕ) (name d : Text) (a b : Live) → mark_referrer read n name d a ≡ some b → Grows name a b
  unfolding mark_referrer
  mark_referrer-Grows n name d a b h =
      let (w, _) = mark_manifest-Walked read n name d (add_manifest name d a) b h in
      Grows-trans (marked-Grows name d a) w.grows

  pub mark_index-Grows :
      (n : ℕ) (name : Text) (r : Referrers) (a b : Live)
      → mark_index read n name r a ≡ some b
      → Grows name a b
  unfolding mark_index
  mark_index-Grows n name r a b h = Grows-trans (marked-Grows name r.of_subject a) (
      Grows-trans (blob-Grows name r.of_subject (add_manifest name r.of_subject a))
        (elim (Option-cases r.listed) [
          | inl e ↦
              let same : kept ≡ b = cc (rw (mark_index, e) at h) in
              subst (Grows name kept) same (Grows-refl name kept)
          | inr (ds, e) ↦
              mark_each-Grows name (mark_referrer read n name) (mark_referrer-Grows n name) ds kept
                b (rw (mark_index, e) at h)
        ]))
    where
      kept : Live
      kept = add_blob r.of_subject (add_manifest name r.of_subject a)

  pub mark_indexes-Grows :
      (n : ℕ) (name : Text) (rs : List Referrers) (a b : Live)
      → mark_indexes read n name rs a ≡ some b
      → Grows name a b
  unfolding mark_indexes
  mark_indexes-Grows n name [] a b h =
      let same : a ≡ b = cc in subst (Grows name a) same (Grows-refl name a)
  mark_indexes-Grows n name (r ∷ rs) a b h = elim (Option-cases (mark_index read n name r a)) [
    | inl e ↦ cc (rw (mark_indexes, e) at h)
    | inr (l, e) ↦
        Grows-trans (mark_index-Grows n name r a l e)
          (mark_indexes-Grows n name rs l b (rw (mark_indexes, e) at h))
  ]

  -- One repository: only its own marks are added, and all that its tags reach is kept.
  abbrev pub Keeps : Repository → Live → Live → Type 0
  Keeps repo a b =
      (tags : List (Option Digest))
      → repo.tags ≡ some tags
      → IsUnmarked repo.name a
      → (d : Text) → Reaches repo.name tags d
      → In (repo.name, d) b.marked × IsKept read b repo.name d

  mark_repo-Keeps :
      (n : ℕ) (repo : Repository) (a b : Live)
      → mark_repo read n repo a ≡ some b
      → Grows repo.name a b × Keeps repo a b
  unfolding mark_repo
  mark_repo-Keeps n repo a b h = elim (Option-cases repo.tags) [
    | inl e ↦
        let same : a ≡ b = cc (rw (mark_repo, e) at h) in
        (subst (Grows repo.name a) same (Grows-refl repo.name a), λ tags q. cc)
    | inr (tags, e) ↦ elim (Option-cases (mark_tags read n repo.name tags a)) [
      | inl t ↦ cc (rw (mark_repo, e, t) at h)
      | inr (l, t) ↦
          let (w, at) = mark_tags-Walked n repo.name tags a l t in
          let g = mark_indexes-Grows n repo.name repo.referrers l b (rw (mark_repo, e, t) at h) in
          (
            Grows-trans w.grows g,
            λ ts q fresh d r.
                let same : ts ≡ tags = cc in
                let (i, k) =
                  Walked-Reaches repo.name tags a l fresh w at d
                    (subst (λ z. Reaches repo.name z d) same r) in
                (g.marked_kept (repo.name, d) i, IsKept-Grows read repo.name d g k),
          )
    ]
  ]

  -- Repository names are different.
  abbrev pub AreDistinct : List Repository → Type 0
  AreDistinct [] = Unit
  AreDistinct (repo ∷ repos) = All (λ r. r.name ≢ repo.name) repos × AreDistinct repos

  mark_repos-Keeps :
      (n : ℕ) (repos : List Repository) (a b : Live)
      → mark_repos read n repos a ≡ some b
      → AreDistinct repos
      → All (λ r. IsUnmarked r.name a) repos
      → All (λ r. Keeps r a b) repos
        × ((d name : Text) → In (name, d) a.marked → In (name, d) b.marked)
        × ((name d : Text) → IsKept read a name d → IsKept read b name d)
  unfolding mark_repos
  mark_repos-Keeps n [] a b h distinct fresh =
      let same : a ≡ b = cc in
      (
        tt,
        λ d name. subst (λ l. In (name, d) l.marked) same,
        λ name d. subst (λ l. IsKept read l name d) same,
      )
  mark_repos-Keeps n (repo ∷ repos) a b h distinct fresh =
      elim (Option-cases (mark_repo read n repo a)) [
        | inl e ↦ cc (rw (mark_repos, e) at h)
        | inr (l, e) ↦
            let (g, keep) = mark_repo-Keeps n repo a l e in
            let (rest, marks, kept) =
              mark_repos-Keeps n repos l b (rw (mark_repos, e) at h) distinct.1 (
                All-intro (λ r. IsUnmarked r.name l) repos
                  (λ r i x m. elim (g.only (r.name, x) m) [
                    | inl o ↦ In-All (λ r2. IsUnmarked r2.name a) r repos fresh.1 i x o
                    | inr q ↦ In-All (λ r2. r2.name ≢ repo.name) r repos distinct.0 i q
                  ])) in
            (
              (
                λ tags q f d r.
                    let (i, k) = keep tags q f d r in (marks d repo.name i, kept repo.name d k),
                All-intro (λ r. Keeps r a b) repos
                    (λ r i tags q f.
                      In-All (λ r2. Keeps r2 l b) r repos rest i tags q
                        (λ x m. elim (g.only (r.name, x) m) [
                          | inl o ↦ f x o
                          | inr w ↦ In-All (λ r2. r2.name ≢ repo.name) r repos distinct.0 i w
                        ])),
              ),
              λ d name m. marks d name (g.marked_kept (name, d) m),
              λ name d k. kept name d (IsKept-Grows read name d g k),
            )
      ]

  -- The whole mark phase keeps, in each repository, all that its tags reach.
  pub mark_repos-Reaches :
      (n : ℕ) (repos : List Repository) (b : Live)
      → mark_repos read n repos new_live ≡ some b
      → AreDistinct repos
      → (repo : Repository) → In repo repos
      → (tags : List (Option Digest)) → repo.tags ≡ some tags
      → (d : Text) → Reaches repo.name tags d
      → In (repo.name, d) b.marked × IsKept read b repo.name d
  mark_repos-Reaches n repos b h distinct repo i tags q d r =
      let (all, _, _) =
        mark_repos-Keeps n repos new_live b h distinct
          (All-intro (λ x. IsUnmarked x.name new_live) repos (λ x _ y m. absurd m)) in
      In-All (λ x. Keeps x new_live b) repo repos all i tags q (λ x m. absurd m) d r
