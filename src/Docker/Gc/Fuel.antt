-- ===== src/Docker/Gc/Fuel.antt =====
-- The depth of the recursion of markManifestRecursive in gc.go, against the stored manifests.
use kutu.Prelude.{
  ℕ, zero, suc, ◌≤◌, ◌<◌, Text, List, [], ◌∷◌, Option, none, some, true, false, ◌&&◌, ◌==◌, eq_refl,
  if◌then◌else◌, any_iff, ◌≡◌, refl, sym, ap, subst, arith, inl, inr, In, Bool-cases, Option-cases,
  length, ◌∙◌, In-append_right,
}
use kutu.Blobstore.{Digest, digest_string, parse_digest}
use kutu.Docker.Gc.{
  Manifest, Stored, unreadable, not_json, parsed, Referrers, Repository, Live, new_live, add_blob,
  add_manifest, has_manifest, own_blobs, next_manifests, add_blobs, mark_each, follow, visit,
  mark_manifest, mark_tags, mark_referrer, mark_index, mark_indexes, mark_repo, mark_repos,
}
use kutu.Docker.Gc.Mark.{
  Grows, Grows-refl, Grows-trans, IsKept, has_manifest-In, mark_manifest-Walked,
}
use kutu.Docker.Gc.Index.{mark_referrer-marked}
use kutu.Docker.Gc.Reach.{marked-Grows, AreDistinct, Reaches, mark_repos-Reaches}

pub In-has_manifest :
    (live : Live) (name d : Text) → In (name, d) live.marked → has_manifest live name d ≡ true
unfolding has_manifest
In-has_manifest live name d h =
    (any_iff (λ m. m.0 == name && m.1 == d) live.marked).1
      ((name, d), h, rw (eq_refl name, eq_refl d) refl)

-- How many of the stored manifests are not marked.
unfoldable gap : List (Text × Text) → Live → ℕ
gap [] live = 0
gap ((name, d) ∷ stored) live =
    let rest = gap stored live in if has_manifest live name d then rest else suc rest

gap-length : (stored : List (Text × Text)) (live : Live) → gap stored live ≤ length stored
unfolding gap
gap-length [] live = omega arith
gap-length ((name, d) ∷ stored) live = ground (arith, gap-length stored live)

has-Grows :
    {other : Text} (a b : Live) (name d : Text)
    → Grows other a b
    → has_manifest a name d ≡ true
    → has_manifest b name d ≡ true
has-Grows a b name d g h =
    In-has_manifest b name d (g.marked_kept (name, d) (has_manifest-In a name d h))

gap-Grows :
    {other : Text} (stored : List (Text × Text)) (a b : Live)
    → Grows other a b
    → gap stored b ≤ gap stored a
unfolding gap
gap-Grows [] a b g = omega arith
gap-Grows ((name, d) ∷ stored) a b g =
    let ih = gap-Grows stored a b g in let up = has-Grows a b name d g in ground (arith, ih, up)

gap-marked :
    {other : Text} (stored : List (Text × Text)) (a b : Live) (name d : Text)
    → Grows other a b
    → In (name, d) stored
    → has_manifest a name d ≡ false
    → has_manifest b name d ≡ true
    → gap stored b < gap stored a
unfolding gap
gap-marked [] a b name d g i old new = absurd i
gap-marked ((x, y) ∷ stored) a b name d g (inl e) old new =
    let old2 : has_manifest a x y ≡ false = cc (ap (λ z. has_manifest a z.0 z.1) e) in
    let new2 : has_manifest b x y ≡ true = cc (ap (λ z. has_manifest b z.0 z.1) e) in
    let rest = gap-Grows stored a b g in ground (arith, old2, new2, rest)
gap-marked ((x, y) ∷ stored) a b name d g (inr i) old new =
    let ih = gap-marked stored a b name d g i old new in
    let up = has-Grows a b x y g in ground (arith, ih, up)

-- A step that ends, with what it did.
abbrev Ends : Text → Live → Option Live → Type 0
Ends name a o = (b : Live) × (o ≡ some b) × Grows name a b

step :
    (mark : Text → Live → Option Live) (d : Text) (ds : List Text) (a l : Live)
    → mark d a ≡ some l
    → mark_each mark (d ∷ ds) a ≡ mark_each mark ds l
unfolding mark_each
step mark d ds a l e = rw (mark_each, e) refl

entered-Grows :
    (name d : Text) (ds : List Text) (a : Live)
    → Grows name a (add_blobs ds (add_blob d (add_manifest name d a)))
entered-Grows name d ds a = record {
  blobs_kept = λ x h. In-append_right x ds (d ∷ a.blobs) (inr h);
  marked_kept = λ m h. inr h;
  only = λ m h. elim h [ inl q ↦ inr (ap (λ z. z.0) (sym q)) | inr i ↦ inl i ];
}

mark_each-Ends :
    (stored : List (Text × Text)) (n : ℕ) (name : Text) (mark : Text → Live → Option Live)
    (ds : List Text)
    → ((d : Text) → In d ds → (a : Live) → gap stored a < n → Ends name a (mark d a))
    → (a : Live) → gap stored a < n
    → Ends name a (mark_each mark ds a)
unfolding mark_each
mark_each-Ends stored n name mark [] ok a h = (a, refl, Grows-refl name a)
mark_each-Ends stored n name mark (d ∷ ds) ok a h =
    let (l, e, g) = ok d (inl refl) a h in
    let less = gap-Grows stored a l g in
    let (b, f, k) = mark_each-Ends stored n name mark ds (λ x i. ok x (inr i)) l (omega arith) in
    (b, step mark d ds a l e ∙ f, Grows-trans g k)

module _ (read : Text → Digest → Stored) (stored : List (Text × Text)) where
  -- If a text is the digest of a readable manifest, in some spelling, then it is listed as it is spelled.
  abbrev pub IsListed : Text → Text → Type 0
  IsListed name d =
      (dg : Digest) (m : Manifest)
      → parse_digest d ≡ some dg
      → read name dg ≡ parsed m
      → In (name, d) stored

  -- The references of every readable manifest are listed, as they are spelled.
  abbrev pub IsClosed : Type 0
  IsClosed =
      (name : Text) (dg : Digest) (m : Manifest) (c : Text)
      → read name dg ≡ parsed m
      → In c (next_manifests m)
      → IsListed name c

  abbrev pub AreListed : Text → List (Option Digest) → Type 0
  AreListed name tags = (dg : Digest) → In (some dg) tags → IsListed name (digest_string dg)

  -- `stored` has the manifests that the tags of the repositories name and that the manifests refer to.
  abbrev pub Lists : List Repository → Type 0
  Lists repos =
      IsClosed
      × ((repo : Repository) (tags : List (Option Digest))
          → In repo repos
          → repo.tags ≡ some tags
          → AreListed repo.name tags)

  follow-Ends :
      IsClosed
      → (n : ℕ) (name d : Text) (dg : Digest) (mark : Text → Live → Option Live)
      → ((x : Text) → IsListed name x → (a : Live) → gap stored a < n → Ends name a (mark x a))
      → IsListed name d
      → parse_digest d ≡ some dg
      → (s : Stored) → read name dg ≡ s
      → (a : Live) → has_manifest a name d ≡ false
      → gap stored a < suc n
      → (b : Live) × (follow (mark_each mark) s (add_blob d (add_manifest name d a)) ≡ some b)
  unfolding follow
  follow-Ends closed n name d dg mark ok named p unreadable r a old h = (_, refl)
  follow-Ends closed n name d dg mark ok named p not_json r a old h = (_, refl)
  follow-Ends closed n name d dg mark ok named p (parsed m) r a old h =
      let start = add_blobs (own_blobs m) (add_blob d (add_manifest name d a)) in
      let less : gap stored start < gap stored a =
        gap-marked stored a start name d (entered-Grows name d (own_blobs m) a) (named dg m p r) old
          (In-has_manifest start name d (inl refl)) in
      let (b, e, _) =
        mark_each-Ends stored n name mark (next_manifests m) (λ x i. ok x (closed name dg m x r i))
          start (omega arith) in
      (b, e)

  run_manifest :
      IsClosed
      → (n : ℕ) (name d : Text) → IsListed name d
      → (a : Live) → gap stored a < suc n
      → ((x : Text)
          → IsListed name x
          → (c : Live) → gap stored c < n
          → Ends name c (mark_manifest read n name x c))
      → (b : Live) × (mark_manifest read (suc n) name d a ≡ some b)
  unfolding mark_manifest visit
  run_manifest closed n name d named a h ok = elim (Bool-cases (has_manifest a name d)) [
    | inl e ↦ (a, rw e refl)
    | inr e ↦ elim (Option-cases (parse_digest d)) [
      | inl p ↦ (a, rw (e, p) refl)
      | inr (dg, p) ↦
          let (b, f) =
            follow-Ends closed n name d dg (mark_manifest read n name) ok named p (read name dg)
              refl a e h in
          (b, rw (e, p) f)
    ]
  ]

  mark_manifest-Ends :
      IsClosed
      → (n : ℕ) (name d : Text) → IsListed name d
      → (a : Live) → gap stored a < n
      → Ends name a (mark_manifest read n name d a)
  unfolding mark_manifest visit
  mark_manifest-Ends closed zero name d named a h = absurd (omega arith)
  mark_manifest-Ends closed (suc n) name d named a h =
      let (b, e) = run_manifest closed n name d named a h (mark_manifest-Ends closed n name) in
      let (w, _) = mark_manifest-Walked read (suc n) name d a b e in (b, e, w.grows)

  mark_tags-Ends :
      IsClosed
      → (n : ℕ) (name : Text) (tags : List (Option Digest)) → AreListed name tags
      → (a : Live) → gap stored a < n
      → Ends name a (mark_tags read n name tags a)
  unfolding mark_tags
  mark_tags-Ends closed n name [] named a h = (a, refl, Grows-refl name a)
  mark_tags-Ends closed n name (none ∷ tags) named a h =
      mark_tags-Ends closed n name tags (λ dg i. named dg (inr i)) a h
  mark_tags-Ends closed n name (some t ∷ tags) named a h =
      let (l, e, g) = mark_manifest-Ends closed n name (digest_string t) (named t (inl refl)) a h in
      let less = gap-Grows stored a l g in
      let (b, f, k) =
        mark_tags-Ends closed n name tags (λ dg i. named dg (inr i)) l (omega arith) in
      (
        b,
        subst (λ o. elim o [ none ↦ none | some x ↦ mark_tags read n name tags x ] ≡ some b) (sym e)
            f,
        Grows-trans g k,
      )

  mark_referrer-Ends :
      (n : ℕ) (name d : Text) (a : Live)
      → gap stored a < n
      → Ends name a (mark_referrer read n name d a)
  mark_referrer-Ends zero name d a h = absurd (omega arith)
  mark_referrer-Ends (suc n) name d a h =
      (add_manifest name d a, mark_referrer-marked read n name d a, marked-Grows read name d a)

  mark_index-Ends :
      (n : ℕ) (name : Text) (r : Referrers) (a : Live)
      → gap stored a < n
      → Ends name a (mark_index read n name r a)
  unfolding mark_index
  mark_index-Ends n name r a h =
      let kept = add_blob r.of_subject (add_manifest name r.of_subject a) in
      let g : Grows name a kept = entered-Grows name r.of_subject [] a in
      let less = gap-Grows stored a kept g in
      elim (Option-cases r.listed) [
        | inl e ↦ (kept, rw e refl, g)
        | inr (ds, e) ↦
            let (b, f, k) =
              mark_each-Ends stored n name (mark_referrer read n name) ds
                (λ x _. mark_referrer-Ends n name x) kept (omega arith) in
            (b, rw e f, Grows-trans g k)
      ]

  mark_indexes-Ends :
      (n : ℕ) (name : Text) (rs : List Referrers) (a : Live)
      → gap stored a < n
      → Ends name a (mark_indexes read n name rs a)
  unfolding mark_indexes
  mark_indexes-Ends n name [] a h = (a, refl, Grows-refl name a)
  mark_indexes-Ends n name (r ∷ rs) a h =
      let (l, e, g) = mark_index-Ends n name r a h in
      let less = gap-Grows stored a l g in
      let (b, f, k) = mark_indexes-Ends n name rs l (omega arith) in
      (
        b,
        subst (λ o. elim o [ none ↦ none | some x ↦ mark_indexes read n name rs x ] ≡ some b)
            (sym e) f,
        Grows-trans g k,
      )

  mark_repo-Ends :
      IsClosed
      → (n : ℕ) (repo : Repository)
      → ((tags : List (Option Digest)) → repo.tags ≡ some tags → AreListed repo.name tags)
      → (a : Live) → gap stored a < n
      → Ends repo.name a (mark_repo read n repo a)
  unfolding mark_repo
  mark_repo-Ends closed n repo named a h = elim (Option-cases repo.tags) [
    | inl e ↦ (a, rw e refl, Grows-refl repo.name a)
    | inr (tags, e) ↦
        let (l, t, g) = mark_tags-Ends closed n repo.name tags (named tags e) a h in
        let less = gap-Grows stored a l g in
        let (b, f, k) = mark_indexes-Ends n repo.name repo.referrers l (omega arith) in
        (b, found repo n tags a l b e t f, Grows-trans g k)
  ]
    where
      found :
          (r : Repository) (m : ℕ) (tags : List (Option Digest)) (x l b : Live)
          → r.tags ≡ some tags
          → mark_tags read m r.name tags x ≡ some l
          → mark_indexes read m r.name r.referrers l ≡ some b
          → mark_repo read m r x ≡ some b
      found r m tags x l b e t f = rw (mark_repo, e, t) f

  mark_repos-Ends :
      (n : ℕ) (repos : List Repository)
      → Lists repos
      → (a : Live) → gap stored a < n
      → (b : Live) × (mark_repos read n repos a ≡ some b)
  unfolding mark_repos
  mark_repos-Ends n [] listed a h = (a, refl)
  mark_repos-Ends n (repo ∷ repos) listed a h =
      let (l, e, g) = mark_repo-Ends listed.0 n repo (λ tags. listed.1 repo tags (inl refl)) a h in
      let less = gap-Grows stored a l g in
      let (b, f) =
        mark_repos-Ends n repos (listed.0, λ r tags i. listed.1 r tags (inr i)) l (omega arith) in
      (
        b,
        subst (λ o. elim o [ none ↦ none | some x ↦ mark_repos read n repos x ] ≡ some b) (sym e) f,
      )

  -- With one unit of fuel more than stored manifests the mark phase ends, and then everything that
  -- the tags of a repository reach is marked, with its config, its layers and its references.
  pub mark_repos_complete :
      (repos : List Repository)
      → Lists repos
      → AreDistinct read repos
      → (b : Live) × (mark_repos read (suc (length stored)) repos new_live ≡ some b)
        × ((repo : Repository) (tags : List (Option Digest)) (d : Text)
            → In repo repos
            → repo.tags ≡ some tags
            → Reaches read repo.name tags d
            → In (repo.name, d) b.marked × IsKept read b repo.name d)
  mark_repos_complete repos listed distinct =
      let bound = gap-length stored new_live in
      let (b, e) = mark_repos-Ends (suc (length stored)) repos listed new_live (omega arith) in
      (
        b,
        e,
        λ repo tags d i q r.
            mark_repos-Reaches read (suc (length stored)) repos b e distinct repo i tags q d r,
      )
