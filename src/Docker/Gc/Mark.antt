-- ===== src/Docker/Gc/Mark.antt =====
-- What one walk of markManifestRecursive in gc.go adds to the live set.
use kutu.Prelude.{
  ℕ, zero, suc, Text, List, [], ◌∷◌, Option, some, true, ◌&&◌, ◌==◌, eq_iff, any, ◌≡◌, ◌≢◌, refl,
  sym, ap, subst, arith, ◌⊎◌, inl, inr, In, Bool-cases, Option-cases, In-append_left,
  In-append_right,
}
use kutu.Blobstore.{Digest, parse_digest}
use kutu.Docker.Gc.{
  Manifest, Stored, unreadable, not_json, parsed, Live, add_blob, add_manifest, has_manifest,
  own_blobs, next_manifests, add_blobs, mark_each, follow, visit, mark_manifest,
}

pub has_manifest-In :
    (live : Live) (name d : Text) → has_manifest live name d ≡ true → In (name, d) live.marked
has_manifest-In live name d h = go live.marked (unfold has_manifest in h)
  where
    go : (ms : List (Text × Text)) → any (λ m. m.0 == name && m.1 == d) ms ≡ true → In (name, d) ms
    go [] q = cc q
    go ((a, b) ∷ ms) q = elim (Bool-cases (a == name && b == d)) [
      | inl e ↦ inl (ground (arith, eq_iff a name, eq_iff b d))
      | inr e ↦ inr (go ms (rw e at q))
    ]

-- Nothing is taken out of a live set, and what is marked belongs to one repository.
pub record Grows (name : Text) (a b : Live) : Type 0 where
  pub blobs_kept : (d : Text) → In d a.blobs → In d b.blobs
  pub marked_kept : (m : Text × Text) → In m a.marked → In m b.marked
  pub only : (m : Text × Text) → In m b.marked → In m a.marked ⊎ (m.0 ≡ name)

pub Grows-refl : (name : Text) (a : Live) → Grows name a a
Grows-refl name a = record { blobs_kept = λ d h. h; marked_kept = λ m h. h; only = λ m h. inl h }

pub Grows-trans : {name : Text} {a b c : Live} → Grows name a b → Grows name b c → Grows name a c
Grows-trans p q = record {
  blobs_kept = λ d h. q.blobs_kept d (p.blobs_kept d h);
  marked_kept = λ m h. q.marked_kept m (p.marked_kept m h);
  only = λ m h. elim (q.only m h) [ inl i ↦ p.only m i | inr e ↦ inr e ];
}

module _ (read : Text → Digest → Stored) where
  -- A manifest whose own digest, blobs and well-formed references are all live.
  pub record IsKept (live : Live) (name d : Text) : Type 0 where
    pub self : In d live.blobs
    pub blobs_in :
        (dg : Digest) (m : Manifest) (b : Text)
        → parse_digest d ≡ some dg
        → read name dg ≡ parsed m
        → In b (own_blobs m)
        → In b live.blobs
    pub next_in :
        (dg : Digest) (m : Manifest) (c : Text) (cg : Digest)
        → parse_digest d ≡ some dg
        → read name dg ≡ parsed m
        → In c (next_manifests m)
        → parse_digest c ≡ some cg
        → In (name, c) live.marked

  pub IsKept-Grows :
      {other : Text} {a b : Live} (name d : Text)
      → Grows other a b
      → IsKept a name d
      → IsKept b name d
  IsKept-Grows name d g k = record {
    self = g.blobs_kept d k.self;
    blobs_in = λ dg m b p r h. g.blobs_kept b (k.blobs_in dg m b p r h);
    next_in = λ dg m c cg p r h q. g.marked_kept (name, c) (k.next_in dg m c cg p r h q);
  }

  -- What one walk does: it only adds, and all that it adds is kept.
  pub record Walked (name : Text) (a b : Live) : Type 0 where
    pub grows : Grows name a b
    pub kept : (x : Text) → In (name, x) b.marked → In (name, x) a.marked ⊎ IsKept b name x

  pub Walked-refl : (name : Text) (a : Live) → Walked name a a
  Walked-refl name a = record { grows = Grows-refl name a; kept = λ x h. inl h }

  pub Walked-trans :
      {a b c : Live} (name : Text) → Walked name a b → Walked name b c → Walked name a c
  Walked-trans name p q = record {
    grows = Grows-trans p.grows q.grows;
    kept = λ x h. elim (q.kept x h) [
      | inl old ↦ elim (p.kept x old) [
        | inl o ↦ inl o
        | inr k ↦ inr (IsKept-Grows name x q.grows k)
      ]
      | inr k ↦ inr k
    ];
  }

  -- A walk over a list, and that each member with a well-formed digest ends marked.
  abbrev Marks : Text → (Text → Live → Option Live) → Type 0
  Marks name mark =
      (d : Text) (a b : Live)
      → mark d a ≡ some b
      → Walked name a b × ((dg : Digest) → parse_digest d ≡ some dg → In (name, d) b.marked)

  mark_each-Walked :
      (name : Text) (mark : Text → Live → Option Live)
      → Marks name mark
      → (ds : List Text) (a b : Live) → mark_each mark ds a ≡ some b
      → Walked name a b
        × ((c : Text) (cg : Digest) → In c ds → parse_digest c ≡ some cg → In (name, c) b.marked)
  unfolding mark_each
  mark_each-Walked name mark ok [] a b h =
      let same : a ≡ b = cc in
      (subst (Walked name a) same (Walked-refl name a), λ c cg m p. absurd m)
  mark_each-Walked name mark ok (d ∷ ds) a b h = elim (Option-cases (mark d a)) [
    | inl e ↦ cc (rw (mark_each, e) at h)
    | inr (l, e) ↦
        let (walk, at) = ok d a l e in
        let (rest, all) = mark_each-Walked name mark ok ds l b (rw (mark_each, e) at h) in
        (
          Walked-trans name walk rest,
          λ c cg m p. elim m [
            | inl q ↦
                rest.grows.marked_kept (name, c)
                  (subst (λ t. In (name, t) l.marked) q (at cg (rw q p)))
            | inr k ↦ all c cg k p
          ],
        )
  ]

  -- A manifest that was not marked: its own entries first, then those of its references.
  enter :
      (name d : Text) (ds : List Text) (a b : Live)
      → Walked name (add_blobs ds (add_blob d (add_manifest name d a))) b
      → IsKept b name d
      → Walked name a b × In (name, d) b.marked
  enter name d ds a b w k = (
    record {
      grows = record {
        blobs_kept = λ x h. w.grows.blobs_kept x (In-append_right x ds (d ∷ a.blobs) (inr h));
        marked_kept = λ m h. w.grows.marked_kept m (inr h);
        only = λ m h. elim (w.grows.only m h) [
          | inl o ↦ elim o [ inl q ↦ inr (ap (λ z. z.0) (sym q)) | inr i ↦ inl i ]
          | inr e ↦ inr e
        ];
      };
      kept = λ x h. elim (w.kept x h) [
        | inl old ↦ elim old [
          | inl q ↦ inr (subst (IsKept b name) (ap (λ m. m.1) q) k)
          | inr o ↦ inl o
        ]
        | inr new ↦ inr new
      ];
    },
    w.grows.marked_kept (name, d) (inl refl),
  )

  leaf :
      (name d : Text) (dg : Digest)
      → parse_digest d ≡ some dg
      → (a b : Live) → ((m : Manifest) → read name dg ≢ parsed m)
      → add_blob d (add_manifest name d a) ≡ b
      → Walked name a b × In (name, d) b.marked
  leaf name d dg p a b bad e =
      enter name d [] a b (subst (Walked name start) e (Walked-refl name start)) (record {
        self = subst (λ l. In d l.blobs) e (inl refl);
        blobs_in = λ dg2 m x p2 r i. absurd (clash dg2 m p2 r);
        next_in = λ dg2 m c cg p2 r i q. absurd (clash dg2 m p2 r);
      })
    where
      start : Live
      start = add_blob d (add_manifest name d a)

      clash :
          (dg2 : Digest) (m : Manifest) → parse_digest d ≡ some dg2 → read name dg2 ≡ parsed m → ⊥
      clash dg2 m p2 r = let same : dg2 ≡ dg = cc in bad m (cc (same, r))

  visit-Walked :
      (name d : Text) (dg : Digest) (mark : Text → Live → Option Live)
      → Marks name mark
      → parse_digest d ≡ some dg
      → (s : Stored) → read name dg ≡ s
      → (a b : Live) → follow (mark_each mark) s (add_blob d (add_manifest name d a)) ≡ some b
      → Walked name a b × In (name, d) b.marked
  unfolding follow
  visit-Walked name d dg mark ok p unreadable r a b h = leaf name d dg p a b (λ m q. cc) cc
  visit-Walked name d dg mark ok p not_json r a b h = leaf name d dg p a b (λ m q. cc) cc
  visit-Walked name d dg mark ok p (parsed m) r a b h =
      let start = add_blob d (add_manifest name d a) in
      let (w, all) =
        mark_each-Walked name mark ok (next_manifests m) (add_blobs (own_blobs m) start) b h in
      enter name d (own_blobs m) a b w (record {
        self = w.grows.blobs_kept d (In-append_right d (own_blobs m) (d ∷ a.blobs) (inl refl));
        blobs_in = λ dg2 m2 x p2 r2 i.
            let dup : m2 ≡ m = one m m2 dg2 p r p2 r2 in
            let same : own_blobs m2 ≡ own_blobs m = ap own_blobs dup in
            w.grows.blobs_kept x
              (In-append_left x (own_blobs m) (d ∷ a.blobs) (subst (In x) same i));
        next_in = λ dg2 m2 c cg p2 r2 i q.
            let dup : m2 ≡ m = one m m2 dg2 p r p2 r2 in
            let same : next_manifests m2 ≡ next_manifests m = ap next_manifests dup in
            all c cg (subst (In c) same i) q;
      })
    where
      one :
          (m m2 : Manifest) (dg2 : Digest)
          → parse_digest d ≡ some dg
          → read name dg ≡ parsed m
          → parse_digest d ≡ some dg2
          → read name dg2 ≡ parsed m2
          → m2 ≡ m
      one m m2 dg2 p r p2 r2 =
          let same : dg2 ≡ dg = cc in let r3 : read name dg ≡ parsed m2 = cc in cc

  pub mark_manifest-Walked : (n : ℕ) (name : Text) → Marks name (mark_manifest read n name)
  unfolding mark_manifest
  mark_manifest-Walked zero name d a b h = cc
  mark_manifest-Walked (suc n) name d a b h = elim (Bool-cases (has_manifest a name d)) [
    | inl e ↦
        let same : a ≡ b = cc (rw (mark_manifest, e) at h) in
        let old = has_manifest-In a name d e in
        (
          subst (Walked name a) same (Walked-refl name a),
          λ dg p. subst (λ l. In (name, d) l.marked) same old,
        )
    | inr e ↦ elim (Option-cases (parse_digest d)) [
      | inl p ↦
          let same : a ≡ b = cc (rw (mark_manifest, visit, e, p) at h) in
          (subst (Walked name a) same (Walked-refl name a), λ dg q. cc)
      | inr (dg, p) ↦
          let (w, at) =
            visit-Walked name d dg (mark_manifest read n name) (mark_manifest-Walked n name) p
              (read name dg) refl a b (rw (mark_manifest, visit, e, p) at h) in
          (w, λ dg2 q. at)
    ]
  ]
