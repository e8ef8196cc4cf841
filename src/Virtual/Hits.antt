-- ===== src/Virtual/Hits.antt =====
-- Which member of a virtual registry serves a request.
use mathlib.Core.List.{append_assoc, append-nil}
use kutu.Prelude.{
  eq_refl, if◌then◌else◌, Text, List, [], ◌∷◌, ◌++◌, Option, none, some, Bool, true, false, has,
  ◌≡◌, ◌≢◌, ◌⊎◌, inl, inr, refl, sym, ap, subst, ◌∙◌, Bool-cases, Option-cases, All, In, has_iff,
  ◌==◌, eq_iff,
}
use kutu.Prelude.Maps.{get, put, get-put}
use kutu.Virtual.{
  Header, Response, Writer, Base, hop_by_hop, values_of, is_hop_by_hop, add, add_values,
  copy_headers, is_success, visit_members, for_each_member, try_member, serve_first_hit,
}

values_of-put :
    (k j : Text) (vs : List Text) (h : Header) → k ≢ j → values_of j (put k vs h) ≡ values_of j h
values_of-put k j vs h d = elim (Bool-cases (k == j)) [
  | inl e ↦ absurd (d ((eq_iff k j).0 e))
  | inr e ↦
      let same : get j (put k vs h) ≡ get j h = get-put k j vs h ∙ (rw e refl) in
      ap (λ (o : Option (List Text)). elim o [ none ↦ [] | some vs ↦ vs ]) same
]

values_of-put_own : (k : Text) (vs : List Text) (h : Header) → values_of k (put k vs h) ≡ vs
values_of-put_own k vs h =
    let same : get k (put k vs h) ≡ some vs = get-put k k vs h ∙ (rw (eq_refl k) refl) in
    ap (λ (o : Option (List Text)). elim o [ none ↦ [] | some vs ↦ vs ]) same

module _ (canonical : Text → Text) where
  add_values-other :
      (j k : Text) (vs : List Text) (dst : Header)
      → canonical k ≢ j
      → values_of j (add_values canonical dst k vs) ≡ values_of j dst
  unfolding add_values add
  add_values-other j k [] dst d = refl
  add_values-other j k (v ∷ vs) dst d =
      add_values-other j k vs (add canonical dst k v) d
      ∙ values_of-put (canonical k) j (values_of (canonical k) dst ++ v ∷ []) dst d

  add_values-own :
      (k j : Text) (vs : List Text) (dst : Header)
      → canonical j ≡ k
      → values_of k (add_values canonical dst j vs) ≡ values_of k dst ++ vs
  unfolding add_values add
  add_values-own k j [] dst e = sym (append-nil (values_of k dst))
  add_values-own k j (v ∷ vs) dst e =
      let put_own : values_of k (add canonical dst j v) ≡ values_of k dst ++ v ∷ [] =
        subst
          (λ z.
            values_of z (put (canonical j) (values_of (canonical j) dst ++ v ∷ []) dst)
            ≡ values_of z dst ++ v ∷ [])
          e (values_of-put_own (canonical j) (values_of (canonical j) dst ++ v ∷ []) dst) in
      add_values-own k j vs (add canonical dst j v) e
      ∙ (ap (λ z. z ++ vs) put_own ∙ append_assoc (values_of k dst) (v ∷ []) vs)

  -- The values that a header has under the names whose canonical form is `k`, in the order of the header.
  abbrev pub sent_under : Text → Header → List Text
  sent_under k [] = []
  sent_under k ((j, vs) ∷ h) = (if canonical j == k then vs else []) ++ sent_under k h

  -- Copying adds the member's values under every name but the hop-by-hop ones.
  pub copy_headers-sent :
      (k : Text) (src dst : Header)
      → ¬ In k hop_by_hop
      → values_of k (copy_headers canonical dst src) ≡ values_of k dst ++ sent_under k src
  unfolding copy_headers is_hop_by_hop
  copy_headers-sent k [] dst d = sym (append-nil (values_of k dst))
  copy_headers-sent k ((j, vs) ∷ src) dst d = elim (Bool-cases (has hop_by_hop (canonical j))) [
    | inl e ↦
        let other : (canonical j == k) ≡ false = elim (Bool-cases (canonical j == k)) [
          | inl q ↦ absurd (
              d (
                subst (λ z. In z hop_by_hop) ((eq_iff (canonical j) k).0 q)
                  ((has_iff hop_by_hop (canonical j)).0 e)))
          | inr q ↦ q
        ] in
        rw (e, other) (copy_headers-sent k src dst d)
    | inr e ↦ elim (Bool-cases (canonical j == k)) [
      | inl q ↦
          rw (e, q)
            (copy_headers-sent k src (add_values canonical dst j vs) d
              ∙ (ap (λ z. z ++ sent_under k src)
                    (add_values-own k j vs dst ((eq_iff (canonical j) k).0 q))
                  ∙ append_assoc (values_of k dst) vs (sent_under k src)))
      | inr q ↦
          let other : canonical j ≢ k =
            λ same. let yes_it = (eq_iff (canonical j) k).1 same in cc (yes_it, q) in
          rw (e, q)
            (copy_headers-sent k src (add_values canonical dst j vs) d
              ∙ ap (λ z. z ++ sent_under k src) (add_values-other k j vs dst other))
    ]
  ]

  -- Copying a member's header leaves the hop-by-hop headers of the response as they were.
  pub copy_headers-hop_by_hop :
      (j : Text) (src dst : Header)
      → In j hop_by_hop
      → values_of j (copy_headers canonical dst src) ≡ values_of j dst
  unfolding copy_headers is_hop_by_hop
  copy_headers-hop_by_hop j [] dst i = refl
  copy_headers-hop_by_hop j ((k, vs) ∷ src) dst i =
      elim (Bool-cases (has hop_by_hop (canonical k))) [
        | inl e ↦ rw e (copy_headers-hop_by_hop j src dst i)
        | inr e ↦
            let other : canonical k ≢ j = λ q.
              let yes_hop = (has_iff hop_by_hop j).1 i in
              let no_hop : has hop_by_hop j ≡ false = subst (λ z. has hop_by_hop z ≡ false) q e in
              cc (yes_hop, no_hop) in
            rw e (
              copy_headers-hop_by_hop j src (add_values canonical dst k vs) i
              ∙ add_values-other j k vs dst other)
      ]

module _ {Registry : Type 0} (lookup : Text → Text → Option Registry) (canonical : Text → Text)
    (check_gate : Registry → Bool) (serve_http : Registry → Response) (namespace : Text) where
  -- The gate lets the request through to the member, and the member answers with success.
  abbrev pub Serves : Registry → Type 0
  Serves reg = (check_gate reg ≡ true) × (is_success (serve_http reg).code ≡ true)

  -- The name resolves to no registry, or to one that does not serve.
  abbrev pub Misses : Text → Type 0
  Misses name = (reg : Registry) → lookup namespace name ≡ some reg → ¬ Serves reg

  pub data FirstHit : List Text → Registry → Type 0 where
    here :
        {name : Text} {names : List Text} {reg : Registry}
        → lookup namespace name ≡ some reg
        → Serves reg
        → FirstHit (name ∷ names) reg
    later :
        {name : Text} {names : List Text} {reg : Registry}
        → Misses name
        → FirstHit names reg
        → FirstHit (name ∷ names) reg

  abbrev pub answer : Writer → Registry → Writer
  answer w reg = record {
    header = copy_headers canonical w.header (serve_http reg).header;
    sent = some ((serve_http reg).code, (serve_http reg).body);
  }

  abbrev visits : List Text → Writer × Bool → Writer × Bool
  visits = visit_members lookup (try_member lookup canonical check_gate serve_http) namespace

  unresolved :
      (name : Text) (names : List Text) (s : Writer × Bool)
      → lookup namespace name ≡ none
      → visits (name ∷ names) s ≡ visits names s
  unfolding visit_members
  unresolved name names s e = rw e refl

  served :
      (name : Text) (names : List Text) (w : Writer) (reg : Registry)
      → lookup namespace name ≡ some reg
      → Serves reg
      → visits (name ∷ names) (w, false) ≡ (answer w reg, true)
  unfolding visit_members try_member
  served name names w reg e h = rw e (rw h.0 (rw h.1 refl))

  barred :
      (name : Text) (names : List Text) (w : Writer) (reg : Registry)
      → lookup namespace name ≡ some reg
      → check_gate reg ≡ false
      → visits (name ∷ names) (w, false) ≡ visits names (w, false)
  unfolding visit_members try_member
  barred name names w reg e h = rw e (rw h refl)

  missed :
      (name : Text) (names : List Text) (w : Writer) (reg : Registry)
      → lookup namespace name ≡ some reg
      → is_success (serve_http reg).code ≡ false
      → visits (name ∷ names) (w, false) ≡ visits names (w, false)
  unfolding visit_members try_member
  missed name names w reg e h = elim (Bool-cases (check_gate reg)) [
    | inl g ↦ rw e (rw g (rw h refl))
    | inr g ↦ rw e (rw g refl)
  ]

  missing :
      (name : Text) (names : List Text) (w : Writer)
      → Misses name
      → visits (name ∷ names) (w, false) ≡ visits names (w, false)
  missing name names w miss = elim (Option-cases (lookup namespace name)) [
    | inl e ↦ unresolved name names (w, false) e
    | inr (reg, e) ↦ elim (Bool-cases (check_gate reg)) [
      | inl g ↦ elim (Bool-cases (is_success (serve_http reg).code)) [
        | inl c ↦ absurd (miss reg e (g, c))
        | inr c ↦ missed name names w reg e c
      ]
      | inr g ↦ barred name names w reg e g
    ]
  ]

  hit_or_miss :
      (name : Text)
      → ((reg : Registry) × (lookup namespace name ≡ some reg) × Serves reg) ⊎ Misses name
  hit_or_miss name = elim (Option-cases (lookup namespace name)) [
    | inl e ↦ inr (λ reg f _. cc (e, f))
    | inr (reg, e) ↦ elim (Bool-cases (check_gate reg)) [
      | inl g ↦ elim (Bool-cases (is_success (serve_http reg).code)) [
        | inl c ↦ inl (reg, e, (g, c))
        | inr c ↦
            inr (λ r f h. cc (subst (λ z. is_success (serve_http z).code ≡ true) (same e f) h.1, c))
      ]
      | inr g ↦ inr (λ r f h. cc (subst (λ z. check_gate z ≡ true) (same e f) h.0, g))
    ]
  ]
    where
      same : {o : Option Registry} {a b : Registry} → o ≡ some a → o ≡ some b → b ≡ a
      same e f = cc (e, f)

  visits_members :
      (names : List Text) (w : Writer)
      → ((reg : Registry) × FirstHit names reg × (visits names (w, false) ≡ (answer w reg, true)))
        ⊎ (All Misses names × (visits names (w, false) ≡ (w, false)))
  visits_members [] w = inr (tt, unfold visit_members in refl)
  visits_members (name ∷ names) w = elim (hit_or_miss name) [
    | inl (reg, e, h) ↦ inl (reg, here e h, served name names w reg e h)
    | inr miss ↦ elim (visits_members names w) [
      | inl (reg, first, v) ↦ inl (reg, later miss first, missing name names w miss ∙ v)
      | inr (all, v) ↦ inr ((miss, all), missing name names w miss ∙ v)
    ]
  ]

module _ {Registry : Type 0} (lookup : Text → Text → Option Registry) (canonical : Text → Text)
    (check_gate : Registry → Bool) (serve_http : Registry → Response) where
  -- A request to a virtual registry is answered by the first member, in the order of the configuration,
  -- that resolves, that the gate lets through and that answers with a 2xx code: with that code and that
  -- body, and under each header name the response's values followed by the member's, but for the
  -- hop-by-hop names, under which it has what it had. When no member does, nothing is written and the
  -- result is false.
  pub serve_first_hit_first :
      (b : Base) (w : Writer)
      → let r = serve_first_hit lookup canonical check_gate serve_http b w in
        ((reg : Registry) × FirstHit lookup canonical check_gate serve_http b.namespace
            b.member_names reg
          × (r.1 ≡ true)
          × (r.0.sent ≡ some ((serve_http reg).code, (serve_http reg).body))
          × ((k : Text) → In k hop_by_hop → values_of k r.0.header ≡ values_of k w.header)
          × ((k : Text)
              → ¬ In k hop_by_hop
              → values_of k r.0.header
                ≡ values_of k w.header ++ sent_under canonical k (serve_http reg).header))
        ⊎ (All (Misses lookup canonical check_gate serve_http b.namespace) b.member_names
            × (r ≡ (w, false)))
  serve_first_hit_first b w =
      elim (visits_members lookup canonical check_gate serve_http b.namespace b.member_names w) [
        | inl (reg, first, v) ↦
            let by : serve_first_hit lookup canonical check_gate serve_http b w
                ≡ (answer lookup canonical check_gate serve_http b.namespace w reg, true) =
              unfold serve_first_hit for_each_member in v in
            inl (
              reg,
              first,
              ap (λ z. z.1) by,
              ap (λ z. z.0.sent) by,
              λ k i.
                  ap (λ z. values_of k z.0.header) by
                  ∙ copy_headers-hop_by_hop canonical k (serve_http reg).header w.header i,
              λ k d.
                  ap (λ z. values_of k z.0.header) by
                  ∙ copy_headers-sent canonical k (serve_http reg).header w.header d,
            )
        | inr (all, v) ↦ inr (all, unfold serve_first_hit for_each_member in v)
      ]
