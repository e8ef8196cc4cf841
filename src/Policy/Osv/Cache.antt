-- ===== src/Policy/Osv/Cache.antt =====
-- What the cache of the OSV client holds, however its queries interleave.
use kutu.Prelude.{
  ℕ, ◌+◌, ◌≤◌, ◌<◌, ◌≡◌, ◌⊎◌, refl, sym, ap, subst, ◌∙◌, Text, List, [], ◌∷◌, ◌++◌, Option, none,
  some, Bool, not, ltb, leb, leb→le, ltb→lt, has, length, length-append, filter, In, Bool-cases,
  Option-cases, inl, inr, arith, ◌==◌, eq_iff, if◌then◌else◌,
}
use kutu.Prelude.Maps.{Map, get, put}
use kutu.Policy.Severity.{Vuln}
use kutu.Policy.Osv.{
  CacheEntry, OsvClient, max_cache_entries, drop_expired, drop_to, evict, make_room, finish, cached,
  fresh_vulns,
}

length-put : (k : Text) (e : CacheEntry) (m : Map CacheEntry) → length (put k e m) ≤ length m + 1
unfolding put
length-put k e [] = omega arith
length-put k e ((j, w) ∷ m) = elim (Bool-cases (j == k)) [
  | inl q ↦ rw q (omega arith)
  | inr q ↦ rw q (omega (arith, length-put k e m))
]

length-drop_to : (target : ℕ) (m : Map CacheEntry) → length (drop_to target m) ≤ target
unfolding drop_to
length-drop_to target [] = omega arith
length-drop_to target (x ∷ m) = elim (Bool-cases (leb (length (x ∷ m)) target)) [
  | inl q ↦ rw q (leb→le (length (x ∷ m)) target q)
  | inr q ↦ rw q (length-drop_to target m)
]

length-make_room :
    (now : ℕ) (m : Map CacheEntry)
    → length m ≤ max_cache_entries
    → length (make_room now m) < max_cache_entries
unfolding make_room evict
length-make_room now m h = elim (Bool-cases (leb max_cache_entries (length m))) [
  | inl q ↦ rw q (omega (arith, length-drop_to 9000 (drop_expired now m)))
  | inr q ↦ rw q (ground arith)
]

-- An entry that is left was there.
abbrev Within : Map CacheEntry → Map CacheEntry → Type 0
Within m n = (x : Text × CacheEntry) → In x m → In x n

drop_expired-Within : (now : ℕ) (m : Map CacheEntry) → Within (drop_expired now m) m
unfolding drop_expired
drop_expired-Within now [] x h = h
drop_expired-Within now ((k, e) ∷ m) x h = elim (Bool-cases (leb e.expires now)) [
  | inl q ↦ inr (drop_expired-Within now m x (rw q at h))
  | inr q ↦ elim (rw q at h) [ inl s ↦ inl s | inr i ↦ inr (drop_expired-Within now m x i) ]
]

drop_to-Within : (target : ℕ) (m : Map CacheEntry) → Within (drop_to target m) m
unfolding drop_to
drop_to-Within target [] x h = h
drop_to-Within target (y ∷ m) x h = elim (Bool-cases (leb (length (y ∷ m)) target)) [
  | inl q ↦ rw q at h
  | inr q ↦ inr (drop_to-Within target m x (rw q at h))
]

make_room-Within : (now : ℕ) (m : Map CacheEntry) → Within (make_room now m) m
unfolding make_room evict
make_room-Within now m x h = elim (Bool-cases (leb max_cache_entries (length m))) [
  | inl q ↦ drop_expired-Within now m x (drop_to-Within 9000 (drop_expired now m) x (rw q at h))
  | inr q ↦ rw q at h
]

In-put :
    (k : Text) (e : CacheEntry) (m : Map CacheEntry) (x : Text × CacheEntry)
    → In x (put k e m)
    → ((k, e) ≡ x) ⊎ In x m
unfolding put
In-put k e [] x (inl q) = inl q
In-put k e [] x (inr z) = absurd z
In-put k e ((j, w) ∷ m) x h = elim (Bool-cases (j == k)) [
  | inl q ↦ elim (rw q at h) [ inl s ↦ inl s | inr i ↦ inr (inr i) ]
  | inr q ↦ elim (rw q at h) [
    | inl s ↦ inr (inl s)
    | inr i ↦ elim (In-put k e m x i) [ inl s ↦ inl s | inr j ↦ inr (inr j) ]
  ]
]

In-get : (k : Text) (m : Map CacheEntry) (e : CacheEntry) → get k m ≡ some e → In (k, e) m
unfolding get
In-get k [] e h = cc h
In-get k ((j, w) ∷ m) e h = elim (Bool-cases (j == k)) [
  | inl q ↦
      let same : w ≡ e = cc (rw q at h) in
      let same_key = (eq_iff j k).0 q in inl (λ i. (same_key i, same i))
  | inr q ↦ inr (In-get k m e (rw q at h))
]

length-filter : (p : Text → Bool) (xs : List Text) → length (filter p xs) ≤ length xs
unfolding filter
length-filter p [] = omega arith
length-filter p (x ∷ xs) = elim (Bool-cases (p x)) [
  | inl e ↦ rw e (omega (arith, length-filter p xs))
  | inr e ↦ rw e (omega (arith, length-filter p xs))
]

-- The end of a query: its key, the time at its start and the outcome of its exchange.
pub record Finished : Type 0 where
  pub key : Text
  pub started : ℕ
  pub outcome : Option (List Vuln)

abbrev pub after_queries : OsvClient → List Finished → OsvClient
after_queries c [] = c
after_queries c (f ∷ fs) = after_queries (finish c f.started f.key f.outcome) fs

-- The entry is the outcome of one of the queries, and expires when its time to live is over.
abbrev pub Sourced : ℕ → List Finished → Text × CacheEntry → Type 0
Sourced ttl fs x =
    (f : Finished) × In f fs
    × (f.key ≡ x.0)
    × (f.outcome ≡ some x.1.vulns)
    × (x.1.expires ≡ f.started + ttl)

pub record IsSound (ttl : ℕ) (fs : List Finished) (c : OsvClient) : Type 0 where
  pub same_ttl : c.ttl ≡ ttl
  pub bounded : length c.cache ≤ max_cache_entries
  pub warned_bounded : length c.warned ≤ max_cache_entries
  pub sourced : (x : Text × CacheEntry) → In x c.cache → Sourced ttl fs x

warned-le :
    (ws : List Text) (key : Text)
    → length ws ≤ max_cache_entries
    → length ((if leb max_cache_entries (length ws) then [] else ws) ++ key ∷ [])
      ≤ max_cache_entries
warned-le ws key h = elim (Bool-cases (leb max_cache_entries (length ws))) [
  | inl e ↦ rw e (omega arith)
  | inr e ↦ rw e (ground (arith, length-append ws (key ∷ [])))
]

failed-IsSound :
    (ttl : ℕ) (fs : List Finished) (c : OsvClient) (now : ℕ) (key : Text)
    → IsSound ttl fs c
    → IsSound ttl fs (finish c now key none)
unfolding finish
failed-IsSound ttl fs c now key s = elim (Bool-cases (has c.warned key)) [
  | inl w ↦ rw w s
  | inr w ↦ rw w (record {
    same_ttl = s.same_ttl;
    bounded = s.bounded;
    warned_bounded = warned-le c.warned key s.warned_bounded;
    sourced = s.sourced;
  })
]

answered-IsSound :
    (ttl : ℕ) (fs : List Finished) (c : OsvClient) (f : Finished) (vulns : List Vuln)
    → In f fs
    → f.outcome ≡ some vulns
    → IsSound ttl fs c
    → IsSound ttl fs (finish c f.started f.key (some vulns))
unfolding finish
answered-IsSound ttl fs c f vulns i e s = record {
  same_ttl = s.same_ttl;
  bounded = omega (
    arith,
    length-put f.key (record { vulns = vulns; expires = f.started + c.ttl })
        (make_room f.started c.cache),
    length-make_room f.started c.cache s.bounded,
  );
  warned_bounded = omega (arith, length-filter (λ k. not (k == f.key)) c.warned, s.warned_bounded);
  sourced = λ x h.
      elim (In-put f.key (record { vulns = vulns; expires = f.started + c.ttl })
        (make_room f.started c.cache) x h) [
          | inl q ↦ subst (Sourced ttl fs) q (f, i, refl, e, ap (λ t. f.started + t) s.same_ttl)
          | inr m ↦ s.sourced x (make_room-Within f.started c.cache x m)
        ];
}

finish-IsSound :
    (ttl : ℕ) (fs : List Finished) (c : OsvClient) (f : Finished)
    → In f fs
    → IsSound ttl fs c
    → IsSound ttl fs (finish c f.started f.key f.outcome)
finish-IsSound ttl fs c f i s = elim (Option-cases f.outcome) [
  | inl e ↦
      subst (λ o. IsSound ttl fs (finish c f.started f.key o)) (sym e)
        (failed-IsSound ttl fs c f.started f.key s)
  | inr (vulns, e) ↦
      subst (λ o. IsSound ttl fs (finish c f.started f.key o)) (sym e)
        (answered-IsSound ttl fs c f vulns i e s)
]

after_queries-IsSound :
    (ttl : ℕ) (fs done : List Finished) (c : OsvClient)
    → ((f : Finished) → In f done → In f fs)
    → IsSound ttl fs c
    → IsSound ttl fs (after_queries c done)
after_queries-IsSound ttl fs [] c sub s = s
after_queries-IsSound ttl fs (f ∷ done) c sub s =
    after_queries-IsSound ttl fs done (finish c f.started f.key f.outcome) (λ g i. sub g (inr i))
      (finish-IsSound ttl fs c f (sub f (inl refl)) s)

abbrev pub new_client : ℕ → OsvClient
new_client ttl = record { ttl = ttl; cache = []; warned = [] }

fresh :
    (now : ℕ) (o : Option CacheEntry) (vulns : List Vuln)
    → fresh_vulns now o ≡ some vulns
    → (e : CacheEntry) × (o ≡ some e) × (e.vulns ≡ vulns) × (now < e.expires)
fresh now none vulns h = cc h
fresh now (some e) vulns h = elim (Bool-cases (ltb now e.expires)) [
  | inl t ↦ (e, refl, cc (rw t at h), ltb→lt now e.expires t)
  | inr t ↦ cc (rw t at h)
]

taken :
    (ttl : ℕ) (fs : List Finished) (c : OsvClient)
    → IsSound ttl fs c
    → (now : ℕ) (key : Text) (vulns : List Vuln) → cached c now key ≡ some vulns
    → (f : Finished) × In f fs × (f.key ≡ key) × (f.outcome ≡ some vulns) × (now < f.started + ttl)
unfolding cached
taken ttl fs c s now key vulns h =
    let (e, there, same, lt) = fresh now (get key c.cache) vulns h in
    let (f, i, at_key, out, expires) = s.sourced (key, e) (In-get key c.cache e there) in
    (f, i, at_key, out ∙ ap some same, subst (λ z. now < z) expires lt)

-- From an empty client, and after any queries, failed ones included and their ends in any order, both maps
-- of the client stay within their bound, and an answer that is taken from the cache is what an exchange
-- for the same key answered to a query that started less than the time to live before.
pub after_queries-cached :
    (ttl : ℕ) (fs : List Finished)
    → let c = after_queries (new_client ttl) fs in
      (length c.cache ≤ max_cache_entries)
      × (length c.warned ≤ max_cache_entries)
      × ((now : ℕ) (key : Text) (vulns : List Vuln)
          → cached c now key ≡ some vulns
          → (f : Finished) × In f fs
            × (f.key ≡ key)
            × (f.outcome ≡ some vulns)
            × (now < f.started + ttl))
after_queries-cached ttl fs =
    let s =
      after_queries-IsSound ttl fs fs (new_client ttl) (λ f i. i)
        (record {
          same_ttl = refl;
          bounded = omega arith;
          warned_bounded = omega arith;
          sourced = λ x h. absurd h;
        }) in
    (
      s.bounded,
      s.warned_bounded,
      λ now key vulns h. taken ttl fs (after_queries (new_client ttl) fs) s now key vulns h,
    )
