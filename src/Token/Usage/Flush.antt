-- ===== src/Token/Usage/Flush.antt =====
-- What a flush of the recorded uses writes to the stored tokens.
use kutu.Prelude.{
  ℕ, ◌≤◌, Text, [], ◌∷◌, Option, none, some, Bool, true, false, ◌&&◌, not, ◌==◌, eq_iff, ltb,
  is_empty, is_empty_iff, if◌then◌else◌, ◌≡◌, refl, sym, ◌∙◌, subst, ap, arith, ◌⊎◌, inl, inr,
  Bool-cases, In,
}
use kutu.Prelude.Maps.{Map, get}
use kutu.Token.Usage.{Usage, take_pending, touch, touch_last_used, flush_batch, flush_usage}

-- `after` is the latest of the time `before` and the times of the token in the batch.
abbrev pub IsLatest : Text → Map ℕ → Option ℕ → Option ℕ → Type 0
IsLatest id batch before after =
    ((after ≡ before) ⊎ ((at : ℕ) × In {A = Text × ℕ} (id, at) batch × (after ≡ some at)))
    × ((at : ℕ) → In {A = Text × ℕ} (id, at) batch → (x : ℕ) × (after ≡ some x) × (at ≤ x))
    × ((s : ℕ) → before ≡ some s → (x : ℕ) × (after ≡ some x) × (s ≤ x))

-- What the stored time of a token becomes, if there is such a token and by whether its statement fails.
abbrev pub Flushed : Bool → Text → Map ℕ → Option (Option ℕ) → Option (Option ℕ) → Type 0
Flushed failed id batch none after = after ≡ none
Flushed true id batch (some before) after = after ≡ some before
Flushed false id batch (some before) after =
    (t : Option ℕ) × (after ≡ some t) × IsLatest id batch before t

abbrev touched : Bool → ℕ → Option (Option ℕ) → Option (Option ℕ)
touched runs at none = none
touched runs at (some t) = if runs then some (touch at t) else some t

get-touch_last_used :
    (fails : Text → Bool) (id j : Text) (at : ℕ) (rows : Map (Option ℕ))
    → get j (touch_last_used fails id at rows) ≡ touched (id == j && not (fails id)) at (get j rows)
unfolding get touch_last_used
get-touch_last_used fails id j at [] = refl
get-touch_last_used fails id j at ((k, t) ∷ rows) = elim (Bool-cases (k == j)) [
  | inl e ↦
      let same : k ≡ j = (eq_iff k j).0 e in
      let turn : (k == id) ≡ (id == j) = flip same in
      rw (e, turn) (pick (id == j && not (fails id)) t)
  | inr e ↦ rw e (get-touch_last_used fails id j at rows)
]
  where
    flip : k ≡ j → (k == id) ≡ (id == j)
    flip same = elim (Bool-cases (id == j)) [
      | inl e ↦ rw e ((eq_iff k id).1 (same ∙ sym ((eq_iff id j).0 e)))
      | inr e ↦ elim (Bool-cases (k == id)) [
        | inl f ↦
            let yes_it : (id == j) ≡ true = (eq_iff id j).1 (sym ((eq_iff k id).0 f) ∙ same) in
            f ∙ sym yes_it
        | inr f ↦ f ∙ sym e
      ]
    ]

    pick : (b : Bool) (x : Option ℕ) → some (if b then touch at x else x) ≡ touched b at (some x)
    pick true x = refl
    pick false x = refl

touch-IsLatest :
    (id : Text) (at : ℕ) (batch : Map ℕ) (before after : Option ℕ)
    → IsLatest id batch (touch at before) after
    → IsLatest id ((id, at) ∷ batch) before after
touch-IsLatest id at batch none after (a, b, c) = (
  elim a [ inl q ↦ inr (at, inl refl, q) | inr (x, i, q) ↦ inr (x, inr i, q) ],
  λ y i. elim i [
    | inl q ↦ subst (λ z. (x : ℕ) × (after ≡ some x) × (z ≤ x)) (ap (λ z. z.1) q) (c at refl)
    | inr m ↦ b y m
  ],
  λ s q. cc q,
)
touch-IsLatest id at batch (some t) after (a, b, c) = elim (Bool-cases (ltb t at)) [
  | inl e ↦
      let (x, q, le) = c at (rw e refl) in
      (
        elim a [ inl p ↦ inr (at, inl refl, rw e at p) | inr (y, i, p) ↦ inr (y, inr i, p) ],
        λ y i. elim i [
          | inl p ↦ let same : at ≡ y = ap (λ z. z.1) p in (x, q, omega arith)
          | inr m ↦ b y m
        ],
        λ s p. let same : t ≡ s = cc p in (x, q, ground arith),
      )
  | inr e ↦
      let (x, q, le) = c t (rw e refl) in
      (
        elim a [ inl p ↦ inl (rw e at p) | inr (y, i, p) ↦ inr (y, inr i, p) ],
        λ y i. elim i [
          | inl p ↦ let same : at ≡ y = ap (λ z. z.1) p in (x, q, ground arith)
          | inr m ↦ b y m
        ],
        λ s p. let same : t ≡ s = cc p in (x, q, omega arith),
      )
]

other-IsLatest :
    (id j : Text) (at : ℕ) (batch : Map ℕ) (before after : Option ℕ)
    → (j == id) ≡ false
    → IsLatest id batch before after
    → IsLatest id ((j, at) ∷ batch) before after
other-IsLatest id j at batch before after e (a, b, c) = (
  elim a [ inl q ↦ inl q | inr (x, i, q) ↦ inr (x, inr i, q) ],
  λ y i. elim i [
    | inl p ↦ let yes_it = (eq_iff j id).1 (ap (λ z. z.0) p) in cc (yes_it, e)
    | inr m ↦ b y m
  ],
  c,
)

hit :
    (id j : Text) (at : ℕ) (batch : Map ℕ) (t : Option ℕ) (b : Bool) (after last : Map (Option ℕ))
    → j ≡ id
    → ((o : Option (Option ℕ)) → get id after ≡ o → Flushed b id batch o (get id last))
    → get id after ≡ touched (not b) at (some t)
    → Flushed b id ((j, at) ∷ batch) (some t) (get id last)
hit id j at batch t true after last same rest g = rest (some t) g
hit id j at batch t false after last same rest g =
    let (t', r, latest) = rest (some (touch at t)) g in
    (
      t',
      r,
      subst (λ z. IsLatest id ((z, at) ∷ batch) t t') (sym same)
          (touch-IsLatest id at batch t t' latest),
    )

miss :
    (id j : Text) (at : ℕ) (batch : Map ℕ) (t : Option ℕ) (b : Bool) (last : Map (Option ℕ))
    → (j == id) ≡ false
    → Flushed b id batch (some t) (get id last)
    → Flushed b id ((j, at) ∷ batch) (some t) (get id last)
miss id j at batch t true last e rest = rest
miss id j at batch t false last e (t', r, latest) =
    (t', r, other-IsLatest id j at batch t t' e latest)

flush_batch-Flushed :
    (fails : Text → Bool) (id : Text) (batch : Map ℕ) (rows : Map (Option ℕ))
    (o : Option (Option ℕ)) (failed : Bool)
    → get id rows ≡ o
    → fails id ≡ failed
    → Flushed failed id batch o (get id (flush_batch (touch_last_used fails) batch rows))
unfolding flush_batch
flush_batch-Flushed fails id [] rows none failed q f = q
flush_batch-Flushed fails id [] rows (some t) true q f = q
flush_batch-Flushed fails id [] rows (some t) false q f =
    (t, q, (inl refl, (λ at i. absurd i), (λ s p. (s, p, omega arith))))
flush_batch-Flushed fails id ((j, at) ∷ batch) rows none failed q f =
    flush_batch-Flushed fails id batch (touch_last_used fails j at rows) none failed
      (get-touch_last_used fails j id at rows ∙ ap (touched (j == id && not (fails j)) at) q) f
flush_batch-Flushed fails id ((j, at) ∷ batch) rows (some t) failed q f =
    let step =
      get-touch_last_used fails j id at rows ∙ ap (touched (j == id && not (fails j)) at) q in
    elim (Bool-cases (j == id)) [
      | inl e ↦
          let same : fails j ≡ failed = ap fails ((eq_iff j id).0 e) ∙ f in
          hit id j at batch t failed (touch_last_used fails j at rows)
            (flush_batch (touch_last_used fails) batch (touch_last_used fails j at rows))
            ((eq_iff j id).0 e)
            (λ o g.
              flush_batch-Flushed fails id batch (touch_last_used fails j at rows) o failed g f)
            (rw (e, same) at step)
      | inr e ↦
          miss id j at batch t failed
            (flush_batch (touch_last_used fails) batch (touch_last_used fails j at rows)) e
            (flush_batch-Flushed fails id batch (touch_last_used fails j at rows) (some t) failed
              (rw e at step) f)
    ]

-- A flush empties the batch and leaves the uses seen by the process. A token that is not stored stays
-- so; the stored time of a token whose statement fails stays; that of any other token becomes the latest
-- of the time that was stored and the times that the batch has for it.
pub flush_usage-Flushed :
    (fails : Text → Bool) (u : Usage) (rows : Map (Option ℕ)) (id : Text)
    → let r = flush_usage (touch_last_used fails) u rows in
      (r.0.pending ≡ [])
      × (r.0.seen ≡ u.seen)
      × Flushed (fails id) id u.pending (get id rows) (get id r.1)
flush_usage-Flushed fails u rows id =
    let done = flush_batch-Flushed fails id u.pending rows (get id rows) (fails id) refl refl in
    elim (Bool-cases (is_empty u.pending)) [
      | inl e ↦
          let none_left = (is_empty_iff u.pending).0 e in
          unfold flush_usage take_pending in
          rw e (
            none_left,
            refl,
            subst
                (λ b.
                  Flushed (fails id) id u.pending (get id rows)
                    (get id (flush_batch (touch_last_used fails) b rows)))
                none_left done,
          )
      | inr e ↦ unfold flush_usage take_pending in rw e (refl, refl, done)
    ]
