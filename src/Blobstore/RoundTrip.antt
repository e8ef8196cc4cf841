-- ===== src/Blobstore/RoundTrip.antt =====
-- Printing and reading the digests of digest.go.
use kutu.Prelude.{
  ℕ, suc, Text, codes, [], ◌∷◌, ◌++◌, Option, none, some, true, ◌&&◌, ◌==◌, eqb, eq_iff, eqb_iff,
  length, all, cut, to_lower, lower_byte, to_lower_idem, ◌≡◌, refl, sym, ap, subst, ◌∙◌, arith,
  Bool-cases, inl, inr, ◌⊎◌, Option-cases,
}
use kutu.Blobstore.{
  Digest, digest_string, algorithm_hex_length, is_hex, check_hex, split_checked, parse_digest,
}

length-to_lower : (s : Text) → length (to_lower s) ≡ length s
unfolding to_lower
length-to_lower [] = refl
length-to_lower (c ∷ s) = ap suc (length-to_lower s)

is_hex-lower_byte : (c : ℕ) → is_hex c ≡ true → is_hex (lower_byte c) ≡ true
unfolding is_hex lower_byte
is_hex-lower_byte c h = ground arith

all-to_lower : (s : Text) → all is_hex s ≡ true → all is_hex (to_lower s) ≡ true
unfolding to_lower
all-to_lower [] h = refl
all-to_lower (c ∷ s) h = elim (Bool-cases (is_hex c)) [
  | inl e ↦ rw (is_hex-lower_byte c e) (all-to_lower s (rw e at h))
  | inr e ↦ cc (rw e at h)
]

-- What a parsed digest is made of.
record IsParsed (d : Digest) : Type 0 where
  want : ℕ
  supported :
      ((d.algorithm ≡ codes "sha256") × (want ≡ 64))
      ⊎ ((d.algorithm ≡ codes "sha512") × (want ≡ 128))
  sized : length d.hex ≡ want
  hexed : all is_hex d.hex ≡ true
  lowered : to_lower d.hex ≡ d.hex

check_hex-IsParsed :
    (alg hx : Text) (want : ℕ) (d : Digest)
    → (((alg ≡ codes "sha256") × (want ≡ 64)) ⊎ ((alg ≡ codes "sha512") × (want ≡ 128)))
    → check_hex alg hx (some want) ≡ some d
    → IsParsed d
unfolding check_hex
check_hex-IsParsed alg hx want d sup h = elim (Bool-cases (eqb (length hx) want && all is_hex hx)) [
  | inr e ↦ cc (rw (check_hex, e) at h)
  | inl e ↦
      let found : record { algorithm = alg; hex = to_lower hx } ≡ d = cc (rw (check_hex, e) at h) in
      let size : length hx ≡ want = ground (arith, eqb_iff (length hx) want) in
      let hexes : all is_hex hx ≡ true = ground arith in
      subst IsParsed found (record {
        want = want;
        supported = sup;
        sized = length-to_lower hx ∙ size;
        hexed = all-to_lower hx hexes;
        lowered = to_lower_idem hx;
      })
]

split_checked-IsParsed :
    (o : Option (Text × Text)) (d : Digest) → split_checked o ≡ some d → IsParsed d
unfolding split_checked check_hex algorithm_hex_length
split_checked-IsParsed none d h = cc
split_checked-IsParsed (some ([], hx)) d h = cc
split_checked-IsParsed (some (c ∷ alg, [])) d h = cc
split_checked-IsParsed (some (c ∷ alg, x ∷ hx)) d h =
    elim (Bool-cases ((c ∷ alg) == codes "sha256")) [
      | inl e ↦
          check_hex-IsParsed (c ∷ alg) (x ∷ hx) 64 d
            (inl ((eq_iff (c ∷ alg) (codes "sha256")).0 e, refl))
            (rw (split_checked, algorithm_hex_length, e) at h)
      | inr e ↦ elim (Bool-cases ((c ∷ alg) == codes "sha512")) [
        | inl f ↦
            check_hex-IsParsed (c ∷ alg) (x ∷ hx) 128 d
              (inr ((eq_iff (c ∷ alg) (codes "sha512")).0 f, refl))
              (rw (split_checked, algorithm_hex_length, e, f) at h)
        | inr f ↦ cc (rw (split_checked, algorithm_hex_length, check_hex, e, f) at h)
      ]
    ]

check_hex-again :
    (alg hx : Text) (want : ℕ)
    → length hx ≡ want
    → all is_hex hx ≡ true
    → to_lower hx ≡ hx
    → check_hex alg hx (some want) ≡ some (record { algorithm = alg; hex = hx })
unfolding check_hex
check_hex-again alg hx want size hexes low =
    let sized = (eqb_iff (length hx) want).1 size in rw (check_hex, sized, hexes, low) refl

round_256 :
    (hx : Text)
    → length hx ≡ 64
    → all is_hex hx ≡ true
    → to_lower hx ≡ hx
    → parse_digest (digest_string (record { algorithm = codes "sha256"; hex = hx }))
      ≡ some (record { algorithm = codes "sha256"; hex = hx })
unfolding parse_digest digest_string split_checked cut algorithm_hex_length ◌==◌
round_256 [] size hexes low = absurd (omega arith)
round_256 (x ∷ hx) size hexes low = check_hex-again (codes "sha256") (x ∷ hx) 64 size hexes low

round_512 :
    (hx : Text)
    → length hx ≡ 128
    → all is_hex hx ≡ true
    → to_lower hx ≡ hx
    → parse_digest (digest_string (record { algorithm = codes "sha512"; hex = hx }))
      ≡ some (record { algorithm = codes "sha512"; hex = hx })
unfolding parse_digest digest_string split_checked cut algorithm_hex_length ◌==◌
round_512 [] size hexes low = absurd (omega arith)
round_512 (x ∷ hx) size hexes low = check_hex-again (codes "sha512") (x ∷ hx) 128 size hexes low

cut-append : (s a b : Text) (c : ℕ) → cut s c ≡ some (a, b) → s ≡ a ++ c ∷ b
unfolding cut
cut-append [] a b c h = cc
cut-append (x ∷ s) a b c h = elim (Bool-cases (eqb x c)) [
  | inl e ↦ let same : x ≡ c = (eqb_iff x c).0 e in cc (rw (cut, e) at h)
  | inr e ↦ elim (Option-cases (cut s c)) [
    | inl f ↦ cc (rw (cut, e, f) at h)
    | inr ((a2, b2), f) ↦ let ih = cut-append s a2 b2 c f in cc (rw (cut, e, f) at h)
  ]
]

check_hex-inv :
    (alg hx : Text) (o : Option ℕ) (d : Digest)
    → check_hex alg hx o ≡ some d
    → (d.algorithm ≡ alg) × (d.hex ≡ to_lower hx)
unfolding check_hex
check_hex-inv alg hx none d h = cc
check_hex-inv alg hx (some want) d h = elim (Bool-cases (eqb (length hx) want && all is_hex hx)) [
  | inr e ↦ cc (rw (check_hex, e) at h)
  | inl e ↦
      let found : record { algorithm = alg; hex = to_lower hx } ≡ d = cc (rw (check_hex, e) at h) in
      (ap (λ x. x.algorithm) (sym found), ap (λ x. x.hex) (sym found))
]

split_checked-inv :
    (o : Option (Text × Text)) (d : Digest)
    → split_checked o ≡ some d
    → (hx : Text) × (o ≡ some (d.algorithm, hx)) × (d.hex ≡ to_lower hx)
unfolding split_checked
split_checked-inv none d h = cc
split_checked-inv (some ([], hx)) d h = cc
split_checked-inv (some (c ∷ alg, [])) d h = cc
split_checked-inv (some (c ∷ alg, x ∷ hx)) d h =
    let (a, b) = check_hex-inv (c ∷ alg) (x ∷ hx) (algorithm_hex_length (c ∷ alg)) d h in
    (x ∷ hx, ap (λ z. some (z, x ∷ hx)) (sym a), b)

-- The text that was parsed: the algorithm, a colon, and the digits before their case was folded.
pub parse_digest-inv :
    (s : Text) (d : Digest)
    → parse_digest s ≡ some d
    → (hx : Text) × (s ≡ d.algorithm ++ b':' ∷ hx) × (d.hex ≡ to_lower hx)
unfolding parse_digest
parse_digest-inv s d h =
    let (hx, e, low) = split_checked-inv (cut s b':') d h in
    (hx, cut-append s d.algorithm hx b':' e, low)

IsParsed-round : (d : Digest) → IsParsed d → parse_digest (digest_string d) ≡ some d
IsParsed-round d p = elim p.supported [
  | inl (a, w) ↦ sized d (codes "sha256") a (round_256 d.hex (p.sized ∙ w) p.hexed p.lowered)
  | inr (a, w) ↦ sized d (codes "sha512") a (round_512 d.hex (p.sized ∙ w) p.hexed p.lowered)
]
  where
    sized :
        (e : Digest) (alg : Text)
        → e.algorithm ≡ alg
        → parse_digest (digest_string (record { algorithm = alg; hex = e.hex }))
          ≡ some (record { algorithm = alg; hex = e.hex })
        → parse_digest (digest_string e) ≡ some e
    sized e alg q h =
        subst
          (λ a.
            parse_digest (digest_string (record { algorithm = a; hex = e.hex }))
            ≡ some (record { algorithm = a; hex = e.hex }))
          (sym q) h

-- Every digest that is parsed is printed as a text that parses to the same digest.
pub parse_digest-string :
    (s : Text) (d : Digest) → parse_digest s ≡ some d → parse_digest (digest_string d) ≡ some d
unfolding parse_digest
parse_digest-string s d h = IsParsed-round d (split_checked-IsParsed (cut s b':') d h)
