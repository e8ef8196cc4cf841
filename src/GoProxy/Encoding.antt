-- ===== src/GoProxy/Encoding.antt =====
-- The case encoding of module paths, there and back.
use kutu.Prelude.{
  ℕ, ◌+◌, ◌≤◌, ◌≡◌, refl, sym, ap, subst, ◌∙◌, Text, List, [], ◌∷◌, ◌++◌, ◌||◌, some, true, false,
  ltb, All, Bool-cases, inl, inr, arith,
}
use Prim.Native.Nat.{◌/◌, ◌%◌}
use kutu.GoProxy.Utf8.{decode_rune, runes_after, between, runes, write_rune, written_runes, IsUtf8}
use kutu.GoProxy.{is_upper, encode_rune, encode_runes, encode_module_path, decode_module_path}
use kutu.GoProxy.Bytes.{
  NoEscape, NoUpper, encode_bytes, encode_upper, encode_other, decode-encode_bytes,
  encode_bytes-decode_module_path,
}

encode_bytes-high :
    (s t : Text) → All (λ c. 128 ≤ c) s → encode_bytes (s ++ t) ≡ s ++ encode_bytes t
encode_bytes-high [] t h = refl
encode_bytes-high (c ∷ s) t (high, h) =
    encode_other c (s ++ t) (ground (arith, high)) ∙ ap (λ z. c ∷ z) (encode_bytes-high s t h)

high : (k x : ℕ) → 128 ≤ k → 128 ≤ k + x
high k x h = omega arith

-- A rune that is no ASCII byte is written in bytes that are none.
write_rune-high : (r : ℕ) → ltb r 128 ≡ false → All (λ c. 128 ≤ c) (write_rune r)
unfolding write_rune
write_rune-high r h = elim (Bool-cases (ltb r 2048)) [
  | inl a ↦ rw (h, a) (high 192 (r / 64) (omega arith), (high 128 (r % 64) (omega arith), tt))
  | inr a ↦ elim (Bool-cases (between 55296 r 57343 || ltb 1114111 r)) [
    | inl b ↦ rw (h, a, b) (omega arith, (omega arith, (omega arith, tt)))
    | inr b ↦ elim (Bool-cases (ltb r 65536)) [
      | inl c ↦
          rw (h, a, b, c)
            (
              high 224 (r / 4096) (omega arith),
              (high 128 (r / 64 % 64) (omega arith), (high 128 (r % 64) (omega arith), tt)),
            )
      | inr c ↦
          rw (h, a, b, c)
            (
              high 240 (r / 262144) (omega arith),
              (
                high 128 (r / 4096 % 64) (omega arith),
                (high 128 (r / 64 % 64) (omega arith), (high 128 (r % 64) (omega arith), tt)),
              ),
            )
    ]
  ]
]

ascii : (r : ℕ) → ltb r 128 ≡ true → write_rune r ≡ r ∷ []
unfolding write_rune
ascii r h = rw h refl

upper_ascii : (r : ℕ) → is_upper r ≡ true → ltb (r + 32) 128 ≡ true
upper_ascii r h = ground arith

-- On the bytes of a rune the encoding of bytes does what the source does with the rune.
encode_bytes-write_rune :
    (r : ℕ) (t : Text) → encode_bytes (write_rune r ++ t) ≡ encode_rune r ++ encode_bytes t
unfolding encode_rune
encode_bytes-write_rune r t = elim (Bool-cases (is_upper r)) [
  | inl u ↦
      let small : ltb r 128 ≡ true = ground (arith, u) in
      ap (λ z. encode_bytes (z ++ t)) (ascii r small)
      ∙ (encode_upper r t u
          ∙ sym (rw u (ap (λ z. (b'!' ∷ z) ++ encode_bytes t) (ascii (r + 32) (upper_ascii r u)))))
  | inr u ↦ elim (Bool-cases (ltb r 128)) [
    | inl a ↦
        ap (λ z. encode_bytes (z ++ t)) (ascii r a)
        ∙ (encode_other r t u ∙ sym (rw u (ap (λ z. z ++ encode_bytes t) (ascii r a))))
    | inr a ↦ encode_bytes-high (write_rune r) t (write_rune-high r a) ∙ (rw u refl)
  ]
]

encode_bytes-written_runes : (rs : List ℕ) → encode_bytes (written_runes rs) ≡ encode_runes rs
unfolding encode_runes written_runes
encode_bytes-written_runes [] = unfold encode_bytes in refl
encode_bytes-written_runes (r ∷ rs) =
    encode_bytes-write_rune r (written_runes rs)
    ∙ ap (λ z. encode_rune r ++ z) (encode_bytes-written_runes rs)

-- On UTF-8 the runes and the bytes are encoded alike.
encode_module_path-bytes : (p : Text) → IsUtf8 p → encode_module_path p ≡ encode_bytes p
unfolding encode_module_path
encode_module_path-bytes p h = sym (encode_bytes-written_runes (runes p)) ∙ ap encode_bytes h

-- ASCII is UTF-8.
ascii-IsUtf8 : (s : Text) → All (λ c. ltb c 128 ≡ true) s → IsUtf8 s
unfolding runes runes_after decode_rune written_runes
ascii-IsUtf8 [] h = refl
ascii-IsUtf8 (c ∷ s) (small, h) = rw small (
    ap (λ z. z ++ written_runes (runes_after 0 s)) (ascii c small)
    ∙ ap (λ z. c ∷ z) (ascii-IsUtf8 s h))

-- The encoding of a path that is UTF-8 and has no escape byte has no capital letter, and decoding it
-- gives the path: different paths stay different where case does not count.
pub decode-encode_module_path :
    (p : Text)
    → IsUtf8 p
    → NoEscape p
    → NoUpper (encode_module_path p) × (decode_module_path (encode_module_path p) ≡ some p)
decode-encode_module_path p utf8 h =
    subst (λ z. NoUpper z × (decode_module_path z ≡ some p)) (sym (encode_module_path-bytes p utf8))
      (decode-encode_bytes p h)

-- A text without capital letters that decodes to UTF-8 is the encoding of what it decodes to, which
-- has no escape byte: two requests for one module have one encoded path.
pub encode-decode_module_path :
    (q p : Text)
    → NoUpper q
    → IsUtf8 p
    → decode_module_path q ≡ some p
    → (encode_module_path p ≡ q) × NoEscape p
encode-decode_module_path q p n utf8 h =
    let (back, free) = encode_bytes-decode_module_path q p n h in
    (encode_module_path-bytes p utf8 ∙ back, free)
