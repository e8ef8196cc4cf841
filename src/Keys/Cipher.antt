-- ===== src/Keys/Cipher.antt =====
-- The cipher of chacha.go and the envelope, there and back.
use kutu.Prelude.{
  ◌+◌, ◌≡◌, ◌≢◌, refl, subst, Text, ◌∷◌, ◌++◌, Option, none, some, false, length, take, drop,
  take-append, drop-append, length-append, ltb, arith,
}
use kutu.Keys.{
  ok, err, decryption_failed, ◌>>=◌, >>=-eq-ok, Primitives, PrimitiveLaws, nonce_size, encrypt,
  decrypt, opened, Manager, seal, open_envelope,
}

-- A nonce of the cipher's size.
abbrev pub NonceSized : Option Text → Type 0
NonceSized none = Unit {0}
NonceSized (some n) = length n ≡ nonce_size

module _ (p : Primitives) (laws : PrimitiveLaws p) where
  take_nonce : (n c : Text) → length n ≡ nonce_size → take nonce_size (n ++ c) ≡ n
  take_nonce n c h = subst (λ s. take s (n ++ c) ≡ n) h (take-append n c)

  drop_nonce : (n c : Text) → length n ≡ nonce_size → drop nonce_size (n ++ c) ≡ c
  drop_nonce n c h = subst (λ s. drop s (n ++ c) ≡ c) h (drop-append n c)

  long_enough :
      (k n m : Text)
      → length n ≡ nonce_size
      → ltb (length (n ++ p.aead_seal k n m)) (nonce_size + p.overhead) ≡ false
  long_enough k n m h = ground (arith, length-append n (p.aead_seal k n m), laws.seal_size k n m)

  -- Decrypting under `j` what was sealed under `k`.
  decrypt-sealed :
      (j k n m : Text)
      → length n ≡ nonce_size
      → decrypt p j (n ++ p.aead_seal k n m) ≡ opened p (p.aead_open j n (p.aead_seal k n m))
  unfolding decrypt
  decrypt-sealed j k n m h =
      rw
        (
          long_enough k n m h,
          take_nonce n (p.aead_seal k n m) h,
          drop_nonce n (p.aead_seal k n m) h,
        )
        refl

  pub decrypt-encrypt :
      (k m c : Text) (fresh : Option Text)
      → NonceSized fresh
      → encrypt p k fresh m ≡ ok c
      → decrypt p k c ≡ ok m
  unfolding encrypt
  decrypt-encrypt k m c none h e = cc e
  decrypt-encrypt k m c (some n) h e =
      let same : n ++ p.aead_seal k n m ≡ c = cc in
      subst (λ t. decrypt p k t ≡ ok m) same
        (rw (decrypt-sealed k k n m h, laws.open-seal k n m) refl)

  pub decrypt-encrypt_other :
      (j k m c : Text) (fresh : Option Text)
      → NonceSized fresh
      → j ≢ k
      → encrypt p k fresh m ≡ ok c
      → decrypt p j c ≡ err decryption_failed
  unfolding encrypt
  decrypt-encrypt_other j k m c none h d e = cc e
  decrypt-encrypt_other j k m c (some n) h d e =
      let same : n ++ p.aead_seal k n m ≡ c = cc in
      subst (λ t. decrypt p j t ≡ err decryption_failed) same
        (rw (decrypt-sealed j k n m h, laws.open-seal_other j k n m d) refl)

  -- What a live key seals, the envelope opens.
  pub open-seal :
      (m : Manager) (k plain c : Text) (fresh : Option Text)
      → m.active ≡ some k
      → NonceSized fresh
      → seal p (some m) fresh plain ≡ ok c
      → open_envelope p (some m) c ≡ ok plain
  unfolding seal open_envelope
  open-seal m k plain c fresh a h e =
      let e' : (do ct ← encrypt p k fresh plain; ok (1 ∷ ct)) ≡ ok c = rw a at e in
      let (ct, enc, q) = >>=-eq-ok (encrypt p k fresh plain) (λ ct. ok (1 ∷ ct)) e' in
      let same : 1 ∷ ct ≡ c = cc in
      subst (λ t. open_envelope p (some m) t ≡ ok plain) same
        (rw a (decrypt-encrypt k plain ct fresh h enc))

  -- What one key seals, the envelope does not open with another.
  pub open-seal_other :
      (m n : Manager) (k j plain c : Text) (fresh : Option Text)
      → m.active ≡ some k
      → n.active ≡ some j
      → NonceSized fresh
      → j ≢ k
      → seal p (some m) fresh plain ≡ ok c
      → open_envelope p (some n) c ≡ err decryption_failed
  unfolding seal open_envelope
  open-seal_other m n k j plain c fresh a b h d e =
      let e' : (do ct ← encrypt p k fresh plain; ok (1 ∷ ct)) ≡ ok c = rw a at e in
      let (ct, enc, q) = >>=-eq-ok (encrypt p k fresh plain) (λ ct. ok (1 ∷ ct)) e' in
      let same : 1 ∷ ct ≡ c = cc in
      subst (λ t. open_envelope p (some n) t ≡ err decryption_failed) same
        (rw b (decrypt-encrypt_other j k plain ct fresh h d enc))
