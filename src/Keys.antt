-- ===== src/Keys.antt =====
-- internal/secret: the cipher of crypto/chacha.go, the key manager of keymgr/manager.go and the
-- envelope of envelope/envelope.go. SHA-256 and the AEAD of golang.org/x/crypto are parameters; what
-- rand.Read returns is an argument, `none` where it fails. A mutex and an atomic pointer make each
-- method of the manager one step, so the methods are functions of its state.
pub mod Repository
pub mod Store
pub mod Service
pub mod Gate
pub mod Cipher
pub mod Restore
pub mod RoundTrip
pub mod Verifier
pub mod Consistent
pub mod Passphrase
pub mod Unlocking
pub mod Rewrap
pub mod Rotation
pub mod Credentials
mod Toy
mod Tests
use kutu.Prelude.{
  ℕ, ◌+◌, ◌≡◌, ◌≤◌, ◌≢◌, refl, Text, List, [], ◌∷◌, ◌++◌, Option, none, some, Bool, true, false,
  eqb, ltb, if◌then◌else◌, length, take, drop,
}

pub data Error : Type 0 where
  invalid_key_size generating_nonce invalid_ciphertext decryption_failed : Error
  nil_encryptor nil_manager locked unknown_format : Error
  internal bad_request conflict forbidden not_found storage : Error

pub data Result (A : Type 0) : Type 0 where
  err : Error → Result A
  ok : A → Result A

infixl 5 ◌>>=◌
abbrev pub ◌>>=◌ : {A B : Type 0} → Result A → (A → Result B) → Result B
err failure >>= rest = err failure
ok value >>= rest = rest value

pub >>=-eq-ok :
    {A B : Type 0} (step : Result A) (rest : A → Result B) {b : B}
    → (step >>= rest) ≡ ok b
    → (value : A) × (step ≡ ok value) × (rest value ≡ ok b)
>>=-eq-ok (err failure) rest done = cc done
>>=-eq-ok (ok value) rest done = (value, refl, done)

-- What the code calls of crypto/sha256 and chacha20poly1305: `aead_seal key nonce plaintext` is the
-- sealed text without the nonce.
pub record Primitives : Type 0 where
  pub sha256 : Text → Text
  pub aead_seal : Text → Text → Text → Text
  pub aead_open : Text → Text → Text → Option Text
  pub overhead : ℕ

-- What is documented of them: the sizes, that a sealed text opens under its key and nonce, and that
-- under another key it does not.
pub record PrimitiveLaws (p : Primitives) : Type 0 where
  pub sha256_size : (s : Text) → length (p.sha256 s) ≡ 32
  pub seal_size : (k n m : Text) → p.overhead ≤ length (p.aead_seal k n m)
  pub open-seal : (k n m : Text) → p.aead_open k n (p.aead_seal k n m) ≡ some m
  pub open-seal_other : (j k n m : Text) → j ≢ k → p.aead_open j n (p.aead_seal k n m) ≡ none

abbrev pub key_size : ℕ
key_size = 32

abbrev pub nonce_size : ℕ
nonce_size = 24

-- What rand.Read fills a buffer of `n` bytes with.
abbrev pub Fills : ℕ → Option Text → Type 0
Fills n r = (b : Text) × (r ≡ some b) × (length b ≡ n)

-- NewChaCha20; an encryptor is its key. NewX refuses other sizes of the key only.
unfoldable pub new_chacha20 : Text → Result Text
new_chacha20 key = if eqb (length key) key_size then ok key else err invalid_key_size

module _ (p : Primitives) where
  unfoldable pub encrypt : Text → Option Text → Text → Result Text
  encrypt key none plaintext = err generating_nonce
  encrypt key (some nonce) plaintext = ok (nonce ++ p.aead_seal key nonce plaintext)

  abbrev pub opened : Option Text → Result Text
  opened none = err decryption_failed
  opened (some plaintext) = ok plaintext

  unfoldable pub decrypt : Text → Text → Result Text
  decrypt key ciphertext =
      if ltb (length ciphertext) (nonce_size + p.overhead)
      then err invalid_ciphertext
      else opened (p.aead_open key (take nonce_size ciphertext) (drop nonce_size ciphertext))

-- keymgr.Manager: `active` is the key of the live encryptor.
pub record Manager : Type 0 where
  pub active : Option Text
  pub initialized : Bool

-- keymgr.New
abbrev pub new_manager : Manager
new_manager = record { active = none; initialized = false }

abbrev pub is_some : Option Text → Bool
is_some none = false
is_some (some _) = true

unfoldable pub is_unlocked : Manager → Bool
is_unlocked m = is_some m.active

unfoldable pub mark_initialized : Manager → Manager
mark_initialized m = record m { initialized = true }

-- Unlock: a nil encryptor is refused.
unfoldable pub unlock : Option Text → Manager → Result Manager
unlock none m = err nil_encryptor
unlock (some enc) m = ok (record m { active = some enc })

unfoldable pub lock : Manager → Manager
lock m = record m { active = none }

abbrev pub format_v1 : ℕ
format_v1 = 1

module _ (p : Primitives) where
  pub seal_with : Option Text → Option Text → Text → Result Text
  unfolding encrypt
  seal_with none fresh plaintext = err locked
  seal_with (some enc) fresh plaintext = do ct ← encrypt p enc fresh plaintext; ok (format_v1 ∷ ct)

  -- envelope.Seal; `none` is a nil manager.
  unfoldable pub seal : Option Manager → Option Text → Text → Result Text
  unfolding seal_with
  seal none fresh plaintext = err nil_manager
  seal (some m) fresh plaintext = seal_with m.active fresh plaintext

  pub open_with : Option Text → Text → Result Text
  unfolding decrypt
  open_with none ct = err locked
  open_with (some enc) ct = decrypt p enc ct

  -- envelope.Open
  unfoldable pub open_envelope : Option Manager → Text → Result Text
  unfolding open_with
  open_envelope none ciphertext = err nil_manager
  open_envelope (some m) [] = err unknown_format
  open_envelope (some m) (c ∷ ct) =
      if eqb c format_v1 then open_with m.active ct else err unknown_format

-- envelope.IsSealed
unfoldable pub is_sealed : Text → Bool
is_sealed [] = false
is_sealed (c ∷ blob) = eqb c format_v1
