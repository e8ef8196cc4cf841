-- ===== src/Blobstore.antt =====
-- internal/registry/blobstore/digest.go: content digests.
pub mod RoundTrip
mod Tests
use kutu.Prelude.{
  ℕ, Text, codes, List, [], ◌∷◌, ◌++◌, Option, none, some, Bool, true, false, ◌&&◌, ◌||◌, ◌==◌, eqb,
  leb, if◌then◌else◌, length, all, cut, to_lower,
}

pub record Digest : Type 0 where
  pub algorithm : Text
  pub hex : Text

unfoldable pub digest_string : Digest → Text
unfolding ◌==◌
digest_string d = if d.algorithm == [] || d.hex == [] then [] else d.algorithm ++ b':' ∷ d.hex

unfoldable pub algorithm_hex_length : Text → Option ℕ
unfolding ◌==◌
algorithm_hex_length alg =
    if alg == codes "sha256" then some 64 else if alg == codes "sha512" then some 128 else none

-- The bytes that hex.DecodeString accepts.
unfoldable pub is_hex : ℕ → Bool
is_hex c = (leb b'0' c && leb c b'9') || (leb b'a' c && leb c b'f') || (leb b'A' c && leb c b'F')

check_hex : Text → Text → Option ℕ → Option Digest
unfolding is_hex to_lower
check_hex alg hx none = none
check_hex alg hx (some want) =
    if eqb (length hx) want && all is_hex hx
    then some (record { algorithm = alg; hex = to_lower hx })
    else none

split_checked : Option (Text × Text) → Option Digest
unfolding check_hex algorithm_hex_length
split_checked none = none
split_checked (some ([], hx)) = none
split_checked (some (c ∷ alg, [])) = none
split_checked (some (c ∷ alg, h ∷ hx)) =
    check_hex (c ∷ alg) (h ∷ hx) (algorithm_hex_length (c ∷ alg))

-- `none` stands for the error.
unfoldable pub parse_digest : Text → Option Digest
unfolding split_checked cut
parse_digest s = split_checked (cut s b':')

-- Digest.Equal
unfoldable pub digest_equal : Digest → Digest → Bool
unfolding ◌==◌ to_lower
digest_equal d e = d.algorithm == e.algorithm && to_lower d.hex == to_lower e.hex
