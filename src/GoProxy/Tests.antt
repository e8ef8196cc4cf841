-- ===== src/GoProxy/Tests.antt =====
-- Concrete module paths and a go.mod file, and the theorems of this tree at a path.
use kutu.Prelude.{Text, codes, [], ◌∷◌, ◌++◌, some, none, true, false, ◌≡◌, refl, ◌==◌}
use kutu.GoProxy.{encode_module_path, decode_module_path, validate_module_path, parse_go_mod}
use kutu.GoProxy.Bytes.{NoEscape, NoUpper}
use kutu.GoProxy.Utf8.{rune_error, runes, written_runes, IsUtf8}
use kutu.GoProxy.Encoding.{decode-encode_module_path, encode-decode_module_path}

azure : encode_module_path (codes "github.com/Azure/sdk") ≡ codes "github.com/!azure/sdk"
unfolding encode_module_path
azure = refl

trailing : decode_module_path (codes "a!") ≡ none
unfolding decode_module_path
trailing = refl

traversal : validate_module_path (codes "a/../b") ≡ false
unfolding validate_module_path
traversal = refl

valid : validate_module_path (codes "golang.org/x/sync") ≡ true
unfolding validate_module_path
valid = refl

abbrev go_mod : Text
go_mod =
    codes "module a.b/c // the module"
    ++ 10 ∷ codes "retract ("
    ++ 10 ∷ codes "  v1.0.0 // broken"
    ++ 10 ∷ codes ")"
    ++ 10 ∷ codes "retract [v1.2.0, v1.3.0]"

parsed : parse_go_mod go_mod ≡ record {
  module_path = codes "a.b/c";
  retracts =
      record { version = codes "v1.0.0"; rationale = codes "broken" }
      ∷ record { version = codes "[v1.2.0, v1.3.0]"; rationale = [] }
      ∷ [];
}
unfolding parse_go_mod ◌==◌
parsed = refl

-- "A", a letter of two bytes and a "b".
abbrev short : Text
short = codes "A" ++ 195 ∷ 169 ∷ codes "b"

short-NoEscape : NoEscape short
short-NoEscape = (refl, (refl, (refl, (refl, tt))))

short-IsUtf8 : IsUtf8 short
unfolding runes written_runes
short-IsUtf8 = refl

-- Runes of three and four bytes, a surrogate, and a byte that starts nothing.
long_runes :
    runes (226 ∷ 130 ∷ 172 ∷ 240 ∷ 159 ∷ 152 ∷ 128 ∷ 237 ∷ 160 ∷ 128 ∷ 255 ∷ [])
    ≡ 8364 ∷ 128512 ∷ rune_error ∷ rune_error ∷ rune_error ∷ rune_error ∷ []
unfolding runes
long_runes = refl

not_utf8 : encode_module_path (255 ∷ []) ≡ 239 ∷ 191 ∷ 189 ∷ []
unfolding encode_module_path
not_utf8 = refl

decode-encode_module_path_example :
    NoUpper (encode_module_path short)
    × (decode_module_path (encode_module_path short) ≡ some short)
decode-encode_module_path_example = decode-encode_module_path short short-IsUtf8 short-NoEscape

abbrev encoded : Text
encoded = codes "!a" ++ 195 ∷ 169 ∷ codes "b"

decoded : decode_module_path encoded ≡ some short
unfolding decode_module_path
decoded = refl

encode-decode_module_path_example : (encode_module_path short ≡ encoded) × NoEscape short
encode-decode_module_path_example =
    encode-decode_module_path encoded short (refl, (refl, (refl, (refl, (refl, tt))))) short-IsUtf8
      decoded
