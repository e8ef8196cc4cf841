-- ===== src/GoProxy/Utf8.antt =====
-- The runes that Go's `range` reads from a string, and the bytes that WriteRune writes for a rune.
use kutu.Prelude.{
  ℕ, zero, suc, ◌+◌, ◌-◌, ◌*◌, Text, List, [], ◌∷◌, ◌++◌, Bool, ◌&&◌, ◌||◌, eqb, leb, ltb,
  if◌then◌else◌, ◌≡◌,
}
use Prim.Native.Nat.{◌/◌, ◌%◌}

abbrev pub rune_error : ℕ
rune_error = 65533

abbrev pub between : ℕ → ℕ → ℕ → Bool
between low c high = leb low c && leb c high

-- The byte at an index; 0, which continues no rune, where there is none.
abbrev pub byte_at : ℕ → Text → ℕ
byte_at n [] = 0
byte_at zero (c ∷ s) = c
byte_at (suc n) (c ∷ s) = byte_at n s

-- The least and the greatest second byte of a rune of three or four bytes, by its first byte.
abbrev pub least_second : ℕ → ℕ
least_second a = if eqb a 224 then 160 else if eqb a 240 then 144 else 128

abbrev pub greatest_second : ℕ → ℕ
greatest_second a = if eqb a 237 then 159 else if eqb a 244 then 143 else 191

-- The rune at the start of a byte and what follows it, and the number of bytes it has after the first.
unfoldable pub decode_rune : ℕ → Text → ℕ × ℕ
decode_rune a s =
    let b = byte_at 0 s in
    let c = byte_at 1 s in
    let d = byte_at 2 s in
    if ltb a 128
    then (a, 0)
    else if between 194 a 223 && between 128 b 191
    then ((a - 192) * 64 + (b - 128), 1)
    else if between 224 a 239
        && (between (least_second a) b (greatest_second a) && between 128 c 191)
    then ((a - 224) * 4096 + (b - 128) * 64 + (c - 128), 2)
    else if between 240 a 244
        && (between (least_second a) b (greatest_second a)
            && (between 128 c 191 && between 128 d 191))
    then ((a - 240) * 262144 + (b - 128) * 4096 + (c - 128) * 64 + (d - 128), 3)
    else (rune_error, 0)

-- The runes from the byte after the next `skipped` ones on.
unfoldable pub runes_after : ℕ → Text → List ℕ
unfolding decode_rune
runes_after skipped [] = []
runes_after (suc n) (a ∷ s) = runes_after n s
runes_after zero (a ∷ s) = (decode_rune a s).0 ∷ runes_after (decode_rune a s).1 s

unfoldable pub runes : Text → List ℕ
unfolding runes_after
runes s = runes_after 0 s

-- A surrogate or a number above the last rune is written as the error rune.
unfoldable pub write_rune : ℕ → Text
write_rune r =
    if ltb r 128
    then r ∷ []
    else if ltb r 2048
    then (192 + r / 64) ∷ (128 + r % 64) ∷ []
    else if between 55296 r 57343 || ltb 1114111 r
    then 239 ∷ 191 ∷ 189 ∷ []
    else if ltb r 65536
    then (224 + r / 4096) ∷ (128 + r / 64 % 64) ∷ (128 + r % 64) ∷ []
    else (240 + r / 262144) ∷ (128 + r / 4096 % 64) ∷ (128 + r / 64 % 64) ∷ (128 + r % 64) ∷ []

unfoldable pub written_runes : List ℕ → Text
unfolding write_rune
written_runes [] = []
written_runes (r ∷ rs) = write_rune r ++ written_runes rs

-- Writing the runes of the string gives the string.
abbrev pub IsUtf8 : Text → Type 0
IsUtf8 s = written_runes (runes s) ≡ s
