-- ===== src/GoProxy.antt =====
-- internal/registry/goproxy/module.go: the case encoding of module paths, the checks of a path and the
-- reading of a go.mod file. EncodeModulePath reads a path rune by rune and DecodeModulePath byte by
-- byte, as in the source. Versions go to the comparison of Semver and to a regular expression, which is left out.
pub mod Utf8
pub mod Bytes
pub mod Encoding
mod Tests
use kutu.GoProxy.Utf8.{runes, write_rune}
use kutu.Prelude.{
  ℕ, ◌+◌, ◌-◌, Text, codes, List, [], ◌∷◌, ◌++◌, Option, none, some, Bool, true, false, ◌&&◌, ◌||◌,
  not, eqb, leb, any, is_empty, ◌==◌, has_prefix, has_suffix, contains, split, trim, trim_space,
  trim_prefix, if◌then◌else◌,
}

abbrev pub is_upper : ℕ → Bool
is_upper c = leb b'A' c && leb c b'Z'

abbrev pub is_lower : ℕ → Bool
is_lower c = leb b'a' c && leb c b'z'

-- The loop body of EncodeModulePath.
unfoldable pub encode_rune : ℕ → Text
unfolding write_rune
encode_rune r = if is_upper r then b'!' ∷ write_rune (r + 32) else write_rune r

unfoldable pub encode_runes : List ℕ → Text
unfolding encode_rune
encode_runes [] = []
encode_runes (r ∷ rs) = encode_rune r ++ encode_runes rs

unfoldable pub encode_module_path : Text → Text
unfolding encode_runes runes
encode_module_path p = encode_runes (runes p)

abbrev pub written : ℕ → Option Text → Option Text
written c none = none
written c (some p) = some (c ∷ p)

-- The loop of DecodeModulePath from the byte at `i` on; `none` is either of its errors.
unfoldable pub decode_module_path : Text → Option Text
decode_module_path [] = some []
decode_module_path (c ∷ []) = if eqb c b'!' then none else some (c ∷ [])
decode_module_path (c ∷ d ∷ p) =
    let escaped = if is_lower d then written (d - 32) (decode_module_path p) else none in
    let plain = written c (decode_module_path (d ∷ p)) in if eqb c b'!' then escaped else plain

abbrev pub is_blank : ℕ → Bool
is_blank c = eqb c 32 || eqb c 9 || eqb c 10 || eqb c 13

-- ValidateModulePath: whether it returns nil.
unfoldable pub validate_module_path : Text → Bool
unfolding contains has_prefix has_suffix split
validate_module_path p =
    if is_empty p
    then false
    else if contains p (codes "..")
    then false
    else if has_prefix p (codes "/") || has_suffix p (codes "/")
    then false
    else if any is_blank p
    then false
    else not (any is_empty (split p b'/'))

pub record GoModRetract : Type 0 where
  pub version : Text
  pub rationale : Text

pub record GoModInfo : Type 0 where
  pub module_path : Text
  pub retracts : List GoModRetract

abbrev pub before : ℕ → Text × Option Text → Text × Option Text
before c (line, comment) = (c ∷ line, comment)

-- strings.Index of "//", as the text before it and, if it is there, the text after it.
unfoldable pub cut_comment : Text → Text × Option Text
cut_comment [] = ([], none)
cut_comment (c ∷ []) = (c ∷ [], none)
cut_comment (c ∷ d ∷ s) =
    let rest = before c (cut_comment (d ∷ s)) in
    if eqb c b'/' && eqb d b'/' then ([], some s) else rest

-- The line without its comment, and the comment.
unfoldable pub split_comment : Text → Text × Text
unfolding cut_comment trim_space
split_comment raw = trimmed (cut_comment (trim_space raw))
  where
    trimmed : Text × Option Text → Text × Text
    trimmed (line, none) = (line, [])
    trimmed (line, some comment) = (trim_space line, trim_space comment)

abbrev pub add_retract : GoModInfo → Text → Text → GoModInfo
add_retract out version rationale = record out {
  retracts = out.retracts ++ record { version = version; rationale = rationale } ∷ [];
}

-- The body of the loop, after the comment is cut off; the flag is `inRetractBlock`.
unfoldable pub read_line : Text × Text → GoModInfo × Bool → GoModInfo × Bool
unfolding ◌==◌ has_prefix trim_prefix trim_space trim
read_line (line, comment) (out, in_block) =
    if is_empty line
    then (out, in_block)
    else if in_block
    then if line == codes ")" then (out, false) else (add_retract out line comment, true)
    else if has_prefix line (codes "module ")
    then (
      record out { module_path = trim (trim_space (trim_prefix line (codes "module"))) b'"' },
      false,
    )
    else if line == codes "retract ("
    then (out, true)
    else if has_prefix line (codes "retract ")
    then (add_retract out (trim_space (trim_prefix line (codes "retract"))) comment, false)
    else (out, in_block)

unfoldable pub read_lines : List Text → GoModInfo × Bool → GoModInfo
unfolding read_line split_comment
read_lines [] (out, in_block) = out
read_lines (raw ∷ lines) state = read_lines lines (read_line (split_comment raw) state)

unfoldable pub parse_go_mod : Text → GoModInfo
unfolding read_lines split
parse_go_mod body = read_lines (split body 10) (record { module_path = []; retracts = [] }, false)
