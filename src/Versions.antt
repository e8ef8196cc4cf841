-- ===== src/Versions.antt =====
-- internal/registry/pkgbase/version.go: the version comparator of the registries, its sort and
-- `Latest`. Strings are ASCII, so that a rune is a byte.
pub mod Tokens
pub mod Order
pub mod Sorted
pub mod Latest
mod Tests
use kutu.Prelude.{
  ℕ, zero, suc, ◌+◌, ◌-◌, ◌*◌, Text, List, [], ◌∷◌, ◌++◌, Bool, true, false, ◌&&◌, ◌||◌, not,
  Option, none, some, ◌==◌, ltb, leb, eqb, if◌then◌else◌, trim_prefix, codes, cut, is_empty,
  lower_byte,
}
use kutu.Prelude.Sort.{sort_stable}

-- A result of strings.Compare: -1, 0 or 1.
pub data Sign : Type 0 where
  less : Sign
  same : Sign
  more : Sign

-- The next test decides where this one does not.
unfoldable pub or_next : Sign → Sign → Sign
or_next less t = less
or_next same t = t
or_next more t = more

unfoldable pub compare_int : ℕ → ℕ → Sign
compare_int a b = if ltb a b then less else if ltb b a then more else same

unfoldable pub compare_text : Text → Text → Sign
unfolding or_next compare_int
compare_text [] [] = same
compare_text [] (y ∷ t) = less
compare_text (x ∷ s) [] = more
compare_text (x ∷ s) (y ∷ t) = or_next (compare_int x y) (compare_text s t)

-- token: the value of a numeric run, the text of an alphabetic one.
pub data VersionToken : Type 0 where
  num : ℕ → VersionToken
  word : Text → VersionToken

unfoldable pub is_digit : ℕ → Bool
is_digit c = leb b'0' c && leb c b'9'

unfoldable pub is_letter : ℕ → Bool
is_letter c = (leb b'a' c && leb c b'z') || (leb b'A' c && leb c b'Z')

abbrev pub max_int64 : ℕ
max_int64 = 9223372036854775807

-- strconv.ParseInt of digits, its error ignored: the largest value when out of range.
unfoldable pub parse_int : Text → ℕ → ℕ
parse_int [] n = if ltb max_int64 n then max_int64 else n
parse_int (c ∷ s) n = parse_int s (n * 10 + (c - b'0'))

-- The run being read: its kind and its bytes.
pub record Run : Type 0 where
  pub cur_num : Bool
  pub cur : Text

unfoldable pub flush : Run → List VersionToken
unfolding parse_int
flush r =
    if is_empty r.cur
    then []
    else if r.cur_num
    then num (parse_int r.cur 0) ∷ []
    else word r.cur ∷ []

abbrev pub kept : Run → Bool → List VersionToken
kept r kind = if r.cur_num then (if kind then [] else flush r) else (if kind then flush r else [])

abbrev pub extended : Run → Bool → ℕ → Run
extended r kind c = record {
  cur_num = kind;
  cur =
      if kind
      then (if r.cur_num then r.cur ++ c ∷ [] else c ∷ [])
      else (if r.cur_num then c ∷ [] else r.cur ++ c ∷ []);
}

-- The loop of tokenize.
unfoldable pub tokens_from : Text → Run → List VersionToken
unfolding flush is_digit is_letter lower_byte
tokens_from [] r = flush r
tokens_from (c ∷ s) r =
    let digit = tokens_from s (extended r true c) in
    let letter = tokens_from s (extended r false (lower_byte c)) in
    let other = tokens_from s (record r { cur = [] }) in
    if is_digit c
    then kept r true ++ digit
    else if is_letter c
    then kept r false ++ letter
    else flush r ++ other

unfoldable pub tokenize : Text → List VersionToken
unfolding tokens_from
tokenize v = tokens_from v (record { cur_num = false; cur = [] })

-- The switch of compareTokens on two tokens.
unfoldable pub compare_token : VersionToken → VersionToken → Sign
unfolding compare_int compare_text
compare_token (num a) (num b) = compare_int a b
compare_token (num a) (word t) = more
compare_token (word s) (num b) = less
compare_token (word s) (word t) = compare_text s t

unfoldable pub compare_tokens : List VersionToken → List VersionToken → Sign
unfolding compare_token or_next
compare_tokens [] [] = same
compare_tokens [] (num b ∷ ys) = less
compare_tokens [] (word t ∷ ys) = more
compare_tokens (num a ∷ xs) [] = more
compare_tokens (word s ∷ xs) [] = less
compare_tokens (x ∷ xs) (y ∷ ys) = or_next (compare_token x y) (compare_tokens xs ys)

-- splitPre: nothing is split off when the first `-` is the first byte.
unfoldable pub split_pre : Text → Text × Text
unfolding cut
split_pre [] = ([], [])
split_pre (c ∷ s) =
    let found : Text × Text = elim (cut s b'-') [ none ↦ (c ∷ s, []) | some (a, b) ↦ (c ∷ a, b) ] in
    if eqb c b'-' then (c ∷ s, []) else found

unfoldable pub strip : Text → Text
unfolding trim_prefix cut
strip v =
    let w = trim_prefix (trim_prefix v (codes "v")) (codes "V") in
    elim (cut w b'+') [ none ↦ w | some (a, _) ↦ a ]

unfoldable pub compare_pre : Text → Text → Sign
unfolding tokenize compare_tokens
compare_pre [] [] = same
compare_pre [] (y ∷ t) = more
compare_pre (x ∷ s) [] = less
compare_pre (x ∷ s) (y ∷ t) = compare_tokens (tokenize (x ∷ s)) (tokenize (y ∷ t))

unfoldable pub compare_split : Text × Text → Text × Text → Sign
unfolding compare_tokens tokenize or_next compare_pre
compare_split (ac, apre) (bc, bpre) =
    or_next (compare_tokens (tokenize ac) (tokenize bc)) (compare_pre apre bpre)

unfoldable pub compare_versions : Text → Text → Sign
unfolding compare_split split_pre strip
compare_versions a b =
    if a == b then same else compare_split (split_pre (strip a)) (split_pre (strip b))

unfoldable pub is_less : Sign → Bool
is_less less = true
is_less same = false
is_less more = false

unfoldable pub is_more : Sign → Bool
is_more less = false
is_more same = false
is_more more = true

unfoldable pub version_lt : Text → Text → Bool
unfolding compare_versions is_less
version_lt a b = is_less (compare_versions a b)

-- SortVersions: oldest first.
unfoldable pub sort_versions : List Text → List Text
unfolding sort_stable version_lt
sort_versions vs = sort_stable version_lt vs

unfoldable pub latest_from : Text → List Text → Text
unfolding compare_versions is_more
latest_from best [] = best
latest_from best (v ∷ vs) =
    let taken = latest_from v vs in
    let left = latest_from best vs in
    if is_empty best then taken else if is_more (compare_versions v best) then taken else left

-- Latest; the empty text when there is no version.
unfoldable pub latest : List Text → Text
unfolding latest_from
latest vs = latest_from [] vs
