-- ===== src/Policy/License.antt =====
-- internal/registry/policy/license.go: SPDX license expressions, their parser and the allow and
-- deny lists. The parser's position is the list of tokens left; `LicenseExpr` has a constructor for
-- each value of `Op`, and a list type of its own for `Args`.
pub mod Parser
pub mod Choices
pub mod Tokens
pub mod RoundTrip
use kutu.Prelude.{
  ℕ, zero, suc, Text, codes, String, List, [], ◌∷◌, ◌++◌, Option, none, some, Bool, true, false,
  ◌&&◌, ◌||◌, ◌==◌, eqb, if◌then◌else◌, length, is_empty, to_lower, to_upper, trim_space,
  has_prefix, equal_fold, trim_suffix, any,
}

mutual
  pub data LicenseExpr : Type 0 where
    leaf : Text → LicenseExpr
    any_of : Exprs → LicenseExpr
    all_of : Exprs → LicenseExpr

  pub data Exprs : Type 0 where
    nil : Exprs
    cons : LicenseExpr → Exprs → Exprs

abbrev license_aliases : List (Text × Text)
license_aliases =
    (codes "apache 2.0", codes "apache-2.0")
    ∷ (codes "apache 2", codes "apache-2.0")
    ∷ (codes "apache-2", codes "apache-2.0")
    ∷ (codes "apache2", codes "apache-2.0")
    ∷ (codes "apache license 2.0", codes "apache-2.0")
    ∷ (codes "apache license, version 2.0", codes "apache-2.0")
    ∷ (codes "apache software license", codes "apache-2.0")
    ∷ (codes "the apache license, version 2.0", codes "apache-2.0")
    ∷ (codes "the apache software license, version 2.0", codes "apache-2.0")
    ∷ (codes "mit license", codes "mit")
    ∷ (codes "the mit license", codes "mit")
    ∷ (codes "bsd", codes "bsd-3-clause")
    ∷ (codes "new bsd license", codes "bsd-3-clause")
    ∷ (codes "bsd license", codes "bsd-3-clause")
    ∷ (codes "isc license", codes "isc")
    ∷ (codes "mozilla public license 2.0", codes "mpl-2.0")
    ∷ (codes "gplv2", codes "gpl-2.0")
    ∷ (codes "gplv3", codes "gpl-3.0")
    ∷ (codes "lgplv3", codes "lgpl-3.0")
    ∷ []

-- The map lookup of `normalizeID`, which keeps an unknown id.
alias_of : Text → List (Text × Text) → Text
alias_of s [] = s
alias_of s ((k, v) ∷ m) = if k == s then v else alias_of s m

unfoldable pub normalize_id : Text → Text
unfolding alias_of ◌==◌ to_lower trim_space
normalize_id s = alias_of (to_lower (trim_space s)) license_aliases

-- `flush` of tokenizeLicense; the token under construction is kept in order.
flush : Text → List Text
flush [] = []
flush (c ∷ cur) = (c ∷ cur) ∷ []

tokenize_from : Text → Text → List Text
unfolding flush
tokenize_from cur [] = flush cur
tokenize_from cur (r ∷ s) =
    let restart = tokenize_from [] s in
    let longer = tokenize_from (cur ++ r ∷ []) s in
    if eqb r b'(' || eqb r b')'
    then flush cur ++ (r ∷ []) ∷ restart
    else if eqb r b'/'
    then flush cur ++ codes "OR" ∷ restart
    else if eqb r 32 || eqb r 9 || eqb r 10 || eqb r 13
    then flush cur ++ restart
    else longer

unfoldable pub tokenize_license : Text → List Text
unfolding tokenize_from
tokenize_license s = tokenize_from [] s

pub data Parsed : Type 0 where
  done : LicenseExpr → List Text → Parsed
  fail : Parsed
  out_of_fuel : Parsed

-- `peekOp` at the tokens left.
unfoldable pub peek_op : Text → List Text → Bool
peek_op op [] = false
peek_op op (t ∷ toks) = equal_fold t op

abbrev rest_of : List Text → List Text
rest_of [] = []
rest_of (t ∷ toks) = toks

-- The end of the "(" branch of parseAtom.
close : Parsed → Parsed
close (done e []) = fail
close (done e (t ∷ toks)) = if t == codes ")" then done e toks else fail
close fail = fail
close out_of_fuel = out_of_fuel

module _ (parse_or : List Text → Parsed) where
  unfoldable pub parse_atom : List Text → Parsed
  unfolding close
  parse_atom [] = fail
  parse_atom (t ∷ toks) =
      if t == codes "("
      then close (parse_or toks)
      else if t == codes ")"
          || equal_fold t (codes "or")
          || equal_fold t (codes "and")
          || equal_fold t (codes "with")
      then fail
      else done (leaf (normalize_id t)) toks

  -- The exception after WITH is parsed and dropped.
  skip_exception : LicenseExpr → Parsed → Parsed
  skip_exception e (done _ toks) = done e toks
  skip_exception e fail = fail
  skip_exception e out_of_fuel = out_of_fuel

  after_atom : Parsed → Parsed
  after_atom (done e toks) =
      if peek_op (codes "with") toks
      then skip_exception e (parse_atom (rest_of toks))
      else done e toks
  after_atom fail = fail
  after_atom out_of_fuel = out_of_fuel

  unfoldable pub parse_with : List Text → Parsed
  unfolding after_atom skip_exception
  parse_with toks = after_atom (parse_atom toks)

exprs : List LicenseExpr → Exprs
exprs [] = nil
exprs (e ∷ es) = cons e (exprs es)

-- The value returned by parseBinary for the collected arguments.
pub group : (Exprs → LicenseExpr) → List LicenseExpr → LicenseExpr
unfolding exprs
group node (e ∷ []) = e
group node es = node (exprs es)

-- What follows a sub-parser that succeeded.
resume : (LicenseExpr → List Text → Parsed) → Parsed → Parsed
resume k (done e toks) = k e toks
resume k fail = fail
resume k out_of_fuel = out_of_fuel

module _ (op : Text) (node : Exprs → LicenseExpr) (next : List Text → Parsed) where
  -- The loop of parseBinary; each round needs one unit of fuel.
  pub binary_loop : ℕ → List LicenseExpr → List Text → Parsed
  unfolding group resume
  binary_loop zero args toks = if peek_op op toks then out_of_fuel else done (group node args) toks
  binary_loop (suc n) args toks =
      let again = resume (λ e left. binary_loop n (args ++ e ∷ []) left) (next (rest_of toks)) in
      if peek_op op toks then again else done (group node args) toks

  unfoldable pub parse_binary : ℕ → List Text → Parsed
  unfolding binary_loop
  parse_binary n toks = resume (λ first left. binary_loop n (first ∷ []) left) (next toks)

-- The fuel bounds the nesting of brackets and, below it, the rounds of each loop.
unfoldable pub parse_or : ℕ → List Text → Parsed
unfolding parse_binary parse_with parse_atom
parse_or zero toks = out_of_fuel
parse_or (suc n) toks =
    parse_binary (codes "or") any_of (parse_binary (codes "and") all_of (parse_with (parse_or n)) n)
      n toks

-- Whether the parse used every token.
whole : LicenseExpr → Parsed → LicenseExpr
whole fallback (done e []) = e
whole fallback (done e (t ∷ toks)) = fallback
whole fallback fail = fallback
whole fallback out_of_fuel = fallback

abbrev is_unknown : Text → Bool
is_unknown up =
    up == codes "NOASSERTION" || up == codes "UNKNOWN" || has_prefix up (codes "SEE LICENSE IN")

parse_trimmed : Text → Option LicenseExpr
unfolding whole parse_or normalize_id tokenize_license
parse_trimmed s =
    if s == []
    then none
    else if is_unknown (to_upper s)
    then none
    else (let toks = tokenize_license s in
        some (whole (leaf (normalize_id s)) (parse_or (suc (length toks)) toks)))

-- The guard on an empty token list has no clause: there the parse fails and the leaf is returned.
unfoldable pub parse_license : Text → Option LicenseExpr
unfolding parse_trimmed
parse_license s = parse_trimmed (trim_space s)

-- licenseIn
unfoldable pub license_in : Text → List Text → Bool
license_in id list =
    let base = trim_suffix id b'+' in any (λ l. normalize_id l == id || normalize_id l == base) list

unfoldable pub leaf_permitted : List Text → List Text → Text → Bool
leaf_permitted allowed denied id =
    if license_in id denied then false else is_empty allowed || license_in id allowed

-- LicensePermitted at an expression that is not nil.
module _ (allowed denied : List Text) where
  unfoldable mutual
    pub license_permitted : LicenseExpr → Bool
    license_permitted (leaf id) = leaf_permitted allowed denied id
    license_permitted (any_of es) = some_permitted es
    license_permitted (all_of es) = every_permitted es

    pub some_permitted : Exprs → Bool
    some_permitted nil = false
    some_permitted (cons e es) = license_permitted e || some_permitted es

    pub every_permitted : Exprs → Bool
    every_permitted nil = true
    every_permitted (cons e es) = license_permitted e && every_permitted es
