-- ===== src/Policy/License/RoundTrip.antt =====
-- Expressions written out with a bracket round each conjunction and disjunction, and read back by
-- the parser of license.go.
use kutu.Prelude.{
  ℕ, zero, suc, ◌≤◌, Text, codes, List, [], ◌∷◌, ◌++◌, false, ◌≡◌, refl, ap, subst, length,
  length-append, ◌∙◌, equal_fold, arith,
}
use mathlib.Core.List.{append_assoc, append-nil}
use kutu.Policy.License.{
  LicenseExpr, leaf, any_of, all_of, Exprs, nil, cons, Parsed, done, peek_op, parse_atom,
  parse_with, group, binary_loop, parse_binary, parse_or,
}
use kutu.Policy.License.Tokens.{
  AreNormal, AtLeastTwo, IsNormal, binary-first, binary-one, bracket-atom, close_token, group-two,
  leaf-atom, list, loop-round, loop-stop, more, regroup, size, size_all, tokens, with-one,
}

-- One level of the grammar below a bracket, with the fuel that parse_or passes on.
abbrev with_level : ℕ → List Text → Parsed
with_level n = parse_with (parse_or n)

abbrev and_level : ℕ → List Text → Parsed
and_level n = parse_binary (codes "and") all_of (with_level n) n

-- Neither an operator of the grammar nor the end of a member stands before what follows.
stops_close :
    (op : Text) (r : List Text)
    → equal_fold close_token op ≡ false
    → peek_op op (close_token ∷ r) ≡ false
unfolding peek_op
stops_close op r h = h

abbrev tail_of : Text → Exprs → List Text → List Text
tail_of op es r = more op es ++ close_token ∷ r

stops_more :
    (q op : Text) (es : Exprs) (r : List Text)
    → equal_fold op q ≡ false
    → equal_fold close_token q ≡ false
    → peek_op q (tail_of op es r) ≡ false
unfolding more peek_op
stops_more q op nil r h k = k
stops_more q op (cons e es) r h k = h

append-one :
    (args : List LicenseExpr) (e : LicenseExpr) (es : Exprs)
    → (args ++ e ∷ []) ++ list es ≡ args ++ list (cons e es)
unfolding list
append-one args e es = simp append_assoc

-- What atom-tokens states of one member, for what follows it in a loop.
abbrev Reads : ℕ → LicenseExpr → List Text → Type 0
Reads n e left = parse_atom (parse_or n) (tokens e ++ left) ≡ done e left

or-member :
    (n : ℕ) (e : LicenseExpr) (es : Exprs) (r : List Text)
    → Reads n e (tail_of (codes "OR") es r)
    → and_level n (tokens e ++ tail_of (codes "OR") es r) ≡ done e (tail_of (codes "OR") es r)
unfolding equal_fold
or-member n e es r q =
    binary-one (codes "and") all_of (with_level n) n _ _ e
      (with-one (parse_or n) _ _ e q (stops_more (codes "with") (codes "OR") es r refl refl))
      (stops_more (codes "and") (codes "OR") es r refl refl)

and-member :
    (n : ℕ) (e : LicenseExpr) (es : Exprs) (r : List Text)
    → Reads n e (tail_of (codes "AND") es r)
    → with_level n (tokens e ++ tail_of (codes "AND") es r) ≡ done e (tail_of (codes "AND") es r)
unfolding equal_fold
and-member n e es r q =
    with-one (parse_or n) _ _ e q (stops_more (codes "with") (codes "AND") es r refl refl)

-- The loop at the operator and the members that are left.
abbrev OrLoop : ℕ → ℕ → List LicenseExpr → Exprs → List Text → Type 0
OrLoop n k args es r =
    binary_loop (codes "or") any_of (and_level n) k args (tail_of (codes "OR") es r)
    ≡ done (group any_of (args ++ list es)) (close_token ∷ r)

abbrev AndLoop : ℕ → ℕ → List LicenseExpr → Exprs → List Text → Type 0
AndLoop n k args es r =
    binary_loop (codes "and") all_of (with_level n) k args (tail_of (codes "AND") es r)
    ≡ done (group all_of (args ++ list es)) (close_token ∷ r)

bracket-or :
    (n : ℕ) (e : LicenseExpr) (es : Exprs) (r : List Text)
    → AtLeastTwo (cons e es)
    → Reads n e (tail_of (codes "OR") es r)
    → OrLoop n n (e ∷ []) es r
    → parse_or (suc n) (tokens e ++ tail_of (codes "OR") es r)
      ≡ done (any_of (cons e es)) (close_token ∷ r)
unfolding parse_or
bracket-or n e es r two q loop =
    binary-first (codes "or") any_of (and_level n) n _ _ e (or-member n e es r q)
    ∙ (loop ∙ ap (λ x. done x (close_token ∷ r)) (group-two any_of e es two))

bracket-and :
    (n : ℕ) (e : LicenseExpr) (es : Exprs) (r : List Text)
    → AtLeastTwo (cons e es)
    → Reads n e (tail_of (codes "AND") es r)
    → AndLoop n n (e ∷ []) es r
    → parse_or (suc n) (tokens e ++ tail_of (codes "AND") es r)
      ≡ done (all_of (cons e es)) (close_token ∷ r)
unfolding parse_or equal_fold
bracket-and n e es r two q loop =
    binary-one (codes "or") any_of (and_level n) n toks _ (all_of (cons e es))
      (binary-first (codes "and") all_of (with_level n) n toks _ e (and-member n e es r q)
        ∙ (loop ∙ ap (λ x. done x (close_token ∷ r)) (group-two all_of e es two)))
      (stops_close (codes "or") r refl)
  where
    toks : List Text
    toks = tokens e ++ tail_of (codes "AND") es r

or-next :
    (n k : ℕ) (args : List LicenseExpr) (e : LicenseExpr) (es : Exprs) (r : List Text)
    → Reads n e (tail_of (codes "OR") es r)
    → OrLoop n k (args ++ e ∷ []) es r
    → OrLoop n (suc k) args (cons e es) r
unfolding tokens equal_fold
or-next n k args e es r q loop =
    rw (append_assoc, ← append-one args e es)
      (loop-round (codes "or") any_of (and_level n) k args (codes "OR") _ _ e refl
          (or-member n e es r q)
        ∙ loop)

and-next :
    (n k : ℕ) (args : List LicenseExpr) (e : LicenseExpr) (es : Exprs) (r : List Text)
    → Reads n e (tail_of (codes "AND") es r)
    → AndLoop n k (args ++ e ∷ []) es r
    → AndLoop n (suc k) args (cons e es) r
unfolding tokens equal_fold
and-next n k args e es r q loop =
    rw (append_assoc, ← append-one args e es)
      (loop-round (codes "and") all_of (with_level n) k args (codes "AND") _ _ e refl
          (and-member n e es r q)
        ∙ loop)

or-end : (n k : ℕ) (args : List LicenseExpr) (r : List Text) → OrLoop n k args nil r
unfolding tokens list equal_fold
or-end n k args r =
    rw append-nil (loop-stop (codes "or") any_of (and_level n) k args _ (stops_close _ r refl))

and-end : (n k : ℕ) (args : List LicenseExpr) (r : List Text) → AndLoop n k args nil r
unfolding tokens list equal_fold
and-end n k args r =
    rw append-nil (loop-stop (codes "and") all_of (with_level n) k args _ (stops_close _ r refl))

mutual
  unfolding tokens size

  atom-tokens : (e : LicenseExpr) (n : ℕ) (r : List Text) → IsNormal e → size e ≤ n → Reads n e r
  atom-tokens (leaf id) n r h l = leaf-atom (parse_or n) id r h
  atom-tokens (any_of nil) n r h l = absurd h.0
  atom-tokens (all_of nil) n r h l = absurd h.0
  atom-tokens (any_of (cons e es)) zero r h l = absurd (omega arith)
  atom-tokens (all_of (cons e es)) zero r h l = absurd (omega arith)
  atom-tokens (any_of (cons e es)) (suc n) r h l =
      bracket-atom (parse_or (suc n)) (any_of (cons e es)) _ r (
        rw (regroup (tokens e) (more (codes "OR") es) r) (
          bracket-or n e es r h.0 (atom-tokens e n _ h.1.0 (omega arith))
            (more-or es n n (e ∷ []) r h.1.1 (omega arith) (omega arith))))
  atom-tokens (all_of (cons e es)) (suc n) r h l =
      bracket-atom (parse_or (suc n)) (all_of (cons e es)) _ r (
        rw (regroup (tokens e) (more (codes "AND") es) r) (
          bracket-and n e es r h.0 (atom-tokens e n _ h.1.0 (omega arith))
            (more-and es n n (e ∷ []) r h.1.1 (omega arith) (omega arith))))

  more-or :
      (es : Exprs) (n k : ℕ) (args : List LicenseExpr) (r : List Text)
      → AreNormal es
      → size_all es ≤ n
      → size_all es ≤ k
      → OrLoop n k args es r
  more-or nil n k args r h l m = or-end n k args r
  more-or (cons e es) n zero args r h l m = absurd (omega arith)
  more-or (cons e es) n (suc k) args r h l m =
      or-next n k args e es r (atom-tokens e n _ h.0 (omega arith))
        (more-or es n k (args ++ e ∷ []) r h.1 (omega arith) (omega arith))

  more-and :
      (es : Exprs) (n k : ℕ) (args : List LicenseExpr) (r : List Text)
      → AreNormal es
      → size_all es ≤ n
      → size_all es ≤ k
      → AndLoop n k args es r
  more-and nil n k args r h l m = and-end n k args r
  more-and (cons e es) n zero args r h l m = absurd (omega arith)
  more-and (cons e es) n (suc k) args r h l m =
      and-next n k args e es r (atom-tokens e n _ h.0 (omega arith))
        (more-and es n k (args ++ e ∷ []) r h.1 (omega arith) (omega arith))

mutual
  unfolding tokens size

  size-le : (e : LicenseExpr) → size e ≤ length (tokens e)
  size-le (leaf id) = omega arith
  size-le (any_of nil) = omega arith
  size-le (all_of nil) = omega arith
  size-le (any_of (cons e es)) = omega (
    arith,
    size-le e,
    size_all-le (codes "OR") es,
    length-append (tokens e) (more (codes "OR") es ++ close_token ∷ []),
    length-append (more (codes "OR") es) (close_token ∷ []),
  )
  size-le (all_of (cons e es)) = omega (
    arith,
    size-le e,
    size_all-le (codes "AND") es,
    length-append (tokens e) (more (codes "AND") es ++ close_token ∷ []),
    length-append (more (codes "AND") es) (close_token ∷ []),
  )

  size_all-le : (op : Text) (es : Exprs) → size_all es ≤ length (more op es)
  size_all-le op nil = omega arith
  size_all-le op (cons e es) =
      omega (arith, size-le e, size_all-le op es, length-append (tokens e) (more op es))

-- An expression with normalized leaves and at least two members under each operator, written out
-- with brackets, is parsed back to itself with no token left, by the fuel that parse_license gives.
pub parse_or-tokens :
    (e : LicenseExpr) → IsNormal e → parse_or (suc (length (tokens e))) (tokens e) ≡ done e []
unfolding parse_or peek_op
parse_or-tokens e h =
    let n = length (tokens e) in
    let atom : parse_atom (parse_or n) (tokens e) ≡ done e [] =
      subst (λ l. parse_atom (parse_or n) l ≡ done e []) (append-nil (tokens e))
        (atom-tokens e n [] h (size-le e)) in
    binary-one (codes "or") any_of (and_level n) n (tokens e) [] e
      (binary-one (codes "and") all_of (with_level n) n (tokens e) [] e
        (with-one (parse_or n) (tokens e) [] e atom refl) refl)
      refl
