-- ===== src/Policy/License/Parser.antt =====
-- The parser of license.go, its fuel, and the tokens that each sub-parser uses.
use kutu.Prelude.{
  ℕ, zero, suc, ◌≤◌, ◌<◌, Text, codes, List, [], ◌∷◌, ◌++◌, Bool, true, false, ◌≡◌, ◌≢◌, refl,
  length, ◌==◌, equal_fold, if◌then◌else◌, arith, ◌||◌,
}
use kutu.Policy.License.{
  LicenseExpr, leaf, Exprs, Parsed, done, fail, out_of_fuel, peek_op, close, parse_atom,
  skip_exception, after_atom, parse_with, binary_loop, resume, parse_binary, parse_or, normalize_id,
  any_of, all_of,
}

-- The result is not for want of fuel, and leaves at most `n` tokens.
abbrev Leaves : ℕ → Parsed → Type 0
Leaves n (done e toks) = length toks ≤ n
Leaves n fail = Unit
Leaves n out_of_fuel = ⊥

-- On at most `k` tokens the parser ends, and uses a token if it succeeds.
abbrev Consumes : ℕ → (List Text → Parsed) → Type 0
Consumes k p =
    (t : Text) (toks : List Text) → suc (length toks) ≤ k → Leaves (length toks) (p (t ∷ toks))

abbrev FailsOnNone : (List Text → Parsed) → Type 0
FailsOnNone p = p [] ≡ fail

Leaves-le : (m n : ℕ) (r : Parsed) → m ≤ n → Leaves m r → Leaves n r
Leaves-le m n (done e toks) h l = omega arith
Leaves-le m n fail h l = tt
Leaves-le m n out_of_fuel h l = l

Leaves-if :
    (n : ℕ) (b : Bool) (r s : Parsed)
    → (b ≡ true → Leaves n r)
    → (b ≡ false → Leaves n s)
    → Leaves n (if b then r else s)
Leaves-if n true r s f g = f refl
Leaves-if n false r s f g = g refl

close-Leaves : (n : ℕ) (r : Parsed) → Leaves n r → Leaves n (close r)
unfolding close
close-Leaves n (done e []) l = tt
close-Leaves n (done e (t ∷ toks)) l =
    Leaves-if n (t == codes ")") (done e toks) fail (λ _. omega arith) (λ _. tt)
close-Leaves n fail l = tt
close-Leaves n out_of_fuel l = l

module _ (k : ℕ) (por : List Text → Parsed)
    (inner : (toks : List Text) → length toks < k → Leaves (length toks) (por toks)) where
  parse_atom-Consumes : Consumes k (parse_atom por)
  unfolding parse_atom
  parse_atom-Consumes t toks h =
      Leaves-if _ (t == codes "(") _ _ (λ _. close-Leaves _ _ (inner toks h))
        (λ _.
          Leaves-if _
            (t == codes ")"
              || equal_fold t (codes "or")
              || equal_fold t (codes "and")
              || equal_fold t (codes "with"))
            fail (done (leaf (normalize_id t)) toks) (λ _. tt) (λ _. omega arith))

  skip_exception-Leaves :
      (n : ℕ) (e : LicenseExpr) (r : Parsed) → Leaves n r → Leaves n (skip_exception por e r)
  unfolding skip_exception
  skip_exception-Leaves n e (done x toks) l = l
  skip_exception-Leaves n e fail l = tt
  skip_exception-Leaves n e out_of_fuel l = l

  atom-Leaves :
      (n : ℕ) (toks : List Text)
      → length toks ≤ k
      → length toks ≤ n
      → Leaves n (parse_atom por toks)
  atom-Leaves n [] h l = unfold parse_atom in tt
  atom-Leaves n (t ∷ toks) h l = Leaves-le _ _ _ (omega arith) (parse_atom-Consumes t toks h)

  after_atom-Leaves : (n : ℕ) (r : Parsed) → n ≤ k → Leaves n r → Leaves n (after_atom por r)
  unfolding after_atom
  after_atom-Leaves n (done e []) h l =
      Leaves-if n (peek_op (codes "with") []) _ _
        (λ _. skip_exception-Leaves n e _ (atom-Leaves n [] (omega arith) (omega arith)))
        (λ _. omega arith)
  after_atom-Leaves n (done e (t ∷ toks)) h l =
      Leaves-if n (peek_op (codes "with") (t ∷ toks)) _ _
        (λ _. skip_exception-Leaves n e _ (atom-Leaves n toks (omega arith) (omega arith)))
        (λ _. omega arith)
  after_atom-Leaves n fail h l = tt
  after_atom-Leaves n out_of_fuel h l = l

  parse_with-Consumes : Consumes k (parse_with por)
  unfolding parse_with
  parse_with-Consumes t toks h = after_atom-Leaves _ _ (omega arith) (parse_atom-Consumes t toks h)

  parse_with-none : FailsOnNone (parse_with por)
  unfolding parse_with parse_atom after_atom
  parse_with-none = refl

resume-Leaves :
    (m n : ℕ) (k : LicenseExpr → List Text → Parsed) (r : Parsed)
    → ((e : LicenseExpr) (toks : List Text) → length toks ≤ m → Leaves n (k e toks))
    → Leaves m r
    → Leaves n (resume k r)
unfolding resume
resume-Leaves m n k (done e toks) f l = f e toks l
resume-Leaves m n k fail f l = tt
resume-Leaves m n k out_of_fuel f l = l

module _ (op : Text) (node : Exprs → LicenseExpr) (k : ℕ) (next : List Text → Parsed)
    (uses : Consumes k next) (none_fails : FailsOnNone next) where
  binary_loop-Leaves :
      (n : ℕ) (args : List LicenseExpr) (toks : List Text)
      → length toks ≤ k
      → length toks ≤ n
      → Leaves (length toks) (binary_loop op node next n args toks)
  unfolding binary_loop
  binary_loop-Leaves zero args [] hk hn = unfold peek_op in (omega arith)
  binary_loop-Leaves zero args (t ∷ toks) hk hn = absurd (omega arith)
  binary_loop-Leaves (suc n) args [] hk hn = unfold peek_op in (omega arith)
  binary_loop-Leaves (suc n) args (t ∷ []) hk hn =
      Leaves-if _ (peek_op op (t ∷ [])) _ _
        (λ _.
          resume-Leaves 0 _ _ (next [])
            (λ e toks h.
              Leaves-le _ _ _ (omega arith)
                (binary_loop-Leaves n (args ++ e ∷ []) toks (omega arith) (omega arith)))
            (rw none_fails tt))
        (λ _. omega arith)
  binary_loop-Leaves (suc n) args (t ∷ u ∷ toks) hk hn =
      Leaves-if _ (peek_op op (t ∷ u ∷ toks)) _ _
        (λ _.
          resume-Leaves (length toks) _ _ (next (u ∷ toks))
            (λ e left h.
              Leaves-le _ _ _ (omega arith)
                (binary_loop-Leaves n (args ++ e ∷ []) left (omega arith) (omega arith)))
            (uses u toks (omega arith)))
        (λ _. omega arith)

  parse_binary-Consumes : (n : ℕ) → k ≤ suc n → Consumes k (parse_binary op node next n)
  unfolding parse_binary
  parse_binary-Consumes n hn t toks h =
      resume-Leaves (length toks) _ _ (next (t ∷ toks))
        (λ e left l.
          Leaves-le _ _ _ (omega arith)
            (binary_loop-Leaves n (e ∷ []) left (omega arith) (omega arith)))
        (uses t toks h)

  parse_binary-none : (n : ℕ) → FailsOnNone (parse_binary op node next n)
  unfolding parse_binary
  parse_binary-none n = rw none_fails refl

-- One level of brackets: conjunctions, then disjunctions of them.
module _ (n : ℕ) (por : List Text → Parsed)
    (inner : (toks : List Text) → length toks < n → Leaves (length toks) (por toks)) where
  parse_and-Consumes : Consumes n (parse_binary (codes "and") all_of (parse_with por) n)
  parse_and-Consumes =
      parse_binary-Consumes (codes "and") all_of n (parse_with por)
        (parse_with-Consumes n por inner) (parse_with-none n por inner) n (omega arith)

  parse_and-none : FailsOnNone (parse_binary (codes "and") all_of (parse_with por) n)
  parse_and-none =
      parse_binary-none (codes "and") all_of n (parse_with por) (parse_with-Consumes n por inner)
        (parse_with-none n por inner) n

  level-Leaves :
      (toks : List Text)
      → length toks ≤ n
      → Leaves (length toks) (
          parse_binary
            (codes "or")
            any_of
            (parse_binary (codes "and") all_of (parse_with por) n)
            n
            toks)
  level-Leaves [] h =
      rw (parse_binary-none (codes "or") any_of n _ parse_and-Consumes parse_and-none n) tt
  level-Leaves (t ∷ toks) h = Leaves-le _ _ _ (omega arith) (
      parse_binary-Consumes (codes "or") any_of n _ parse_and-Consumes parse_and-none n
        (omega arith) t toks h)

parse_or-Leaves :
    (n : ℕ) (toks : List Text) → length toks < n → Leaves (length toks) (parse_or n toks)
unfolding parse_or
parse_or-Leaves zero toks h = absurd (omega arith)
parse_or-Leaves (suc n) toks h = level-Leaves n (parse_or n) (parse_or-Leaves n) toks (omega arith)

-- `parse_license` gives the parser one unit of fuel more than there are tokens; then it never runs
-- out of fuel, whatever the tokens are.
pub parse_or-ends : (toks : List Text) → parse_or (suc (length toks)) toks ≢ out_of_fuel
parse_or-ends toks e =
    go (parse_or (suc (length toks)) toks) e (parse_or-Leaves _ toks (omega arith))
  where
    go : (r : Parsed) → r ≡ out_of_fuel → Leaves (length toks) r → ⊥
    go (done x l) q h = cc
    go fail q h = cc
    go out_of_fuel q h = h
