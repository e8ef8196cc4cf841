-- ===== src/Policy/License/Tokens.antt =====
-- License expressions written out as tokens, and the parser of license.go on one token or bracket.
use kutu.Prelude.{
  ℕ, zero, suc, ◌+◌, Text, codes, List, [], ◌∷◌, ◌++◌, true, false, ◌≡◌, refl, ap, ◌∙◌, ◌==◌,
  equal_fold,
}
use mathlib.Core.List.{append_assoc}
use kutu.Policy.License.{
  LicenseExpr, leaf, any_of, all_of, Exprs, nil, cons, Parsed, done, peek_op, close, parse_atom,
  after_atom, parse_with, exprs, group, resume, binary_loop, parse_binary, normalize_id,
}

abbrev pub open_token : Text
open_token = codes "("

abbrev pub close_token : Text
close_token = codes ")"

-- The tokens of an expression; `more` is each further member after its operator.
unfoldable mutual
  pub tokens : LicenseExpr → List Text
  tokens (leaf id) = id ∷ []
  tokens (any_of nil) = open_token ∷ close_token ∷ []
  tokens (any_of (cons e es)) = open_token ∷ tokens e ++ (more (codes "OR") es ++ close_token ∷ [])
  tokens (all_of nil) = open_token ∷ close_token ∷ []
  tokens (all_of (cons e es)) = open_token ∷ tokens e ++ (more (codes "AND") es ++ close_token ∷ [])

  pub more : Text → Exprs → List Text
  more op nil = []
  more op (cons e es) = op ∷ tokens e ++ more op es

unfoldable mutual
  pub size : LicenseExpr → ℕ
  size (leaf id) = 0
  size (any_of es) = suc (size_all es)
  size (all_of es) = suc (size_all es)

  pub size_all : Exprs → ℕ
  size_all nil = 0
  size_all (cons e es) = suc (size e + size_all es)

-- A token that the parser takes for a license, in the spelling that it would store.
pub record IsId (id : Text) : Type 0 where
  pub not_open : (id == open_token) ≡ false
  pub not_close : (id == close_token) ≡ false
  pub not_or : equal_fold id (codes "or") ≡ false
  pub not_and : equal_fold id (codes "and") ≡ false
  pub not_with : equal_fold id (codes "with") ≡ false
  pub normal : normalize_id id ≡ id

abbrev pub AtLeastTwo : Exprs → Type 0
AtLeastTwo nil = ⊥
AtLeastTwo (cons e nil) = ⊥
AtLeastTwo (cons e (cons f es)) = Unit

-- What the parser itself builds: normalized leaves, and two members or more under an operator.
abbrev mutual
  pub IsNormal : LicenseExpr → Type 0
  IsNormal (leaf id) = IsId id
  IsNormal (any_of es) = AtLeastTwo es × AreNormal es
  IsNormal (all_of es) = AtLeastTwo es × AreNormal es

  pub AreNormal : Exprs → Type 0
  AreNormal nil = Unit
  AreNormal (cons e es) = IsNormal e × AreNormal es

unfoldable pub list : Exprs → List LicenseExpr
list nil = []
list (cons e es) = e ∷ list es

exprs-list : (es : Exprs) → exprs (list es) ≡ es
unfolding exprs list
exprs-list nil = refl
exprs-list (cons e es) = ap (cons e) (exprs-list es)

pub regroup :
    (xs ys : List Text) (r : List Text)
    → (xs ++ (ys ++ close_token ∷ [])) ++ r ≡ xs ++ (ys ++ close_token ∷ r)
regroup xs ys r = simp append_assoc

-- The member of a loop ends at an operator or at a closing bracket.
module _ (op : Text) (node : Exprs → LicenseExpr) (next : List Text → Parsed) where
  pub loop-stop :
      (n : ℕ) (args : List LicenseExpr) (r : List Text)
      → peek_op op r ≡ false
      → binary_loop op node next n args r ≡ done (group node args) r
  unfolding binary_loop
  loop-stop zero args r h = rw h
  loop-stop (suc n) args r h = rw h

  pub loop-round :
      (n : ℕ) (args : List LicenseExpr) (t : Text) (toks left : List Text) (e : LicenseExpr)
      → equal_fold t op ≡ true
      → next toks ≡ done e left
      → binary_loop op node next (suc n) args (t ∷ toks)
        ≡ binary_loop op node next n (args ++ e ∷ []) left
  unfolding binary_loop peek_op
  loop-round n args t toks left e h q = rw (h, q, resume) refl

  pub binary-first :
      (n : ℕ) (toks left : List Text) (e : LicenseExpr)
      → next toks ≡ done e left
      → parse_binary op node next n toks ≡ binary_loop op node next n (e ∷ []) left
  unfolding parse_binary
  binary-first n toks left e q = rw (q, resume) refl

  pub binary-one :
      (n : ℕ) (toks left : List Text) (e : LicenseExpr)
      → next toks ≡ done e left
      → peek_op op left ≡ false
      → parse_binary op node next n toks ≡ done e left
  unfolding group
  binary-one n toks left e q h = binary-first n toks left e q ∙ loop-stop n (e ∷ []) left h

pub with-one :
    (por : List Text → Parsed) (toks left : List Text) (e : LicenseExpr)
    → parse_atom por toks ≡ done e left
    → peek_op (codes "with") left ≡ false
    → parse_with por toks ≡ done e left
unfolding parse_with after_atom
with-one por toks left e q h = rw (q, after_atom, h) refl

pub leaf-atom :
    (por : List Text → Parsed) (id : Text) (r : List Text)
    → IsId id
    → parse_atom por (id ∷ r) ≡ done (leaf id) r
unfolding parse_atom
leaf-atom por id r h = rw (h.not_open, h.not_close, h.not_or, h.not_and, h.not_with, h.normal) refl

pub bracket-atom :
    (por : List Text → Parsed) (e : LicenseExpr) (toks r : List Text)
    → por toks ≡ done e (close_token ∷ r)
    → parse_atom por (open_token ∷ toks) ≡ done e r
unfolding parse_atom ◌==◌
bracket-atom por e toks r q = rw (q, close) refl

pub group-two :
    (node : Exprs → LicenseExpr) (e : LicenseExpr) (es : Exprs)
    → AtLeastTwo (cons e es)
    → group node (e ∷ list es) ≡ node (cons e es)
unfolding group list
group-two node e nil h = absurd h
group-two node e (cons f es) h = rw exprs-list refl
