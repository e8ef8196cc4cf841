-- ===== src/Token.antt =====
-- internal/service/token.go and token_usage.go: API tokens, their scopes and their authentication.
-- SHA-256 (`hash_key`), the clock and the token storage are parameters; a time is a number of
-- seconds. An error is the sentinel that it wraps.
pub mod Paths
pub mod Scopes
pub mod Usage
mod Tests
use kutu.Prelude.{
  ℕ, Text, codes, List, [], ◌∷◌, ◌++◌, Option, none, some, Bool, true, false, ◌&&◌, ◌||◌, not, ◌==◌,
  ltb, if◌then◌else◌, is_empty, any, all, trim, trim_space, split, has,
}

pub record TokenScope : Type 0 where
  pub path : Text
  pub operations : List Text

pub record Token : Type 0 where
  pub id : Text
  pub name : Text
  pub hashed_key : Text
  pub scopes : List TokenScope
  pub created_at : ℕ
  pub created_by : Text
  pub expires_at : Option ℕ
  pub active : Bool

-- The validated view of a token.
pub record TokenAuth : Type 0 where
  pub auth_id : Text
  pub auth_name : Text
  pub auth_scopes : List TokenScope

pub data Error : Type 0 where
  bad_request unauthorized forbidden not_found : Error

pub data Result (A : Type 0) : Type 0 where
  ok : A → Result A
  err : Error → Result A

known_operation : Text → Bool
unfolding ◌==◌
known_operation op =
    op == codes "read" || op == codes "write" || op == codes "delete" || op == codes "*"

valid_scope : TokenScope → Bool
unfolding known_operation trim_space ◌==◌
valid_scope sc =
    not (trim_space sc.path == [])
    && not (is_empty sc.operations)
    && all known_operation sc.operations

-- Every failure is a bad request, so the scope that fails first does not matter.
unfoldable pub validate_token_scopes : List TokenScope → Result Unit
unfolding valid_scope
validate_token_scopes scopes = if all valid_scope scopes then ok tt else err bad_request

abbrev pub star : Text
star = codes "*"

abbrev pub double_star : Text
double_star = codes "**"

-- The loop over path[i:].
unfoldable pub any_tail : (List Text → Bool) → List Text → Bool
any_tail f [] = f []
any_tail f (s ∷ path) = f (s ∷ path) || any_tail f path

-- The two indices of the loop are the parts of the pattern and of the path that are left.
unfoldable pub match_path_parts : List Text → List Text → Bool
unfolding any_tail ◌==◌
match_path_parts [] path = is_empty path
match_path_parts (p ∷ pattern) [] =
    let rest = match_path_parts pattern [] in if p == double_star then rest else false
match_path_parts (p ∷ pattern) (s ∷ path) =
    let next = match_path_parts pattern path in
    let scan = any_tail (match_path_parts pattern) (s ∷ path) in
    if p == double_star
    then (if is_empty pattern then true else scan)
    else if p == star
    then next
    else if p == s
    then next
    else false

unfoldable pub match_path : Text → Text → Bool
unfolding match_path_parts split trim ◌==◌
match_path pattern path =
    if pattern == star || pattern == double_star
    then true
    else match_path_parts (split (trim pattern b'/') b'/') (split (trim path b'/') b'/')

unfoldable pub contains_operation : List Text → Text → Bool
contains_operation ops op = any (λ o. o == op || o == star) ops

unfoldable pub token_scopes_allow : List TokenScope → Text → Text → Bool
unfolding match_path contains_operation
token_scopes_allow scopes path operation =
    any (λ scope. match_path scope.path path && contains_operation scope.operations operation)
      scopes

-- flatOps: the distinct operations of the scopes, in order of their first use.
add_ops : List Text → List Text → List Text
add_ops out [] = out
add_ops out (op ∷ ops) = add_ops (if has out op then out else out ++ op ∷ []) ops

flat_ops_from : List Text → List TokenScope → List Text
unfolding add_ops
flat_ops_from out [] = out
flat_ops_from out (sc ∷ scopes) = flat_ops_from (add_ops out sc.operations) scopes

unfoldable pub flat_ops : List TokenScope → List Text
unfolding flat_ops_from
flat_ops scopes = flat_ops_from [] scopes

-- The checks that AuthenticateToken and TokenIdentityByID share: active, then not expired.
unfoldable pub check_usable : ℕ → Token → Result TokenAuth
check_usable now token = if not token.active then err forbidden else elim token.expires_at [
  | none ↦ ok (record { auth_id = token.id; auth_name = token.name; auth_scopes = token.scopes })
  | some t ↦
      if ltb t now
      then err forbidden
      else ok (record { auth_id = token.id; auth_name = token.name; auth_scopes = token.scopes })
]

-- PatchToken's request; a nil slice of scopes is `none`.
pub record PatchRequest : Type 0 where
  pub new_name : Option Text
  pub new_scopes : Option (List TokenScope)
  pub new_active : Option Bool
  pub new_expiry : Option ℕ

or_keep : {A : Type 0} → Option A → A → A
or_keep none a = a
or_keep (some b) a = b

-- The token that PatchToken writes back.
unfoldable pub patched : PatchRequest → Token → Result Token
unfolding validate_token_scopes or_keep
patched req token =
    let done : List TokenScope → Token = λ scopes. record token {
      name = or_keep req.new_name token.name;
      scopes = scopes;
      active = or_keep req.new_active token.active;
      expires_at = elim req.new_expiry [ none ↦ token.expires_at | some t ↦ some t ];
    } in
    elim req.new_scopes [
      | none ↦ ok (done token.scopes)
      | some scopes ↦ elim (validate_token_scopes scopes) [
        | ok _ ↦ ok (done scopes)
        | err e ↦ err e
      ]
    ]
