-- ===== src/Capabilities/Roles.antt =====
-- internal/service/oidc_roles.go: the roles in the claims of an identity. A claim is what its JSON holds;
-- in an array, `none` is an item that is no string. The values of an object are read in their order.
use kutu.Prelude.{
  ℕ, Text, codes, List, [], ◌∷◌, ◌++◌, Option, none, some, Bool, ◌||◌, not, is_empty, has, ◌==◌,
  split, is_space, filter, map, trim_space, if◌then◌else◌,
}

mutual
  pub data Claim : Type 0 where
    object : Fields → Claim
    array : List (Option Text) → Claim
    strings : List Text → Claim
    string : Text → Claim
    other : Claim

  pub data Fields : Type 0 where
    end : Fields
    field : Text → Claim → Fields → Fields

-- strings.Fields
split_space : Text → List Text
split_space [] = [] ∷ []
split_space (c ∷ s) = begin_word c (split_space s)
  where
    begin_word : ℕ → List Text → List Text
    begin_word c [] = (c ∷ []) ∷ []
    begin_word c (w ∷ ws) = if is_space c then [] ∷ w ∷ ws else (c ∷ w) ∷ ws

abbrev pub nonempty : Text → Bool
nonempty s = not (is_empty s)

unfoldable pub fields_of : Text → List Text
unfolding split_space filter
fields_of s = filter nonempty (split_space s)

-- The strings of an array, but the empty ones.
unfoldable pub array_strings : List (Option Text) → List Text
array_strings [] = []
array_strings (none ∷ items) = array_strings items
array_strings (some s ∷ items) =
    let rest = array_strings items in if is_empty s then rest else s ∷ rest

unfoldable pub roles_from_leaf : Claim → List Text
unfolding array_strings fields_of
roles_from_leaf (array items) = array_strings items
roles_from_leaf (strings roles) = roles
roles_from_leaf (string s) = fields_of s
roles_from_leaf (object fs) = []
roles_from_leaf other = []

unfoldable pub split_path : Text → List Text
unfolding split filter trim_space
split_path path = filter nonempty (map trim_space (split path b'.'))

-- The loop over all values of an object.
unfoldable pub fan_out : (Claim → List Text) → Fields → List Text
fan_out walk end = []
fan_out walk (field name v fs) = walk v ++ fan_out walk fs

unfoldable pub walk_field : (Claim → List Text) → Text → Fields → List Text
unfolding ◌==◌
walk_field walk seg end = []
walk_field walk seg (field name v fs) =
    let rest = walk_field walk seg fs in if name == seg then walk v else rest

-- The roles that walkClaimPath emits, in their order.
unfoldable pub walk_claim_path : List Text → Claim → List Text
unfolding roles_from_leaf fan_out walk_field ◌==◌
walk_claim_path [] node = roles_from_leaf node
walk_claim_path (seg ∷ segs) (object fs) =
    let rest = walk_claim_path segs in
    if seg == codes "*" then fan_out rest fs else walk_field rest seg fs
walk_claim_path (seg ∷ segs) _ = []

-- The closure `add` of HarvestRoles, also the loop of effectiveRoles and `collect`: empty strings and those
-- that are there are skipped.
unfoldable pub add_roles : List Text → List Text → List Text
unfolding has
add_roles [] out = out
add_roles (r ∷ roles) out = add_roles roles (if is_empty r || has out r then out else out ++ r ∷ [])

unfoldable pub harvest_paths : Claim → List Text → List Text → List Text
unfolding split_path walk_claim_path add_roles
harvest_paths claims [] out = out
harvest_paths claims (path ∷ paths) out = harvest_paths claims paths (
    if is_empty (split_path path)
    then out
    else add_roles (walk_claim_path (split_path path) claims) out)

unfoldable pub harvest_roles : Fields → List Text → List Text
unfolding harvest_paths
harvest_roles end paths = []
harvest_roles (field name v fs) paths = harvest_paths (object (field name v fs)) paths []
