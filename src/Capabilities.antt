-- ===== src/Capabilities.antt =====
-- internal/service/capabilities.go and internal/server/authx/caps_token.go: capability sets, the path
-- patterns that restrict them, and what the scopes of an API token grant. doublestar.Match is a
-- parameter, an error counting as no match. A map of operations is read in the order of the source.
pub mod Scopes
pub mod Granted
pub mod Ancestors
pub mod Roles
pub mod Resolve
mod Tests
use kutu.Prelude.{
  ℕ, Text, codes, List, [], ◌∷◌, ◌++◌, Option, none, some, Bool, true, false, ◌&&◌, ◌||◌, not, ◌==◌,
  eqb, if◌then◌else◌, is_empty, any, has, map, trim, trim_left, split, join, cut,
}
use kutu.Prelude.Maps.{Map, get, put, delete}
use kutu.Token.{TokenScope}

abbrev pub raw_read : Text
raw_read = codes "raw.read"

abbrev pub raw_write : Text
raw_write = codes "raw.write"

abbrev pub registry_read : Text
registry_read = codes "registry.read"

abbrev pub registry_write : Text
registry_write = codes "registry.write"

abbrev pub registry_delete : Text
registry_delete = codes "registry.delete"

-- The keys of KnownCapabilities, in its order.
abbrev pub known_capability_keys : List Text
known_capability_keys =
    raw_read
    ∷ raw_write
    ∷ registry_read
    ∷ registry_write
    ∷ registry_delete
    ∷ codes "registry.admin"
    ∷ codes "settings.manage"
    ∷ codes "tokens.manage"
    ∷ codes "users.manage"
    ∷ codes "permissions.manage"
    ∷ []

-- Capabilities.Has
unfoldable pub has_capability : List Text → Text → Bool
unfolding has
has_capability c k = has c k

-- CapabilityPatterns: `none` is the nil map.
abbrev pub CapabilityPatterns : Type 0
CapabilityPatterns = Option (Map (List Text))

-- cp[key], nil for a key that is absent.
unfoldable pub patterns_of : CapabilityPatterns → Text → List Text
unfolding get
patterns_of none k = []
patterns_of (some m) k = elim (get k m) [ none ↦ [] | some ps ↦ ps ]

unfoldable pub split_segments : Text → List Text
unfolding split
split_segments [] = []
split_segments (c ∷ p) = split (c ∷ p) b'/'

module _ (path_match : Text → Text → Bool) where
  unfoldable pub allows : CapabilityPatterns → Text → Text → Bool
  unfolding patterns_of trim_left
  allows cp k path =
      is_empty (patterns_of cp k)
      || is_empty path
      || any (λ pat. path_match pat (trim_left path b'/')) (patterns_of cp k)

  -- The loop over the path's segments; the index `pi` is the list of pattern segments left.
  unfoldable pub ancestor_segments : List Text → List Text → Bool
  unfolding ◌==◌
  ancestor_segments [] pats = not (is_empty pats)
  ancestor_segments (seg ∷ segs) [] = false
  ancestor_segments (seg ∷ segs) (ps ∷ pats) =
      let rest = ancestor_segments segs pats in
      if ps == codes "**" then true else if path_match ps seg then rest else false

  unfoldable pub is_ancestor_of_pattern : List Text → Text → Bool
  unfolding ancestor_segments split
  is_ancestor_of_pattern path_segs pattern = ancestor_segments path_segs (split pattern b'/')

  unfoldable pub allows_ancestor : CapabilityPatterns → Text → Text → Bool
  unfolding allows is_ancestor_of_pattern split_segments trim
  allows_ancestor cp k path =
      allows cp k path
      || is_empty (patterns_of cp k)
      || any (is_ancestor_of_pattern (split_segments (trim path b'/'))) (patterns_of cp k)

-- tokenScopeArea
pub record Area : Type 0 where
  pub prefix : Text
  pub ops : List (Text × Text)

abbrev pub token_scope_areas : List Area
token_scope_areas =
    record {
      prefix = codes "raw";
      ops =
          (codes "read", raw_read) ∷ (codes "write", raw_write) ∷ (codes "delete", raw_write) ∷ [];
    }
    ∷ record {
      prefix = codes "registry";
      ops =
          (codes "read", registry_read)
          ∷ (codes "write", registry_write)
          ∷ (codes "delete", registry_delete)
          ∷ [];
    }
    ∷ []

abbrev pub is_meta : ℕ → Bool
is_meta c =
    eqb c b'*' || eqb c b'?' || eqb c b'[' || eqb c b']' || eqb c b'{' || eqb c b'}' || eqb c 92

-- escapeGlobMeta; 92 is the backslash.
unfoldable pub escape_glob_meta : Text → Text
escape_glob_meta [] = []
escape_glob_meta (c ∷ s) =
    let rest = escape_glob_meta s in if is_meta c then 92 ∷ c ∷ rest else c ∷ rest

unfoldable pub normalize_segment : Text → Text
unfolding escape_glob_meta ◌==◌
normalize_segment s = if s == codes "*" || s == codes "**" then s else escape_glob_meta s

unfoldable pub normalize_scope_path : Text → Text
unfolding normalize_segment split join
normalize_scope_path path = join (map normalize_segment (split path b'/')) b'/'

-- The switch of scopePatternFor on the first segment; `none` is a path outside the area.
unfoldable pub pattern_after : Text → Text → Text → Option Text
unfolding normalize_scope_path ◌==◌
pattern_after prefix head rest =
    if head == codes "**"
    then some []
    else if not (head == codes "*" || head == prefix)
    then none
    else if rest == []
    then none
    else if rest == codes "**"
    then some []
    else some (normalize_scope_path rest)

unfoldable pub scope_pattern_for : Text → Text → Option Text
unfolding pattern_after cut
scope_pattern_for path prefix =
    if path == codes "**" || path == codes "*" then some [] else elim (cut path b'/') [
      | none ↦ pattern_after prefix path []
      | some (head, rest) ↦ pattern_after prefix head rest
    ]

unfoldable pub scope_has_any_op : TokenScope → List Text → Bool
unfolding has
scope_has_any_op scope want = any (λ have. have == codes "*" || has want have) scope.operations

-- The part of EffectiveReport that tokenReport computes.
pub record Report : Type 0 where
  pub capabilities : List Text
  pub unrestricted : List Text
  pub patterns : Map (List Text)

abbrev pub empty_report : Report
empty_report = record { capabilities = []; unrestricted = []; patterns = [] }

abbrev pub with_capability : Text → List Text → List Text
with_capability k caps = if has_capability caps k then caps else caps ++ k ∷ []

unfoldable pub add_pattern : Text → Text → Map (List Text) → Map (List Text)
unfolding patterns_of put
add_pattern k p m =
    if has (patterns_of (some m) k) p then m else put k (patterns_of (some m) k ++ p ∷ []) m

-- The closure `grant`.
unfoldable pub grant : Text → Text → Report → Report
unfolding add_pattern has_capability
grant k p rep =
    if is_empty p
    then record {
      capabilities = with_capability k rep.capabilities;
      unrestricted = k ∷ rep.unrestricted;
      patterns = rep.patterns;
    }
    else record {
      capabilities = with_capability k rep.capabilities;
      unrestricted = rep.unrestricted;
      patterns = add_pattern k p rep.patterns;
    }

unfoldable pub grant_ops : TokenScope → Text → List (Text × Text) → Report → Report
unfolding grant scope_has_any_op
grant_ops sc p [] rep = rep
grant_ops sc p ((op, k) ∷ ops) rep =
    grant_ops sc p ops (if scope_has_any_op sc (op ∷ []) then grant k p rep else rep)

unfoldable pub grant_areas : TokenScope → List Area → Report → Report
unfolding grant_ops scope_pattern_for trim
grant_areas sc [] rep = rep
grant_areas sc (area ∷ areas) rep =
    grant_areas sc areas (elim (scope_pattern_for (trim sc.path b'/') area.prefix) [
      | none ↦ rep
      | some p ↦ grant_ops sc p area.ops rep
    ])

unfoldable pub grant_scopes : List TokenScope → Report → Report
unfolding grant_areas
grant_scopes [] rep = rep
grant_scopes (sc ∷ scopes) rep = grant_scopes scopes (grant_areas sc token_scope_areas rep)

unfoldable pub delete_all : List Text → Map (List Text) → Map (List Text)
unfolding delete
delete_all [] m = m
delete_all (k ∷ ks) m = delete_all ks (delete k m)

-- tokenReport: an unrestricted key loses its patterns.
unfoldable pub token_report : List TokenScope → Report
unfolding grant_scopes delete_all
token_report scopes =
    let rep = grant_scopes scopes empty_report in
    record rep { patterns = delete_all rep.unrestricted rep.patterns }
