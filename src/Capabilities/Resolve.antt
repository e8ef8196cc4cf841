-- ===== src/Capabilities/Resolve.antt =====
-- internal/server/authx/caps.go with CapabilitiesFromBundles and PermissionsByKeys of
-- internal/service/permission.go: the capabilities of an identity. What the database answers is a
-- parameter, `none` standing for an error, for no such user and for a resolver without a service. The
-- provenance list of the report is left out, and the scopes of a token stand in its identity.
pub mod Sources
pub mod Bundles
pub mod Entitled
use kutu.Prelude.{
  Text, codes, List, [], ◌∷◌, ◌++◌, Option, none, some, Bool, true, false, ◌&&◌, ◌||◌, not,
  is_empty, has, filter, any, ◌==◌, if◌then◌else◌,
}
use kutu.Prelude.Maps.{Map, put}
use kutu.Token.{TokenScope}
use kutu.Capabilities.{
  CapabilityPatterns, patterns_of, known_capability_keys, token_report, delete_all,
}
use kutu.Capabilities.Roles.{Fields, add_roles, harvest_roles}

-- service.TokenProvider
abbrev pub token_provider : Text
token_provider = codes "apikey"

pub record Identity : Type 0 where
  pub subject : Text
  pub provider : Text
  pub roles : List Text
  pub scopes : List Text
  pub claims : Fields
  pub user_id : Text
  pub token_scopes : List TokenScope

pub record UserInfo : Type 0 where
  pub id : Text
  pub username : Text
  pub is_superadmin : Bool
  pub denied_capabilities : List Text

pub record Permission : Type 0 where
  pub key : Text
  pub keys : List Text
  pub key_patterns : Map (List Text)

-- The capability mapping and the role paths of the resolver.
pub record Settings : Type 0 where
  pub superadmins : List Text
  pub role_mapping : Map (List Text)
  pub scope_mapping : Map (List Text)
  pub role_paths : Map (List Text)

pub record Database : Type 0 where
  pub get_user_by_id : Text → Option UserInfo
  pub get_user_permissions : Text → Option (List Permission)
  pub list_permissions : Option (List Permission)

pub data Reason : Type 0 where
  none_given allowlist column token : Reason

pub record EffectiveReport : Type 0 where
  pub reason : Reason
  pub capabilities : List Text
  pub patterns : CapabilityPatterns

-- m[k], nil for a key that is absent.
abbrev pub mapped : Map (List Text) → Text → List Text
mapped m k = patterns_of (some m) k

unfoldable pub add_keys : List Text → List Text → List Text
unfolding has
add_keys [] keys = keys
add_keys (k ∷ ks) keys = add_keys ks (if has keys k then keys else keys ++ k ∷ [])

-- The keys of the bundles, each once.
unfoldable pub collect_keys : List Permission → List Text → List Text
unfolding add_keys
collect_keys [] keys = keys
collect_keys (p ∷ perms) keys = collect_keys perms (add_keys p.keys keys)

-- Whether some bundle lists the key with no patterns.
unfoldable pub is_unrestricted : List Permission → Text → Bool
unfolding has patterns_of
is_unrestricted perms k = any (λ p. has p.keys k && is_empty (mapped p.key_patterns k)) perms

unfoldable pub add_patterns : Text → List Text → Map (List Text) → Map (List Text)
unfolding has patterns_of put
add_patterns k [] m = m
add_patterns k (pat ∷ pats) m =
    add_patterns k pats (if has (mapped m k) pat then m else put k (mapped m k ++ pat ∷ []) m)

-- The second pass, over the patterns of one bundle.
unfoldable pub merge_patterns :
    List Permission → Map (List Text) → Map (List Text) → Map (List Text)
unfolding is_unrestricted add_patterns collect_keys has
merge_patterns perms [] m = m
merge_patterns perms ((k, pats) ∷ more) m = merge_patterns perms more (
    if not (has (collect_keys perms []) k) || is_unrestricted perms k
    then m
    else add_patterns k pats m)

unfoldable pub merge_all : List Permission → List Permission → Map (List Text) → Map (List Text)
unfolding merge_patterns
merge_all perms [] m = m
merge_all perms (p ∷ more) m = merge_all perms more (merge_patterns perms p.key_patterns m)

abbrev pub nil_if_empty : Map (List Text) → CapabilityPatterns
nil_if_empty [] = none
nil_if_empty (x ∷ m) = some (x ∷ m)

unfoldable pub capabilities_from_bundles : List Permission → List Text × CapabilityPatterns
unfolding collect_keys merge_all
capabilities_from_bundles perms = (collect_keys perms [], nil_if_empty (merge_all perms perms []))

abbrev pub wanted : List Text → List Text
wanted keys = filter (λ k. not (is_empty k)) keys

abbrev pub matching : List Text → Option (List Permission) → Option (List Permission)
matching keys none = none
matching keys (some all) = some (filter (λ p. has (wanted keys) p.key) all)

-- PermissionsByKeys
unfoldable pub permissions_by_keys : Database → List Text → Option (List Permission)
unfolding has filter
permissions_by_keys db keys =
    if is_empty (wanted keys) then some [] else matching keys db.list_permissions

abbrev pub drop_patterns : CapabilityPatterns → List Text → CapabilityPatterns
drop_patterns none denied = none
drop_patterns (some m) denied = nil_if_empty (delete_all denied m)

unfoldable pub subtract_denied :
    List Text → CapabilityPatterns → List Text → List Text × CapabilityPatterns
unfolding has filter delete_all
subtract_denied keys patterns denied =
    if is_empty denied
    then (keys, patterns)
    else (filter (λ k. not (has denied k)) keys, drop_patterns patterns denied)

unfoldable pub effective_roles : Settings → Identity → List Text
unfolding harvest_roles add_roles patterns_of
effective_roles settings id =
    let paths = mapped settings.role_paths id.provider in
    if is_empty paths
    then id.roles
    else if is_empty (harvest_roles id.claims paths)
    then id.roles
    else if is_empty id.roles
    then harvest_roles id.claims paths
    else add_roles (harvest_roles id.claims paths) (add_roles id.roles [])

unfoldable pub collect_mapped : Map (List Text) → List Text → List Text → List Text
unfolding add_roles patterns_of
collect_mapped m [] out = out
collect_mapped m (name ∷ names) out = collect_mapped m names (add_roles (mapped m name) out)

unfoldable pub mapped_permission_keys : Settings → List Text → List Text → List Text
unfolding collect_mapped
mapped_permission_keys settings roles scopes =
    collect_mapped settings.scope_mapping scopes (collect_mapped settings.role_mapping roles [])

unfoldable pub load_user : Database → Identity → Option UserInfo
load_user db id = if is_empty id.user_id then none else db.get_user_by_id id.user_id

abbrev pub denied_of : Option UserInfo → List Text
denied_of none = []
denied_of (some user) = user.denied_capabilities

abbrev pub is_admin : Option UserInfo → Bool
is_admin none = false
is_admin (some user) = user.is_superadmin

abbrev pub or_no_bundles : Option (List Permission) → List Permission
or_no_bundles none = []
or_no_bundles (some bundles) = bundles

abbrev pub user_bundles : Database → Option UserInfo → List Permission
user_bundles db none = []
user_bundles db (some user) = or_no_bundles (db.get_user_permissions user.id)

-- The bundles of the user and of its roles and scopes.
unfoldable pub all_bundles : Settings → Database → Identity → List Permission
unfolding load_user effective_roles permissions_by_keys mapped_permission_keys
all_bundles settings db id =
    user_bundles db (load_user db id)
    ++ (if is_empty (effective_roles settings id) && is_empty id.scopes
        then []
        else or_no_bundles (
            permissions_by_keys db
              (mapped_permission_keys settings (effective_roles settings id) id.scopes)))

abbrev pub reported : Reason → List Text × CapabilityPatterns → EffectiveReport
reported reason (keys, patterns) = record {
  reason = reason;
  capabilities = keys;
  patterns = patterns;
}

abbrev pub token_reported : List TokenScope → EffectiveReport
token_reported scopes = record {
  reason = token;
  capabilities = (token_report scopes).capabilities;
  patterns = nil_if_empty (token_report scopes).patterns;
}

-- resolveDetailed
unfoldable pub resolve_detailed : Settings → Database → Identity → EffectiveReport
unfolding token_report load_user subtract_denied capabilities_from_bundles all_bundles ◌==◌ has
resolve_detailed settings db id =
    let denied = denied_of (load_user db id) in
    if id.provider == token_provider
    then token_reported id.token_scopes
    else if has settings.superadmins id.subject
    then reported allowlist (known_capability_keys, none)
    else if is_admin (load_user db id)
    then reported column (subtract_denied known_capability_keys none denied)
    else let granted = capabilities_from_bundles (all_bundles settings db id) in
      reported none_given (subtract_denied granted.0 granted.1 denied)
