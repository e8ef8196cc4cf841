-- ===== src/Capabilities/Tests.antt =====
-- Concrete scopes and patterns, and the theorems of this tree at them.
use kutu.Prelude.{
  Text, codes, List, [], ◌∷◌, Option, none, some, true, false, ◌==◌, ◌≡◌, ◌↔◌, ◌⊎◌, refl, inl, In,
  split, trim, trim_left,
}
use kutu.Token.{TokenScope}
use kutu.Capabilities.{
  raw_read, raw_write, token_scope_areas, token_report, patterns_of, allows_ancestor,
  split_segments, scope_pattern_for,
}
use kutu.Capabilities.Granted.{Reached, data_plane, token_report_iff}
use kutu.Capabilities.Roles.{Fields, field, end, object, strings}
use kutu.Capabilities.Resolve.{
  Identity, Settings, Database, token_provider, effective_roles, resolve_detailed,
}
use kutu.Capabilities.Resolve.Entitled.{Entitled, resolve_detailed_iff, resolve_detailed-token}
use kutu.Capabilities.Ancestors.{LeadsTo, allows_ancestor_iff}

abbrev scopes : List TokenScope
scopes = record { path = codes "/raw/builds/**"; operations = codes "read" ∷ [] } ∷ []

abbrev patterns : Option (List (Text × List Text))
patterns = some ((raw_read, codes "builds/team-a/**" ∷ []) ∷ [])

token_report_iff_example :
    In raw_read (token_report scopes).capabilities
    ↔ ((sc : TokenScope) × In sc scopes × Reached sc token_scope_areas raw_read)
token_report_iff_example = token_report_iff scopes raw_read

granted_read : In raw_read (token_report scopes).capabilities
unfolding token_report ◌==◌
granted_read = inl refl

allows_ancestor_iff_example : (allows_ancestor ◌==◌ patterns raw_read (codes "builds") ≡ true) ↔ (
    (patterns_of patterns raw_read ≡ [])
    ⊎ (codes "builds" ≡ [])
    ⊎ ((pat : Text) × In pat (patterns_of patterns raw_read)
        × (((pat == trim_left (codes "builds") b'/') ≡ true)
            ⊎ LeadsTo ◌==◌ (split_segments (trim (codes "builds") b'/')) (split pat b'/'))))
allows_ancestor_iff_example = allows_ancestor_iff ◌==◌ patterns raw_read (codes "builds")

-- A path after "**" is dropped: the whole area is granted.
any_suffix_scope : scope_pattern_for (codes "**/repo") (codes "raw") ≡ some []
unfolding scope_pattern_for ◌==◌
any_suffix_scope = refl

escaped_scope : scope_pattern_for (codes "raw/m*/x") (codes "raw") ≡ some (codes "m\\*/x")
unfolding scope_pattern_for ◌==◌
escaped_scope = refl

-- A user with a role in a nested claim, mapped to a bundle, one of whose keys is denied.
abbrev claims : Fields
claims =
    field (codes "realm_access") (object (field (codes "roles") (strings (codes "dev" ∷ [])) end))
      end

abbrev settings : Settings
settings = record {
  superadmins = codes "root" ∷ [];
  role_mapping = (codes "dev", codes "writers" ∷ []) ∷ [];
  scope_mapping = [];
  role_paths = (codes "keycloak", codes "realm_access.roles" ∷ []) ∷ [];
}

abbrev db : Database
db = record {
  get_user_by_id = λ u. some (record {
    id = u;
    username = codes "ann";
    is_superadmin = false;
    denied_capabilities = raw_write ∷ [];
  });
  get_user_permissions = λ u. none;
  list_permissions =
      some (
        record { key = codes "writers"; keys = raw_read ∷ raw_write ∷ []; key_patterns = [] } ∷ []);
}

abbrev ann : Identity
ann = record {
  subject = codes "ann";
  provider = codes "keycloak";
  roles = [];
  scopes = [];
  claims = claims;
  user_id = codes "u1";
  token_scopes = [];
}

ann_resolved : (resolve_detailed settings db ann).capabilities ≡ raw_read ∷ []
unfolding resolve_detailed effective_roles ◌==◌
ann_resolved = refl

resolve_detailed_iff_example :
    In raw_write (resolve_detailed settings db ann).capabilities
    ↔ Entitled settings db ann raw_write
resolve_detailed_iff_example = resolve_detailed_iff settings db ann raw_write

-- A token named like a superadmin.
abbrev root_token : Identity
root_token = record ann { subject = codes "root"; provider = token_provider; token_scopes = scopes }

token_reads : In raw_read (resolve_detailed settings db root_token).capabilities
unfolding resolve_detailed ◌==◌
token_reads = inl refl

resolve_detailed-token_example : In raw_read data_plane
resolve_detailed-token_example =
    resolve_detailed-token settings db root_token raw_read refl token_reads
