-- ===== src/Lib.antt =====
-- kutu: the core logic of the artifact registry, in a model and its theorems.
--
-- Parts. A request for a package passes the request policy (internal/registry/policy), which asks the
-- registry for the artifact and its metadata, the license parser, the name patterns and the advisories;
-- a request with an API key is authorized by its token (internal/service/token.go), whose scopes are
-- also turned into capabilities; those of a user come from permission bundles (internal/server/authx).
-- A virtual registry (internal/registry/virtualbase) asks its members in turn. Images are stored by
-- content digest (internal/registry/blobstore) and collected by mark and sweep
-- (internal/registry/docker/gc.go). Retention (internal/registry/ops/retention.go) deletes old versions
-- in the order of internal/registry/pkgbase/version.go. The credentials of the repositories
-- (internal/storage/registry_store.go) are sealed under the server's key (internal/secret), which the
-- operations of internal/service/keyops.go set, unlock and rotate.
--
-- Files.
--   Prelude: shared names; Go strings as lists of bytes, maps, a stable sort, lists with membership.
--   Policy/License: license.go. ParseLicense is parse_license, LicensePermitted license_permitted.
--   Policy/Match: match.go. globMatch is glob_match, MatchName match_name, NameAllowed name_allowed.
--   Policy/Severity: cvss.go and osv.go. severityRank, NormalizeSeverity and blocking keep their names.
--   Policy/Osv: the client of OSV in osv.go. query is query, with its sections cached and finish.
--   Policy/Engine: policy.go. Engine.Gate is gate and Engine.evaluate is evaluate, cut into its checks.
--   Token: token.go. matchPathParts is match_path_parts, TokenScopesAllow token_scopes_allow.
--   Token/Usage: AuthenticateToken and ValidateToken, with token_usage.go as explicit state.
--   Blobstore: digest.go. ParseDigest is parse_digest, Digest.String digest_string.
--   Docker/Gc: the mark phase of gc.go; markManifestRecursive is mark_manifest, markRepo mark_repo.
--   Docker/Gc/Sweep: the sweep and the pass; runGC is run_gc.
--   Versions: version.go. CompareVersions is compare_versions, tokenize and compareTokens keep their names.
--   Semver: internal/registry/common/semver/semver.go. Compare is compare_semver, SortDesc sort_desc.
--   Retention: retention.go. PlanRetention is plan_retention, one package plan_package.
--   Capabilities: internal/service/capabilities.go and internal/server/authx/caps_token.go. tokenReport is
--     token_report, scopePatternFor scope_pattern_for, AllowsAncestor allows_ancestor.
--   Keys: internal/secret (the cipher, the key manager and the envelope). Keys/Repository and Keys/Store:
--     the sealed credentials of internal/storage/registry_store.go; sealRepoSecrets is seal_repo_secrets,
--     openRepoSecrets scan_repo with restore. Keys/Service: internal/service/keyops.go; InitializeServerKey
--     is initialize_server_key, UnlockServerKey unlock_server_key, RotateServerKey rotate_server_key.
--     Keys/Gate: internal/server/lockgate. Keys/Toy: an instance of the parameters for concrete runs.
--   Capabilities/Roles: internal/service/oidc_roles.go. Capabilities/Resolve: internal/server/authx/caps.go
--     and the bundles of internal/service/permission.go; resolveDetailed is resolve_detailed.
--   Virtual: internal/registry/virtualbase. ForEachMember is for_each_member, ServeFirstHit
--     serve_first_hit, CollectListLines collect_list_lines.
--   GoProxy: internal/registry/goproxy/module.go. EncodeModulePath is encode_module_path, over the runes of
--     GoProxy/Utf8, which has what Go's range reads from a string.
--   Promotion: internal/registry/ops/promote.go. Promote is promote, SplitPackageSpec split_package_spec,
--     PrefetchAll prefetch_all.
--   Each of these has child files for its theorems, and Tests with the concrete runs.
--
-- Conventions. Requests follow one another: calls that run at the same time are not modelled, but for the
-- queries of Policy/Osv. A string is the list of its bytes, with the case and white space of ASCII. Numbers are
-- natural; where the code multiplies a duration the 64-bit product is written out. A failed call of a
-- registry or of the store is `none` or a value of its own; error texts are left out.
--
-- Bounds. The parser of licenses has one unit of fuel more than tokens, since each level of brackets and
-- each round of a loop uses a token; glob_match has one more than the length of the pattern, since each
-- call is on a shorter one; the mark phase has one more than the readable manifests that tags and manifests
-- refer to, counted in each spelling of a digest that is used, since each level marks one of these texts
-- for the first time.
--
-- Parameters. Code of other packages is an argument: path.Match, doublestar.Match, the hash of a key
-- and the lookup by it, SHA-256, the AEAD and the JSON of the secrets, what rand.Read fills, the answer
-- of OSV, the answers of a registry and of the members of a virtual one, the user database, the clock,
-- and which reads, writes and deletions of the store fail.
--
-- Not modelled: the HTTP handlers of the registry protocols, the file system adapters, the web interface,
-- the CVSS score (floating point), the random ids of tokens, a collection whose repositories cannot be
-- listed or whose context is cancelled (it stops where it is), the prune of abandoned uploads and the scoped collection after a delete, and the reading of publish times.
pub mod Prelude
pub mod Policy
pub mod Token
pub mod Blobstore
pub mod Docker
pub mod Versions
pub mod Semver
pub mod Retention
pub mod Capabilities
pub mod Keys
pub mod Virtual
pub mod GoProxy
pub mod Promotion
