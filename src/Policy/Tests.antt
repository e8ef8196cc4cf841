-- ===== src/Policy/Tests.antt =====
-- Concrete policies, patterns and licenses, and the theorems of this tree at them.
use kutu.Prelude.{
  All, ◌↔◌, In, ℕ, suc, Text, codes, List, [], ◌∷◌, Option, none, some, Bool, true, false, ◌==◌,
  eq_iff, if◌then◌else◌, length, ◌≡◌, ◌≢◌, ◌↔◌, ◌⊎◌, to_upper, refl, arith, ◌+◌, ◌*◌, ◌<◌,
  has_prefix, equal_fold, is_empty, map, ◌≤◌, In,
}
use mathlib.Core.Option
use kutu.Policy.Osv.{
  OsvQuery, OsvResponse, OsvVuln, convert_vuln, fetch, osv_package_name, cached, finish,
  max_cache_entries,
}
use kutu.Policy.Osv.Cache.{Finished, after_queries, new_client, after_queries-cached}
use kutu.Policy.License.{
  LicenseExpr, leaf, any_of, nil, cons, license_permitted, parse_or, parse_license, done,
  out_of_fuel, normalize_id, peek_op,
}
use kutu.Policy.License.Choices.{choices, IsPermitted, license_permitted-choices}
use kutu.Policy.License.Parser.{parse_or-ends}
use kutu.Policy.License.RoundTrip.{parse_or-tokens}
use kutu.Policy.License.Tokens.{tokens, IsId}
use kutu.Policy.Severity.{Vuln}
use kutu.Policy.Engine.{
  Policy, ArtifactRef, ArtifactMeta, Registry, Request, allow, evaluate, gate, check_name, is_read,
  check_quarantine,
}
use kutu.Policy.Engine.Allowed.{NameFits, VersionFits, evaluate_iff}
use kutu.Policy.Engine.Gate.{gate_lem}
use kutu.Policy.Engine.Quarantine.{day, check_quarantine_exact, check_quarantine_overflow}

-- A path.Match without special characters.
abbrev exact : Text → Text → Option Bool
exact p s = some (p == s)

abbrev advisory : Vuln
advisory = record {
  id = codes "GHSA-1";
  aliases = codes "CVE-2024-1" ∷ [];
  severity = codes "HIGH";
  summary = [];
  fixed_in = [];
  url = [];
}

abbrev query : Text → Text → Text → Option (List Vuln)
query eco name version = some (advisory ∷ [])

abbrev meta : ArtifactMeta
meta = record { license = codes "MIT"; published_at = 1000 }

abbrev ref : ArtifactRef
ref = record { name = codes "left-pad"; version = codes "1.0.0" }

abbrev registry : Registry
registry = record {
  reg_type = codes "npm";
  classify_request = some (λ r. some ref);
  artifact_info = some (λ r. some meta);
  has_signature = none;
}

abbrev days_policy : ℕ → Policy
days_policy n = record {
  include = [];
  exclude = codes "evil" ∷ [];
  quarantine_days = n;
  block_vulnerable = true;
  min_severity = codes "critical";
  allowed_licenses = codes "MIT" ∷ [];
  denied_licenses = [];
  block_unknown_license = true;
  require_signature = false;
}

abbrev policy : Policy
policy = days_policy 7

abbrev get_request : Request
get_request = record { method = codes "GET"; target = codes "/left-pad/-/left-pad-1.0.0.tgz" }

abbrev dual : LicenseExpr
dual = any_of (cons (leaf (codes "mit")) (cons (leaf (codes "isc")) nil))

evaluate_iff_example :
    ((evaluate exact query 9000000000000000 policy registry ref).allowed ≡ true) ↔ (
      NameFits exact query policy ref.name
      × ((ref.version ≡ []) ⊎ VersionFits exact query 9000000000000000 policy registry ref))
evaluate_iff_example = evaluate_iff exact query 9000000000000000 policy registry ref

gate_lem_example : gate exact query 5 (some policy) registry get_request ≡ (
    if is_read get_request
    then evaluate exact query 5 policy registry ref
    else check_name exact query policy ref.name)
unfolding ◌==◌
gate_lem_example = gate_lem exact query 5 policy registry get_request ref refl refl

check_quarantine_exact_example :
    ((check_quarantine 2000 policy ref (some meta)).allowed ≡ false) ↔ (2000 < 1000 + 7 * day)
check_quarantine_exact_example =
    check_quarantine_exact 2000 policy ref meta (omega arith) (omega arith) (λ e. omega arith)

check_quarantine_overflow_example :
    check_quarantine 2000 (days_policy 110000) ref (some meta) ≡ allow
check_quarantine_overflow_example =
    check_quarantine_overflow 2000 (days_policy 110000) ref meta (omega arith) (omega arith)
      (omega arith)

license_permitted-choices_example :
    (license_permitted (codes "ISC" ∷ []) [] dual ≡ true)
    ↔ ((c : List Text) × In c (choices dual) × All (IsPermitted (codes "ISC" ∷ []) []) c)
license_permitted-choices_example = license_permitted-choices (codes "ISC" ∷ []) [] dual

is_mit : IsId (codes "mit")
unfolding ◌==◌ equal_fold normalize_id
is_mit = record {
  not_open = refl;
  not_close = refl;
  not_or = refl;
  not_and = refl;
  not_with = refl;
  normal = refl;
}

is_isc : IsId (codes "isc")
unfolding ◌==◌ equal_fold normalize_id
is_isc = record {
  not_open = refl;
  not_close = refl;
  not_or = refl;
  not_and = refl;
  not_with = refl;
  normal = refl;
}

parse_or-tokens_example : parse_or (suc (length (tokens dual))) (tokens dual) ≡ done dual []
parse_or-tokens_example = parse_or-tokens dual (tt, (is_mit, (is_isc, tt)))

parse_or-ends_example : parse_or 4 (codes "(" ∷ codes "(" ∷ codes "MIT" ∷ []) ≢ out_of_fuel
parse_or-ends_example = parse_or-ends (codes "(" ∷ codes "(" ∷ codes "MIT" ∷ [])

exact-literal : (x : Text) → (exact (codes "@a/") x ≡ some true) ↔ (x ≡ codes "@a/")
exact-literal x =
    (λ h. ground (arith, eq_iff (codes "@a/") x), λ h. ground (arith, eq_iff (codes "@a/") x))

-- The parser and the lists on license texts.
dual_text : parse_license (codes "(MIT OR ISC)") ≡ some dual
unfolding parse_license to_upper has_prefix equal_fold peek_op
dual_text = refl

-- The client of OSV: one answer with two pages, and its cache.
abbrev osv_vuln : OsvVuln
osv_vuln = record {
  id = codes "OSV-1";
  summary = [];
  details = 97 ∷ 10 ∷ 98 ∷ [];
  aliases = [];
  scores = codes "CVSS" ∷ [];
  affected =
      record {
        package_of = record { name = codes "Lib"; ecosystem = codes "npm" };
        fixed_events = codes "1.2" ∷ [] ∷ codes "1.2" ∷ codes "2.0" ∷ [];
        database_severity = none;
        ecosystem_severity = some (codes "LOW");
      }
      ∷ [];
  database_severity = none;
}

abbrev page : OsvQuery → Option OsvResponse
page q =
    if is_empty q.page_token
    then some
        (record { vulns = record osv_vuln { id = codes "A" } ∷ []; next_page_token = codes "2" })
    else some (record { vulns = record osv_vuln { id = codes "B" } ∷ []; next_page_token = [] })

converted : convert_vuln (λ s. some 91) (codes "lib") osv_vuln ≡ record {
  id = codes "OSV-1";
  summary = codes "a";
  severity = codes "critical";
  aliases = [];
  fixed_in = codes "1.2" ∷ codes "2.0" ∷ [];
  url = codes "https://osv.dev/vulnerability/OSV-1";
}
unfolding convert_vuln
converted = refl

two_pages :
    Option.map
      (map (λ (v : Vuln). v.id))
      (fetch (λ s. none) page (codes "npm") (codes "lib") (codes "1"))
    ≡ some (codes "A" ∷ codes "B" ∷ [])
unfolding fetch
two_pages = refl

maven : osv_package_name (codes "Maven") (codes "org/apache/log4j") ≡ codes "org.apache:log4j"
unfolding osv_package_name ◌==◌
maven = refl

pypi : osv_package_name (codes "PyPI") (codes "Foo__.bar") ≡ codes "foo-bar"
unfolding osv_package_name ◌==◌
pypi = refl

abbrev queries : List Finished
queries =
    record { key = codes "k"; started = 5; outcome = none }
    ∷ record { key = codes "k"; started = 6; outcome = some (advisory ∷ []) }
    ∷ []

still_cached : cached (after_queries (new_client 10) queries) 15 (codes "k") ≡ some (advisory ∷ [])
unfolding cached finish ◌==◌
still_cached = refl

after_queries-cached_example :
    (length (after_queries (new_client 10) queries).cache ≤ max_cache_entries)
    × (length (after_queries (new_client 10) queries).warned ≤ max_cache_entries)
    × ((now : ℕ) (key : Text) (vulns : List Vuln)
        → cached (after_queries (new_client 10) queries) now key ≡ some vulns
        → (f : Finished) × In f queries
          × (f.key ≡ key)
          × (f.outcome ≡ some vulns)
          × (now < f.started + 10))
after_queries-cached_example = after_queries-cached 10 queries
