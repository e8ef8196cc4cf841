-- ===== src/Policy/Osv.antt =====
-- internal/registry/policy/osv.go: the client of OSV with its cache. The exchange with the server is a
-- parameter, `none` for any error, and so is the CVSS base score, in tenths. A lock guards the two
-- sections of a query, before and after the exchange, so that each is a step on the client's state.
pub mod Cache
use kutu.Prelude.{
  ℕ, zero, suc, ◌+◌, ◌≤◌, Text, codes, List, [], ◌∷◌, ◌++◌, Option, none, some, Bool, true, false,
  ◌&&◌, ◌||◌, not, eqb, ltb, leb, is_empty, has, length, take, map, to_lower, trim_space,
  equal_fold, trim_prefix, contains, filter, ◌==◌, if◌then◌else◌,
}
use kutu.Prelude.Maps.{Map, get, put, delete}
use kutu.Policy.Severity.{Vuln, severity_rank, normalize_severity}

abbrev pub max_cache_entries : ℕ
max_cache_entries = 10000

abbrev pub max_osv_pages : ℕ
max_osv_pages = 10

pub record CacheEntry : Type 0 where
  pub vulns : List Vuln
  pub expires : ℕ

-- osvClient: its time to live and its two maps; `warned` holds keys.
pub record OsvClient : Type 0 where
  pub ttl : ℕ
  pub cache : Map CacheEntry
  pub warned : List Text

pub record OsvPackage : Type 0 where
  pub name : Text
  pub ecosystem : Text

pub record OsvQuery : Type 0 where
  pub package_of : OsvPackage
  pub version : Text
  pub page_token : Text

-- An entry of `affected`: the value of "fixed" in each event of each range, and the string "severity" of
-- the two maps, where there is one.
pub record Affected : Type 0 where
  pub package_of : OsvPackage
  pub fixed_events : List Text
  pub database_severity : Option Text
  pub ecosystem_severity : Option Text

pub record OsvVuln : Type 0 where
  pub id : Text
  pub summary : Text
  pub details : Text
  pub aliases : List Text
  pub scores : List Text
  pub affected : List Affected
  pub database_severity : Option Text

pub record OsvResponse : Type 0 where
  pub vulns : List OsvVuln
  pub next_page_token : Text

-- OSVPackageName for PyPI: runs of '-', '_' and '.' become one '-'.
abbrev pub is_separator : ℕ → Bool
is_separator c = eqb c b'-' || eqb c b'_' || eqb c b'.'

unfoldable pub normalize_pypi : Bool → Text → Text
normalize_pypi in_run [] = []
normalize_pypi in_run (c ∷ s) =
    let rest = normalize_pypi (is_separator c) s in
    if is_separator c then if in_run then rest else b'-' ∷ rest else c ∷ rest

-- Before and after the last '/', if there is one.
abbrev pub after_slash : ℕ → Text → Option (Text × Text) → Option (Text × Text)
after_slash c s none = if eqb c b'/' then some ([], s) else none
after_slash c s (some (a, b)) = some (c ∷ a, b)

unfoldable pub cut_last : Text → Option (Text × Text)
cut_last [] = none
cut_last (c ∷ s) = after_slash c s (cut_last s)

unfoldable pub dots_for_slashes : Text → Text
dots_for_slashes s = map (λ c. if eqb c b'/' then b'.' else c) s

abbrev pub maven_name : Text → Option (Text × Text) → Text
maven_name name none = name
maven_name name (some ([], b)) = name
maven_name name (some (c ∷ a, b)) = dots_for_slashes (c ∷ a) ++ b':' ∷ b

unfoldable pub osv_package_name : Text → Text → Text
unfolding normalize_pypi cut_last dots_for_slashes to_lower contains ◌==◌
osv_package_name eco name =
    if eco == codes "PyPI"
    then normalize_pypi false (to_lower name)
    else if eco == codes "Maven"
    then if contains name (codes ":") then name else maven_name name (cut_last name)
    else if eco == codes "Packagist"
    then to_lower name
    else name

unfoldable pub osv_version : Text → Text → Text
unfolding trim_prefix ◌==◌
osv_version eco version = if eco == codes "Go" then trim_prefix version (codes "v") else version

unfoldable pub cache_key : Text → Text → Text → Text
unfolding osv_package_name osv_version
cache_key eco name version = eco ++ 0 ∷ (osv_package_name eco name ++ 0 ∷ osv_version eco version)

-- The text before the first line feed.
unfoldable pub until_newline : Text → Text
until_newline [] = []
until_newline (c ∷ s) = let rest = until_newline s in if eqb c 10 then [] else c ∷ rest

-- The three bytes at the end are those of the ellipsis.
unfoldable pub first_line : Text → Text
unfolding until_newline trim_space
first_line s =
    let line = until_newline (trim_space s) in
    if ltb 200 (length line) then take 200 line ++ 226 ∷ 128 ∷ 166 ∷ [] else line

-- SeverityFromScore, in tenths.
unfoldable pub severity_from_score : ℕ → Text
severity_from_score score =
    if leb 90 score
    then codes "critical"
    else if leb 70 score
    then codes "high"
    else if leb 40 score
    then codes "moderate"
    else if ltb 0 score
    then codes "low"
    else codes "unknown"

abbrev pub known_severity : Option Text → Option Text
known_severity none = none
known_severity (some s) = if ltb 0 (severity_rank s) then some (normalize_severity s) else none

abbrev pub or_else : Option Text → Option Text → Option Text
or_else none other = other
or_else (some s) other = some s

unfoldable pub affected_severity : List Affected → Option Text
unfolding severity_rank normalize_severity
affected_severity [] = none
affected_severity (a ∷ affected) =
    or_else (known_severity a.database_severity)
      (or_else (known_severity a.ecosystem_severity) (affected_severity affected))

abbrev pub or_unknown : Option Text → Text
or_unknown none = codes "unknown"
or_unknown (some s) = s

unfoldable pub add_fixed : List Text → List Text → List Text
unfolding has
add_fixed [] out = out
add_fixed (f ∷ events) out =
    add_fixed events (if is_empty f || has out f then out else out ++ f ∷ [])

unfoldable pub fixed_in : Text → List Affected → List Text → List Text
unfolding add_fixed equal_fold
fixed_in name [] out = out
fixed_in name (a ∷ affected) out = fixed_in name affected (
    if not (is_empty a.package_of.name) && not (equal_fold a.package_of.name name)
    then out
    else add_fixed a.fixed_events out)

module _ (cvss3_base_score : Text → Option ℕ) where
  abbrev pub better : ℕ → Option ℕ → ℕ
  better best none = best
  better best (some score) = if ltb best score then score else best

  unfoldable pub best_score : List Text → ℕ → ℕ
  best_score [] best = best
  best_score (s ∷ scores) best = best_score scores (better best (cvss3_base_score s))

  unfoldable pub vuln_severity : OsvVuln → Text
  unfolding best_score severity_from_score affected_severity severity_rank normalize_severity
  vuln_severity v = or_unknown (
      or_else (known_severity v.database_severity) (
        if ltb 0 (best_score v.scores 0)
        then some (severity_from_score (best_score v.scores 0))
        else affected_severity v.affected))

  unfoldable pub convert_vuln : Text → OsvVuln → Vuln
  unfolding vuln_severity fixed_in first_line
  convert_vuln name v = record {
    id = v.id;
    summary = if is_empty v.summary then first_line v.details else v.summary;
    severity = vuln_severity v;
    aliases = v.aliases;
    fixed_in = fixed_in name v.affected [];
    url = codes "https://osv.dev/vulnerability/" ++ v.id;
  }

  module _ (post : OsvQuery → Option OsvResponse) where
    -- The loop of fetch; its first argument is how many pages are left.
    unfoldable pub fetch_pages : ℕ → OsvQuery → List Vuln → Option (List Vuln)
    unfolding convert_vuln
    fetch_pages zero q out = some out
    fetch_pages (suc pages) q out = elim (post q) [
      | none ↦ none
      | some r ↦
          let converted = out ++ map (convert_vuln q.package_of.name) r.vulns in
          let rest = fetch_pages pages (record q { page_token = r.next_page_token }) converted in
          if is_empty r.next_page_token then some converted else rest
    ]

    unfoldable pub fetch : Text → Text → Text → Option (List Vuln)
    unfolding fetch_pages
    fetch eco name version =
        fetch_pages max_osv_pages
          (record {
            package_of = record { name = name; ecosystem = eco };
            version = version;
            page_token = [];
          })
          []

-- The first loop of evict.
unfoldable pub drop_expired : ℕ → Map CacheEntry → Map CacheEntry
drop_expired now [] = []
drop_expired now ((k, e) ∷ cache) =
    let rest = drop_expired now cache in if leb e.expires now then rest else (k, e) ∷ rest

-- The second loop of evict; which entries go is arbitrary, here the first ones.
unfoldable pub drop_to : ℕ → Map CacheEntry → Map CacheEntry
drop_to target [] = []
drop_to target (x ∷ cache) =
    let rest = drop_to target cache in if leb (length (x ∷ cache)) target then x ∷ cache else rest

unfoldable pub evict : ℕ → Map CacheEntry → Map CacheEntry
unfolding drop_expired drop_to
evict now cache = drop_to 9000 (drop_expired now cache)

abbrev pub fresh_vulns : ℕ → Option CacheEntry → Option (List Vuln)
fresh_vulns now none = none
fresh_vulns now (some e) = if ltb now e.expires then some e.vulns else none

-- The first locked section of query: the cached answer, if it is fresh.
unfoldable pub cached : OsvClient → ℕ → Text → Option (List Vuln)
unfolding get
cached c now key = fresh_vulns now (get key c.cache)

unfoldable pub make_room : ℕ → Map CacheEntry → Map CacheEntry
unfolding evict
make_room now cache = if leb max_cache_entries (length cache) then evict now cache else cache

-- The second locked section, with the outcome of the exchange and the time at the start of the query.
unfoldable pub finish : OsvClient → ℕ → Text → Option (List Vuln) → OsvClient
unfolding make_room put has filter ◌==◌
finish c now key none = if has c.warned key then c else record c {
  warned = (if leb max_cache_entries (length c.warned) then [] else c.warned) ++ key ∷ [];
}
finish c now key (some vulns) = record c {
  warned = filter (λ k. not (k == key)) c.warned;
  cache = put key (record { vulns = vulns; expires = now + c.ttl }) (make_room now c.cache);
}

module _ (cvss3_base_score : Text → Option ℕ) (post : OsvQuery → Option OsvResponse) where
  abbrev pub answer :
      OsvClient
      → ℕ
      → Text
      → Option (List Vuln)
      → Option (List Vuln)
      → OsvClient × Option (List Vuln)
  answer c now key (some vulns) outcome = (c, some vulns)
  answer c now key none outcome = (finish c now key outcome, outcome)

  -- query, when no other query comes between its two sections.
  unfoldable pub query : OsvClient → ℕ → Text → Text → Text → OsvClient × Option (List Vuln)
  unfolding cached finish fetch cache_key osv_package_name osv_version
  query c now eco name version =
      let key = cache_key eco name version in
      answer c now key (cached c now key)
        (fetch cvss3_base_score post eco (osv_package_name eco name) (osv_version eco version))
