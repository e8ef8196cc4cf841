-- ===== src/Virtual.antt =====
-- internal/registry/virtualbase/virtualbase.go: a virtual registry asks its members in the order of the
-- configuration. What the manager resolves, what the request gate answers and what a member answers to
-- the request at hand are parameters; a header is a map from its names to their values.
pub mod Hits
pub mod Lines
mod Tests
use kutu.Prelude.{
  ℕ, Text, codes, List, [], ◌∷◌, ◌++◌, ◌||◌, Option, none, some, Bool, true, false, ◌&&◌, eqb, ltb,
  leb, not, has, is_empty, map, split, trim_space, if◌then◌else◌,
}
use kutu.Prelude.Maps.{Map, get, put}

abbrev pub Header : Type 0
Header = Map (List Text)

-- httptest.ResponseRecorder after a request.
pub record Response : Type 0 where
  pub code : ℕ
  pub header : Header
  pub body : Text

-- http.ResponseWriter: the header so far, and the status and body that were sent.
pub record Writer : Type 0 where
  pub header : Header
  pub sent : Option (ℕ × Text)

abbrev pub hop_by_hop : List Text
hop_by_hop =
    codes "Connection"
    ∷ codes "Keep-Alive"
    ∷ codes "Proxy-Authenticate"
    ∷ codes "Proxy-Authorization"
    ∷ codes "Te"
    ∷ codes "Trailer"
    ∷ codes "Transfer-Encoding"
    ∷ codes "Upgrade"
    ∷ []

abbrev pub values_of : Text → Header → List Text
values_of k h = elim (get k h) [ none ↦ [] | some vs ↦ vs ]

-- http.CanonicalHeaderKey is a parameter.
module _ (canonical : Text → Text) where
  unfoldable pub is_hop_by_hop : Text → Bool
  unfolding has
  is_hop_by_hop h = has hop_by_hop (canonical h)

  -- Header.Add
  unfoldable pub add : Header → Text → Text → Header
  unfolding get put
  add dst k v = put (canonical k) (values_of (canonical k) dst ++ v ∷ []) dst

  unfoldable pub add_values : Header → Text → List Text → Header
  unfolding add
  add_values dst k [] = dst
  add_values dst k (v ∷ vs) = add_values (add dst k v) k vs

  unfoldable pub copy_headers : Header → Header → Header
  unfolding add_values is_hop_by_hop
  copy_headers dst [] = dst
  copy_headers dst ((k, vs) ∷ src) =
      copy_headers (if is_hop_by_hop k then dst else add_values dst k vs) src

-- Base; the members are in the order of the configuration.
pub record Base : Type 0 where
  pub namespace : Text
  pub repo_name : Text
  pub member_names : List Text

-- The 2xx codes.
abbrev pub is_success : ℕ → Bool
is_success code = leb 200 code && ltb code 300

-- What a member answers when it is asked for the detail of a package: that it cannot tell, an error, or
-- a pointer, which may be nil.
pub data Answer (D : Type 0) : Type 0 where
  no_detailer : Answer D
  failed : Answer D
  answered : Option D → Answer D

module _ {Registry : Type 0} (lookup : Text → Text → Option Registry) where
  unfoldable pub resolve : Base → Text → Option Registry
  resolve b member = lookup b.namespace member

  module _ {S : Type 0} (fn : Registry → S → S × Bool) where
    abbrev pub visit_rest : (S → S) → S × Bool → S
    visit_rest rest (s, true) = s
    visit_rest rest (s, false) = rest s

    abbrev pub visit : (S → S) → S → Option Registry → S
    visit rest s none = rest s
    visit rest s (some reg) = visit_rest rest (fn reg s)

    -- The loop of ForEachMember over the names that are left; `fn` returns its state and whether to stop.
    unfoldable pub visit_members : Text → List Text → S → S
    visit_members namespace [] s = s
    visit_members namespace (name ∷ names) s =
        let rest = visit_members namespace names in visit rest s (lookup namespace name)

    unfoldable pub for_each_member : Base → S → S
    unfolding visit_members
    for_each_member b s = visit_members b.namespace b.member_names s

  module _ {D : Type 0} (detail : Registry → Answer D) where
    abbrev pub take_detail : Answer D → Option D → Option D × Bool
    take_detail no_detailer found = (found, false)
    take_detail failed found = (found, false)
    take_detail (answered out) found = (out, true)

    -- DelegatePackageDetail: `none` is ErrPackageNotFound.
    unfoldable pub delegate_package_detail : Base → Option D
    unfolding for_each_member
    delegate_package_detail b = for_each_member (λ reg found. take_detail (detail reg) found) b none

  module _ (canonical : Text → Text) (check_gate : Registry → Bool)
      (serve_http : Registry → Response) where
    -- The closure of ServeFirstHit; the flag is `served`.
    unfoldable pub try_member : Registry → Writer × Bool → (Writer × Bool) × Bool
    unfolding copy_headers
    try_member reg (w, served) =
        if not (check_gate reg)
        then ((w, served), false)
        else if is_success (serve_http reg).code
        then (
          (
            record {
              header = copy_headers canonical w.header (serve_http reg).header;
              sent = some ((serve_http reg).code, (serve_http reg).body);
            },
            true,
          ),
          true,
        )
        else ((w, served), false)

    unfoldable pub serve_first_hit : Base → Writer → Writer × Bool
    unfolding for_each_member try_member
    serve_first_hit b w = for_each_member try_member b (w, false)

  module _ (check_gate : Registry → Bool) (serve_http : Registry → Response) where
    -- The loop over the lines; the map `seen` has the lines of `out`.
    unfoldable pub add_lines : List Text → List Text → List Text
    unfolding trim_space has
    add_lines [] out = out
    add_lines (line ∷ lines) out = add_lines lines (
        if is_empty (trim_space line) || has out (trim_space line)
        then out
        else out ++ trim_space line ∷ [])

    -- The closure of CollectListLines; 10 is the line feed.
    unfoldable pub collect_member : Registry → List Text → List Text × Bool
    unfolding add_lines split
    collect_member reg out =
        if not (check_gate reg)
        then (out, false)
        else if not (eqb (serve_http reg).code 200)
        then (out, false)
        else (add_lines (split (serve_http reg).body 10) out, false)

    unfoldable pub collect_list_lines : Base → List Text
    unfolding for_each_member collect_member
    collect_list_lines b = for_each_member collect_member b []
