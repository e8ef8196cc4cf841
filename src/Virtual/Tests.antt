-- ===== src/Virtual/Tests.antt =====
-- A virtual registry of three members, one of which is gone, and the theorems of this tree at it.
use kutu.Prelude.{
  ◌++◌, Text, codes, [], ◌∷◌, Option, none, some, Bool, true, false, ◌==◌, if◌then◌else◌, ◌≡◌, ◌↔◌,
  ◌⊎◌, refl, All, In,
}
use kutu.Virtual.{
  Response, Writer, Base, Answer, no_detailer, failed, answered, hop_by_hop, values_of,
  serve_first_hit, collect_list_lines, delegate_package_detail,
}
use kutu.Virtual.Hits.{sent_under, FirstHit, Misses, serve_first_hit_first}
use kutu.Virtual.Lines.{IsDistinct, MemberLine, collect_list_lines_iff}

-- A registry is its name here.
abbrev lookup : Text → Text → Option Text
lookup namespace name = if name == codes "gone" then none else some name

abbrev canonical : Text → Text
canonical k = k

abbrev check_gate : Text → Bool
check_gate reg = true

abbrev serve_http : Text → Response
serve_http reg =
    if reg == codes "empty" then record { code = 404; header = []; body = [] } else record {
      code = 200;
      header = (codes "Connection", codes "close" ∷ []) ∷ (codes "Etag", codes "x" ∷ []) ∷ [];
      body = 118 ∷ 49 ∷ 10 ∷ 118 ∷ 50 ∷ 10 ∷ 118 ∷ 49 ∷ [];
    }

abbrev base : Base
base = record {
  namespace = codes "team";
  repo_name = codes "all";
  member_names = codes "gone" ∷ codes "empty" ∷ codes "full" ∷ [];
}

abbrev writer : Writer
writer = record { header = []; sent = none }

hit :
    (serve_first_hit lookup canonical check_gate serve_http base writer).0.header
    ≡ (codes "Etag", codes "x" ∷ []) ∷ []
unfolding serve_first_hit ◌==◌
hit = refl

union : collect_list_lines lookup check_gate serve_http base ≡ codes "v1" ∷ codes "v2" ∷ []
unfolding collect_list_lines ◌==◌
union = refl

abbrev detail : Text → Answer Text
detail reg =
    if reg == codes "empty"
    then failed
    else if reg == codes "gone"
    then no_detailer
    else answered (some reg)

first_detail : delegate_package_detail lookup detail base ≡ some (codes "full")
unfolding delegate_package_detail ◌==◌
first_detail = refl

serve_first_hit_first_example :
    let r = serve_first_hit lookup canonical check_gate serve_http base writer in
    ((reg : Text) × FirstHit lookup canonical check_gate serve_http base.namespace base.member_names
        reg
      × (r.1 ≡ true)
      × (r.0.sent ≡ some ((serve_http reg).code, (serve_http reg).body))
      × ((k : Text) → In k hop_by_hop → values_of k r.0.header ≡ values_of k writer.header)
      × ((k : Text)
          → ¬ In k hop_by_hop
          → values_of k r.0.header
            ≡ values_of k writer.header ++ sent_under canonical k (serve_http reg).header))
    ⊎ (All (Misses lookup canonical check_gate serve_http base.namespace) base.member_names
        × (r ≡ (writer, false)))
serve_first_hit_first_example =
    serve_first_hit_first lookup canonical check_gate serve_http base writer

collect_list_lines_iff_example :
    IsDistinct (collect_list_lines lookup check_gate serve_http base)
    × ((x : Text)
        → In x (collect_list_lines lookup check_gate serve_http base)
          ↔ MemberLine lookup check_gate serve_http base.namespace base.member_names x)
collect_list_lines_iff_example = collect_list_lines_iff lookup check_gate serve_http base
