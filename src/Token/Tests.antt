-- ===== src/Token/Tests.antt =====
-- A concrete token, and the theorems of this tree at it.
use kutu.Prelude.{false, arith, Text, codes, [], ◌∷◌, Option, some, true, ◌≡◌, ◌↔◌, refl, ◌⊎◌, In}
use kutu.Token.{Token, TokenScope, ok, star, token_scopes_allow}
use kutu.Token.Scopes.{Covers, token_scopes_allow_iff}
use kutu.Token.Usage.{Usage, new_usage, validate_token, touch_last_used, flush_usage}
use kutu.Token.Usage.Flush.{Flushed, flush_usage-Flushed}
use kutu.Prelude.Maps.{get}
use kutu.Token.Usage.Laws.{IsUsable, Grants, validate_token_iff}

abbrev scope : TokenScope
scope = record { path = codes "ns/**/repo"; operations = codes "read" ∷ [] }

abbrev token : Token
token = record {
  id = codes "t1";
  name = codes "ci";
  hashed_key = codes "key";
  scopes = scope ∷ [];
  created_at = 1;
  created_by = codes "root";
  expires_at = some 100;
  active = true;
}

abbrev identity : Text → Text
identity s = s

abbrev find : Text → Option Token
find h = some token

abbrev used : Usage
used = record { pending = (codes "t1", 7) ∷ []; seen = (codes "t1", 7) ∷ [] }

token_scopes_allow_iff_example :
    (token_scopes_allow (scope ∷ []) (codes "/ns/a/b/repo") (codes "read") ≡ true) ↔ (
      (sc : TokenScope) × In sc (scope ∷ [])
      × Covers sc.path (codes "/ns/a/b/repo")
      × (In (codes "read") sc.operations ⊎ In star sc.operations))
token_scopes_allow_iff_example =
    token_scopes_allow_iff (scope ∷ []) (codes "/ns/a/b/repo") (codes "read")

validate_token_iff_example :
    ((validate_token identity find 50 (codes "key") (codes "ns/repo") (codes "read") new_usage).0
      ≡ ok tt)
    ↔ ((t : Token) × (find (identity (codes "key")) ≡ some t)
        × IsUsable 50 t
        × Grants t.scopes (codes "ns/repo") (codes "read"))
validate_token_iff_example =
    validate_token_iff identity find 50 (codes "key") (codes "ns/repo") (codes "read") new_usage

token-IsUsable : IsUsable 50 token
token-IsUsable = (refl, λ t e. let same : 100 ≡ t = cc in omega arith)

late : ¬ IsUsable 500 token
late (a, b) = let early = b 100 refl in omega arith

flush_usage-Flushed_example :
    let r = flush_usage (touch_last_used (λ id. false)) used ((codes "t1", some 3) ∷ []) in
    (r.0.pending ≡ [])
    × (r.0.seen ≡ used.seen)
    × Flushed false
        (codes "t1")
        used.pending
        (get (codes "t1") ((codes "t1", some 3) ∷ []))
        (get (codes "t1") r.1)
flush_usage-Flushed_example =
    flush_usage-Flushed (λ id. false) used ((codes "t1", some 3) ∷ []) (codes "t1")
