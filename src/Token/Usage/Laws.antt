-- ===== src/Token/Usage/Laws.antt =====
-- When a raw key authenticates, what it may do, and what is remembered of it.
use kutu.Prelude.{
  ◌≢◌, sym, ℕ, ◌≤◌, Text, List, Option, none, some, true, ◌==◌, if◌then◌else◌, ◌≡◌, ◌↔◌, refl, ◌∙◌,
  subst, arith, ◌⊎◌, inl, inr, Option-cases, In,
}
use kutu.Prelude.Maps.{get-put}
use kutu.Token.{Token, TokenAuth, TokenScope, Result, ok, err, check_usable, star}
use kutu.Token.Scopes.{Covers, token_scopes_allow_iff}
use kutu.Token.Usage.{
  Usage, record_use, last_seen, authenticate_token, scopes_decide, finish, found, validate_token,
}

-- The token is switched on, and its expiry has not passed at the time `now`.
abbrev pub IsUsable : ℕ → Token → Type 0
IsUsable now token = (token.active ≡ true) × ((t : ℕ) → token.expires_at ≡ some t → now ≤ t)

abbrev view : Token → TokenAuth
view token = record { auth_id = token.id; auth_name = token.name; auth_scopes = token.scopes }

check_usable_iff :
    (now : ℕ) (token : Token) → (check_usable now token ≡ ok (view token)) ↔ IsUsable now token
check_usable_iff now token = elim (Option-cases token.expires_at) [
  | inl e ↦ unfold check_usable in rw e (λ h. (ground (arith, h), λ t q. cc q), λ k. rw k.0 refl)
  | inr (t, e) ↦
      unfold check_usable in
      rw e (
        λ h. (ground (arith, h), λ s q. ground (arith, h, q)),
        λ k. let late = k.1 t refl in ground (arith, k.0),
      )
]

check_usable-auth :
    (now : ℕ) (token : Token) (auth : TokenAuth)
    → check_usable now token ≡ ok auth
    → auth ≡ view token
unfolding check_usable
check_usable-auth now token auth h = ground arith

-- Some scope covers the path and lists the operation.
abbrev pub Grants : List TokenScope → Text → Text → Type 0
Grants scopes path op =
    (sc : TokenScope) × In sc scopes
    × Covers sc.path path
    × (In op sc.operations ⊎ In star sc.operations)

finish-ok :
    (now : ℕ) (u : Usage) (token : Token)
    → IsUsable now token
    → found now u (some token) ≡ (ok (view token), record_use now token.id u)
unfolding found
finish-ok now u token k = rw ((check_usable_iff now token).1 k) refl

finish-inv :
    (now : ℕ) (u : Usage) (token : Token) (r : Result TokenAuth) (auth : TokenAuth)
    → check_usable now token ≡ r
    → (finish now token u r).0 ≡ ok auth
    → IsUsable now token × (auth ≡ view token)
unfolding finish
finish-inv now u token (ok a) auth e h =
    let same : check_usable now token ≡ ok auth = e ∙ h in
    let is_view = check_usable-auth now token auth same in
    (
      (check_usable_iff now token).0 (subst (λ a. check_usable now token ≡ ok a) is_view same),
      is_view,
    )
finish-inv now u token (err x) auth e h = cc h

finish-err :
    (now : ℕ) (u : Usage) (token : Token) (r : Result TokenAuth)
    → check_usable now token ≡ r
    → ¬ IsUsable now token
    → (finish now token u r).1 ≡ u
unfolding finish
finish-err now u token (ok a) e h =
    let is_view = check_usable-auth now token a e in
    absurd
      (h ((check_usable_iff now token).0 (subst (λ a. check_usable now token ≡ ok a) is_view e)))
finish-err now u token (err x) e h = refl

found-inv :
    (now : ℕ) (u : Usage) (o : Option Token) (auth : TokenAuth)
    → (found now u o).0 ≡ ok auth
    → (token : Token) × (o ≡ some token) × IsUsable now token × (auth ≡ view token)
unfolding found
found-inv now u none auth h = cc h
found-inv now u (some token) auth h =
    let (usable, same) = finish-inv now u token (check_usable now token) auth refl h in
    (token, refl, usable, same)

module _ (hash_key : Text → Text) (find_by_hash : Text → Option Token) where
  decide-inv :
      (path op : Text) (r : Result TokenAuth)
      → scopes_decide hash_key find_by_hash path op r ≡ ok tt
      → (auth : TokenAuth) × (r ≡ ok auth) × Grants auth.auth_scopes path op
  unfolding scopes_decide
  decide-inv path op (err e) h = cc h
  decide-inv path op (ok auth) h =
      (auth, refl, (token_scopes_allow_iff auth.auth_scopes path op).0 (ground (arith, h)))

  -- A raw key may do an operation on a path exactly when its hash is that of a stored token which is
  -- active, not expired, and has a scope whose path covers the path and which lists the operation or
  -- "*". A scope path that is a bare "*" covers every path, as "**" does.
  pub validate_token_iff :
      (now : ℕ) (raw path op : Text) (u : Usage)
      → ((validate_token hash_key find_by_hash now raw path op u).0 ≡ ok tt) ↔ (
          (token : Token) × (find_by_hash (hash_key raw) ≡ some token)
          × IsUsable now token
          × Grants token.scopes path op)
  validate_token_iff now raw path op u =
      unfold validate_token authenticate_token in
      (
        λ h.
            let (auth, q, g) = decide-inv path op _ h in
            let (token, f, k, same) = found-inv now u (find_by_hash (hash_key raw)) auth q in
            (token, f, k, subst (λ a. Grants a.auth_scopes path op) same g),
        λ w.
            let (token, f, k, g) = w in
            rw
              (
                f,
                finish-ok now u token k,
                scopes_decide,
                (token_scopes_allow_iff token.scopes path op).1 g,
              )
              refl,
      )

  -- When the key of a usable token authenticates, the last use of that token becomes the time of the
  -- call, and that of any other token is unchanged.
  pub last_seen-authenticate_token :
      (now : ℕ) (raw id : Text) (u : Usage) (token : Token)
      → find_by_hash (hash_key raw) ≡ some token
      → IsUsable now token
      → last_seen id (authenticate_token hash_key find_by_hash now raw u).1
        ≡ (if token.id == id then some now else last_seen id u)
  last_seen-authenticate_token now raw id u token f k =
      unfold authenticate_token in rw (f, finish-ok now u token k) (seen_after token.id)
    where
      seen_after :
          (j : Text)
          → last_seen id (record_use now j u) ≡ (if j == id then some now else last_seen id u)
      seen_after j = unfold last_seen record_use in get-put j id now u.seen

  -- A key whose token is disabled or expired is refused, and no use is recorded.
  pub authenticate_token_refused :
      (now : ℕ) (raw : Text) (u : Usage) (token : Token)
      → find_by_hash (hash_key raw) ≡ some token
      → ¬ IsUsable now token
      → ((auth : TokenAuth) → (authenticate_token hash_key find_by_hash now raw u).0 ≢ ok auth)
        × ((authenticate_token hash_key find_by_hash now raw u).1 ≡ u)
  authenticate_token_refused now raw u token f k =
      unfold authenticate_token in
      rw f (
        λ auth h.
            let (t, same, usable, _) = found-inv now u (some token) auth h in
            let is_token : token ≡ t = cc in k (subst (IsUsable now) (sym is_token) usable),
        unfold found in finish-err now u token (check_usable now token) refl k,
      )
