-- ===== src/Token/Usage.antt =====
-- token.go and token_usage.go: authentication of a raw key, and the record of the last use of each
-- token, which is kept in memory and flushed in batches.
pub mod Laws
pub mod Flush
use kutu.Prelude.{
  ℕ, Text, List, [], ◌∷◌, Option, none, some, Bool, true, false, ◌&&◌, not, ◌==◌, ltb,
  if◌then◌else◌, is_empty,
}
use kutu.Prelude.Maps.{Map, get, put, delete}
use kutu.Token.{
  Token, TokenAuth, Error, unauthorized, forbidden, Result, ok, err, check_usable,
  token_scopes_allow,
}

-- The two maps of tokenUsage; times are whole seconds, as record truncates them.
pub record Usage : Type 0 where
  pub pending : Map ℕ
  pub seen : Map ℕ

abbrev pub new_usage : Usage
new_usage = record { pending = []; seen = [] }

unfoldable pub record_use : ℕ → Text → Usage → Usage
unfolding put
record_use now id u = record { pending = put id now u.pending; seen = put id now u.seen }

-- The batch, and the state after it; an empty batch is Go's nil map.
unfoldable pub take_pending : Usage → Map ℕ × Usage
take_pending u =
    if is_empty u.pending then ([], u) else (u.pending, record { pending = []; seen = u.seen })

unfoldable pub last_seen : Text → Usage → Option ℕ
unfolding get
last_seen id u = get id u.seen

unfoldable pub forget : Text → Usage → Usage
unfolding delete
forget id u = record { pending = delete id u.pending; seen = delete id u.seen }

later : ℕ → Option ℕ → Option ℕ
later t none = some t
later t (some s) = if ltb s t then some t else some s

unfoldable pub token_last_used : Text → Option ℕ → Usage → Option ℕ
unfolding last_seen later
token_last_used id stored u = elim (last_seen id u) [ none ↦ stored | some t ↦ later t stored ]

-- The end of AuthenticateToken for a token that was found: a use is recorded after the checks.
finish : ℕ → Token → Usage → Result TokenAuth → Result TokenAuth × Usage
finish now token u (ok auth) = (ok auth, record_use now token.id u)
finish now token u (err e) = (err e, u)

found : ℕ → Usage → Option Token → Result TokenAuth × Usage
unfolding finish
found now u none = (err unauthorized, u)
found now u (some token) = finish now token u (check_usable now token)

module _ (hash_key : Text → Text) (find_by_hash : Text → Option Token) where
  -- `now` is the clock of the call, for the expiry and for the record of the use.
  unfoldable pub authenticate_token : ℕ → Text → Usage → Result TokenAuth × Usage
  unfolding check_usable record_use found
  authenticate_token now raw u = found now u (find_by_hash (hash_key raw))

  scopes_decide : Text → Text → Result TokenAuth → Result Unit
  scopes_decide path op (err e) = err e
  scopes_decide path op (ok auth) =
      if token_scopes_allow auth.auth_scopes path op then ok tt else err forbidden

  unfoldable pub validate_token : ℕ → Text → Text → Text → Usage → Result Unit × Usage
  unfolding authenticate_token scopes_decide
  validate_token now raw path op u =
      let (auth, u') = authenticate_token now raw u in (scopes_decide path op auth, u')

-- The column after the statement of TouchLastUsed: it only moves forward.
abbrev pub touch : ℕ → Option ℕ → Option ℕ
touch at none = some at
touch at (some s) = if ltb s at then some at else some s

-- TouchLastUsed over the stored times by token; `fails` tells for which tokens the statement fails.
unfoldable pub touch_last_used : (Text → Bool) → Text → ℕ → Map (Option ℕ) → Map (Option ℕ)
unfolding ◌==◌
touch_last_used fails id at [] = []
touch_last_used fails id at ((j, t) ∷ rows) =
    let rest = touch_last_used fails id at rows in
    (j, (if j == id && not (fails id) then touch at t else t)) ∷ rest

-- FlushTokenUsage over the batch, with the storage's write as an argument.
unfoldable pub flush_batch : {S : Type 0} → (Text → ℕ → S → S) → Map ℕ → S → S
flush_batch write [] s = s
flush_batch write ((id, at) ∷ batch) s = flush_batch write batch (write id at s)

unfoldable pub flush_usage : {S : Type 0} → (Text → ℕ → S → S) → Usage → S → Usage × S
unfolding take_pending flush_batch
flush_usage write u s = let (batch, u') = take_pending u in (u', flush_batch write batch s)
