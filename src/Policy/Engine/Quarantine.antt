-- ===== src/Policy/Engine/Quarantine.antt =====
-- The length of the quarantine of policy.go, in an int64 of nanoseconds.
use kutu.Prelude.{ℕ, ◌+◌, ◌*◌, ◌<◌, ◌≤◌, false, some, ◌≡◌, ◌≢◌, ◌↔◌, arith}
use kutu.Policy.Engine.{
  Policy, ArtifactRef, ArtifactMeta, quarantine_until, check_quarantine, allow,
}

-- A day in nanoseconds.
abbrev pub day : ℕ
day = 86400000000000

until-small :
    (p : Policy) (meta : ArtifactMeta)
    → p.quarantine_days ≤ 106751
    → quarantine_until p meta ≡ meta.published_at + p.quarantine_days * day
unfolding quarantine_until
until-small p meta h = ground arith

until-overflow :
    (p : Policy) (meta : ArtifactMeta)
    → 106752 ≤ p.quarantine_days
    → p.quarantine_days ≤ 213503
    → quarantine_until p meta ≤ meta.published_at
unfolding quarantine_until
until-overflow p meta low high = ground arith

-- A version with a known publish time is refused for quarantine of 1 to 106751 days exactly while
-- the clock is before that many days after the publish time.
pub check_quarantine_exact :
    (now : ℕ) (p : Policy) (ref : ArtifactRef) (meta : ArtifactMeta)
    → 0 < p.quarantine_days
    → p.quarantine_days ≤ 106751
    → meta.published_at ≢ 0
    → ((check_quarantine now p ref (some meta)).allowed ≡ false)
      ↔ (now < meta.published_at + p.quarantine_days * day)
check_quarantine_exact now p ref meta pos small known =
    unfold check_quarantine in rw (until-small p meta small) (λ h. ground arith, λ h. ground arith)

-- From 106752 to 213503 days the product overflows to a negative duration, and no version that is
-- already published is in quarantine.
pub check_quarantine_overflow :
    (now : ℕ) (p : Policy) (ref : ArtifactRef) (meta : ArtifactMeta)
    → 106752 ≤ p.quarantine_days
    → p.quarantine_days ≤ 213503
    → meta.published_at ≤ now
    → check_quarantine now p ref (some meta) ≡ allow
check_quarantine_overflow now p ref meta low high past =
    let ended = until-overflow p meta low high in unfold check_quarantine in ground arith
