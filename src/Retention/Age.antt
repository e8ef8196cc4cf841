-- ===== src/Retention/Age.antt =====
-- The age limit of retention.go, in an int64 of nanoseconds.
use kutu.Prelude.{ℕ, ◌+◌, ◌*◌, ◌<◌, ◌≤◌, true, ◌≡◌, ◌↔◌, arith}
use kutu.Retention.{max_age, older}

abbrev pub day : ℕ
day = 86400000000000

age-small : (n : ℕ) → n ≤ 106751 → max_age n ≡ n * day
unfolding max_age
age-small n h = ground arith

age-big : (n : ℕ) → 106752 ≤ n → n ≤ 213503 → 9223372036854775808 ≤ max_age n
unfolding max_age
age-big n low high = ground arith

age-bound : (n : ℕ) → 106752 ≤ n → n ≤ 213503 → max_age n < 18446744073709551616
unfolding max_age
age-bound n low high = ground arith

-- With a limit of up to 106751 days a version published at `t`, less than 2 ^ 63 - 1 nanoseconds before
-- `now`, is over age exactly when more than the limit has passed since.
pub older_exact :
    (n now t : ℕ)
    → n ≤ 106751
    → now < t + 9223372036854775807
    → (older (max_age n) now t ≡ true) ↔ (t + n * day < now)
unfolding older
older_exact n now t small near =
    let same = age-small n small in rw same (λ h. ground arith, λ h. ground arith)

-- From 106752 to 213503 days the limit overflows to a negative duration, and every version that was
-- published at or before `now` is over age.
pub older_overflow :
    (n now t : ℕ) → 106752 ≤ n → n ≤ 213503 → t ≤ now → older (max_age n) now t ≡ true
unfolding older
older_overflow n now t low high past =
    let big = age-big n low high in let bound = age-bound n low high in ground arith
