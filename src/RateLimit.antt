-- ===== src/RateLimit.antt =====
-- src/rate_limit.rs: a token bucket for each key. Tokens and refills are floats in the source and
-- exact here: a token is 60 * 10^9 units, so that a bucket gains `per_minute` units a nanosecond.
-- Where floats round, the source can refuse what is exactly one token, or name one second more.
-- `Instant::now()` is an argument of each call.
pub mod Level
pub mod Quota
use monty_server.Common.{
  ℕ, ◌+◌, ◌-◌, ◌*◌, ◌/◌, ◌^◌, String, Bool, ◌||◌, List, [], Result, ok, err, min, ltb, leb, ◌==◌,
  if◌then◌else◌, lookup, insert, retain, string_key, get_or,
}
use monty_server.Config.{RateRule}

-- `1.0`, in units
abbrev pub token : ℕ
token = 60 * 10 ^ 9

-- `IDLE_PRUNE_SECS`, in nanoseconds
abbrev pub idle_prune : ℕ
idle_prune = 600 * 10 ^ 9

abbrev pub second : ℕ
second = 10 ^ 9

-- `Bucket`
pub record Bucket : Type 0 where
  pub tokens : ℕ
  pub last : ℕ

-- `RateLimiter`
pub record RateLimiter : Type 0 where
  pub buckets : List (String × Bucket)

-- `RateLimiter::new`
unfoldable pub new : RateLimiter
new = record { buckets = [] }

abbrev pub capacity : RateRule → ℕ
capacity rule = rule.burst * token

-- the refill in `check`
unfoldable pub refill : RateRule → (now : ℕ) → Bucket → ℕ
refill rule now b = min (b.tokens + (now - b.last) * rule.per_minute) (capacity rule)

-- `(deficit / refill_per_sec).ceil() as u64`: by a rate of 0 the quotient is infinite, and the cast
-- saturates.
unfoldable pub retry_after : RateRule → (deficit : ℕ) → ℕ
retry_after rule deficit =
    let per_second : ℕ = rule.per_minute * second in
    if per_second == 0 then 2 ^ 64 - 1 else (deficit + per_second - 1) / per_second

-- the bucket's part of `check`
unfoldable pub charge : RateRule → (now : ℕ) → Bucket → Result (Unit {0}) ℕ × Bucket
unfolding refill retry_after
charge rule now b =
    let tokens : ℕ = refill rule now b in
    if leb token tokens
    then (ok tt, record { tokens = tokens - token; last = now })
    else (err (retry_after rule (token - tokens)), record { tokens = tokens; last = now })

-- `RateLimiter::check`; `started` is the clock reading of `or_insert_with`, `now` the one after it.
unfoldable pub check :
    RateLimiter → String → RateRule → (started now : ℕ) → Result (Unit {0}) ℕ × RateLimiter
unfolding charge
check l key rule started now =
    let fresh : Bucket = record { tokens = capacity rule; last = started } in
    let (answer, bucket) = charge rule now (get_or (lookup key l.buckets) fresh) in
    (answer, record { buckets = insert key bucket l.buckets })

-- `RateLimiter::prune_idle`; `locked` tells for which keys `try_lock` fails.
-- Kept are the buckets that are in use, or were used less than `idle_prune` ago.
abbrev pub is_fresh : (String → Bool) → (now : ℕ) → String → Bucket → Bool
is_fresh locked now k b = locked k || ltb (now - b.last) idle_prune

unfoldable pub prune_idle : (locked : String → Bool) → (now : ℕ) → RateLimiter → RateLimiter
prune_idle locked now l = record { buckets = retain (is_fresh locked now) l.buckets }
