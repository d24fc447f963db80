-- ===== src/RateLimit/Level.antt =====
-- The abstract view of the limiter of src/rate_limit.rs: how much each key has left at a time.
use native.Mathlib.Nat.{mul-le-mul_right}
use monty_server.Common.{
  ℕ, ◌+◌, ◌-◌, ◌*◌, ◌≤◌, ◌≡◌, ◌≢◌, refl, String, Bool, false, Option, none, some, ok, err, arith,
  leb, ltb, lookup, lookup-insert_self, lookup-retain, kept, IsDistinct, insert-IsDistinct,
  retain-IsDistinct, lookup-insert_ne, string_key, get_or, if◌then◌else◌,
}
use monty_server.Config.{RateRule}
use monty_server.RateLimit.{
  token, idle_prune, retry_after, Bucket, RateLimiter, capacity, refill, charge, check, is_fresh,
  prune_idle,
}

unfoldable pub level_of : RateRule → (now : ℕ) → Option Bucket → ℕ
unfolding refill
level_of rule now none = capacity rule
level_of rule now (some b) = refill rule now b

-- What `key` has left at `now`, in units; a key with no bucket has a full one.
unfoldable pub level : RateRule → (now : ℕ) → RateLimiter → String → ℕ
unfolding level_of
level rule now l key = level_of rule now (lookup key l.buckets)

-- What a request leaves of `n` units.
abbrev pub spend : ℕ → ℕ
spend n = if leb token n then n - token else n

module _ (rule : RateRule) (now : ℕ) where
  refill-fresh :
      (started : ℕ) (o : Option Bucket)
      → refill rule now (get_or o (record { tokens = capacity rule; last = started }))
        ≡ level_of rule now o
  unfolding level_of
  refill-fresh started none = omega arith
  refill-fresh started (some b) = refl

  charge-refill :
      (b : Bucket)
      → (charge rule now b).0 ≡ (
          if leb token (refill rule now b)
          then ok tt
          else err (retry_after rule (token - refill rule now b)))
  unfolding charge
  charge-refill b = ground arith

  refill-charge : (b : Bucket) → refill rule now (charge rule now b).1 ≡ spend (refill rule now b)
  unfolding charge
  refill-charge b = ground arith

  module _ (l : RateLimiter) (key : String) (started : ℕ) where
    pub check-level : (check l key rule started now).0 ≡ (
        if leb token (level rule now l key)
        then ok tt
        else err (retry_after rule (token - level rule now l key)))
    unfolding check level
    check-level =
        rw (← refill-fresh started (lookup key l.buckets))
          (charge-refill (get_or (lookup key l.buckets) _))

    -- Right after a request the level of its key is what it was at that moment, less one token if
    -- there was one.
    pub level-check :
        level rule now (check l key rule started now).1 key ≡ spend (level rule now l key)
    unfolding check level
    level-check =
        rw (lookup-insert_self key, ← refill-fresh started (lookup key l.buckets))
          (refill-charge (get_or (lookup key l.buckets) _))

    pub level-check_ne :
        (other : RateRule) (j : String) (at : ℕ)
        → key ≢ j
        → level other at (check l key rule started now).1 j ≡ level other at l j
    unfolding check level
    level-check_ne other j at h = rw (lookup-insert_ne key j _ _ h)

pub mul-le-add : (a b c d : ℕ) → a ≤ b + c → a * d ≤ b * d + c * d
mul-le-add a b c d h = omega (arith, mul-le-mul_right d h)

-- Time gives a key at most `per_minute` units a nanosecond, and takes nothing.
pub level-elapse :
    (rule : RateRule) (now gap : ℕ) (l : RateLimiter) (key : String)
    → (level rule (now + gap) l key ≤ level rule now l key + gap * rule.per_minute)
      × (level rule now l key ≤ level rule (now + gap) l key)
unfolding level
level-elapse rule now gap l key = of_bucket (lookup key l.buckets)
  where
    of_bucket :
        (o : Option Bucket)
        → (level_of rule (now + gap) o ≤ level_of rule now o + gap * rule.per_minute)
          × (level_of rule now o ≤ level_of rule (now + gap) o)
    of_bucket none = omega arith
    of_bucket (some b) =
        unfold refill in
        omega (
          arith,
          mul-le-add (now + gap - b.last) (now - b.last) gap rule.per_minute (omega arith),
          mul-le-add (now - b.last) (now + gap - b.last) 0 rule.per_minute (omega arith),
        )

-- `RateRule::new` builds such rules.
abbrev pub IsPositive : RateRule → Type 0
IsPositive rule = (1 ≤ rule.per_minute) × (1 ≤ rule.burst)

-- After ten minutes a bucket is full again, if its burst is at most ten times its rate.
abbrev pub IsSteady : RateRule → Type 0
IsSteady rule = rule.burst ≤ 10 * rule.per_minute

idle-full :
    (rule : RateRule) (now : ℕ) (b : Bucket)
    → IsSteady rule
    → ltb (now - b.last) idle_prune ≡ false
    → refill rule now b ≡ capacity rule
unfolding refill
idle-full rule now b steady idle =
    let long : idle_prune ≤ now - b.last = ground arith in
    omega (arith, mul-le-add idle_prune (now - b.last) 0 rule.per_minute (omega arith))

-- Pruning changes no key's level, if the limiter holds no key twice and the rule's burst is at most
-- ten times its rate per minute, so that a bucket which is idle long enough to be dropped is full.
pub level-prune_idle :
    (rule : RateRule) (now : ℕ) (locked : String → Bool) (l : RateLimiter) (key : String)
    → IsSteady rule
    → IsDistinct l.buckets
    → level rule now (prune_idle locked now l) key ≡ level rule now l key
unfolding level prune_idle
level-prune_idle rule now locked l key steady distinct =
    rw (lookup-retain (is_fresh locked now) key l.buckets distinct)
      (of_bucket (lookup key l.buckets))
  where
    of_bucket :
        (o : Option Bucket)
        → level_of rule now (kept (is_fresh locked now) key o) ≡ level_of rule now o
    of_bucket none = refl
    of_bucket (some b) = ground (arith, idle-full rule now b steady)

pub check-IsDistinct :
    (l : RateLimiter) (key : String) (rule : RateRule) (started now : ℕ)
    → IsDistinct l.buckets
    → IsDistinct (check l key rule started now).1.buckets
unfolding check
check-IsDistinct l key rule started now h = insert-IsDistinct key _ l.buckets h

pub prune_idle-IsDistinct :
    (locked : String → Bool) (now : ℕ) (l : RateLimiter)
    → IsDistinct l.buckets
    → IsDistinct (prune_idle locked now l).buckets
unfolding prune_idle
prune_idle-IsDistinct locked now l h = retain-IsDistinct (is_fresh locked now) l.buckets h
