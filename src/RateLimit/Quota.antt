-- ===== src/RateLimit/Quota.antt =====
-- How many requests of one key a history of `check` and `prune_idle` (src/rate_limit.rs) can admit.
use monty_server.Common.{
  ℕ, ◌+◌, ◌*◌, ◌≤◌, ◌≡◌, ◌≢◌, String, Bool, true, List, [], ◌∷◌, Result, ok, arith, str_eq, eq_iff,
  eq_refl, Bool-cases, lookup, string_key, Option, none, some, inl, inr, IsDistinct,
}
use monty_server.Config.{RateRule}
use monty_server.RateLimit.{token, Bucket, RateLimiter, capacity, refill, check, prune_idle}
use monty_server.RateLimit.Level.{
  IsSteady, level_of, level, check-level, level-check, level-check_ne, level-elapse,
  level-prune_idle, check-IsDistinct, prune_idle-IsDistinct,
}

-- What happens to a limiter, each event a while after the one before. Every key has its own rule.
pub data Event : Type 0 where
  request : (gap : ℕ) → (key : String) → Event
  prune : (gap : ℕ) → (locked : String → Bool) → Event

module _ (rule_of : String → RateRule) where
  -- 1 if the answer admits a request of `key`
  abbrev pub count : Bool → Result (Unit {0}) ℕ → ℕ
  count true (ok _) = 1
  count _ _ = 0

  -- How many requests of `key` are admitted, from `now` on.
  unfoldable pub admitted : (key : String) → List Event → (now : ℕ) → RateLimiter → ℕ
  admitted key [] now l = 0
  admitted key (request gap k ∷ events) now l =
      let (answer, l') = check l k (rule_of k) (now + gap) (now + gap) in
      count (str_eq k key) answer + admitted key events (now + gap) l'
  admitted key (prune gap locked ∷ events) now l =
      admitted key events (now + gap) (prune_idle locked (now + gap) l)

  -- The time that passes.
  unfoldable pub span : List Event → ℕ
  span [] = 0
  span (request gap k ∷ events) = gap + span events
  span (prune gap locked ∷ events) = gap + span events

  module _ (key : String) where
    abbrev rule : RateRule
    rule = rule_of key

    pub own_request :
        (now : ℕ) (l : RateLimiter)
        → let (answer, l') = check l key rule now now in
          count true answer * token + level rule now l' key ≡ level rule now l key
    own_request now l =
        ground (arith, check-level rule now l key now, level-check rule now l key now)

    -- A request pays for its admission from the level of its key.
    request-level :
        (k : String) (now : ℕ) (l : RateLimiter)
        → let (answer, l') = check l k (rule_of k) now now in
          count (str_eq k key) answer * token + level rule now l' key ≡ level rule now l key
    request-level k now l = elim (Bool-cases (str_eq k key)) [
      | inl e ↦ rw ((eq_iff k key).0 e, eq_refl key) (own_request now l)
      | inr e ↦
          let other : k ≢ key = λ p. ground (arith, eq_iff k key) in
          rw e (omega (arith, level-check_ne (rule_of k) now l k now rule key now other))
    ]

    admitted-level :
        (events : List Event) (now : ℕ) (l : RateLimiter)
        → IsSteady rule
        → IsDistinct l.buckets
        → admitted key events now l * token ≤ level rule now l key + span events * rule.per_minute
    unfolding admitted span
    admitted-level [] now l steady d = omega arith
    admitted-level (request gap k ∷ events) now l steady d =
        let l' : RateLimiter = (check l k (rule_of k) (now + gap) (now + gap)).1 in
        omega (
          arith,
          request-level k (now + gap) l,
          level-elapse rule now gap l key,
          admitted-level events (now + gap) l' steady
              (check-IsDistinct l k (rule_of k) (now + gap) (now + gap) d),
        )
    admitted-level (prune gap locked ∷ events) now l steady d = omega (
      arith,
      level-prune_idle rule (now + gap) locked l key steady d,
      level-elapse rule now gap l key,
      admitted-level events (now + gap) (prune_idle locked (now + gap) l) steady
          (prune_idle-IsDistinct locked (now + gap) l d),
    )

    pub level-le_capacity : (now : ℕ) (l : RateLimiter) → level rule now l key ≤ capacity rule
    unfolding level
    level-le_capacity now l = bounded (lookup key l.buckets)
      where
        bounded : (o : Option Bucket) → level_of rule now o ≤ capacity rule
        bounded none = omega arith
        bounded (some b) = unfold refill in omega arith

    -- Over any sequence of requests of any keys and of prunings, starting from any limiter that
    -- holds no key twice, the requests of one key that are admitted are at most its burst plus its
    -- rate times the time that passes, if the key's burst is at most ten times its rate per minute.
    pub admitted-le_quota :
        (events : List Event) (now : ℕ) (l : RateLimiter)
        → IsSteady rule
        → IsDistinct l.buckets
        → admitted key events now l * token ≤ rule.burst * token + span events * rule.per_minute
    admitted-le_quota events now l steady d =
        omega (arith, admitted-level events now l steady d, level-le_capacity now l)
