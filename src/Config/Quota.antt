-- ===== src/Config/Quota.antt =====
-- How many requests of one caller the two layers of src/auth.rs let pass under a configuration that
-- src/config.rs loads, while the reaper prunes buckets.
use monty_server.Common.{
  ℕ, ◌+◌, ◌*◌, ◌≤◌, ◌≡◌, ◌≢◌, sym, subst, String, Bool, Option, List, [], ◌∷◌, ok, err, arith,
  str_eq, if◌then◌else◌, eq_iff, eq_refl, Bool-cases, inl, inr, IsDistinct, string_key,
}
use monty_server.Error.{ApiResult}
use monty_server.Config.{RateRule, Config}
use monty_server.Config.Env.{Vars}
use monty_server.Config.Loading.{from_env}
use monty_server.Config.Admissible.{from_env-IsAdmissible}
use monty_server.RateLimit.{token, RateLimiter, check, prune_idle}
use monty_server.RateLimit.Level.{
  IsSteady, level, level-check_ne, level-elapse, level-prune_idle, check-IsDistinct,
  prune_idle-IsDistinct,
}
use monty_server.RateLimit.Quota.{count, own_request, level-le_capacity}
use monty_server.Auth.{Caller, Request, authenticate, admit}
use monty_server.Auth.Layers.{admit-cases}

-- What happens to the limiter of the server, each event a while after the one before.
pub data Visit : Type 0 where
  arrives : (gap : ℕ) → Request → Visit
  prunes : (gap : ℕ) → (locked : String → Bool) → Visit

-- The time that passes.
unfoldable pub duration : List Visit → ℕ
duration [] = 0
duration (arrives gap request ∷ visits) = gap + duration visits
duration (prunes gap locked ∷ visits) = gap + duration visits

-- 1 if a request of the caller `key` is let pass
abbrev pub passes : (key : String) → ApiResult Caller → ℕ
passes key (err e) = 0
passes key (ok caller) = if str_eq caller.id key then 1 else 0

module _ {Address : Type 0} (config : Config Address) where
  -- How many requests of the caller `key` reach a handler, from `now` on.
  unfoldable pub passed : (key : String) → List Visit → (now : ℕ) → RateLimiter → ℕ
  passed key [] now l = 0
  passed key (arrives gap request ∷ visits) now l =
      let (admission, l') =
        admit config.auth config.default_rate request (now + gap) (now + gap) l in
      passes key admission + passed key visits (now + gap) l'
  passed key (prunes gap locked ∷ visits) now l =
      passed key visits (now + gap) (prune_idle locked (now + gap) l)

  -- All requests that are authenticated as `key` have the rate `rule`.
  abbrev pub HasRate : String → RateRule → Type 0
  HasRate key rule =
      (request : Request) (caller : Caller)
      → authenticate config.auth config.default_rate request ≡ ok caller
      → caller.id ≡ key
      → caller.rate ≡ rule

  module _ (key : String) (rule : RateRule) where
    -- A request pays for its passage from the level of its caller, and keeps the buckets distinct.
    abbrev pub Pays : (now : ℕ) → RateLimiter → ApiResult Caller × RateLimiter → Type 0
    Pays now l p =
        (passes key p.0 * token + level rule now p.1 key ≡ level rule now l key)
        × (IsDistinct l.buckets → IsDistinct p.1.buckets)

    check-level_same :
        (k : String) (other : RateRule) (now : ℕ) (l : RateLimiter)
        → (k ≡ key → other ≡ rule)
        → count (λ _. rule) (str_eq k key) (check l k other now now).0 * token
            + level rule now (check l k other now now).1 key
          ≡ level rule now l key
    check-level_same k other now l same = elim (Bool-cases (str_eq k key)) [
      | inl e ↦
          let p = (eq_iff k key).0 e in
          rw (same p, p, eq_refl key) (own_request (λ _. rule) key now l)
      | inr e ↦
          let differ : k ≢ key = λ p. ground (arith, eq_iff k key) in
          rw e (omega (arith, level-check_ne other now l k now rule key now differ))
    ]

    pub admit-Pays :
        (request : Request) (now : ℕ) (l : RateLimiter)
        → HasRate key rule
        → Pays now l (admit config.auth config.default_rate request now now l)
    admit-Pays request now l rated =
        elim (admit-cases config.auth config.default_rate request now now l) [
          | inl (_, through) ↦ subst (Pays now l) (sym through) (omega arith, λ d. d)
          | inr (caller, known, inl (taken, through)) ↦ subst (Pays now l) (sym through) (
            ground (
              arith,
              taken,
              check-level_same caller.id caller.rate now l (rated request caller known),
            ),
            check-IsDistinct l caller.id caller.rate now now,
          )
          | inr (caller, known, inr (wait, refused, through)) ↦ subst (Pays now l) (sym through) (
            ground (
              arith,
              refused,
              check-level_same caller.id caller.rate now l (rated request caller known),
            ),
            check-IsDistinct l caller.id caller.rate now now,
          )
        ]

    passed-level :
        (visits : List Visit) (now : ℕ) (l : RateLimiter)
        → HasRate key rule
        → IsSteady rule
        → IsDistinct l.buckets
        → passed key visits now l * token ≤ level rule now l key + duration visits * rule.per_minute
    unfolding passed duration
    passed-level [] now l rated steady d = omega arith
    passed-level (arrives gap request ∷ visits) now l rated steady d =
        let p = admit config.auth config.default_rate request (now + gap) (now + gap) l in
        let (paid, kept) = admit-Pays request (now + gap) l rated in
        omega (
          arith,
          paid,
          level-elapse rule now gap l key,
          passed-level visits (now + gap) p.1 rated steady (kept d),
        )
    passed-level (prunes gap locked ∷ visits) now l rated steady d = omega (
      arith,
      level-prune_idle rule (now + gap) locked l key steady d,
      level-elapse rule now gap l key,
      passed-level visits (now + gap) (prune_idle locked (now + gap) l) rated steady
          (prune_idle-IsDistinct locked (now + gap) l d),
    )

-- Under a configuration that `from_env` returns, from any limiter that holds no key twice, and over
-- any sequence of requests of any callers and of prunings: the requests of one caller that the two
-- layers let pass are at most its burst plus its rate times the time that passes, if all requests
-- that are authenticated under its name have its rate, and a request reads the clock once.
pub passed-le_quota :
    {Address : Type 0} (parse_ip : String → Option Address) (parallelism : Option ℕ) (vars : Vars)
    (config : Config Address) (request : Request) (caller : Caller) (visits : List Visit) (now : ℕ)
    (l : RateLimiter)
    → from_env parse_ip parallelism vars ≡ ok config
    → authenticate config.auth config.default_rate request ≡ ok caller
    → HasRate config caller.id caller.rate
    → IsDistinct l.buckets
    → passed config caller.id visits now l * token
      ≤ caller.rate.burst * token + duration visits * caller.rate.per_minute
passed-le_quota parse_ip parallelism vars config request caller visits now l loaded known rated d =
    let sound = from_env-IsAdmissible parse_ip parallelism vars config loaded in
    omega (
      arith,
      passed-level config caller.id caller.rate visits now l rated
          (sound.caller_usable request caller known).1 d,
      level-le_capacity (λ _. caller.rate) caller.id now l,
    )
