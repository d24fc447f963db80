-- ===== src/Config/Admissible.antt =====
-- `Config::from_env` (src/config.rs): what the rest of the server relies on in its result.
use Prim.Native.Char.{code}
use monty_server.Common.{
  ℕ, ◌+◌, ◌*◌, ◌-◌, ◌^◌, ◌≤◌, ◌<◌, ◌≡◌, refl, String, Option, ok, >>=-Yields, Yields, ok-Yields,
  arith, string_key, Option-cases, get_or, ok_or, inl, inr,
}
use monty_server.Text.{read_digits, parse_unsigned}
use monty_server.Config.{RateRule, rate_rule, Auth, Config}
use monty_server.Config.Env.{addr, max_u64, Vars, max_u16, max_u32, env_str, env_int}
use monty_server.Config.Tokens.{load_auth}
use monty_server.Config.Loading.{
  load_limits, load_sessions, default_concurrency, load_rest, from_env,
}
use monty_server.Limits.{from_millis}
use monty_server.Auth.{Caller, Request, authenticate}
use monty_server.Config.Rates.{
  IsUsable, rate_rule-IsUsable, IsUsableAuth, load_auth-IsUsable, authenticate-IsUsable,
}

read_digits-le :
    (max_value n v : ℕ) (s : String)
    → read_digits max_value n s ≡ ok v
    → n ≤ max_value
    → v ≤ max_value
unfolding read_digits
read_digits-le max_value n v String.[] h le = ground arith
read_digits-le max_value n v (String.◌∷◌ c s) h le =
    ground (arith, h, read_digits-le max_value (n * 10 + (code c - 48)) v s)

parse_unsigned-le :
    (max_value v : ℕ) (s : String) → parse_unsigned max_value s ≡ ok v → v ≤ max_value
unfolding parse_unsigned
parse_unsigned-le max_value v String.[] h = ground arith
parse_unsigned-le max_value v (String.◌∷◌ c String.[]) h =
    read_digits-le max_value 0 v (String.◌∷◌ c String.[]) h (omega arith)
parse_unsigned-le max_value v (String.◌∷◌ c (String.◌∷◌ d s)) h = ground (
  arith,
  h,
  read_digits-le max_value 0 v (String.◌∷◌ d s),
  read_digits-le max_value 0 v (String.◌∷◌ c (String.◌∷◌ d s)),
)

env_int-le :
    (vars : Vars) (max_value : ℕ) (var : String) (default_value v : ℕ)
    → env_int vars max_value var default_value ≡ ok v
    → default_value ≤ max_value
    → v ≤ max_value
unfolding env_int
env_int-le vars max_value var default_value v h le = elim (Option-cases (env_str vars var)) [
  | inl unset ↦ ground (arith, h, unset, le)
  | inr (value, set) ↦ ground (arith, h, set, parse_unsigned-le max_value v value)
]

load_limits-max_duration :
    (vars : Vars) (max_duration : ℕ)
    → Yields (λ l. l.max_duration ≡ max_duration) (load_limits vars max_duration)
unfolding load_limits
load_limits-max_duration vars max_duration =
    >>=-Yields (env_int vars max_u64 "MONTY_DEFAULT_TIMEOUT_MS" 5000) _ λ _ _.
      >>=-Yields (env_int vars max_u64 "MONTY_DEFAULT_MEMORY_BYTES" (64 * 2 ^ 20)) _ λ _ _.
        >>=-Yields (env_int vars max_u64 "MONTY_MAX_MEMORY_BYTES" (256 * 2 ^ 20)) _ λ _ _.
          >>=-Yields (env_int vars max_u64 "MONTY_DEFAULT_MAX_ALLOCATIONS" 5000000) _ λ _ _.
            >>=-Yields (env_int vars max_u64 "MONTY_MAX_ALLOCATIONS" 50000000) _ λ _ _.
              >>=-Yields (env_int vars max_u64 "MONTY_DEFAULT_RECURSION_DEPTH" 1000) _ λ _ _.
                >>=-Yields (env_int vars max_u64 "MONTY_MAX_RECURSION_DEPTH" 4000) _
                  λ _ _. ok-Yields _ refl

-- What the rest of the server relies on in a configuration.
pub record IsAdmissible {Address : Type 0} (config : Config Address) : Type 0 where
  pub port_le : config.port ≤ max_u16
  pub default_usable : IsUsable config.default_rate
  pub caller_usable :
      (r : Request) (caller : Caller)
      → authenticate config.auth config.default_rate r ≡ ok caller
      → IsUsable caller.rate
  pub outlasts : config.limits.max_duration < config.request_timeout

module _ {Address : Type 0} where
  load_rest-IsAdmissible :
      (parallelism : Option ℕ) (vars : Vars) (host : Address) (port : ℕ) (default_rate : RateRule)
      (auth : Auth)
      → port ≤ max_u16
      → IsUsable default_rate
      → IsUsableAuth auth
      → Yields IsAdmissible (load_rest parallelism vars host port default_rate auth)
  unfolding load_rest
  load_rest-IsAdmissible parallelism vars host port default_rate auth low usable known =
      >>=-Yields (env_int vars max_u64 "MONTY_MAX_TIMEOUT_MS" 30000) _ λ max_timeout _.
        >>=-Yields (env_int vars max_u64 "MONTY_MAX_CONCURRENCY" (default_concurrency parallelism))
          _
          λ _ _. >>=-Yields (env_int vars max_u64 "MONTY_MAX_BODY_BYTES" (2 ^ 20)) _ λ _ _.
            >>=-Yields (load_limits vars (from_millis max_timeout)) _ λ limits loaded.
              >>=-Yields (load_sessions vars) _ λ _ _. ok-Yields _ (record {
                port_le = low;
                default_usable = usable;
                caller_usable =
                    λ r caller. authenticate-IsUsable auth default_rate r caller usable known;
                outlasts = omega (
                  arith,
                  (load_limits-max_duration vars (from_millis max_timeout)).of_ok limits loaded,
                );
              })

  -- In every configuration that `from_env` returns, the port fits 16 bits, the request timeout is
  -- longer than the longest execution, and the default rate and the rate of every caller that
  -- `authenticate` returns under it are at least one a minute, with a burst of at least one and at
  -- most ten times the rate.
  pub from_env-IsAdmissible :
      (parse_ip : String → Option Address) (parallelism : Option ℕ) (vars : Vars)
      (config : Config Address)
      → from_env parse_ip parallelism vars ≡ ok config
      → IsAdmissible config
  unfolding from_env
  from_env-IsAdmissible parse_ip parallelism vars config h =
      (>>=-Yields
          (ok_or (parse_ip (get_or (env_str vars "MONTY_HOST") "0.0.0.0")) (addr "MONTY_HOST")) _
          λ host _. >>=-Yields (env_int vars max_u16 "PORT" 8080) _ λ port read.
            >>=-Yields (env_int vars max_u32 "MONTY_RATE_LIMIT_RPM" 120) _ λ rpm _.
              >>=-Yields (load_auth vars (rate_rule rpm)) _ λ auth loaded.
                load_rest-IsAdmissible parallelism vars host port (rate_rule rpm) auth
                  (env_int-le vars max_u16 "PORT" 8080 port read (omega arith))
                  (rate_rule-IsUsable rpm)
                  (load_auth-IsUsable vars (rate_rule rpm) auth (rate_rule-IsUsable rpm)
                    loaded)).of_ok
        config h
