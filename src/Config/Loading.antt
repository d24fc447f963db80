-- ===== src/Config/Loading.antt =====
-- `Config::from_env` of src/config.rs, in the order in which it reads the variables. `parse_ip` is
-- `IpAddr::from_str`, and `parallelism` what `std::thread::available_parallelism` gives.
use monty_server.Common.{
  ℕ, ◌+◌, ◌*◌, ◌^◌, String, Option, none, some, get_or, List, [], map, Result, ok, ◌>>=◌, ok_or,
}
use monty_server.Text.{trim, split}
use monty_server.Limits.{from_millis, from_secs}
use monty_server.Config.{LimitBounds, SessionConfig, RateRule, Config, Auth, rate_rule}
use monty_server.Config.Env.{ConfigError, addr, Vars, max_u16, max_u32, max_u64, env_str, env_int}
use monty_server.Config.Tokens.{load_auth}

-- `default_concurrency`
unfoldable pub default_concurrency : Option ℕ → ℕ
default_concurrency parallelism = get_or parallelism 4

-- the value of `cors_origins`
unfoldable pub origins_of : Option String → List String
origins_of none = []
origins_of (some raw) = map trim (split 44 raw)

-- the value of `limits`
unfoldable pub load_limits : Vars → (max_duration : ℕ) → Result LimitBounds ConfigError
unfolding env_int
load_limits vars max_duration = do
  default_timeout ← env_int vars max_u64 "MONTY_DEFAULT_TIMEOUT_MS" 5000
  default_memory_bytes ← env_int vars max_u64 "MONTY_DEFAULT_MEMORY_BYTES" (64 * 2 ^ 20)
  max_memory_bytes ← env_int vars max_u64 "MONTY_MAX_MEMORY_BYTES" (256 * 2 ^ 20)
  default_max_allocations ← env_int vars max_u64 "MONTY_DEFAULT_MAX_ALLOCATIONS" 5000000
  max_allocations ← env_int vars max_u64 "MONTY_MAX_ALLOCATIONS" 50000000
  default_recursion_depth ← env_int vars max_u64 "MONTY_DEFAULT_RECURSION_DEPTH" 1000
  max_recursion_depth ← env_int vars max_u64 "MONTY_MAX_RECURSION_DEPTH" 4000
  ok (record {
    default_duration = from_millis default_timeout;
    max_duration = max_duration;
    default_memory_bytes = default_memory_bytes;
    max_memory_bytes = max_memory_bytes;
    default_max_allocations = default_max_allocations;
    max_allocations = max_allocations;
    default_recursion_depth = default_recursion_depth;
    max_recursion_depth = max_recursion_depth;
  })

-- the value of `sessions`
unfoldable pub load_sessions : Vars → Result SessionConfig ConfigError
unfolding env_int
load_sessions vars = do
  ttl ← env_int vars max_u64 "MONTY_SESSION_TTL_SECONDS" 300
  max_ttl ← env_int vars max_u64 "MONTY_SESSION_MAX_TTL_SECONDS" 3600
  max_sessions ← env_int vars max_u64 "MONTY_MAX_SESSIONS" 1000
  ok (record {
    default_ttl = from_secs ttl;
    max_ttl = from_secs max_ttl;
    max_sessions = max_sessions;
  })

-- `Config::from_env`, from `max_duration` on
unfoldable pub load_rest :
    {Address : Type 0}
    → (parallelism : Option ℕ) → Vars
    → (host : Address) → (port : ℕ) → (default_rate : RateRule) → Auth
    → Result (Config Address) ConfigError
unfolding env_int load_limits load_sessions origins_of default_concurrency
load_rest parallelism vars host port default_rate auth = do
  max_timeout ← env_int vars max_u64 "MONTY_MAX_TIMEOUT_MS" 30000
  max_concurrency ← env_int vars max_u64 "MONTY_MAX_CONCURRENCY" (default_concurrency parallelism)
  max_body_bytes ← env_int vars max_u64 "MONTY_MAX_BODY_BYTES" (2 ^ 20)
  limits ← load_limits vars (from_millis max_timeout)
  sessions ← load_sessions vars
  ok (record {
    host = host;
    port = port;
    auth = auth;
    default_rate = default_rate;
    max_concurrency = max_concurrency;
    max_body_bytes = max_body_bytes;
    request_timeout = from_millis max_timeout + from_secs 5;
    limits = limits;
    sessions = sessions;
    cors_origins = origins_of (env_str vars "MONTY_CORS_ORIGINS");
  })

-- `Config::from_env`
unfoldable pub from_env :
    {Address : Type 0}
    → (parse_ip : String → Option Address) → (parallelism : Option ℕ) → Vars
    → Result (Config Address) ConfigError
unfolding env_int load_auth load_rest
from_env parse_ip parallelism vars = do
  host ← ok_or (parse_ip (get_or (env_str vars "MONTY_HOST") "0.0.0.0")) (addr "MONTY_HOST")
  port ← env_int vars max_u16 "PORT" 8080
  rpm ← env_int vars max_u32 "MONTY_RATE_LIMIT_RPM" 120
  auth ← load_auth vars (rate_rule rpm)
  load_rest parallelism vars host port (rate_rule rpm) auth
