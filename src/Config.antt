-- ===== src/Config.antt =====
-- src/config.rs: the configuration that the other components read. Durations are in nanoseconds.
pub mod Env
pub mod Tokens
pub mod Loading
pub mod Rates
pub mod Admissible
pub mod Quota
use monty_server.Common.{ℕ, String, List, max}

-- `RateRule`
pub record RateRule : Type 0 where
  pub per_minute : ℕ
  pub burst : ℕ

-- `RateRule::new`
unfoldable pub rate_rule : ℕ → RateRule
rate_rule per_minute = record { per_minute = max per_minute 1; burst = max per_minute 1 }

-- `LimitBounds`
pub record LimitBounds : Type 0 where
  pub default_duration : ℕ
  pub max_duration : ℕ
  pub default_memory_bytes : ℕ
  pub max_memory_bytes : ℕ
  pub default_max_allocations : ℕ
  pub max_allocations : ℕ
  pub default_recursion_depth : ℕ
  pub max_recursion_depth : ℕ

-- `SessionConfig`
pub record SessionConfig : Type 0 where
  pub default_ttl : ℕ
  pub max_ttl : ℕ
  pub max_sessions : ℕ

-- `Principal`
pub record Principal : Type 0 where
  pub name : String
  pub rate : RateRule

-- `Auth`; the map of tokens is its entries.
pub data Auth : Type 0 where
  disabled : Auth
  tokens : List (String × Principal) → Auth

-- `Auth::describe`
unfoldable pub describe : Auth → String
describe disabled = "disabled"
describe (tokens _) = "token"

-- `Config`; an address is that of `IpAddr`, and a port.
pub record Config (Address : Type 0) : Type 0 where
  pub host : Address
  pub port : ℕ
  pub auth : Auth
  pub default_rate : RateRule
  pub max_concurrency : ℕ
  pub max_body_bytes : ℕ
  pub request_timeout : ℕ
  pub limits : LimitBounds
  pub sessions : SessionConfig
  pub cors_origins : List String
