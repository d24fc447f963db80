-- ===== src/Limits.antt =====
-- src/limits.rs: a client's request for limits becomes the limits of an execution.
pub mod Clamping
use mathlib.Core.Option
use monty_server.Common.{ℕ, ◌*◌, ◌^◌, Option, none, some, get_or, min}
use monty_server.Config.{LimitBounds}

-- `Duration::from_millis` and `Duration::from_secs`, in nanoseconds
abbrev pub from_millis : ℕ → ℕ
from_millis ms = ms * 10 ^ 6

abbrev pub from_secs : ℕ → ℕ
from_secs s = s * 10 ^ 9

-- `LimitsRequest`
pub record LimitsRequest : Type 0 where
  pub max_duration_ms : Option ℕ
  pub max_memory_bytes : Option ℕ
  pub max_allocations : Option ℕ
  pub max_recursion_depth : Option ℕ

-- `LimitsRequest::default`
abbrev pub no_limits : LimitsRequest
no_limits = record {
  max_duration_ms = none;
  max_memory_bytes = none;
  max_allocations = none;
  max_recursion_depth = none;
}

-- `ResolvedLimits`
pub record ResolvedLimits : Type 0 where
  pub max_duration : ℕ
  pub max_memory_bytes : ℕ
  pub max_allocations : ℕ
  pub max_recursion_depth : ℕ
  pub gc_interval : Option ℕ

-- `ClonedOrDefault::cloned_or_default`
unfoldable pub cloned_or_default : Option LimitsRequest → LimitsRequest
cloned_or_default none = no_limits
cloned_or_default (some r) = record {
  max_duration_ms = r.max_duration_ms;
  max_memory_bytes = r.max_memory_bytes;
  max_allocations = r.max_allocations;
  max_recursion_depth = r.max_recursion_depth;
}

-- `ResolvedLimits::resolve`
unfoldable pub resolve : Option LimitsRequest → LimitBounds → ResolvedLimits
unfolding cloned_or_default
resolve request bounds =
    let r : LimitsRequest = cloned_or_default request in
    record {
      max_duration =
          min (get_or (Option.map from_millis r.max_duration_ms) bounds.default_duration)
            bounds.max_duration;
      max_memory_bytes =
          min (get_or r.max_memory_bytes bounds.default_memory_bytes) bounds.max_memory_bytes;
      max_allocations =
          min (get_or r.max_allocations bounds.default_max_allocations) bounds.max_allocations;
      max_recursion_depth =
          min (get_or r.max_recursion_depth bounds.default_recursion_depth)
            bounds.max_recursion_depth;
      gc_interval = none;
    }
