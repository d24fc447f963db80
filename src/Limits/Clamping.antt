-- ===== src/Limits/Clamping.antt =====
-- `ResolvedLimits::resolve` (src/limits.rs) against the server's maxima.
use monty_server.Common.{◌≤◌, Option, none, some, arith}
use monty_server.Config.{LimitBounds}
use monty_server.Limits.{LimitsRequest, ResolvedLimits, resolve}

pub record IsBounded (l : ResolvedLimits) (bounds : LimitBounds) : Type 0 where
  pub duration : l.max_duration ≤ bounds.max_duration
  pub memory : l.max_memory_bytes ≤ bounds.max_memory_bytes
  pub allocations : l.max_allocations ≤ bounds.max_allocations
  pub depth : l.max_recursion_depth ≤ bounds.max_recursion_depth

-- Whatever a client asks for or leaves out, each resolved limit is at most the server's maximum.
pub resolve-IsBounded :
    (request : Option LimitsRequest) (bounds : LimitBounds)
    → IsBounded (resolve request bounds) bounds
unfolding resolve
resolve-IsBounded none bounds = omega arith
resolve-IsBounded (some r) bounds = omega arith
