-- ===== src/Server.antt =====
-- src/state.rs and src/main.rs: the state that all handlers share, and the reaper that sweeps it. The
-- clock's readings are arguments.
pub mod Meta
pub mod Requests
pub mod Launch
pub mod Admitted
pub mod Privacy
pub mod Sweeping
pub mod Returning
pub mod Tasks
pub mod Concurrent
use monty_server.Common.{ℕ, ◌*◌, ◌^◌, String, Bool, List, [], ◌∷◌}
use monty_server.Config.{Config}
use monty_server.RateLimit as Limiter
use monty_server.RateLimit.{RateLimiter, prune_idle}
use monty_server.External.{Types}
use monty_server.Session as Store
use monty_server.Session.{SessionStore, reap_expired}
use monty_server.Api.Executions.{Gate, open_gate}

-- `AppState`
pub record AppState (x : Types) (Address : Type 0) : Type 0 where
  pub config : Config Address
  pub sessions : SessionStore x
  pub rate_limiter : RateLimiter
  pub concurrency : Gate
  pub started_at : ℕ

-- `REAPER_INTERVAL`
abbrev pub reaper_interval : ℕ
reaper_interval = 30 * 10 ^ 9

-- A tick of the reaper: the readings of the clock in `reap_expired` and `prune_idle`, and the
-- buckets that are in use.
pub record Tick : Type 0 where
  pub reaped_at : ℕ
  pub pruned_at : ℕ
  pub locked : String → Bool

module _ {x : Types} {Address : Type 0} where
  -- `AppState::new`
  unfoldable pub new : Config Address → (now : ℕ) → AppState x Address
  new config now = record {
    config = config;
    sessions = Store.new config.sessions.max_sessions;
    rate_limiter = Limiter.new;
    concurrency = open_gate config;
    started_at = now;
  }

  -- the body of the loop of `spawn_reaper`
  unfoldable pub sweep : Tick → AppState x Address → AppState x Address
  sweep tick s = record s {
    sessions = (reap_expired tick.reaped_at s.sessions).1;
    rate_limiter = prune_idle tick.locked tick.pruned_at s.rate_limiter;
  }

  sweep_all : List Tick → AppState x Address → AppState x Address
  unfolding sweep
  sweep_all [] s = s
  sweep_all (tick ∷ ticks) s = sweep_all ticks (sweep tick s)

  -- `spawn_reaper`, over the ticks that come; the first, at the start, is skipped.
  unfoldable pub reaper : List Tick → AppState x Address → AppState x Address
  unfolding sweep_all
  reaper [] s = s
  reaper (first ∷ ticks) s = sweep_all ticks s
