-- ===== src/Server/Meta.antt =====
-- src/api/meta.rs: the answers on the server itself. `version` is `CARGO_PKG_VERSION`.
use monty_server.Common.{ℕ, ◌-◌, ◌/◌, ◌%◌, ◌^◌, String, List, [], ◌∷◌}
use monty_server.Config.{Auth, disabled, tokens}
use monty_server.External.{Types}
use monty_server.Session.{len}
use monty_server.Server.{AppState}

-- the body of `root`
pub record Banner : Type 0 where
  pub service : String
  pub version : String
  pub description : String
  pub endpoints : List (String × String)

-- `root`
unfoldable pub root : (version : String) → Banner
root version = record {
  service = "monty-server";
  version = version;
  description = "HTTP API for the monty sandboxed Python interpreter";
  endpoints =
      ("run", "POST /v1/run")
      ∷ ("compile", "POST /v1/compile")
      ∷ ("create_session", "POST /v1/sessions")
      ∷ ("session_status", "GET /v1/sessions/{id}")
      ∷ ("session_resume", "POST /v1/sessions/{id}/resume")
      ∷ ("session_delete", "DELETE /v1/sessions/{id}")
      ∷ ("info", "GET /v1/info")
      ∷ ("health", "GET /health")
      ∷ [];
}

-- `health`, the field `status` of its body
unfoldable pub health : String
health = "ok"

-- A default and a maximum.
pub record Range : Type 0 where
  pub default_value : ℕ
  pub max_value : ℕ

-- the body of `info`
pub record InfoView : Type 0 where
  pub version : String
  pub uptime_seconds : ℕ
  pub auth : String
  pub max_concurrency : ℕ
  pub max_body_bytes : ℕ
  pub duration_ms : Range
  pub memory_bytes : Range
  pub allocations : Range
  pub recursion_depth : Range
  pub live : ℕ
  pub max_sessions : ℕ
  pub default_ttl_seconds : ℕ
  pub max_ttl_seconds : ℕ

-- the mode of authentication in `info`
auth_mode : Auth → String
auth_mode disabled = "disabled"
auth_mode (tokens _) = "token"

-- `as_millis() as u64` and `as_secs`
abbrev as_millis : ℕ → ℕ
as_millis d = (d / 10 ^ 6) % 2 ^ 64

abbrev as_secs : ℕ → ℕ
as_secs d = d / 10 ^ 9

module _ {x : Types} {Address : Type 0} where
  -- `info`
  unfoldable pub info : (version : String) → (now : ℕ) → AppState x Address → InfoView
  unfolding auth_mode
  info version now s =
      let limits = s.config.limits in
      record {
        version = version;
        uptime_seconds = as_secs (now - s.started_at);
        auth = auth_mode s.config.auth;
        max_concurrency = s.config.max_concurrency;
        max_body_bytes = s.config.max_body_bytes;
        duration_ms = record {
          default_value = as_millis limits.default_duration;
          max_value = as_millis limits.max_duration;
        };
        memory_bytes = record {
          default_value = limits.default_memory_bytes;
          max_value = limits.max_memory_bytes;
        };
        allocations = record {
          default_value = limits.default_max_allocations;
          max_value = limits.max_allocations;
        };
        recursion_depth = record {
          default_value = limits.default_recursion_depth;
          max_value = limits.max_recursion_depth;
        };
        live = len s.sessions;
        max_sessions = s.config.sessions.max_sessions;
        default_ttl_seconds = as_secs s.config.sessions.default_ttl;
        max_ttl_seconds = as_secs s.config.sessions.max_ttl;
      }
