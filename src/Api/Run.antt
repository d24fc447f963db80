-- ===== src/Api/Run.antt =====
-- src/api/run.rs: `POST /v1/run`.
pub mod Blame
pub mod Sources
use monty_server.Common.{ok, err, ◌>>=◌}
use monty_server.Error.{ApiResult}
use monty_server.Config.{LimitBounds}
use monty_server.Limits.{ResolvedLimits, resolve}
use monty_server.External.{Types, Externals, Objects}
use monty_server.Engine.{Readings, run_to_completion}
use monty_server.Api.{TaskEnd, joined_at, spawn_execution}
use monty_server.Api.Dto.{
  SourceFields, SourceSpec, code, snapshot, into_spec, Outcome, from_exec_result,
  compile_error_outcome,
}

module _ {x : Types} (m : Externals x) where
  -- the end of the blocking task
  complete_run : Readings → ResolvedLimits → x.Run → Objects x → ApiResult (Outcome x)
  complete_run at limits run inputs = from_exec_result m (run_to_completion m at run inputs limits)

  -- the blocking task
  pub execute : Readings → ResolvedLimits → SourceSpec x → ApiResult (Outcome x)
  unfolding complete_run
  execute at limits (code text filename input_names inputs) =
      elim (m.compile text filename input_names) [
        | ok run ↦ complete_run at limits run inputs
        | err e ↦ ok (compile_error_outcome m e)
      ]
  execute at limits (snapshot run inputs) = complete_run at limits run inputs

  -- `run`
  unfoldable pub run : LimitBounds → Readings → TaskEnd → SourceFields x → ApiResult (Outcome x)
  unfolding execute
  run bounds at task_end request = do
    spec ← into_spec m request
    spawn_execution (joined_at task_end (execute at (resolve request.limits bounds) spec))
