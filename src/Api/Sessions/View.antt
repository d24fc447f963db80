-- ===== src/Api/Sessions/View.antt =====
-- src/api/sessions.rs: what a response shows of a session.
use monty_server.Common.{
  ℕ, ◌-◌, ◌/◌, String, Bool, Option, none, some, List, ok, err, ◌>>=◌, map_err, ok_or,
}
use monty_server.Error.{ApiError, ApiResult, bad_request, internal, session_not_found, session_busy}
use monty_server.Tracker.{ExecStats}
use monty_server.External.{Types, Externals, Value, RunProgress, os_call, complete}
use monty_server.Convert.{
  ApiException, api_exception, monty_to_json, monty_slice_to_json, monty_pairs_to_json,
}
use monty_server.Session.{StepSnapshot, SessionEntry, AcquireError, not_found, busy, finished}
use monty_server.Api.Dto.{breach_name}

-- `Pause`
pub data Pause (x : Types) : Type 0 where
  function_call :
      (call_id : ℕ) → (function : String) → (method_call : Bool) → (args kwargs : Value x) → Pause x
  name_lookup : (name : String) → Pause x
  resolve_futures : (pending_call_ids : List ℕ) → Pause x

-- `SessionState`
pub data SessionState (x : Types) : Type 0 where
  paused : Pause x → (stdout stderr : String) → ExecStats → SessionState x
  completed : (result : Value x) → (stdout stderr : String) → ExecStats → SessionState x
  exception : ApiException → (stdout stderr : String) → ExecStats → SessionState x
  limit_exceeded :
      (limit : String) → ApiException → (stdout stderr : String) → ExecStats → SessionState x

-- `SessionView`
pub record SessionView (x : Types) : Type 0 where
  pub session_id : ℕ
  pub expires_in_seconds : ℕ
  pub state : SessionState x

-- `acquire_error`
unfoldable pub acquire_error : AcquireError → ApiError
acquire_error not_found = session_not_found
acquire_error busy = session_busy
acquire_error finished = bad_request "session has already finished and cannot be resumed"

module _ {x : Types} (m : Externals x) where
  -- `describe_pause`
  unfoldable pub describe_pause : RunProgress x → ApiResult (Pause x)
  describe_pause (RunProgress.function_call call) = do
    args ← map_err (λ _. internal) (monty_slice_to_json m (m.args call))
    kwargs ← map_err (λ _. internal) (monty_pairs_to_json m (m.kwargs call))
    ok (function_call (m.call_id call) (m.function_name call) (m.method_call call) args kwargs)
  describe_pause (RunProgress.name_lookup lookup) = ok (name_lookup (m.lookup_name lookup))
  describe_pause (RunProgress.resolve_futures futures) =
      ok (resolve_futures (m.pending_call_ids futures))
  describe_pause (os_call _) = err internal
  describe_pause (complete _) = err internal

  -- `render_state`
  unfoldable pub render_state : StepSnapshot x → Option (RunProgress x) → ApiResult (SessionState x)
  unfolding describe_pause
  render_state (StepSnapshot.paused output stats) progress = do
    p ← ok_or progress internal
    pause ← describe_pause p
    ok (paused pause output.stdout output.stderr stats)
  render_state (StepSnapshot.completed result output stats) progress = do
    value ← map_err (λ _. internal) (monty_to_json m result)
    ok (completed value output.stdout output.stderr stats)
  render_state (StepSnapshot.failed e (some breach) output stats) progress =
      ok (limit_exceeded (breach_name breach) (api_exception m e) output.stdout output.stderr stats)
  render_state (StepSnapshot.failed e none output stats) progress =
      ok (exception (api_exception m e) output.stdout output.stderr stats)

  -- `render`
  unfoldable pub render : (id now : ℕ) → SessionEntry x → ApiResult (SessionView x)
  unfolding render_state
  render id now e = do
    state ← render_state e.snapshot e.progress
    ok (record {
      session_id = id;
      expires_in_seconds = (e.expires_at - now) / 1000000000;
      state = state;
    })
