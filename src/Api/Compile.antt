-- ===== src/Api/Compile.antt =====
-- src/api/compile.rs: `POST /v1/compile`.
pub mod Compiled
use monty_server.Common.{String, Option, List, [], ok, err, ◌>>=◌, ok_or, get_or}
use monty_server.Error.{ApiResult, internal}
use monty_server.External.{Types, Externals}
use monty_server.Api.{TaskEnd, joined_at, spawn_execution}
use monty_server.Convert.{ApiException, api_exception}

-- `CompileRequest`
pub record CompileRequest : Type 0 where
  pub code : String
  pub filename : Option String
  pub inputs : Option (List String)

-- `CompileResponse`
pub data CompileResponse : Type 0 where
  compiled : (snapshot : String) → (input_names : List String) → CompileResponse
  compile_error : ApiException → CompileResponse

module _ {x : Types} (m : Externals x) where
  -- the blocking task
  compile_task : (code filename : String) → (input_names : List String) → ApiResult CompileResponse
  compile_task code filename input_names = elim (m.compile code filename input_names) [
    | ok run ↦ (do
      bytes ← ok_or (m.dump run) internal
      ok (compiled (m.base64_encode bytes) input_names))
    | err e ↦ ok (compile_error (api_exception m e))
  ]

  -- `compile`
  unfoldable pub compile : TaskEnd → CompileRequest → ApiResult CompileResponse
  unfolding compile_task
  compile task_end request = spawn_execution (
      joined_at task_end
        (compile_task request.code (get_or request.filename "main.py") (get_or request.inputs [])))
