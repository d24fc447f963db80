-- ===== src/Api/Dto.antt =====
-- src/api/dto.rs: what to execute, and the outcome of a run.
pub mod Snapshots
use Prim.Native.String.{◌++◌ as str_append}
use monty_server.Common.{String, Option, none, some, List, [], ◌∷◌, ok, err, ◌>>=◌, map_err, get_or}
use monty_server.Error.{ApiError, ApiResult, bad_request, internal}
use monty_server.Limits.{LimitsRequest}
use monty_server.Tracker.{Breach, time, memory, allocations, recursion, ExecStats}
use monty_server.External.{
  Types, Externals, Value, array, object, nil, Fields, done, field, Objects, empty, more,
}
use monty_server.Convert.{
  ConvertError, json_to_monty, json_array_to_monty, monty_to_json, ApiException, api_exception,
}
use monty_server.Engine.{ExecResult}

-- `DEFAULT_FILENAME`
abbrev pub default_filename : String
default_filename = "main.py"

-- `SourceFields`
pub record SourceFields (x : Types) : Type 0 where
  pub code : Option String
  pub snapshot : Option String
  pub filename : Option String
  pub inputs : Option (Value x)
  pub limits : Option LimitsRequest

-- `SourceSpec`
pub data SourceSpec (x : Types) : Type 0 where
  code :
      (code filename : String) → (input_names : List String) → (inputs : Objects x) → SourceSpec x
  snapshot : (run : x.Run) → (inputs : Objects x) → SourceSpec x

-- `bad_input`
bad_input : ConvertError → ApiError
bad_input e = bad_request (str_append "invalid input value: " e)

module _ {x : Types} (m : Externals x) where
  -- `decode_snapshot`
  unfoldable pub decode_snapshot : String → ApiResult x.Run
  decode_snapshot text = do
    decoded ←
        map_err (λ e. bad_request (str_append "`snapshot` is not valid base64: " e))
          (m.base64_decode text)
    map_err (λ e. bad_request (str_append "`snapshot` is not a valid monty snapshot: " e))
        (m.load decoded)

  -- the loop of `inputs_for_code`
  named_inputs : Fields x → ApiResult (List String × Objects x)
  unfolding bad_input
  named_inputs done = ok ([], empty)
  named_inputs (field name value fields) = do
    o ← map_err bad_input (json_to_monty m value)
    (names, values) ← named_inputs fields
    ok (name ∷ names, more o values)

  -- `inputs_for_code`
  inputs_for_code : Option (Value x) → ApiResult (List String × Objects x)
  unfolding named_inputs
  inputs_for_code none = ok ([], empty)
  inputs_for_code (some (object fields)) = named_inputs fields
  inputs_for_code (some (array nil)) = ok ([], empty)
  inputs_for_code (some _) =
      err (bad_request "with `code`, `inputs` must be a JSON object mapping input names to values")

  -- `inputs_for_snapshot`
  inputs_for_snapshot : Option (Value x) → ApiResult (Objects x)
  unfolding bad_input
  inputs_for_snapshot none = ok empty
  inputs_for_snapshot (some (array items)) = map_err bad_input (json_array_to_monty m items)
  inputs_for_snapshot (some (object done)) = ok empty
  inputs_for_snapshot (some _) =
      err (bad_request "with `snapshot`, `inputs` must be a positional JSON array")

  -- the `match` of `into_spec`
  spec_of : Option String → Option String → SourceFields x → ApiResult (SourceSpec x)
  unfolding decode_snapshot inputs_for_code inputs_for_snapshot
  spec_of (some _) (some _) f = err (bad_request "provide either `code` or `snapshot`, not both")
  spec_of none none f = err (bad_request "one of `code` or `snapshot` is required")
  spec_of (some text) none f = do
    (input_names, inputs) ← inputs_for_code f.inputs
    ok (SourceSpec.code text (get_or f.filename default_filename) input_names inputs)
  spec_of none (some text) f = do
    run ← decode_snapshot text
    inputs ← inputs_for_snapshot f.inputs
    ok (SourceSpec.snapshot run inputs)

  -- `SourceFields::into_spec`
  unfoldable pub into_spec : SourceFields x → ApiResult (SourceSpec x)
  unfolding spec_of
  into_spec f = spec_of f.code f.snapshot f

-- `breach_name`
unfoldable pub breach_name : Breach → String
breach_name time = "time"
breach_name memory = "memory"
breach_name allocations = "allocations"
breach_name recursion = "recursion"

-- `Outcome`; `Stats` is the `ExecStats`, which it only shows in milliseconds.
pub data Outcome (x : Types) : Type 0 where
  completed : (result : Value x) → (stdout stderr : String) → ExecStats → Outcome x
  exception : ApiException → (stdout stderr : String) → ExecStats → Outcome x
  limit_exceeded :
      (limit : String) → ApiException → (stdout stderr : String) → ExecStats → Outcome x
  compile_error : ApiException → Outcome x

module _ {x : Types} (m : Externals x) where
  -- `Outcome::from_exec_result`
  unfoldable pub from_exec_result : ExecResult x → ApiResult (Outcome x)
  from_exec_result (ExecResult.completed result output stats) = do
    value ← map_err (λ _. internal) (monty_to_json m result)
    ok (completed value output.stdout output.stderr stats)
  from_exec_result (ExecResult.failed e (some breach) output stats) =
      ok (limit_exceeded (breach_name breach) (api_exception m e) output.stdout output.stderr stats)
  from_exec_result (ExecResult.failed e none output stats) =
      ok (exception (api_exception m e) output.stdout output.stderr stats)

  -- `Outcome::compile_error`
  unfoldable pub compile_error_outcome : x.Exception → Outcome x
  compile_error_outcome e = compile_error (api_exception m e)
