-- ===== src/External.antt =====
-- What the server takes from other crates: the interpreter monty, serde_json, base64 and std. Their
-- types and operations are parameters; the enums that the server takes apart or builds are data.
use monty_server.Common.{ℕ, String, Bool, Option, List, Result}
use monty_server.Common.Int.{ℤ}
use monty_server.Tracker.{Tracker, Call}

-- The types that the server only passes on.
pub record Types : Type 1 where
  pub Number : Type 0  -- serde_json::Number
  pub Float : Type 0  -- f64
  pub OtherObject : Type 0  -- the values of monty that only an execution builds
  pub ExcType : Type 0
  pub Exception : Type 0  -- MontyException
  pub Run : Type 0  -- MontyRun
  pub FunctionCall : Type 0
  pub NameLookup : Type 0
  pub Futures : Type 0  -- ResolveFutures
  pub OsCall : Type 0

-- `serde_json::Value`; a map is its entries in the order of iteration.
mutual
  pub data Value (x : Types) : Type 0 where
    null : Value x
    bool : Bool → Value x
    number : x.Number → Value x
    string : String → Value x
    array : Items x → Value x
    object : Fields x → Value x

  pub data Items (x : Types) : Type 0 where
    nil : Items x
    cons : Value x → Items x → Items x

  pub data Fields (x : Types) : Type 0 where
    done : Fields x
    field : String → Value x → Fields x → Fields x

-- `MontyObject`, with the variants that the server builds
mutual
  pub data Object (x : Types) : Type 0 where
    none_object : Object x
    ellipsis : Object x
    bool_object : Bool → Object x
    int : ℤ → Object x
    float : x.Float → Object x
    text : String → Object x
    bytes : List ℕ → Object x
    path : String → Object x
    list tuple set frozen_set : Objects x → Object x
    dict : Pairs x → Object x
    function : (name : String) → (docstring : Option String) → Object x
    other : x.OtherObject → Object x

  pub data Objects (x : Types) : Type 0 where
    empty : Objects x
    more : Object x → Objects x → Objects x

  pub data Pairs (x : Types) : Type 0 where
    no_pairs : Pairs x
    pair : Object x → Object x → Pairs x → Pairs x

-- `RunProgress<StatsTracker>`
pub data RunProgress (x : Types) : Type 0 where
  function_call : x.FunctionCall → RunProgress x
  name_lookup : x.NameLookup → RunProgress x
  resolve_futures : x.Futures → RunProgress x
  os_call : x.OsCall → RunProgress x
  complete : Object x → RunProgress x

-- `ExtFunctionResult`
pub data ExtFunctionResult (x : Types) : Type 0 where
  returned : Object x → ExtFunctionResult x
  error : x.Exception → ExtFunctionResult x

-- `NameLookupResult`
pub data NameLookupResult (x : Types) : Type 0 where
  value : Object x → NameLookupResult x
  undefined : NameLookupResult x

-- `PrintStream`
pub data PrintStream : Type 0 where
  stdout stderr : PrintStream

-- `CodeLoc` and `StackFrame`, with the fields that the server reads
pub record CodeLoc : Type 0 where
  pub line : ℕ
  pub column : ℕ

pub record StackFrame : Type 0 where
  pub filename : String
  pub frame_name : Option String
  pub start : CodeLoc
  pub end : CodeLoc
  pub preview_line : Option String

-- What one stretch of execution does: its result, the calls that it makes on its tracker, and the
-- fragments that it prints, in order.
pub record Execution (x : Types) (A : Type 0) : Type 0 where
  pub outcome : Result A x.Exception
  pub calls : List Call
  pub printed : List (PrintStream × String)

-- The operations. An execution sees the state of its tracker; what it does to that is in `calls`.
pub record Externals (x : Types) : Type 0 where
  -- serde_json, base64 and std
  pub as_i64 : x.Number → Option ℤ
  pub as_u64 : x.Number → Option ℕ
  pub as_f64 : x.Number → Option x.Float
  pub literal : x.Number → String  -- `to_string`
  pub nan : x.Float
  pub infinity : x.Float
  pub neg_infinity : x.Float
  pub base64_decode : String → Result (List ℕ) String
  pub base64_encode : List ℕ → String
  pub map_insert : String → Value x → Fields x → Fields x  -- `Map::insert`
  pub debug : String → String  -- `{:?}`
  -- monty: values and exceptions
  pub to_value : Object x → Result (Value x) String  -- `JsonMontyObject`
  pub slice_to_value : Objects x → Result (Value x) String  -- `JsonMontyArray`
  pub parse_exc_type : String → Option x.ExcType
  pub permission_error : x.ExcType
  pub new_exception : x.ExcType → Option String → x.Exception
  pub exc_type_name : x.Exception → String
  pub exc_message : x.Exception → Option String
  pub exc_summary : x.Exception → String
  pub exc_traceback : x.Exception → List StackFrame
  pub exc_text : x.Exception → String
  -- monty: programs
  pub compile : (code filename : String) → (input_names : List String) → Result x.Run x.Exception
  pub dump : x.Run → Option (List ℕ)
  pub load : List ℕ → Result x.Run String
  pub run : x.Run → Objects x → Tracker → Execution x (Object x)
  pub start : x.Run → Objects x → Tracker → Execution x (RunProgress x)
  -- monty: pauses
  pub call_id : x.FunctionCall → ℕ
  pub function_name : x.FunctionCall → String
  pub method_call : x.FunctionCall → Bool
  pub args : x.FunctionCall → Objects x
  pub kwargs : x.FunctionCall → Pairs x
  pub lookup_name : x.NameLookup → String
  pub pending_call_ids : x.Futures → List ℕ
  pub resume_call : x.FunctionCall → ExtFunctionResult x → Tracker → Execution x (RunProgress x)
  pub resume_pending : x.FunctionCall → Tracker → Execution x (RunProgress x)
  pub resume_lookup : x.NameLookup → NameLookupResult x → Tracker → Execution x (RunProgress x)
  pub resume_futures :
      x.Futures → List (ℕ × ExtFunctionResult x) → Tracker → Execution x (RunProgress x)
  pub resume_os : x.OsCall → x.Exception → Tracker → Execution x (RunProgress x)
