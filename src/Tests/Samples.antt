-- ===== src/Tests/Samples.antt =====
-- An interpreter for the tests: a program is a number of calls, an OS call the number of those after
-- it, and a name lookup always fails.
use monty_server.Common.{
  ℕ, zero, suc, String, false, Option, none, some, List, [], ◌∷◌, Result, ok, err,
}
use monty_server.Common.Int.{ℤ, pos, negsuc}
use monty_server.Config.{LimitBounds}
use monty_server.Limits.{LimitsRequest}
use monty_server.Tracker.{allocates, checks_time}
use monty_server.External.{
  Types, Externals, null, field, none_object, RunProgress, function_call, resolve_futures, os_call,
  complete, Objects, Pairs, Execution, stdout, stderr,
}
use monty_server.Engine.{Readings}

abbrev pub types : Types
types = record {
  Number = ℤ;
  Float = Unit;
  OtherObject = Unit;
  ExcType = String;
  Exception = String;
  Run = ℕ;
  FunctionCall = ℕ;
  NameLookup = String;
  Futures = List ℕ;
  OsCall = ℕ;
}

abbrev natural : ℤ → Option ℕ
natural (pos n) = some n
natural (negsuc n) = none

abbrev pub stops : {A : Type 0} → Result A String → Execution types A
stops outcome = record {
  outcome = outcome;
  calls = allocates 64 ∷ checks_time 7 ∷ [];
  printed = (stdout, "out") ∷ (stderr, "err") ∷ [];
}

abbrev pub after_os : ℕ → Result (RunProgress types) String
after_os zero = ok (complete none_object)
after_os (suc n) = ok (os_call n)

abbrev pub externals : Externals types
externals = record {
  as_i64 = λ n. some n;
  as_u64 = natural;
  as_f64 = λ _. none;
  literal = λ _. "0";
  nan = tt;
  infinity = tt;
  neg_infinity = tt;
  base64_decode = λ _. err "bad";
  base64_encode = λ _. "";
  map_insert = λ name v fields. field name v fields;
  debug = λ s. s;
  to_value = λ _. ok null;
  slice_to_value = λ _. ok null;
  parse_exc_type = λ s. some s;
  permission_error = "PermissionError";
  new_exception = λ exc_type _. exc_type;
  exc_type_name = λ e. e;
  exc_message = λ _. none;
  exc_summary = λ e. e;
  exc_traceback = λ _. [];
  exc_text = λ e. e;
  compile = λ _ _ _. ok 0;
  dump = λ _. some [];
  load = λ _. ok 0;
  run = λ _ _ _. stops (ok none_object);
  start = λ n _ _. stops (ok (function_call n));
  call_id = λ n. n;
  function_name = λ _. "f";
  method_call = λ _. false;
  args = λ _. Objects.empty;
  kwargs = λ _. Pairs.no_pairs;
  lookup_name = λ s. s;
  pending_call_ids = λ ids. ids;
  resume_call = λ n _ _. stops (after_os n);
  resume_pending = λ n _. stops (ok (resolve_futures (n ∷ [])));
  resume_lookup = λ _ _ _. stops (err "NameError");
  resume_futures = λ _ _ _. stops (ok (complete none_object));
  resume_os = λ n _ _. stops (after_os n);
}

abbrev pub bounds : LimitBounds
bounds = record {
  default_duration = 5000;
  max_duration = 10000;
  default_memory_bytes = 1000;
  max_memory_bytes = 2000;
  default_max_allocations = 10;
  max_allocations = 20;
  default_recursion_depth = 5;
  max_recursion_depth = 6;
}

abbrev pub greedy : LimitsRequest
greedy = record {
  max_duration_ms = none;
  max_memory_bytes = some 1000000;
  max_allocations = none;
  max_recursion_depth = some 3;
}

abbrev pub readings : Readings
readings = record { created = 0; begins = 1; ends = 9; restarts = 10; reads = 11 }
