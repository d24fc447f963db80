-- ===== src/Tests/Runs.antt =====
-- Tests of src/api/run.rs: a program that asks for more memory than its limit.
use monty_server.Common.{◌≡◌, refl, none, some, [], ◌∷◌, ok, err}
use mathlib.Core.Option
use monty_server.Tracker.{ExecStats, allocates}
use monty_server.Tracker.Breaches.{kind, first_refusal}
use monty_server.External.{Externals, empty, stderr}
use monty_server.Engine.{Output}
use monty_server.Api.{completes}
use monty_server.Api.Dto.{SourceFields, SourceSpec, code, into_spec}
use monty_server.Api.Run.{run}
use monty_server.Api.Run.Blame.{blamed, fresh_tracker, program_of, run-blames_first}
use monty_server.Tests.Samples.{types, externals, bounds, greedy, readings}

-- An interpreter whose programs end in an exception as they pass their memory limit.
abbrev exhausted : Externals types
exhausted = record externals {
  run = λ _ _ _. record {
    outcome = err "MemoryError";
    calls = allocates 64 ∷ allocates 4096 ∷ [];
    printed = (stderr, "err") ∷ [];
  };
}

abbrev request : SourceFields types
request = record {
  code = some "grow()";
  snapshot = none;
  filename = none;
  inputs = none;
  limits = some greedy;
}

abbrev spec : SourceSpec types
spec = code "grow()" "main.py" [] empty

run-blames_first_example :
    (o : Output) × (s : ExecStats) × (run exhausted bounds readings completes request
      ≡ ok (
          blamed exhausted
            (Option.map kind (
              first_refusal
                (allocates 64 ∷ allocates 4096 ∷ [])
                (fresh_tracker exhausted bounds readings request)))
            "MemoryError"
            o
            s))
unfolding into_spec program_of
run-blames_first_example =
    run-blames_first exhausted bounds readings request spec 0 empty "MemoryError" refl refl refl
