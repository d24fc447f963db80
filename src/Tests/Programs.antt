-- ===== src/Tests/Programs.antt =====
-- Tests of src/engine.rs and src/convert.rs.
use monty_server.Common.{◌↔◌, ℕ, zero, suc, ◌+◌, ◌<◌, ◌≡◌, refl, String, some, [], ◌∷◌, ok, arith}
use monty_server.Common.Int.{pos, negsuc}
use monty_server.Limits.{resolve}
use monty_server.Tracker.{
  Tracker, ExecStats, new, memory, code_of_breach, run, stats, breach, begin_segment, end_segment,
}
use monty_server.External.{
  Value, array, cons, nil, number, null, string, object, field, done, Object, none_object, int,
  text, bytes, tuple, dict, empty, more, pair, no_pairs, function_call, name_lookup,
  resolve_futures, os_call, stdout, stderr,
}
use monty_server.Convert.{json_to_monty}
use monty_server.Convert.Format.{Reads}
use monty_server.Convert.Format.Exact.{json_to_monty-Reads}
use monty_server.Convert.Wire.{NumberLaws, encode, json_to_monty-encode}
use monty_server.Engine.{
  Output, SessionStep, paused, ResumeInput, stepped, Context, join_streams, settle, denied,
  is_match, check_resume, apply_resume, conclude, end_and_finish, finish_step, begun, start_session,
  resume_session, run_to_completion,
}
use monty_server.Engine.Settling.{OsBudget, IsActionable}
use monty_server.Engine.Resuming.{resume_session-IsActionable, resume_session_returns}
use monty_server.Engine.Metering.{
  IsUnder, Life, started, step_stats, exec_stats, session-IsUnder_ceiling, run-IsUnder_ceiling,
  failed_blames_first,
}
use monty_server.Engine.Streams.{printed_on, join_streams-printed}
use monty_server.Tests.Samples.{types, externals, bounds, greedy, readings}

abbrev fresh : Tracker
fresh = new (resolve (some greedy) bounds) 0

abbrev context : Context
context = record { tracker = fresh; fragments = [] }

pub os_falls :
    (call next : ℕ) (t : Tracker)
    → (externals.resume_os call (denied externals) t).outcome ≡ ok (os_call next)
    → next < call
os_falls zero next t h = cc
os_falls (suc n) next t h = ground arith

abbrev pub os_budget : OsBudget externals
os_budget = record { budget = λ n. n; falls = os_falls }

resume_session_returns_example :
    (fuel : ℕ) × (step : SessionStep types) × (t' : Tracker) × ((extra : ℕ)
      → resume_session externals
          (fuel + extra)
          readings
          (function_call 3)
          fresh
          (ResumeInput.return none_object)
        ≡ some (stepped step, t'))
unfolding is_match
resume_session_returns_example =
    resume_session_returns externals os_budget readings (function_call 3) fresh
      (ResumeInput.return none_object) refl

abbrev printed : Output
printed = record { stdout = "out"; stderr = "err" }

abbrev reported : ExecStats
reported = record { duration = 9; allocations = 1; peak_memory_bytes = 64 }

-- What a stretch of the test programs makes of a tracker that has not been used.
abbrev pub used : Tracker → Tracker
used t = record t {
  allocations = 1;
  live_memory = 64;
  peak_memory = 64;
  time_check_counter = 1;
  clock = record { segment_start = 10; accumulated = 8 };
}

resume_session-IsActionable_example : IsActionable {x = types} (resolve_futures (4 ∷ []))
unfolding resume_session new resolve check_resume apply_resume conclude settle end_and_finish
    finish_step end_segment begun stats run begin_segment
resume_session-IsActionable_example =
    resume_session-IsActionable externals 9 readings (function_call 4) fresh ResumeInput.pending
      (resolve_futures (4 ∷ [])) printed reported (used fresh) refl

abbrev breached : Tracker
breached = record fresh { breach_code = code_of_breach memory }

failed_blames_first_example : some memory ≡ some memory
unfolding resume_session new resolve breach check_resume apply_resume conclude settle end_and_finish
    finish_step end_segment begun stats run begin_segment
failed_blames_first_example =
    failed_blames_first externals 9 readings (name_lookup "f") breached ResumeInput.name_undefined
      "NameError" (some memory) printed reported (used breached) memory refl refl

life :
    Life externals
      (resolve (some greedy) bounds)
      (paused (function_call 4) printed reported)
      (used fresh)
unfolding start_session new resolve conclude settle end_and_finish finish_step end_segment begun
    stats run begin_segment
life = started 9 readings 4 empty refl

session-IsUnder_ceiling_example :
    IsUnder bounds (step_stats {x = types} (paused (function_call 4) printed reported))
session-IsUnder_ceiling_example =
    session-IsUnder_ceiling externals (some greedy) bounds
      (paused (function_call 4) printed reported) (used fresh) life

run-IsUnder_ceiling_example :
    IsUnder bounds
      (exec_stats (run_to_completion externals readings 4 empty (resolve (some greedy) bounds)))
run-IsUnder_ceiling_example = run-IsUnder_ceiling externals (some greedy) bounds readings 4 empty

join_streams-printed_example :
    join_streams ((stdout, "a") ∷ (stderr, "b") ∷ (stdout, "c") ∷ []) ≡ record {
      stdout = printed_on stdout ((stdout, "a") ∷ (stderr, "b") ∷ (stdout, "c") ∷ []);
      stderr = printed_on stderr ((stdout, "a") ∷ (stderr, "b") ∷ (stdout, "c") ∷ []);
    }
join_streams-printed_example =
    join_streams-printed ((stdout, "a") ∷ (stderr, "b") ∷ (stdout, "c") ∷ [])

abbrev laws : NumberLaws externals
laws = record {
  from_i64 = λ i. i;
  from_u8 = λ n. pos n;
  as_i64-from_i64 = λ i _. refl;
  as_u64-from_u8 = λ n _. refl;
}

abbrev sent : Object types
sent = tuple (
    more (int (negsuc 4))
      (more (bytes (7 ∷ 255 ∷ [])) (more (dict (pair none_object (text "x") no_pairs)) empty)))

abbrev tagged : String → Value types → Value types
tagged tag body = object (field tag body done)

abbrev sent_value : Value types
sent_value = tagged "$tuple" (
    array (
      cons (number (negsuc 4)) (
        cons (tagged "$bytes" (array (cons (number (pos 7)) (cons (number (pos 255)) nil)))) (
          cons (tagged "$dict" (array (cons (array (cons null (cons (string "x") nil))) nil)))
            nil))))

json_to_monty-encode_example : json_to_monty externals sent_value ≡ ok sent
unfolding encode
json_to_monty-encode_example = json_to_monty-encode laws sent sent_value refl

json_to_monty-Reads_example :
    (json_to_monty externals sent_value ≡ ok sent) ↔ Reads externals sent_value sent
json_to_monty-Reads_example = json_to_monty-Reads externals sent_value sent
