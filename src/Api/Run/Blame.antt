-- ===== src/Api/Run/Blame.antt =====
-- What `POST /v1/run` (src/api/run.rs) reports of an execution that fails.
use mathlib.Core.Option
use monty_server.Common.{
  arith, inl, inr, Result-cases, ok-injective, ◌≡◌, refl, ◌∙◌, ap, sym, Option, none, some, Result,
  ok, err, ◌>>=◌,
}
use monty_server.Config.{LimitBounds}
use monty_server.Limits.{ResolvedLimits, resolve}
use monty_server.Tracker.{
  Tracker, Breach, ExecStats, new, breach, begin_segment, end_segment, stats, run as run_calls,
}
use monty_server.Tracker.Breaches.{kind, first_refusal, breach-run}
use monty_server.External.{Types, Externals, Objects}
use monty_server.Convert.{api_exception}
use monty_server.Engine.{Output, Readings, ExecResult, join_streams, run_to_completion}
use monty_server.Api.{completes, spawn_execution}
use monty_server.Api.Dto.{
  SourceFields, SourceSpec, code, snapshot, into_spec, Outcome, exception, limit_exceeded,
  breach_name, from_exec_result,
}
use monty_server.Api.Run.{execute, complete_run, run}

module _ {x : Types} (m : Externals x) where
  -- The program of a request, compiled or loaded, and its inputs.
  unfoldable pub program_of : SourceSpec x → Result (x.Run × Objects x) x.Exception
  program_of (code text filename input_names inputs) = do
    program ← m.compile text filename input_names
    ok (program, inputs)
  program_of (snapshot program inputs) = ok (program, inputs)

  -- The execution of a program under the limits, on a fresh tracker.
  abbrev pub tracker_of : Readings → ResolvedLimits → Tracker
  tracker_of at limits = begin_segment at.begins (new limits at.created)

  -- A failure, as the limit that was met or else as the exception.
  unfoldable pub blamed : Option Breach → x.Exception → Output → ExecStats → Outcome x
  blamed (some b) e o s = limit_exceeded (breach_name b) (api_exception m e) o.stdout o.stderr s
  blamed none e o s = exception (api_exception m e) o.stdout o.stderr s

  from_failed :
      (e : x.Exception) (b : Option Breach) (o : Output) (s : ExecStats)
      → from_exec_result m (ExecResult.failed e b o s) ≡ ok (blamed b e o s)
  unfolding from_exec_result blamed
  from_failed e none o s = refl
  from_failed e (some b) o s = refl

  -- The breach that is reported is the kind of the first call that was refused.
  complete_run-failed :
      (at : Readings) (limits : ResolvedLimits) (program : x.Run) (inputs : Objects x)
      (e : x.Exception)
      → (m.run program inputs (tracker_of at limits)).outcome ≡ err e
      → (o : Output) × (s : ExecStats) × (complete_run m at limits program inputs
          ≡ ok (
              blamed
                (Option.map kind (
                  first_refusal
                    (m.run program inputs (tracker_of at limits)).calls
                    (tracker_of at limits)))
                e
                o
                s))
  unfolding complete_run run_to_completion begin_segment end_segment new breach
  complete_run-failed at limits program inputs e failed =
      let t = tracker_of at limits in
      let execution = m.run program inputs t in
      let after = end_segment at.ends at.restarts (run_calls execution.calls t) in
      let o = join_streams execution.printed in
      let s = stats at.reads after in
      let blame : breach after ≡ Option.map kind (first_refusal execution.calls t) =
        breach-run execution.calls t refl in
      (
        o,
        s,
        rw (complete_run, run_to_completion, failed)
            (from_failed e (breach after) o s ∙ ap (λ b. ok (blamed b e o s)) blame),
      )

  execute-program :
      (at : Readings) (limits : ResolvedLimits) (spec : SourceSpec x) (program : x.Run)
      (inputs : Objects x)
      → program_of spec ≡ ok (program, inputs)
      → execute m at limits spec ≡ complete_run m at limits program inputs
  unfolding execute program_of
  execute-program at limits (code text filename input_names values) program inputs h =
      elim (Result-cases (m.compile text filename input_names)) [
        | inl (built, e) ↦
            rw (execute, e)
              (ap (λ (p : x.Run × Objects x). complete_run m at limits p.0 p.1)
                (ok-injective (compiled_as built e)))
        | inr (e, bad) ↦ ground (arith, h, bad)
      ]
    where
      compiled_as :
          (built : x.Run)
          → m.compile text filename input_names ≡ ok built
          → ◌≡◌ {A = Result (x.Run × Objects x) x.Exception}
              (ok (built, values))
              (ok (program, inputs))
      compiled_as built e = sym (ap (λ r. r >>= λ p. ok (p, values)) e) ∙ h
  execute-program at limits (snapshot loaded values) program inputs h =
      ap (λ (p : x.Run × Objects x). complete_run m at limits p.0 p.1) (ok-injective h)

  -- The tracker that a request's program runs on.
  abbrev pub fresh_tracker : LimitBounds → Readings → SourceFields x → Tracker
  fresh_tracker bounds at request = tracker_of at (resolve request.limits bounds)

  -- If a request for a run reads as a program that compiles or loads, and its execution ends in an
  -- exception, its task completing, then the answer is `limit_exceeded` with the limit of the first
  -- call of the tracker that was refused, or `exception` if none was.
  pub run-blames_first :
      (bounds : LimitBounds) (at : Readings) (request : SourceFields x) (spec : SourceSpec x)
      (program : x.Run) (inputs : Objects x) (e : x.Exception)
      → into_spec m request ≡ ok spec
      → program_of spec ≡ ok (program, inputs)
      → (m.run program inputs (fresh_tracker bounds at request)).outcome ≡ err e
      → (o : Output) × (s : ExecStats) × (run m bounds at completes request
          ≡ ok (
              blamed
                (Option.map kind (
                  first_refusal
                    (m.run program inputs (fresh_tracker bounds at request)).calls
                    (fresh_tracker bounds at request)))
                e
                o
                s))
  unfolding run spawn_execution
  run-blames_first bounds at request spec program inputs e read compiled failed =
      let limits = resolve request.limits bounds in
      let (o, s, reported) = complete_run-failed at limits program inputs e failed in
      (o, s, rw (run, read) (execute-program at limits spec program inputs compiled ∙ reported))
