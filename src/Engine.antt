-- ===== src/Engine.antt =====
-- src/engine.rs: the bridge to the interpreter. An execution is an operation of `Externals`; the
-- readings of the clock are arguments. `none` stands for a call that does not return: the fuel of
-- `settle` ran out, or `unreachable!` was reached.
pub mod Settling
pub mod Resuming
pub mod Metering
pub mod Streams
pub mod Returning
use mathlib.Core.Option
use Prim.Native.String.{◌++◌ as str_append}
use monty_server.Common.{
  ℕ, zero, suc, String, Bool, true, false, Option, none, some, List, [], ◌∷◌, ◌++◌, map, Result, ok,
  err,
}
use monty_server.Limits.{ResolvedLimits}
use monty_server.Tracker.{
  Tracker, Breach, ExecStats, new, begin_segment, end_segment, stats, breach, run,
}
use monty_server.External.{
  Types, Externals, Object, Objects, RunProgress, function_call, name_lookup, resolve_futures,
  os_call, ExtFunctionResult, returned, error, NameLookupResult, PrintStream, stdout, stderr,
  Execution,
}

-- `Output`
pub record Output : Type 0 where
  pub stdout : String
  pub stderr : String

-- `ExecResult`
pub data ExecResult (x : Types) : Type 0 where
  completed : Object x → Output → ExecStats → ExecResult x
  failed : x.Exception → Option Breach → Output → ExecStats → ExecResult x

-- `SessionStep`
pub data SessionStep (x : Types) : Type 0 where
  complete : Object x → Output → ExecStats → SessionStep x
  failed : x.Exception → Option Breach → Output → ExecStats → SessionStep x
  paused : RunProgress x → Output → ExecStats → SessionStep x

-- `FutureOutcome`
pub data FutureOutcome (x : Types) : Type 0 where
  return : Object x → FutureOutcome x
  raise : x.Exception → FutureOutcome x

-- `ResumeInput`
pub data ResumeInput (x : Types) : Type 0 where
  return : Object x → ResumeInput x
  raise : x.Exception → ResumeInput x
  pending : ResumeInput x
  name : Object x → ResumeInput x
  name_undefined : ResumeInput x
  futures : List (ℕ × FutureOutcome x) → ResumeInput x

-- `ResumeResult`; the error of a mismatch is its message.
pub data ResumeResult (x : Types) : Type 0 where
  stepped : SessionStep x → ResumeResult x
  mismatch : RunProgress x → String → ResumeResult x

-- The readings of the clock around one stretch of execution.
pub record Readings : Type 0 where
  pub created : ℕ
  pub begins : ℕ
  pub ends : ℕ
  pub restarts : ℕ
  pub reads : ℕ

-- What an execution changes: its tracker and the fragments printed so far.
pub record Context : Type 0 where
  pub tracker : Tracker
  pub fragments : List (PrintStream × String)

-- the `match` of `join_streams`
unfoldable pub push_fragment : Output → PrintStream × String → Output
push_fragment o (stdout, text) = record o { stdout = str_append o.stdout text }
push_fragment o (stderr, text) = record o { stderr = str_append o.stderr text }

join_onto : Output → List (PrintStream × String) → Output
unfolding push_fragment
join_onto o [] = o
join_onto o (f ∷ fs) = join_onto (push_fragment o f) fs

-- `join_streams`
unfoldable pub join_streams : List (PrintStream × String) → Output
unfolding join_onto
join_streams fragments = join_onto (record { stdout = ""; stderr = "" }) fragments

module _ {x : Types} where
  -- the calls and the printing of one stretch of execution
  unfoldable pub perform : {A : Type 0} → Execution x A → Context → Result A x.Exception × Context
  perform e c =
      (e.outcome, record { tracker = run e.calls c.tracker; fragments = c.fragments ++ e.printed })

  -- `From<FutureOutcome> for ExtFunctionResult`
  unfoldable pub ext_result : FutureOutcome x → ExtFunctionResult x
  ext_result (FutureOutcome.return v) = returned v
  ext_result (FutureOutcome.raise e) = error e

  -- `expected` in `mismatch`
  expected : RunProgress x → String
  expected (function_call _) = "a function call (expects `return`, `exception`, or `pending`)"
  expected (name_lookup _) = "a name lookup (expects `value` or `undefined`)"
  expected (resolve_futures _) = "pending futures (expects `futures`)"
  expected (os_call _) = "an OS call (handled internally; should not be exposed)"
  expected (RunProgress.complete _) = "already complete"

  -- `got` in `mismatch`
  got : ResumeInput x → String
  got (ResumeInput.return _) = "`return`"
  got (ResumeInput.raise _) = "`exception`"
  got pending = "`pending`"
  got (name _) = "`value`"
  got name_undefined = "`undefined`"
  got (futures _) = "`futures`"

  -- `mismatch`
  unfoldable pub mismatch_message : RunProgress x → ResumeInput x → String
  unfolding expected got
  mismatch_message progress input =
      str_append "session is paused on "
        (str_append (expected progress) (str_append ", but resume supplied " (got input)))

  -- the `matches!` of `check_resume`
  unfoldable pub is_match : RunProgress x → ResumeInput x → Bool
  is_match (function_call _) (ResumeInput.return _) = true
  is_match (function_call _) (ResumeInput.raise _) = true
  is_match (function_call _) pending = true
  is_match (name_lookup _) (name _) = true
  is_match (name_lookup _) name_undefined = true
  is_match (resolve_futures _) (futures _) = true
  is_match _ _ = false

  -- `check_resume`
  unfoldable pub check_resume : RunProgress x → ResumeInput x → Result (Unit {0}) String
  unfolding is_match mismatch_message
  check_resume progress input = elim (is_match progress input) [
    | true ↦ ok tt
    | false ↦ err (mismatch_message progress input)
  ]

module _ {x : Types} (m : Externals x) where
  -- `apply_resume`, with `none` for its `unreachable!`
  unfoldable pub apply_resume :
      RunProgress x → ResumeInput x → Tracker → Option (Execution x (RunProgress x))
  unfolding ext_result
  apply_resume (function_call call) (ResumeInput.return v) t =
      some (m.resume_call call (returned v) t)
  apply_resume (function_call call) (ResumeInput.raise e) t = some (m.resume_call call (error e) t)
  apply_resume (function_call call) pending t = some (m.resume_pending call t)
  apply_resume (name_lookup lookup) (name v) t =
      some (m.resume_lookup lookup (NameLookupResult.value v) t)
  apply_resume (name_lookup lookup) name_undefined t =
      some (m.resume_lookup lookup NameLookupResult.undefined t)
  apply_resume (resolve_futures fs) (futures results) t =
      some (m.resume_futures fs (map (λ r. (r.0, ext_result r.1)) results) t)
  apply_resume _ _ t = none

  -- the exception that answers every OS call
  unfoldable pub denied : x.Exception
  denied =
      m.new_exception m.permission_error
        (some "filesystem and OS access are disabled on this server")

  -- `settle`: the loop, with fuel for its rounds
  unfoldable pub settle :
      ℕ
      → Result (RunProgress x) x.Exception
      → Context
      → Option (Result (RunProgress x) x.Exception × Context)
  unfolding perform denied
  settle zero r c = none
  settle (suc fuel) (ok (os_call call)) c =
      let (r, c') = perform (m.resume_os call denied c.tracker) c in settle fuel r c'
  settle (suc fuel) r c = some (r, c)

  -- `finish_step`, with the tracker as `end_segment` left it
  unfoldable pub finish_step :
      Result (RunProgress x) x.Exception
      → Tracker
      → List (PrintStream × String)
      → (reads : ℕ) → SessionStep x
  unfolding join_streams
  finish_step (ok (RunProgress.complete result)) t fragments reads =
      SessionStep.complete result (join_streams fragments) (stats reads t)
  finish_step (ok progress) t fragments reads =
      paused progress (join_streams fragments) (stats reads t)
  finish_step (err exception) t fragments reads =
      SessionStep.failed exception (breach t) (join_streams fragments) (stats reads t)

  -- `end_segment` and `finish_step`, as `start_session` and `resume_session` end
  unfoldable pub end_and_finish :
      Readings → Result (RunProgress x) x.Exception × Context → SessionStep x × Tracker
  end_and_finish at (settled, c) =
      let t : Tracker = end_segment at.ends at.restarts c.tracker in
      (finish_step settled t c.fragments at.reads, t)

  -- `settle`, and what follows it
  unfoldable pub conclude :
      (fuel : ℕ)
      → Readings
      → Result (RunProgress x) x.Exception × Context
      → Option (SessionStep x × Tracker)
  conclude fuel at (r, c) = Option.map (end_and_finish at) (settle fuel r c)

  unfoldable pub begun : Readings → Tracker → Context
  begun at t = record { tracker = begin_segment at.begins t; fragments = [] }

  -- `start_session`
  unfoldable pub start_session :
      (fuel : ℕ) → Readings → x.Run → Objects x → ResolvedLimits → Option (SessionStep x × Tracker)
  start_session fuel at program inputs limits =
      let c : Context = begun at (new limits at.created) in
      conclude fuel at (perform (m.start program inputs c.tracker) c)

  abbrev pub as_stepped : SessionStep x × Tracker → ResumeResult x × Tracker
  as_stepped (step, t) = (stepped step, t)

  -- `resume_session`; the tracker is shared with the session, so its new state is returned
  unfoldable pub resume_session :
      (fuel : ℕ)
      → Readings
      → RunProgress x
      → Tracker
      → ResumeInput x
      → Option (ResumeResult x × Tracker)
  resume_session fuel at progress t input = elim (check_resume progress input) [
    | err e ↦ some (mismatch progress e, t)
    | ok _ ↦
        let c : Context = begun at t in
        elim (apply_resume progress input c.tracker) [
          | none ↦ none
          | some execution ↦ Option.map as_stepped (conclude fuel at (perform execution c))
        ]
  ]

  -- the result of `run_to_completion`
  exec_result : Result (Object x) x.Exception → Tracker → Output → (reads : ℕ) → ExecResult x
  exec_result (ok result) t output reads = completed result output (stats reads t)
  exec_result (err exception) t output reads =
      ExecResult.failed exception (breach t) output (stats reads t)

  -- `run_to_completion`
  unfoldable pub run_to_completion : Readings → x.Run → Objects x → ResolvedLimits → ExecResult x
  unfolding begun perform exec_result
  run_to_completion at program inputs limits =
      let c : Context = begun at (new limits at.created) in
      let (r, c') = perform (m.run program inputs c.tracker) c in
      exec_result r (end_segment at.ends at.restarts c'.tracker) (join_streams c'.fragments)
        at.reads
