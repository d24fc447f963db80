-- ===== src/Api/Sessions/Handlers.antt =====
-- src/api/sessions.rs: the handlers. `resume` holds no lock while its task runs, so its parts before
-- and after that are definitions of their own, between which other requests may come.
use mathlib.Core.Option
use Prim.Native.String.{◌++◌ as str_append}
use monty_server.Common.{
  ℕ, String, Option, none, some, Result, ok, err, map_err, ok_or, ◌>>=◌, lookup, if◌then◌else◌,
  nat_key,
}
use monty_server.Error.{ApiResult, bad_request, internal, session_not_found, unavailable}
use monty_server.Config.{LimitBounds, SessionConfig}
use monty_server.Limits.{ResolvedLimits, resolve}
use monty_server.Tracker.{Tracker}
use monty_server.External.{Types, Externals, RunProgress}
use monty_server.Convert.{ApiException, api_exception}
use monty_server.Engine.{
  Readings, ResumeInput, ResumeResult, stepped, mismatch, SessionStep, start_session,
  resume_session,
}
use monty_server.Session.{
  SessionStore, SessionEntry, CreateError, AcquireError, at_capacity, get, remove, update,
  acquire_for_resume, restore, store_step,
}
use monty_server.Session as Store
use monty_server.Api.{
  TaskEnd, completes, refused, panics, joined, closed, panicked, spawn_execution,
}
use monty_server.Api.Dto.{SourceSpec, code, snapshot, into_spec}
use monty_server.Api.Sessions.Requests.{
  CreateSessionRequest, ResumeRequest, into_input, resolve_ttl,
}
use monty_server.Api.Sessions.View.{SessionView, render, acquire_error}

-- `CreateOutcome`
pub data CreateOutcome (x : Types) : Type 0 where
  created : SessionView x → CreateOutcome x
  compile_failed : ApiException → CreateOutcome x

-- `StartOutcome`
pub data StartOutcome (x : Types) : Type 0 where
  started : Tracker → SessionStep x → StartOutcome x
  compile_failed : ApiException → StartOutcome x

-- What a handler reads from its surroundings: the readings of the clock around the execution, when
-- the entry is stored and when it is shown, how the task ends, and the fresh uuid.
pub record Surroundings : Type 0 where
  pub fuel : ℕ
  pub readings : Readings
  pub stored_at : ℕ
  pub shown_at : ℕ
  pub task_end : TaskEnd
  pub fresh_id : ℕ

-- A task for `spawn_execution`; `none` is one that does not return.
unfoldable pub spawned : {A : Type 0} → TaskEnd → Option A → Option (ApiResult A)
spawned completes result = Option.map (λ a. spawn_execution (joined (ok a))) result
spawned refused result = some (spawn_execution closed)
spawned panics result = some (spawn_execution panicked)

module _ {x : Types} where
  -- the entry behind a reference, locked
  abbrev pub entry_at : (ref : ℕ) → SessionStore x → ApiResult (SessionEntry x)
  entry_at ref s = elim (lookup ref s.heap) [ none ↦ err internal | some c ↦ ok c.entry ]

  -- the acquisition in `resume`, once it has run on the entry; a refusal leaves that as it was
  unfoldable pub acquired_at :
      (ref : ℕ)
      → SessionStore x
      → Result (RunProgress x × Tracker) AcquireError × SessionEntry x
      → ApiResult (ℕ × RunProgress x × Tracker) × SessionStore x
  acquired_at ref s (ok (progress, t), e) = (ok (ref, progress, t), update ref (λ _. e) s)
  acquired_at ref s (err f, e) = (err (acquire_error f), s)

  -- `resume` up to its task: the reference, and what was taken out of the entry
  unfoldable pub begin_resume :
      (id : ℕ) → String → SessionStore x → ApiResult (ℕ × RunProgress x × Tracker) × SessionStore x
  unfolding acquired_at
  begin_resume id principal s = elim (get id principal s) [
    | none ↦ (err session_not_found, s)
    | some ref ↦ elim (entry_at ref s) [
      | err e ↦ (err e, s)
      | ok e ↦ acquired_at ref s (acquire_for_resume e)
    ]
  ]

  -- `resume` after its task has returned
  unfoldable pub finish_resume :
      (ref now : ℕ)
      → ResumeResult x × Tracker
      → SessionStore x
      → ApiResult (Unit {0}) × SessionStore x
  finish_resume ref now (stepped step, t) s = (ok tt, update ref (store_step step t now) s)
  finish_resume ref now (mismatch progress e, t) s =
      (err (bad_request e), update ref (restore progress) s)

module _ {x : Types} (m : Externals x) where
  -- the end of every handler that shows a session
  unfoldable pub show_entry : (id now ref : ℕ) → SessionStore x → ApiResult (SessionView x)
  show_entry id now ref s = do e ← entry_at ref s; render m id now e

  -- the task and the rest of `resume`, with nothing between the storing of the step and the view,
  -- for which the source locks the entry again; an error of the task leaves the store as it is
  unfoldable pub settle_resume :
      Surroundings
      → (id ref : ℕ) → ApiResult (ResumeResult x × Tracker)
      → SessionStore x
      → ApiResult (SessionView x) × SessionStore x
  unfolding finish_resume show_entry
  settle_resume at id ref (err e) s = (err e, s)
  settle_resume at id ref (ok result) s =
      let (finished, s') = finish_resume ref at.stored_at result s in
      ((do _ ← finished; show_entry id at.shown_at ref s'), s')

  unfoldable pub acquired_resume :
      Surroundings
      → (id : ℕ) → ResumeInput x
      → ApiResult (ℕ × RunProgress x × Tracker) × SessionStore x
      → Option (ApiResult (SessionView x) × SessionStore x)
  unfolding settle_resume spawned
  acquired_resume at id input (err e, s) = some (err e, s)
  acquired_resume at id input (ok (ref, progress, t), s) =
      Option.map (λ r. settle_resume at id ref r s)
        (spawned at.task_end (resume_session m at.fuel at.readings progress t input))

  -- `resume`, with no other request in between
  unfoldable pub resume :
      (show : ℕ → String)
      → Surroundings
      → String
      → (id : ℕ) → ResumeRequest x
      → SessionStore x
      → Option (ApiResult (SessionView x) × SessionStore x)
  unfolding acquired_resume
  resume show at caller id request s = elim (into_input m show request) [
    | err e ↦ some (err e, s)
    | ok input ↦ acquired_resume at id input (begin_resume id caller s)
  ]

  -- `status`
  unfoldable pub status : (now : ℕ) → String → (id : ℕ) → SessionStore x → ApiResult (SessionView x)
  status now caller id s = do
    ref ← ok_or (get id caller s) session_not_found
    show_entry id now ref s

  -- `delete`, with the status code of its answer
  unfoldable pub delete : String → (id : ℕ) → SessionStore x → ApiResult ℕ × SessionStore x
  delete caller id s =
      let (removed, s') = remove id caller s in
      (if removed then ok 204 else err session_not_found, s')

  -- the task of `create`
  unfoldable pub start_task : Surroundings → ResolvedLimits → SourceSpec x → Option (StartOutcome x)
  start_task at limits (snapshot program inputs) =
      Option.map (λ r. started r.1 r.0) (start_session m at.fuel at.readings program inputs limits)
  start_task at limits (code text filename input_names inputs) =
      elim (m.compile text filename input_names) [
        | err e ↦ some (compile_failed (api_exception m e))
        | ok program ↦
            Option.map (λ r. started r.1 r.0)
              (start_session m at.fuel at.readings program inputs limits)
      ]

  -- the text of `CreateError`; `show` prints a `usize`
  capacity_text : (show : ℕ → String) → CreateError → String
  capacity_text show (at_capacity n) =
      str_append "session capacity reached (" (str_append (show n) " live sessions); retry later")

  -- `create` after its task
  unfoldable pub store_started :
      (show : ℕ → String)
      → Surroundings
      → (ttl : ℕ) → String
      → ApiResult (StartOutcome x)
      → SessionStore x
      → ApiResult (CreateOutcome x) × SessionStore x
  unfolding show_entry capacity_text
  store_started show at ttl caller (err e) s = (err e, s)
  store_started show at ttl caller (ok (compile_failed e)) s = (ok (compile_failed e), s)
  store_started show at ttl caller (ok (started t step)) s =
      let (stored, s') = Store.create caller ttl t step at.fresh_id at.stored_at s in
      (
        (do
          id ← map_err (λ e. unavailable (capacity_text show e)) stored
          ref ← ok_or (get id caller s') internal
          view ← show_entry id at.shown_at ref s'
          ok (created view)),
        s',
      )

  -- `create`
  unfoldable pub create :
      (show : ℕ → String)
      → LimitBounds
      → SessionConfig
      → Surroundings
      → String
      → CreateSessionRequest x
      → SessionStore x
      → Option (ApiResult (CreateOutcome x) × SessionStore x)
  unfolding start_task store_started spawned
  create show bounds config at caller request s = elim (into_spec m request.source) [
    | err e ↦ some (err e, s)
    | ok spec ↦
        Option.map (λ r. store_started show at (resolve_ttl request.ttl_seconds config) caller r s)
          (spawned at.task_end (start_task at (resolve request.source.limits bounds) spec))
  ]
