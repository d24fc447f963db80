-- ===== src/Server/Tasks.antt =====
-- A request in two halves (src/api/mod.rs, src/api/run.rs, src/api/compile.rs, src/api/sessions.rs):
-- what its layers and its handler do up to the blocking task, and what the handler does from the
-- task on. Between the halves the request waits for a permit and for its task, and other requests
-- come.
pub mod Whole
use mathlib.Core.Option
use monty_server.Common.{ℕ, String, Option, some, ok, err}
use monty_server.Error.{ApiResult}
use monty_server.Limits.{ResolvedLimits, resolve}
use monty_server.Tracker.{Tracker}
use monty_server.Auth.{Caller, admit}
use monty_server.External.{Types, Externals, RunProgress}
use monty_server.Engine.{ResumeInput, resume_session}
use monty_server.Session.{SessionStore}
use monty_server.Api.{joined_at, spawn_execution}
use monty_server.Api.Dto.{SourceSpec, into_spec}
use monty_server.Api.Run.{execute}
use monty_server.Api.Compile.{CompileRequest, compile}
use monty_server.Api.Sessions.Requests.{into_input, resolve_ttl}
use monty_server.Api.Sessions.Handlers.{
  Surroundings, spawned, begin_resume, settle_resume, start_task, store_started, status, delete,
}
use monty_server.Server.{AppState}
use monty_server.Server.Meta.{root, health, info}
use monty_server.Server.Requests.{
  Operation, run_program, compile_program, show_info, create_session, get_session, delete_session,
  continue_session, malformed, Route, get_root, get_health, v1, Answer, banner, healthy, summary,
  outcome, compiled, session_created, session, empty, refused, rejected, Moment, answer_of,
}

-- What a handler holds while its task waits and runs: the arguments of the task, and those that it
-- needs after it.
pub data Job (x : Types) : Type 0 where
  runs : ResolvedLimits → SourceSpec x → Job x
  compiles : CompileRequest → Job x
  creates : (ttl : ℕ) → (caller : String) → ResolvedLimits → SourceSpec x → Job x
  resumes : (id ref : ℕ) → ResumeInput x → RunProgress x → Tracker → Job x

-- The first half ends with an answer or with a task.
pub data Opened (x : Types) : Type 0 where
  replies : Answer x → Opened x
  works : Job x → Opened x

module _ {x : Types} where
  -- the program of `run` or of `create`, if there is one
  abbrev pub works_on : (SourceSpec x → Job x) → ApiResult (SourceSpec x) → Opened x
  works_on job (err e) = replies (refused e)
  works_on job (ok spec) = works (job spec)

  -- `resume` behind its acquisition
  unfoldable pub opened_resume :
      (id : ℕ)
      → ResumeInput x
      → ApiResult (ℕ × RunProgress x × Tracker) × SessionStore x
      → Opened x × SessionStore x
  opened_resume id input (err e, s) = (replies (refused e), s)
  opened_resume id input (ok (ref, progress, t), s) = (works (resumes id ref input progress t), s)

module _ {x : Types} (m : Externals x) (show : ℕ → String) where
  -- the task of a handler and what follows it; `none` is a task that does not return
  unfoldable pub closes : Surroundings → Job x → SessionStore x → Option (Answer x × SessionStore x)
  closes at (runs limits spec) s = some (
    answer_of outcome (spawn_execution (joined_at at.task_end (execute m at.readings limits spec))),
    s,
  )
  closes at (compiles request) s = some (answer_of compiled (compile m at.task_end request), s)
  closes at (creates ttl caller limits spec) s =
      Option.map (λ r. (answer_of session_created r.0, r.1))
        (Option.map (λ r. store_started m show at ttl caller r s)
          (spawned at.task_end (start_task m at limits spec)))
  closes at (resumes id ref input progress t) s =
      Option.map (λ r. (answer_of session r.0, r.1))
        (Option.map (λ r. settle_resume m at id ref r s)
          (spawned at.task_end (resume_session m at.fuel at.readings progress t input)))

  -- What the first half leaves, through the second.
  unfoldable pub closed :
      Surroundings → Opened x × SessionStore x → Option (Answer x × SessionStore x)
  unfolding closes
  closed at (replies answer, s) = some (answer, s)
  closed at (works job, s) = closes at job s

  unfoldable pub answered :
      {Address : Type 0}
      → Surroundings
      → Opened x × AppState x Address
      → Option (Answer x × AppState x Address)
  unfolding closed
  answered at (opened, s) =
      Option.map (λ r. (r.0, record s { sessions = r.1 })) (closed at (opened, s.sessions))

module _ {x : Types} (m : Externals x) (show : ℕ → String) (version : String)
    {Address : Type 0} where
  -- the handler of a route under `/v1`, up to its task
  unfoldable pub opens :
      (now : ℕ) → Caller → Operation x → AppState x Address → Opened x × SessionStore x
  unfolding opened_resume
  opens now caller (run_program request) s =
      (works_on (runs (resolve request.limits s.config.limits)) (into_spec m request), s.sessions)
  opens now caller (compile_program request) s = (works (compiles request), s.sessions)
  opens now caller show_info s = (replies (summary (info version now s)), s.sessions)
  opens now caller (create_session request) s = (
    works_on
        (creates (resolve_ttl request.ttl_seconds s.config.sessions) caller.id
          (resolve request.source.limits s.config.limits))
        (into_spec m request.source),
    s.sessions,
  )
  opens now caller (get_session id) s =
      (replies (answer_of session (status m now caller.id id s.sessions)), s.sessions)
  opens now caller (delete_session id) s =
      let (answer, sessions) = delete m caller.id id s.sessions in
      (replies (answer_of empty answer), sessions)
  opens now caller (continue_session id request) s = elim (into_input m show request) [
    | err e ↦ (replies (refused e), s.sessions)
    | ok input ↦ opened_resume id input (begin_resume id caller.id s.sessions)
  ]
  opens now caller (malformed status_code) s = (replies (rejected status_code), s.sessions)

  -- behind `authenticate` and `rate_limit`, up to the task
  unfoldable pub opens_behind :
      (now : ℕ)
      → Operation x
      → ApiResult Caller
      → AppState x Address
      → Opened x × AppState x Address
  unfolding opens
  opens_behind now call (err e) s = (replies (refused e), s)
  opens_behind now call (ok caller) s =
      let (opened, sessions) = opens now caller call s in (opened, record s { sessions = sessions })

  -- a request on a route of `build_router`, up to its task
  unfoldable pub arrive : Moment → Route x → AppState x Address → Opened x × AppState x Address
  unfolding opens_behind
  arrive moment get_root s = (replies (banner (root version)), s)
  arrive moment get_health s = (replies (healthy health), s)
  arrive moment (v1 request call) s =
      let (admission, limiter) =
        admit s.config.auth s.config.default_rate request moment.bucket_made_at moment.checked_at
          s.rate_limiter in
      opens_behind moment.at.shown_at call admission (record s { rate_limiter = limiter })
