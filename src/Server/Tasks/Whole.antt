-- ===== src/Server/Tasks/Whole.antt =====
-- A request that nothing interrupts (`serve`) goes through the two halves of its handler, src/api.
use mathlib.Core.Option
use monty_server.Common.{ℕ, ◌≡◌, refl, ap, String, Option, some, ok, err, ◌>>=◌}
use monty_server.Error.{ApiResult}
use monty_server.Limits.{ResolvedLimits}
use monty_server.Tracker.{Tracker}
use monty_server.Auth.{Caller}
use monty_server.External.{Types, Externals, RunProgress}
use monty_server.Engine.{ResumeInput}
use monty_server.Session.{SessionStore}
use monty_server.Api.{joined_at, spawn_execution}
use monty_server.Api.Dto.{SourceSpec, into_spec}
use monty_server.Api.Run.{execute, run}
use monty_server.Api.Sessions.Requests.{into_input}
use monty_server.Api.Sessions.View.{SessionView}
use monty_server.Api.Sessions.Handlers.{
  CreateOutcome, Surroundings, spawned, begin_resume, acquired_resume, start_task, store_started,
  create, resume,
}
use monty_server.Server.{AppState}
use monty_server.Server.Requests.{
  Operation, run_program, compile_program, show_info, create_session, get_session, delete_session,
  continue_session, malformed, Route, get_root, get_health, v1, Answer, outcome, session_created,
  session, refused, Moment, answer_of, handle, behind_layers, serve,
}
use monty_server.Server.Tasks.{
  Opened, replies, runs, creates, works_on, opened_resume, opens, closed, opens_behind, arrive,
  answered,
}

module _ {x : Types} (m : Externals x) (show : ℕ → String) where
  closed-run :
      (at : Surroundings) (limits : ResolvedLimits) (read : ApiResult (SourceSpec x))
      (s : SessionStore x)
      → ◌≡◌ {A = Option (Answer x × SessionStore x)}
          (some (
            answer_of outcome (do
              spec ← read
              spawn_execution (joined_at at.task_end (execute m at.readings limits spec))),
            s,
          ))
          (closed m show at (works_on (runs limits) read, s))
  unfolding closed
  closed-run at limits (err e) s = refl
  closed-run at limits (ok spec) s = refl

  closed-create :
      (at : Surroundings) (ttl : ℕ) (caller : String) (limits : ResolvedLimits)
      (read : ApiResult (SourceSpec x)) (s : SessionStore x)
      → Option.map
          (λ (r : ApiResult (CreateOutcome x) × SessionStore x).
            (answer_of session_created r.0, r.1))
          (elim read as (λ _. Option (ApiResult (CreateOutcome x) × SessionStore x)) [
            | err e ↦ some (err e, s)
            | ok spec ↦
                Option.map
                  (λ r. store_started m show at ttl caller r s)
                  (spawned at.task_end (start_task m at limits spec))
          ])
        ≡ closed m show at (works_on (creates ttl caller limits) read, s)
  unfolding closed
  closed-create at ttl caller limits (err e) s = refl
  closed-create at ttl caller limits (ok spec) s = refl

  closed-opened_resume :
      (at : Surroundings) (id : ℕ) (input : ResumeInput x)
      (begun : ApiResult (ℕ × RunProgress x × Tracker) × SessionStore x)
      → Option.map
          (λ (r : ApiResult (SessionView x) × SessionStore x). (answer_of session r.0, r.1))
          (acquired_resume m at id input begun)
        ≡ closed m show at (opened_resume id input begun)
  unfolding acquired_resume opened_resume closed
  closed-opened_resume at id input (err e, s) = refl
  closed-opened_resume at id input (ok (ref, progress, t), s) = refl

  closed-continue :
      (at : Surroundings) (caller : String) (id : ℕ) (read : ApiResult (ResumeInput x))
      (s : SessionStore x)
      → Option.map
          (λ (r : ApiResult (SessionView x) × SessionStore x). (answer_of session r.0, r.1))
          (elim read as (λ _. Option (ApiResult (SessionView x) × SessionStore x)) [
            | err e ↦ some (err e, s)
            | ok input ↦ acquired_resume m at id input (begin_resume id caller s)
          ])
        ≡ closed m show at (elim read as (λ _. Opened x × SessionStore x) [
          | err e ↦ (replies (refused e), s)
          | ok input ↦ opened_resume id input (begin_resume id caller s)
        ])
  unfolding closed
  closed-continue at caller id (err e) s = refl
  closed-continue at caller id (ok input) s =
      closed-opened_resume at id input (begin_resume id caller s)

module _ {x : Types} (m : Externals x) (show : ℕ → String) (version : String)
    {Address : Type 0} where
  handle-closed :
      (at : Surroundings) (caller : Caller) (call : Operation x) (s : AppState x Address)
      → handle m show version at caller call s
        ≡ closed m show at (opens m show version at.shown_at caller call s)
  unfolding handle opens closed run create resume
  handle-closed at caller (run_program request) s =
      closed-run m show at _ (into_spec m request) s.sessions
  handle-closed at caller (compile_program request) s = refl
  handle-closed at caller show_info s = refl
  handle-closed at caller (create_session request) s =
      closed-create m show at _ caller.id _ (into_spec m request.source) s.sessions
  handle-closed at caller (get_session id) s = refl
  handle-closed at caller (delete_session id) s = refl
  handle-closed at caller (continue_session id request) s =
      closed-continue m show at caller.id id (into_input m show request) s.sessions
  handle-closed at caller (malformed status_code) s = refl

  answered-opens_behind :
      (moment : Moment) (call : Operation x) (admission : ApiResult Caller) (s : AppState x Address)
      → behind_layers m show version moment call admission s
        ≡ answered m show moment.at
            (opens_behind m show version moment.at.shown_at call admission s)
  unfolding behind_layers answered opens_behind closed
  answered-opens_behind moment call (err e) s = refl
  answered-opens_behind moment call (ok caller) s =
      ap (Option.map (λ r. (r.0, record s { sessions = r.1 })))
        (handle-closed moment.at caller call s)

  -- `serve`, which runs a request from its layers to its answer, gives in every state the answer
  -- and the state that the two halves of the request give one after the other, the first up to the
  -- blocking task, the second on the sessions that the first one left.
  pub serve-arrive :
      (moment : Moment) (route : Route x) (s : AppState x Address)
      → serve m show version moment route s
        ≡ answered m show moment.at (arrive m show version moment route s)
  unfolding serve arrive answered closed
  serve-arrive moment get_root s = refl
  serve-arrive moment get_health s = refl
  serve-arrive moment (v1 request call) s = answered-opens_behind moment call _ _
