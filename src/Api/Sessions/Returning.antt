-- ===== src/Api/Sessions/Returning.antt =====
-- The handlers of src/api/sessions.rs return, whatever the request and the store.
use monty_server.Common.{
  ℕ, refl, String, Option, ok, err, Result-cases, inl, inr, Returns, some-Returns, same-Returns,
  map-Returns,
}
use monty_server.Error.{ApiResult}
use monty_server.Config.{LimitBounds, SessionConfig}
use monty_server.Limits.{ResolvedLimits, resolve}
use monty_server.Tracker.{Tracker}
use monty_server.External.{Types, Externals, RunProgress}
use monty_server.Convert.{api_exception}
use monty_server.Engine.{ResumeInput}
use monty_server.Engine.Settling.{OsBudget}
use monty_server.Engine.Returning.{start_session-Returns, resume_session-Returns}
use monty_server.Session.{SessionStore}
use monty_server.Api.{TaskEnd, completes, refused, panics}
use monty_server.Api.Dto.{SourceSpec, code, snapshot, into_spec}
use monty_server.Api.Sessions.Requests.{
  CreateSessionRequest, ResumeRequest, into_input, resolve_ttl,
}
use monty_server.Api.Sessions.Handlers.{
  Surroundings, StartOutcome, started, spawned, begin_resume, settle_resume, acquired_resume,
  resume, start_task, store_started, create,
}

-- The surroundings with another fuel.
abbrev pub with_fuel : Surroundings → ℕ → Surroundings
with_fuel at fuel = record at { fuel = fuel }

pub spawned-Returns :
    {A : Type 0} (task_end : TaskEnd) {run : ℕ → Option A}
    → Returns run
    → Returns (λ fuel. spawned task_end (run fuel))
unfolding spawned
spawned-Returns completes r = map-Returns _ r
spawned-Returns refused r = some-Returns _
spawned-Returns panics r = some-Returns _

module _ {x : Types} (m : Externals x) (b : OsBudget m) where
  acquired_resume-Returns :
      (at : Surroundings) (id : ℕ) (input : ResumeInput x)
      (begun : ApiResult (ℕ × RunProgress x × Tracker) × SessionStore x)
      → Returns (λ fuel. acquired_resume m (with_fuel at fuel) id input begun)
  unfolding acquired_resume settle_resume
  acquired_resume-Returns at id input (err e, s) = some-Returns _
  acquired_resume-Returns at id input (ok (ref, progress, t), s) =
      map-Returns (λ r. settle_resume m at id ref r s)
        (spawned-Returns at.task_end (resume_session-Returns m b at.readings progress t input))

  pub resume-Returns :
      (show : ℕ → String) (at : Surroundings) (caller : String) (id : ℕ) (request : ResumeRequest x)
      (s : SessionStore x)
      → Returns (λ fuel. resume m show (with_fuel at fuel) caller id request s)
  unfolding resume
  resume-Returns show at caller id request s = elim (Result-cases (into_input m show request)) [
    | inl (input, read) ↦
        same-Returns (λ fuel. rw (resume, read) refl)
          (acquired_resume-Returns at id input (begin_resume id caller s))
    | inr (e, bad) ↦ same-Returns (λ fuel. rw (resume, bad) refl) (some-Returns (err e, s))
  ]

  pub start_task-Returns :
      (at : Surroundings) (limits : ResolvedLimits) (spec : SourceSpec x)
      → Returns (λ fuel. start_task m (with_fuel at fuel) limits spec)
  unfolding start_task
  start_task-Returns at limits (snapshot program inputs) =
      map-Returns (λ r. started r.1 r.0)
        (start_session-Returns m b at.readings program inputs limits)
  start_task-Returns at limits (code text filename input_names inputs) =
      elim (Result-cases (m.compile text filename input_names)) [
        | inl (program, compiled) ↦
            same-Returns (λ fuel. rw (start_task, compiled) refl)
              (map-Returns (λ r. started r.1 r.0)
                (start_session-Returns m b at.readings program inputs limits))
        | inr (e, failed) ↦
            same-Returns (λ fuel. rw (start_task, failed) refl)
              (some-Returns (StartOutcome.compile_failed (api_exception m e)))
      ]

  pub create-Returns :
      (show : ℕ → String) (bounds : LimitBounds) (config : SessionConfig) (at : Surroundings)
      (caller : String) (request : CreateSessionRequest x) (s : SessionStore x)
      → Returns (λ fuel. create m show bounds config (with_fuel at fuel) caller request s)
  unfolding create store_started
  create-Returns show bounds config at caller request s =
      elim (Result-cases (into_spec m request.source)) [
        | inl (spec, read) ↦
            same-Returns (λ fuel. rw (create, read) refl)
              (map-Returns
                (λ r. store_started m show at (resolve_ttl request.ttl_seconds config) caller r s)
                (spawned-Returns at.task_end
                  (start_task-Returns at (resolve request.source.limits bounds) spec)))
        | inr (e, bad) ↦ same-Returns (λ fuel. rw (create, bad) refl) (some-Returns (err e, s))
      ]
