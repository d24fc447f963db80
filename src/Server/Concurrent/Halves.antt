-- ===== src/Server/Concurrent/Halves.antt =====
-- What the two halves of a request (src/api) do to the sessions, as steps of the relation between
-- them.
use mathlib.Core.Option
use monty_server.Common.{
  ℕ, ◌≤◌, ◌≡◌, refl, sym, subst, List, String, Option, none, some, Result, ok, err, arith,
  Option-cases, inl, inr, nat_key, lookup,
}
use monty_server.Error.{ApiResult}
use monty_server.Tracker.{Tracker}
use monty_server.Auth.{Caller}
use monty_server.Limits.{ResolvedLimits}
use monty_server.External.{Types, Externals, RunProgress}
use monty_server.Engine.{ResumeInput, ResumeResult}
use monty_server.Session.{SessionStore, SessionEntry, AcquireError, get, acquire_for_resume}
use monty_server.Api.Dto.{SourceSpec, into_spec}
use monty_server.Api.Sessions.Requests.{into_input}
use monty_server.Api.Sessions.View.{SessionView}
use monty_server.Api.Sessions.Handlers.{
  CreateOutcome, Surroundings, StartOutcome, started, compile_failed, begin_resume, settle_resume,
  acquired_at, store_started, delete,
}
use monty_server.Api.Sessions.Flights.{
  Steps, stays, follows, creates, deletes, begins, finishes, abandons, count, land,
}
use monty_server.Api.Sessions.Flights as Flights
use monty_server.Server.{AppState}
use monty_server.Server.Requests.{
  Operation, run_program, compile_program, show_info, create_session, get_session, delete_session,
  continue_session, malformed, Route, get_root, get_health, v1, Answer, Moment, answer_of, session,
  session_created,
}
use monty_server.Server.Tasks.{
  Job, runs, compiles, resumes, Opened, replies, works, works_on, opened_resume, opens,
  opens_behind, arrive, closes,
}
use monty_server.Server.Tasks as Tasks
use monty_server.Server.Concurrent.Views.{flown_by, lands, Flies}

module _ {x : Types} where
  abbrev sessions_at : SessionStore x → List ℕ → Flights.System x
  sessions_at store flights = record { store = store; flights = flights }

  -- From the sessions and the flights before it, the first half takes steps to those after it.
  abbrev pub OpensTo : SessionStore x → List ℕ → Opened x × SessionStore x → Type 0
  OpensTo s flights (replies answer, u) = Steps (sessions_at s flights) (sessions_at u flights)
  OpensTo s flights (works job, u) =
      Steps (sessions_at s flights) (sessions_at u (flown_by job flights))

  -- So does the second half of a job, if it returns.
  abbrev pub ClosesTo :
      Job x → SessionStore x → List ℕ → Option (Answer x × SessionStore x) → Type 0
  ClosesTo job s flights none = Unit
  ClosesTo job s flights (some (answer, u)) =
      Steps (sessions_at s flights) (sessions_at u (lands job flights))

  works_on-runs :
      (limits : ResolvedLimits) (read : ApiResult (SourceSpec x)) (s : SessionStore x)
      (flights : List ℕ)
      → OpensTo s flights (works_on (runs limits) read, s)
  unfolding flown_by
  works_on-runs limits (err e) s flights = stays
  works_on-runs limits (ok spec) s flights = stays

  works_on-creates :
      (ttl : ℕ) (caller : String) (limits : ResolvedLimits) (read : ApiResult (SourceSpec x))
      (s : SessionStore x) (flights : List ℕ)
      → OpensTo s flights (works_on (Tasks.creates ttl caller limits) read, s)
  unfolding flown_by
  works_on-creates ttl caller limits (err e) s flights = stays
  works_on-creates ttl caller limits (ok spec) s flights = stays

  -- A refused resume changes nothing.
  Unchanged : SessionStore x → ApiResult (ℕ × RunProgress x × Tracker) × SessionStore x → Type 0
  Unchanged s (err e, u) = u ≡ s
  Unchanged s (ok taken, u) = Unit

  acquired_at-Unchanged :
      (ref : ℕ) (s : SessionStore x)
      (a : Result (RunProgress x × Tracker) AcquireError × SessionEntry x)
      → Unchanged s (acquired_at ref s a)
  unfolding acquired_at Unchanged
  acquired_at-Unchanged ref s (ok (p, t), e) = tt
  acquired_at-Unchanged ref s (err f, e) = refl

  begin_resume-Unchanged :
      (id : ℕ) (caller : String) (s : SessionStore x) → Unchanged s (begin_resume id caller s)
  unfolding begin_resume Unchanged
  begin_resume-Unchanged id caller s = elim (Option-cases (get id caller s)) [
    | inl none_e ↦ rw (begin_resume, none_e) refl
    | inr (ref, e) ↦ elim (Option-cases (lookup ref s.heap)) [
      | inl none_c ↦ rw (begin_resume, e, none_c) refl
      | inr (c, found) ↦
          rw (begin_resume, e, found) (acquired_at-Unchanged ref s (acquire_for_resume c.entry))
    ]
  ]

  opened_resume-OpensTo :
      (id : ℕ) (caller : String) (input : ResumeInput x) (s : SessionStore x) (flights : List ℕ)
      (begun : ApiResult (ℕ × RunProgress x × Tracker) × SessionStore x)
      → begin_resume id caller s ≡ begun
      → Unchanged s begun
      → OpensTo s flights (opened_resume id input begun)
  unfolding opened_resume Unchanged flown_by
  opened_resume-OpensTo id caller input s flights (err e, u) got same =
      subst (λ v. Steps (sessions_at s flights) (sessions_at v flights)) (sym same) stays
  opened_resume-OpensTo id caller input s flights (ok (ref, p, t), u) got same =
      follows stays (begins id caller ref p t got refl)

module _ {x : Types} (m : Externals x) (show : ℕ → String) (version : String)
    {Address : Type 0} where
  opens-OpensTo :
      (now : ℕ) (caller : Caller) (call : Operation x) (s : AppState x Address) (flights : List ℕ)
      → OpensTo s.sessions flights (opens m show version now caller call s)
  unfolding opens flown_by delete
  opens-OpensTo now caller (run_program request) s flights =
      works_on-runs _ (into_spec m request) s.sessions flights
  opens-OpensTo now caller (compile_program request) s flights = stays
  opens-OpensTo now caller show_info s flights = stays
  opens-OpensTo now caller (create_session request) s flights =
      works_on-creates _ caller.id _ (into_spec m request.source) s.sessions flights
  opens-OpensTo now caller (get_session id) s flights = stays
  opens-OpensTo now caller (delete_session id) s flights = follows stays (deletes id caller.id refl)
  opens-OpensTo now caller (continue_session id request) s flights =
      elim (into_input m show request)
        as (λ (read : ApiResult (ResumeInput x)).
          OpensTo s.sessions flights (elim read as (λ _. Opened x × SessionStore x) [
            | err e ↦ (replies (Answer.refused e), s.sessions)
            | ok input ↦ opened_resume id input (begin_resume id caller.id s.sessions)
          ])) [
            | err e ↦ stays
            | ok input ↦
                opened_resume-OpensTo id caller.id input s.sessions flights _ refl
                  (begin_resume-Unchanged id caller.id s.sessions)
          ]
  opens-OpensTo now caller (malformed status_code) s flights = stays

  -- The first half of a request leaves the gate and the configuration alone.
  abbrev pub ArrivesTo : AppState x Address → List ℕ → Opened x × AppState x Address → Type 0
  ArrivesTo s flights (opened, u) =
      OpensTo s.sessions flights (opened, u.sessions) × (u.concurrency ≡ s.concurrency)

  opens_behind-ArrivesTo :
      (now : ℕ) (call : Operation x) (admission : ApiResult Caller) (s : AppState x Address)
      (flights : List ℕ)
      → ArrivesTo s flights (opens_behind m show version now call admission s)
  unfolding opens_behind
  opens_behind-ArrivesTo now call (err e) s flights = (stays, refl)
  opens_behind-ArrivesTo now call (ok caller) s flights =
      (opens-OpensTo now caller call s flights, refl)

  arrive-ArrivesTo :
      (moment : Moment) (route : Route x) (s : AppState x Address) (flights : List ℕ)
      → ArrivesTo s flights (arrive m show version moment route s)
  unfolding arrive
  arrive-ArrivesTo moment get_root s flights = (stays, refl)
  arrive-ArrivesTo moment get_health s flights = (stays, refl)
  arrive-ArrivesTo moment (v1 request call) s flights =
      opens_behind-ArrivesTo moment.at.shown_at call _ (record s { rate_limiter = _ }) flights

  pub arrived-ArrivesTo :
      (moment : Moment) (route : Route x) (s : AppState x Address) (flights : List ℕ)
      {opened : Opened x} {u : AppState x Address}
      → arrive m show version moment route s ≡ (opened, u)
      → ArrivesTo s flights (opened, u)
  arrived-ArrivesTo moment route s flights got =
      subst (ArrivesTo s flights) got (arrive-ArrivesTo moment route s flights)

module _ {x : Types} (m : Externals x) (show : ℕ → String) where
  store_started-Steps :
      (at : Surroundings) (ttl : ℕ) (caller : String) (result : ApiResult (StartOutcome x))
      (s : SessionStore x) (flights : List ℕ)
      → Steps
          (sessions_at s flights)
          (sessions_at (store_started m show at ttl caller result s).1 flights)
  unfolding store_started
  store_started-Steps at ttl caller (err e) s flights = stays
  store_started-Steps at ttl caller (ok (compile_failed e)) s flights = stays
  store_started-Steps at ttl caller (ok (started t step)) s flights =
      follows stays (creates caller ttl t step at.fresh_id at.stored_at refl)

  created-ClosesTo :
      (at : Surroundings) (ttl : ℕ) (caller : String) (limits : ResolvedLimits)
      (spec : SourceSpec x) (s : SessionStore x) (flights : List ℕ)
      (result : Option (ApiResult (StartOutcome x)))
      → ClosesTo (Tasks.creates ttl caller limits spec) s flights (
          Option.map
            (λ (r : ApiResult (CreateOutcome x) × SessionStore x).
              (answer_of session_created r.0, r.1))
            (Option.map (λ r. store_started m show at ttl caller r s) result))
  unfolding lands
  created-ClosesTo at ttl caller limits spec s flights none = tt
  created-ClosesTo at ttl caller limits spec s flights (some r) =
      store_started-Steps at ttl caller r s flights

  settle_resume-Steps :
      (at : Surroundings) (id ref : ℕ) (result : ApiResult (ResumeResult x × Tracker))
      (s : SessionStore x) (flights : List ℕ)
      → 1 ≤ count ref flights
      → Steps
          (sessions_at s flights)
          (sessions_at (settle_resume m at id ref result s).1 (land ref flights))
  unfolding settle_resume
  settle_resume-Steps at id ref (err e) s flights flies = follows stays (abandons ref flies refl)
  settle_resume-Steps at id ref (ok result) s flights flies =
      follows stays (finishes ref at.stored_at result flies refl)

  resumed-ClosesTo :
      (at : Surroundings) (id ref : ℕ) (input : ResumeInput x) (progress : RunProgress x)
      (t : Tracker) (s : SessionStore x) (flights : List ℕ)
      (result : Option (ApiResult (ResumeResult x × Tracker)))
      → 1 ≤ count ref flights
      → ClosesTo (resumes id ref input progress t) s flights (
          Option.map
            (λ (r : ApiResult (SessionView x) × SessionStore x). (answer_of session r.0, r.1))
            (Option.map (λ r. settle_resume m at id ref r s) result))
  unfolding lands
  resumed-ClosesTo at id ref input progress t s flights none flies = tt
  resumed-ClosesTo at id ref input progress t s flights (some r) flies =
      settle_resume-Steps at id ref r s flights flies

  pub closes-ClosesTo :
      (at : Surroundings) (job : Job x) (s : SessionStore x) (flights : List ℕ)
      → Flies 1 job flights
      → ClosesTo job s flights (closes m show at job s)
  unfolding closes lands Flies
  closes-ClosesTo at (runs limits spec) s flights one = stays
  closes-ClosesTo at (compiles request) s flights one = stays
  closes-ClosesTo at (Job.creates ttl caller limits spec) s flights one =
      created-ClosesTo at ttl caller limits spec s flights _
  closes-ClosesTo at (resumes id ref input progress t) s flights one =
      resumed-ClosesTo at id ref input progress t s flights _ (omega (arith, one))

-- A job whose request is dropped stores nothing.
pub drop-Steps :
    {x : Types} (job : Job x) (s : SessionStore x) (flights : List ℕ)
    → Flies 1 job flights
    → Steps (sessions_at s flights) (sessions_at s (lands job flights))
unfolding lands Flies
drop-Steps (runs limits spec) s flights one = stays
drop-Steps (compiles request) s flights one = stays
drop-Steps (Job.creates ttl caller limits spec) s flights one = stays
drop-Steps (resumes id ref input progress t) s flights one =
    follows stays (abandons ref (omega (arith, one)) refl)
