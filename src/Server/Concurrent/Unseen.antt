-- ===== src/Server/Concurrent/Unseen.antt =====
-- The two halves of a request (src/api), as another principal sees the sessions.
use mathlib.Core.Option
use monty_server.Common.{
  ℕ, ◌≡◌, ◌≢◌, refl, sym, subst, ap, ◌∙◌, String, Option, none, some, ok, err, nat_key, lookup,
}
use monty_server.Error.{ApiResult}
use monty_server.Tracker.{Tracker}
use monty_server.Auth.{Caller, authenticate, admit}
use monty_server.Auth.Admission.{admit-eq-ok}
use monty_server.External.{Types, Externals, RunProgress}
use monty_server.Engine.{ResumeInput, ResumeResult}
use monty_server.Session.{SessionStore}
use monty_server.Session.Isolation.{seen, seen-remove}
use monty_server.Session.Links.{IsLinked}
use monty_server.Api.Dto.{SourceSpec, into_spec}
use monty_server.Api.Sessions.Requests.{into_input}
use monty_server.Api.Sessions.View.{SessionView}
use monty_server.Api.Sessions.Handlers.{
  CreateOutcome, Surroundings, StartOutcome, begin_resume, settle_resume, store_started, delete,
}
use monty_server.Api.Sessions.Spared.{Begun, begin_resume-Begun}
use monty_server.Api.Sessions.Isolated.{settle_resume-Spares, store_started-Spares}
use monty_server.Api.Sessions.Flights.Owned.{IsAnothers}
use monty_server.Server.{AppState}
use monty_server.Server.Requests.{
  Operation, run_program, compile_program, show_info, create_session, get_session, delete_session,
  continue_session, malformed, Route, get_root, get_health, v1, Answer, Moment, answer_of, session,
  session_created, refused,
}
use monty_server.Server.Tasks.{
  Job, runs, compiles, creates, resumes, Opened, replies, works, works_on, opened_resume, opens,
  opens_behind, arrive, closes,
}

module _ {x : Types} where
  -- `p` sees the same sessions, with the same entries.
  abbrev pub Unseen : String → SessionStore x → SessionStore x → Type 0
  Unseen p s u = (id : ℕ) → seen p id u ≡ seen p id s

  -- The job is not on behalf of `p`: it creates a session of another, or resumes one.
  unfoldable pub IsNotOf : String → SessionStore x → Job x → Type 0
  IsNotOf p s (runs limits spec) = Unit
  IsNotOf p s (compiles request) = Unit
  IsNotOf p s (creates ttl caller limits spec) = caller ≢ p
  IsNotOf p s (resumes id ref input progress t) = IsAnothers p ref s

  pub IsNotOf-mono :
      (p : String) (s s' : SessionStore x) (job : Job x)
      → ((ref : ℕ) → IsAnothers p ref s → IsAnothers p ref s')
      → IsNotOf p s job
      → IsNotOf p s' job
  unfolding IsNotOf
  IsNotOf-mono p s s' (runs limits spec) keeps h = tt
  IsNotOf-mono p s s' (compiles request) keeps h = tt
  IsNotOf-mono p s s' (creates ttl caller limits spec) keeps h = h
  IsNotOf-mono p s s' (resumes id ref input progress t) keeps h = keeps ref h

  abbrev pub OpensFor : String → SessionStore x → Opened x × SessionStore x → Type 0
  OpensFor p s (replies answer, u) = Unseen p s u
  OpensFor p s (works job, u) = Unseen p s u × IsNotOf p u job

  abbrev pub ClosesFor : String → SessionStore x → Option (Answer x × SessionStore x) → Type 0
  ClosesFor p s none = Unit
  ClosesFor p s (some (answer, u)) = Unseen p s u

  works_on-OpensFor :
      (p : String) (job : SourceSpec x → Job x) (read : ApiResult (SourceSpec x))
      (s : SessionStore x)
      → ((spec : SourceSpec x) → IsNotOf p s (job spec))
      → OpensFor p s (works_on job read, s)
  works_on-OpensFor p job (err e) s h = λ id. refl
  works_on-OpensFor p job (ok spec) s h = (λ id. refl, h spec)

  opened_resume-OpensFor :
      (p q : String) (id : ℕ) (input : ResumeInput x) (s : SessionStore x)
      (begun : ApiResult (ℕ × RunProgress x × Tracker) × SessionStore x)
      → q ≢ p
      → Begun q s begun
      → OpensFor p s (opened_resume id input begun)
  unfolding opened_resume IsNotOf
  opened_resume-OpensFor p q id input s (err e, u) other h = h.hidden p other
  opened_resume-OpensFor p q id input s (ok (ref, progress, t), u) other (spares, own) = (
    spares.hidden p other,
    record { cell = own.cell; found = own.found; other = λ e. other (sym own.owner ∙ e) },
  )

module _ {x : Types} (m : Externals x) (show : ℕ → String) (version : String)
    {Address : Type 0} where
  opens-OpensFor :
      (p : String) (now : ℕ) (caller : Caller) (call : Operation x) (s : AppState x Address)
      → caller.id ≢ p
      → OpensFor p s.sessions (opens m show version now caller call s)
  unfolding opens IsNotOf delete
  opens-OpensFor p now caller (run_program request) s other =
      works_on-OpensFor p _ (into_spec m request) s.sessions (λ spec. tt)
  opens-OpensFor p now caller (compile_program request) s other = (λ id. refl, tt)
  opens-OpensFor p now caller show_info s other = λ id. refl
  opens-OpensFor p now caller (create_session request) s other =
      works_on-OpensFor p _ (into_spec m request.source) s.sessions (λ spec. other)
  opens-OpensFor p now caller (get_session id) s other = λ id. refl
  opens-OpensFor p now caller (delete_session id) s other =
      seen-remove caller.id p id s.sessions other
  opens-OpensFor p now caller (continue_session id request) s other =
      elim (into_input m show request)
        as (λ (read : ApiResult (ResumeInput x)).
          OpensFor p s.sessions (elim read as (λ _. Opened x × SessionStore x) [
            | err e ↦ (replies (refused e), s.sessions)
            | ok input ↦ opened_resume id input (begin_resume id caller.id s.sessions)
          ])) [
            | err e ↦ (λ id. refl)
            | ok input ↦
                opened_resume-OpensFor p caller.id id input s.sessions _ other
                  (begin_resume-Begun caller.id id s.sessions)
          ]
  opens-OpensFor p now caller (malformed status_code) s other = λ id. refl

  -- No caller that a request is authenticated as is `p`.
  abbrev pub IsOthersRoute : String → Route x → AppState x Address → Type 0
  IsOthersRoute p get_root s = Unit
  IsOthersRoute p get_health s = Unit
  IsOthersRoute p (v1 request call) s =
      (caller : Caller)
      → authenticate s.config.auth s.config.default_rate request ≡ ok caller
      → caller.id ≢ p

  abbrev pub ArrivesFor : String → AppState x Address → Opened x × AppState x Address → Type 0
  ArrivesFor p s (opened, u) = OpensFor p s.sessions (opened, u.sessions)

  opens_behind-ArrivesFor :
      (p : String) (now : ℕ) (call : Operation x) (admission : ApiResult Caller)
      (s : AppState x Address)
      → ((caller : Caller) → admission ≡ ok caller → caller.id ≢ p)
      → ArrivesFor p s (opens_behind m show version now call admission s)
  unfolding opens_behind
  opens_behind-ArrivesFor p now call (err e) s other = λ id. refl
  opens_behind-ArrivesFor p now call (ok caller) s other =
      opens-OpensFor p now caller call s (other caller refl)

  arrive-ArrivesFor :
      (p : String) (moment : Moment) (route : Route x) (s : AppState x Address)
      → IsOthersRoute p route s
      → ArrivesFor p s (arrive m show version moment route s)
  unfolding arrive
  arrive-ArrivesFor p moment get_root s other = λ id. refl
  arrive-ArrivesFor p moment get_health s other = λ id. refl
  arrive-ArrivesFor p moment (v1 request call) s other =
      let admission =
        admit s.config.auth s.config.default_rate request moment.bucket_made_at moment.checked_at
          s.rate_limiter in
      opens_behind-ArrivesFor p moment.at.shown_at call admission.0
        (record s { rate_limiter = admission.1 })
        (λ caller same.
          other caller
            (admit-eq-ok s.config.auth s.config.default_rate request moment.bucket_made_at
              moment.checked_at s.rate_limiter caller admission.1
              (ap (λ a. (a, admission.1)) same)).0)

  pub arrived-ArrivesFor :
      (p : String) (moment : Moment) (route : Route x) (s : AppState x Address) {opened : Opened x}
      {u : AppState x Address}
      → IsOthersRoute p route s
      → arrive m show version moment route s ≡ (opened, u)
      → ArrivesFor p s (opened, u)
  arrived-ArrivesFor p moment route s other got =
      subst (ArrivesFor p s) got (arrive-ArrivesFor p moment route s other)

module _ {x : Types} (m : Externals x) (show : ℕ → String) where
  created-ClosesFor :
      (p q : String) (at : Surroundings) (ttl : ℕ) (s : SessionStore x)
      (result : Option (ApiResult (StartOutcome x)))
      → q ≢ p
      → IsLinked s
      → lookup at.fresh_id s.sessions ≡ none
      → ClosesFor p s (
          Option.map
            (λ (r : ApiResult (CreateOutcome x) × SessionStore x).
              (answer_of session_created r.0, r.1))
            (Option.map (λ r. store_started m show at ttl q r s) result))
  created-ClosesFor p q at ttl s none other linked unused = tt
  created-ClosesFor p q at ttl s (some r) other linked unused =
      (store_started-Spares m show at ttl q r s linked unused).hidden p other

  resumed-ClosesFor :
      (p : String) (at : Surroundings) (id ref : ℕ) (s : SessionStore x)
      (result : Option (ApiResult (ResumeResult x × Tracker)))
      → IsAnothers p ref s
      → ClosesFor p s (
          Option.map
            (λ (r : ApiResult (SessionView x) × SessionStore x). (answer_of session r.0, r.1))
            (Option.map (λ r. settle_resume m at id ref r s) result))
  resumed-ClosesFor p at id ref s none h = tt
  resumed-ClosesFor p at id ref s (some r) h =
      (settle_resume-Spares m h.cell.entry.principal at id ref r s
          (record { cell = h.cell; found = h.found; owner = refl })).hidden
        p h.other

  pub closes-ClosesFor :
      (p : String) (at : Surroundings) (job : Job x) (s : SessionStore x)
      → IsNotOf p s job
      → IsLinked s
      → lookup at.fresh_id s.sessions ≡ none
      → ClosesFor p s (closes m show at job s)
  unfolding closes IsNotOf
  closes-ClosesFor p at (runs limits spec) s h linked unused = λ id. refl
  closes-ClosesFor p at (compiles request) s h linked unused = λ id. refl
  closes-ClosesFor p at (creates ttl caller limits spec) s h linked unused =
      created-ClosesFor p caller at ttl s _ h linked unused
  closes-ClosesFor p at (resumes id ref input progress t) s h linked unused =
      resumed-ClosesFor p at id ref s _ h
