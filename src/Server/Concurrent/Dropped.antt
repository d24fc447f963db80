-- ===== src/Server/Concurrent/Dropped.antt =====
-- A resume whose request is dropped (the timeout of src/api/mod.rs, or the client) or whose task fails,
-- `resume` in src/api/sessions.rs.
use monty_server.Common.{ℕ, ◌≡◌, sym, subst, ap, List, ◌∷◌, ◌++◌, String, arith, some, err, ◌∙◌}
use monty_server.Error.{session_busy}
use monty_server.Tracker.{Tracker}
use monty_server.Config.{Config}
use monty_server.External.{Types, Externals, RunProgress}
use monty_server.Engine.{ResumeInput}
use monty_server.Session.{get}
use monty_server.Api.Sessions.Flights.{count, land, empty_system}
use monty_server.Api.Sessions.Flights as Flights
use monty_server.Api.Sessions.Flights.Abandoned.{abandoned_stays_busy}
use monty_server.Api.Sessions.Handlers.{begin_resume}
use monty_server.Server.Tasks.{Job, resumes}
use monty_server.Server.Concurrent.{System, Step, Steps, stays, follows, started}
use monty_server.Server.Concurrent.Views.{
  flights_of, flown_by, lands, lands-middle, Flies, sessions_view,
}
use monty_server.Server.Concurrent.Refines.{
  flights_then, Step-views, steps-Refines, alone_of_flown, steps_then,
}

module _ {x : Types} (m : Externals x) (show : ℕ → String) (version : String) {Address : Type 0}
    (config : Config Address) where
  -- What any steps do to the sessions and their flights.
  Steps-views :
      (now : ℕ) {s s' : System x Address}
      → Steps m show version (started config now) s
      → Steps m show version s s'
      → Flights.Steps (sessions_view s) (sessions_view s')
  Steps-views now before stays = Flights.stays
  Steps-views now before (follows after step) = flights_then (Steps-views now before after) (
      Step-views m show version config _ _ step
        (steps-Refines m show version config now (steps_then m show version before after)))

  -- In the server with many requests at a time: once a step takes away a resume that is not
  -- answered and leaves the sessions as they are (its request is dropped while it waits or later,
  -- or its task fails), every later resume that finds its session is refused as busy and changes
  -- nothing, whatever steps come in between.
  pub dropped_stays_busy :
      (now request id ref : ℕ) (input : ResumeInput x) (progress : RunProgress x) (t : Tracker)
      (before after : List (ℕ × Job x)) (s s' s'' : System x Address) (id' : ℕ) (principal : String)
      → Steps m show version (started config now) s
      → s.jobs ≡ before ++ ((request, resumes id ref input progress t) ∷ after)
      → Step m show version s s'
      → s'.jobs ≡ before ++ after
      → s'.server.sessions ≡ s.server.sessions
      → Steps m show version s' s''
      → get id' principal s''.server.sessions ≡ some ref
      → begin_resume id' principal s''.server.sessions ≡ (err session_busy, s''.server.sessions)
  unfolding Flies lands flown_by
  dropped_stays_busy now request id ref input progress t before after s s' s'' id' principal reached
        listed step gone same later got =
      let job = resumes id ref input progress t in
      let max_sessions = config.sessions.max_sessions in
      let all = before ++ ((request, job) ∷ after) in
      let h = steps-Refines m show version config now reached in
      let flown : Flights.Steps (empty_system max_sessions)
          (record { store = s.server.sessions; flights = flights_of all }) =
        subst
          (λ jobs.
            Flights.Steps (empty_system max_sessions)
              (record { store = s.server.sessions; flights = flights_of jobs }))
          listed h.flown in
      let one : count ref (flights_of all) ≡ 1 =
        alone_of_flown max_sessions request job before after s.server.sessions flown in
      let landed : land ref (flights_of all) ≡ flights_of (before ++ after) =
        lands-middle request job before after one in
      let views = Steps-views now (follows reached step) later in
      abandoned_stays_busy ref max_sessions flown (omega (arith, one))
        (subst
          (λ flights.
            Flights.Steps (record { store = s.server.sessions; flights = flights })
              (sessions_view s''))
          (ap flights_of gone ∙ sym landed)
          (subst
            (λ store.
              Flights.Steps (record { store = store; flights = flights_of s'.jobs })
                (sessions_view s''))
            same views))
        id' principal got
