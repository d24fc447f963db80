-- ===== src/Server/Concurrent/InFlight.antt =====
-- Requests on a session whose resume is not answered yet: `status` and `resume` in
-- src/api/sessions.rs.
use monty_server.Common.{
  ℕ, ◌≤◌, ◌≡◌, ◌∙◌, List, ◌∷◌, ◌++◌, String, arith, some, ok, err, Option, none, ap, ◌>>=◌, lookup,
  nat_key,
}
use monty_server.Error.{internal, session_busy}
use monty_server.Tracker.{Tracker}
use monty_server.Config.{Config}
use monty_server.External.{Types, Externals, RunProgress}
use monty_server.Engine.{ResumeInput}
use monty_server.Session.{SessionStore, Cell, get}
use monty_server.Session.Entries.{IsBusy, IsConsistent}
use monty_server.Api.Sessions.Flights.{count}
use monty_server.Api.Sessions.Flights.Acquired.{begin_resume_found}
use monty_server.Api.Sessions.Flights.Single.{single_flight}
use monty_server.Api.Sessions.Flights.Abandoned.{busy_refuses}
use monty_server.Api.Sessions.Handlers.{begin_resume, show_entry, status}
use monty_server.Api.Sessions.View.{SessionView, render}
use monty_server.Api.Sessions.Rendering.{render_busy}
use monty_server.Server.Tasks.{Job, resumes}
use monty_server.Server.Concurrent.{System, Steps, started}
use monty_server.Server.Concurrent.Views.{
  count-middle_self, flown_by, flights_of, flights_of-middle,
}
use monty_server.Server.Concurrent.Refines.{steps-Refines}

module _ {x : Types} (m : Externals x) where
  show_entry_found :
      (now id ref : ℕ) (s : SessionStore x) (c : Cell x)
      → lookup ref s.heap ≡ some c
      → show_entry m id now ref s ≡ render m id now c.entry
  unfolding show_entry
  show_entry_found now id ref s c found =
      ap
        (λ (o : Option (Cell x)).
          ◌>>=◌ {W = SessionView x} (elim o [ none ↦ err internal | some c ↦ ok c.entry ])
            (λ e. render m id now e))
        found

  status_busy :
      (now id ref : ℕ) (principal : String) (s : SessionStore x) (c : Cell x)
      → get id principal s ≡ some ref
      → lookup ref s.heap ≡ some c
      → IsBusy c.entry
      → IsConsistent c.entry
      → status m now principal id s ≡ err internal
  unfolding status
  status_busy now id ref principal s c got found busy good =
      rw (status, got)
        (show_entry_found now id ref s c found ∙ render_busy m id now c.entry busy good)

module _ {x : Types} (m : Externals x) (show : ℕ → String) (version : String) {Address : Type 0}
    (config : Config Address) where
  -- In every state that the server reaches with many requests at a time: while a resume is not
  -- answered, a principal that gets its session, under any id, meets the internal error when it
  -- reads the status, and is refused as busy when it resumes, with nothing changed; and so does any
  -- other handler that shows the session's entry then meet the internal error.
  pub in_flight_refuses :
      (now request id ref : ℕ) (input : ResumeInput x) (progress : RunProgress x) (t : Tracker)
      (before after : List (ℕ × Job x)) (s : System x Address) (id' shown_at : ℕ)
      (principal : String)
      → Steps m show version (started config now) s
      → s.jobs ≡ before ++ ((request, resumes id ref input progress t) ∷ after)
      → get id' principal s.server.sessions ≡ some ref
      → (show_entry m id' shown_at ref s.server.sessions ≡ err internal)
        × (status m shown_at principal id' s.server.sessions ≡ err internal)
        × (begin_resume id' principal s.server.sessions ≡ (err session_busy, s.server.sessions))
  unfolding count flights_of flown_by
  in_flight_refuses now request id ref input progress t before after s id' shown_at principal
        reached listed got =
      let job = resumes id ref input progress t in
      let h = steps-Refines m show version config now reached in
      let flies : 1 ≤ count ref (flights_of s.jobs) =
        rw (listed, flights_of-middle request job before after)
          (omega (arith, count-middle_self ref (flights_of before) (flights_of after))) in
      let (one, c, found, busy, good) =
        single_flight config.sessions.max_sessions ref h.flown flies in
      (
        show_entry_found m shown_at id' ref s.server.sessions c found
            ∙ render_busy m id' shown_at c.entry busy good,
        status_busy m shown_at id' ref principal s.server.sessions c got found busy good,
        begin_resume_found id' principal s.server.sessions ref c got found
            ∙ busy_refuses ref c.entry s.server.sessions busy,
      )
