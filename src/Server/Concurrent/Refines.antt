-- ===== src/Server/Concurrent/Refines.antt =====
-- The server with many requests at a time (src/api/mod.rs) behaves, for its sessions, as the
-- interleaving of the requests on sessions, and for its permits as the semaphore.
use monty_server.Common.{ℕ, ◌≤◌, ◌≡◌, refl, sym, subst, List, [], ◌∷◌, ◌++◌, String, arith}
use monty_server.Config.{Config}
use monty_server.External.{Types, Externals}
use monty_server.Session.{SessionStore}
use monty_server.Api.Executions.{Gate, open_gate}
use monty_server.Api.Executions as Executions
use monty_server.Api.Sessions.Flights.{count, empty_system}
use monty_server.Api.Sessions.Flights as Flights
use monty_server.Api.Sessions.Flights.Single.{single_flight}
use monty_server.Server.{new, sweep}
use monty_server.Server.Tasks.{Job, runs, compiles, creates, resumes}
use monty_server.Server.Concurrent.{
  System, Step, answers_at_once, arrives, acquires, ends, answers, gives_up, disconnects, sweeps,
  Steps, stays, follows, started,
}
use monty_server.Server.Concurrent.Views.{
  count-middle_self, flown_by, flights_of, flights_of-middle, lands, lands-middle, Flies,
  sessions_view,
}
use monty_server.Server.Concurrent.Halves.{ClosesTo, arrived-ArrivesTo, closes-ClosesTo, drop-Steps}

module _ {x : Types} where
  pub flights_then :
      {s u v : Flights.System x} → Flights.Steps s u → Flights.Steps u v → Flights.Steps s v
  flights_then before Flights.stays = before
  flights_then before (Flights.follows after step) =
      Flights.follows (flights_then before after) step

  -- A resume that waits or runs is the only one on its session.
  pub alone_of_flown :
      (max_sessions request : ℕ) (job : Job x) (before after : List (ℕ × Job x))
      (store : SessionStore x)
      → let flights = flights_of (before ++ ((request, job) ∷ after)) in
        Flights.Steps (empty_system max_sessions) (record { store = store; flights = flights })
        → Flies 1 job flights
  unfolding Flies flown_by
  alone_of_flown max_sessions request (resumes id ref input progress t) before after store steps =
      let job = resumes id ref input progress t in
      let flies : 1 ≤ count ref (flights_of (before ++ ((request, job) ∷ after))) =
        rw (flights_of-middle request job before after)
          (omega (arith, count-middle_self ref (flights_of before) (flights_of after))) in
      (single_flight max_sessions ref steps flies).0
  alone_of_flown max_sessions request (runs limits spec) before after store steps = tt
  alone_of_flown max_sessions request (compiles r) before after store steps = tt
  alone_of_flown max_sessions request (creates ttl caller limits spec) before after store steps = tt

  module _ {Address : Type 0} (config : Config Address) where
    -- The sessions and their flights, and the gate, are reached by steps of their own relations.
    pub record Refines (s : System x Address) : Type 0 where
      pub flown : Flights.Steps (empty_system config.sessions.max_sessions) (sessions_view s)
      pub gated : Executions.Steps (open_gate config) s.server.concurrency

    -- A job leaves the list: the sessions go on from where they are, with one flight less.
    leaves-views :
        (s : System x Address) (request : ℕ) (job : Job x) (before after : List (ℕ × Job x))
        (store : SessionStore x)
        → s.jobs ≡ before ++ ((request, job) ∷ after)
        → ((flights : List ℕ)
            → Flies 1 job flights
            → Flights.Steps
                (record { store = s.server.sessions; flights = flights })
                (record { store = store; flights = lands job flights }))
        → Refines s
        → Flights.Steps
            (sessions_view s)
            (record { store = store; flights = flights_of (before ++ after) })
    leaves-views s request job before after store listed goes h =
        let all = before ++ ((request, job) ∷ after) in
        let alone =
          alone_of_flown config.sessions.max_sessions request job before after s.server.sessions (
            subst
              (λ jobs.
                Flights.Steps (empty_system config.sessions.max_sessions)
                  (record { store = s.server.sessions; flights = flights_of jobs }))
              listed h.flown) in
        subst
          (λ jobs.
            Flights.Steps (record { store = s.server.sessions; flights = flights_of jobs })
              (record { store = store; flights = flights_of (before ++ after) }))
          (sym listed)
          (subst
            (λ flights.
              Flights.Steps (record { store = s.server.sessions; flights = flights_of all })
                (record { store = store; flights = flights }))
            (lands-middle request job before after alone) (goes (flights_of all) alone))

module _ {x : Types} (m : Externals x) (show : ℕ → String) (version : String)
    {Address : Type 0} where
  pub steps_then :
      {s u v : System x Address}
      → Steps m show version s u
      → Steps m show version u v
      → Steps m show version s v
  steps_then before stays = before
  steps_then before (follows after step) = follows (steps_then before after) step

module _ {x : Types} (m : Externals x) (show : ℕ → String) (version : String) {Address : Type 0}
    (config : Config Address) where
  -- What one step does to the sessions and their flights.
  Views : System x Address → System x Address → Type 0
  Views s s' = Flights.Steps (sessions_view s) (sessions_view s')

  pub Step-views :
      (s s' : System x Address)
      → Step m show version s s'
      → Refines config s
      → Flights.Steps (sessions_view s) (sessions_view s')
  unfolding sweep flights_of Views
  Step-views s s' (answers_at_once moment route answer u got e) h =
      subst (Views s) (sym e)
        (arrived-ArrivesTo m show version moment route s.server (flights_of s.jobs) got).0
  Step-views s s' (arrives moment route job u got e) h =
      subst (Views s) (sym e)
        (arrived-ArrivesTo m show version moment route s.server (flights_of s.jobs) got).0
  Step-views s s' (acquires request left before after w p e) h =
      subst (Views s) (sym e) Flights.stays
  Step-views s s' (ends request before after r e) h = subst (Views s) (sym e) Flights.stays
  Step-views s s' (answers request job before after at answer sessions listed outside got e) h =
      subst (Views s) (sym e) (
        leaves-views config s request job before after sessions listed
          (λ flights one.
            subst (ClosesTo job s.server.sessions flights) got
              (closes-ClosesTo m show at job s.server.sessions flights one))
          h)
  Step-views s s' (gives_up request job before after ahead behind listed w e) h =
      subst (Views s) (sym e) (
        leaves-views config s request job before after s.server.sessions listed
          (drop-Steps job s.server.sessions) h)
  Step-views s s' (disconnects request job before after listed w e) h = subst (Views s) (sym e) (
      leaves-views config s request job before after s.server.sessions listed
        (drop-Steps job s.server.sessions) h)
  Step-views s s' (sweeps tick e) h =
      subst (Views s) (sym e) (Flights.follows Flights.stays (Flights.reaps tick.reaped_at refl))

  -- What one step does to the gate.
  GatedAt : System x Address → Type 0
  GatedAt s = Executions.Steps (open_gate config) s.server.concurrency

  Step-gated :
      (s s' : System x Address)
      → Step m show version s s'
      → Executions.Steps (open_gate config) s.server.concurrency
      → Executions.Steps (open_gate config) s'.server.concurrency
  unfolding sweep GatedAt
  Step-gated s s' (answers_at_once moment route answer u got e) h = subst GatedAt (sym e) (
      subst (Executions.Steps (open_gate config))
        (sym (arrived-ArrivesTo m show version moment route s.server [] got).1) h)
  Step-gated s s' (arrives moment route job u got e) h = subst GatedAt (sym e) (
      Executions.follows
        (subst (Executions.Steps (open_gate config))
          (sym (arrived-ArrivesTo m show version moment route s.server [] got).1) h)
        (Executions.arrives s.next refl))
  Step-gated s s' (acquires request left before after w p e) h =
      subst GatedAt (sym e)
        (Executions.follows h (Executions.acquires request left before after w p refl))
  Step-gated s s' (ends request before after r e) h =
      subst GatedAt (sym e) (Executions.follows h (Executions.ends request before after r refl))
  Step-gated s s' (answers request job before after at answer sessions listed outside got e) h =
      subst GatedAt (sym e) h
  Step-gated s s' (gives_up request job before after ahead behind listed w e) h =
      subst GatedAt (sym e) (Executions.follows h (Executions.gives_up request ahead behind w refl))
  Step-gated s s' (disconnects request job before after listed w e) h = subst GatedAt (sym e) h
  Step-gated s s' (sweeps tick e) h = subst GatedAt (sym e) h

  -- From the start of the server, however requests on all routes arrive, wait for permits, run
  -- their tasks, answer or are dropped, with the sweeps of the reaper in between: the store and the
  -- resumes of the requests that are not answered are those that steps of the interleaving of
  -- requests on sessions lead to from the empty store, and the gate is one that steps of the
  -- semaphore lead to from its start.
  pub steps-Refines :
      (now : ℕ) {s : System x Address}
      → Steps m show version (started config now) s
      → Refines config s
  unfolding new flights_of
  steps-Refines now stays = record { flown = Flights.stays; gated = Executions.stays }
  steps-Refines now (follows before step) =
      let h = steps-Refines now before in
      record {
        flown = flights_then h.flown (Step-views _ _ step h);
        gated = Step-gated _ _ step h.gated;
      }
