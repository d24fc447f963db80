-- ===== src/Server/Concurrent.antt =====
-- The server with many requests at a time: src/api/mod.rs, src/state.rs and the handlers of src/api.
-- A request holds no lock while it waits for a permit and while its task runs. Readings of the
-- clock, fresh ids and the ends of tasks are chosen by each step.
pub mod Views
pub mod Halves
pub mod Refines
pub mod Numbered
pub mod Answerable
pub mod Unseen
pub mod Dropped
pub mod InFlight
pub mod Quota
pub mod Timed
pub mod Others
pub mod Isolated
use monty_server.Common.{ℕ, suc, ◌≡◌, List, [], ◌∷◌, ◌++◌, String, some}
use monty_server.Config.{Config}
use monty_server.External.{Types, Externals}
use monty_server.Session.{SessionStore}
use monty_server.Api.Executions.{Gate}
use monty_server.Api.Sessions.Handlers.{Surroundings}
use monty_server.Api.Sessions.Flights.{count}
use monty_server.Server.{AppState, Tick, new, sweep}
use monty_server.Server.Requests.{Route, Answer, Moment}
use monty_server.Server.Tasks.{Job, works, replies, arrive, closes}

-- The shared state, and the jobs of the requests that are not answered yet, by the numbers of the
-- requests; `next` is the number of the next one.
pub record System (x : Types) (Address : Type 0) : Type 0 where
  pub server : AppState x Address
  pub jobs : List (ℕ × Job x)
  pub next : ℕ

-- A request has no permit and does not wait for one.
pub record IsOutside (request : ℕ) (gate : Gate) : Type 0 where
  pub not_waiting : count request gate.waiting ≡ 0
  pub not_running : count request gate.running ≡ 0

module _ {x : Types} {Address : Type 0} where
  abbrev pub with_gate : Gate → AppState x Address → AppState x Address
  with_gate gate s = record s { concurrency = gate }

  abbrev pub with_sessions : SessionStore x → AppState x Address → AppState x Address
  with_sessions sessions s = record s { sessions = sessions }

module _ {x : Types} (m : Externals x) (show : ℕ → String) (version : String)
    {Address : Type 0} where
  -- One step. A request arrives and is answered at once, or it has a job and waits for a permit. A
  -- waiting request gets one, and its task begins; the task ends, and gives the permit back; the
  -- handler goes on and answers. A request is dropped, by the timeout or by its client, while it
  -- waits or later; then a task of it that runs goes on to its end. The reaper sweeps.
  pub data Step (s s' : System x Address) : Type 0 where
    answers_at_once :
        (moment : Moment) (route : Route x) (answer : Answer x) (u : AppState x Address)
        → arrive m show version moment route s.server ≡ (replies answer, u)
        → s' ≡ record s { server = u }
        → Step s s'
    arrives :
        (moment : Moment) (route : Route x) (job : Job x) (u : AppState x Address)
        → arrive m show version moment route s.server ≡ (works job, u)
        → s' ≡ record {
          server = with_gate (record u.concurrency { waiting = s.next ∷ u.concurrency.waiting }) u;
          jobs = (s.next, job) ∷ s.jobs;
          next = suc s.next;
        }
        → Step s s'
    acquires :
        (request left : ℕ) (before after : List ℕ)
        → s.server.concurrency.waiting ≡ before ++ (request ∷ after)
        → s.server.concurrency.permits ≡ suc left
        → s' ≡ record s {
          server =
              with_gate
                (record {
                  permits = left;
                  waiting = before ++ after;
                  running = request ∷ s.server.concurrency.running;
                })
                s.server;
        }
        → Step s s'
    ends :
        (request : ℕ) (before after : List ℕ)
        → s.server.concurrency.running ≡ before ++ (request ∷ after)
        → s' ≡ record s {
          server =
              with_gate
                (record s.server.concurrency {
                  permits = suc s.server.concurrency.permits;
                  running = before ++ after;
                })
                s.server;
        }
        → Step s s'
    answers :
        (request : ℕ) (job : Job x) (before after : List (ℕ × Job x)) (at : Surroundings)
        (answer : Answer x) (sessions : SessionStore x)
        → s.jobs ≡ before ++ ((request, job) ∷ after)
        → IsOutside request s.server.concurrency
        → closes m show at job s.server.sessions ≡ some (answer, sessions)
        → s' ≡ record s { server = with_sessions sessions s.server; jobs = before ++ after }
        → Step s s'
    gives_up :
        (request : ℕ) (job : Job x) (before after : List (ℕ × Job x)) (ahead behind : List ℕ)
        → s.jobs ≡ before ++ ((request, job) ∷ after)
        → s.server.concurrency.waiting ≡ ahead ++ (request ∷ behind)
        → s' ≡ record s {
          server = with_gate (record s.server.concurrency { waiting = ahead ++ behind }) s.server;
          jobs = before ++ after;
        }
        → Step s s'
    disconnects :
        (request : ℕ) (job : Job x) (before after : List (ℕ × Job x))
        → s.jobs ≡ before ++ ((request, job) ∷ after)
        → count request s.server.concurrency.waiting ≡ 0
        → s' ≡ record s { jobs = before ++ after }
        → Step s s'
    sweeps : (tick : Tick) → s' ≡ record s { server = sweep tick s.server } → Step s s'

  pub data Steps (s : System x Address) : System x Address → Type 0 where
    stays : Steps s s
    follows : {u s' : System x Address} → Steps s u → Step u s' → Steps s s'

module _ {x : Types} {Address : Type 0} where
  -- the server at its start
  abbrev pub started : Config Address → (now : ℕ) → System x Address
  started config now = record { server = new config now; jobs = []; next = 0 }
