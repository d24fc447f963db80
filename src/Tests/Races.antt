-- ===== src/Tests/Races.antt =====
-- Tests of a server with several requests at a time: alice creates a session, and resumes it while
-- bob's program waits.
use monty_server.Common.{
  ℕ, ◌≡◌, refl, String, Option, none, some, ok, err, ok-injective, subst, insert, erase, ◌≢◌, [],
  ◌∷◌, lookup, string_key, arith, ◌≤◌, ◌+◌, ◌*◌,
}
use monty_server.Text.{same_ignoring_case, is_space, trim, trim_start, trim_end, split_once}
use monty_server.RateLimit as Limiter
use monty_server.RateLimit.{check}
use monty_server.Limits
use monty_server.External.{empty, function_call}
use monty_server.Auth.{Request, Caller, authenticate, bearer_token, admit}
use monty_server.Session as Store
use monty_server.Session.{SessionStore}
use monty_server.Api.Executions.{open_gate}
use monty_server.Api.Dto.{code, into_spec}
use monty_server.Server.{AppState, new}
use monty_server.Server.Requests.{v1, run_program, continue_session, Answer, refused}
use monty_server.Server.Tasks.{Job, runs, resumes, Opened, works, replies, arrive, closes}
use monty_server.Server.Concurrent.{
  System, Steps, arrives, acquires, ends, answers, gives_up, started,
}
use monty_server.Error.{bad_request, session_busy, internal}
use monty_server.Api.Sessions.Handlers.{spawned, start_task}
use monty_server.Server.Concurrent
use monty_server.Server.Concurrent.Others.{OthersSteps, stays, follows}
use monty_server.Server.Concurrent.Isolated.{others_spare}
use monty_server.Session.Isolation.{seen}
use monty_server.Api.Sessions.Flights.{count}
use monty_server.Engine.{ResumeInput, start_session, conclude, settle}
use monty_server.Api.Sessions.Flights.Apart.{Lasting}
use monty_server.Server.Concurrent.Refines.{Refines, steps-Refines}
use monty_server.Server.Concurrent.Answerable.{pending-answered}
use monty_server.Tests.Samples.{types, externals}
use monty_server.Tests.Configs.{loaded, any_ip, vars, alice, loads, one_rate}
use monty_server.Server.Concurrent.Timed.{TimedSteps, duration, served}
use monty_server.Server.Concurrent.Timed
use monty_server.Server.Concurrent.Quota.{served-le_quota}
use monty_server.RateLimit.{token}
use monty_server.Tests.Programs.{os_budget, used}
use monty_server.Tracker.{Tracker, new as new_tracker, end_segment, run as run_calls, begin_segment}
use monty_server.Engine.{end_and_finish, finish_step, begun}
use monty_server.Api.{spawn_execution}
use monty_server.Limits.{resolve}
use monty_server.Server.Concurrent.Dropped.{dropped_stays_busy}
use monty_server.Api.Sessions.Handlers.{begin_resume, store_started, show_entry, status}
use monty_server.Server.Concurrent.InFlight.{in_flight_refuses}
use monty_server.Api.Sessions.Requests.{into_input}
use monty_server.Tests.Requests.{answer}
use monty_server.Tests.Servers.{digits, at, moment, from_alice, creation, program}

abbrev opening : Opened types × AppState types String
opening = arrive externals digits "1.0.0" moment (v1 from_alice creation) (new loaded 0)

abbrev job_in : Opened types → Job types
job_in (works job) = job
job_in (replies _) = runs (Limits.resolve none loaded.limits) (code "" "" [] empty)

-- alice's request waits for a permit.
abbrev queued : System types String
queued = record {
  server = record opening.1 {
    concurrency = record { permits = 4; waiting = 0 ∷ []; running = [] };
  };
  jobs = (0, job_in opening.0) ∷ [];
  next = 1;
}

-- It has got one, and its task runs.
abbrev busy : System types String
busy = record queued {
  server = record queued.server {
    concurrency = record { permits = 3; waiting = []; running = 0 ∷ [] };
  };
}

queue : Steps externals digits "1.0.0" (started loaded 0) queued
unfolding new open_gate Store.new arrive admit authenticate bearer_token split_once
    same_ignoring_case trim trim_start trim_end is_space lookup check Limiter.new into_spec
queue =
    Concurrent.follows Concurrent.stays
      (arrives moment (v1 from_alice creation) (job_in opening.0) opening.1 refl refl)

granted : Steps externals digits "1.0.0" (started loaded 0) busy
granted = Concurrent.follows queue (acquires 0 3 [] [] refl refl refl)

steps-Refines_example : Refines loaded busy
steps-Refines_example = steps-Refines externals digits "1.0.0" loaded 0 granted

pending-answered_example :
    (fuel : ℕ) × (answer : Answer types) × (s' : System types String) × Steps externals digits
      "1.0.0" busy s'
    × (s'.jobs ≡ [])
    × (closes externals digits (record at { fuel = fuel }) (job_in opening.0) busy.server.sessions
        ≡ some (answer, s'.server.sessions))
pending-answered_example =
    pending-answered externals digits "1.0.0" os_budget loaded 0 busy 0 (job_in opening.0) [] [] at
      granted (omega arith) refl

-- The task has ended, and alice's session is in the store.
abbrev ended : System types String
ended = record busy {
  server = record busy.server { concurrency = record { permits = 4; waiting = []; running = [] } };
}

abbrev outcome : Option (Answer types × SessionStore types)
outcome = closes externals digits at (job_in opening.0) ended.server.sessions

abbrev answer_in : Option (Answer types × SessionStore types) → Answer types
answer_in none = refused (bad_request "")
answer_in (some (a, s)) = a

abbrev sessions_in : Option (Answer types × SessionStore types) → SessionStore types
sessions_in none = ended.server.sessions
sessions_in (some (a, s)) = s

abbrev done : System types String
done = record ended { server = record ended.server { sessions = sessions_in outcome }; jobs = [] }

created : Steps externals digits "1.0.0" (started loaded 0) done
unfolding new open_gate Store.new arrive admit authenticate bearer_token split_once
    same_ignoring_case trim trim_start trim_end is_space lookup check Limiter.new into_spec closes
    start_session conclude settle count spawned start_task
created = Concurrent.follows (Concurrent.follows granted (ends 0 [] [] refl refl)) (
    answers 0 (job_in opening.0) [] [] at (answer_in outcome) (sessions_in outcome) refl
      (record { not_waiting = refl; not_running = refl }) refl refl)

-- bob's program waits for a permit, and gets it.
abbrev from_bob : Request
from_bob = record from_alice { authorization = some "Bearer t0ken" }

abbrev bob : Caller
bob = record { id = "bob"; rate = record { per_minute = 5; burst = 5 } }

abbrev running : Opened types × AppState types String
running = arrive externals digits "1.0.0" moment (v1 from_bob (run_program program)) done.server

abbrev bob_runs : System types String
bob_runs = record {
  server = record running.1 {
    concurrency = record { permits = 3; waiting = []; running = 1 ∷ [] };
  };
  jobs = (1, job_in running.0) ∷ [];
  next = 2;
}

not_alice :
    (caller : Caller)
    → authenticate loaded.auth loaded.default_rate from_bob ≡ ok caller
    → caller.id ≢ "alice"
unfolding authenticate bearer_token split_once same_ignoring_case trim trim_start trim_end is_space
    lookup
not_alice caller h = subst (λ (c : Caller). c.id ≢ "alice") (ok-injective {v = bob} h) (λ e. cc)

by_bob : OthersSteps externals digits "1.0.0" "alice" 0 done bob_runs
unfolding new open_gate Store.new arrive admit authenticate bearer_token split_once
    same_ignoring_case trim trim_start trim_end is_space lookup check Limiter.new into_spec closes
    start_session conclude settle count spawned start_task insert erase
by_bob =
    follows
      (follows stays
        (arrives moment (v1 from_bob (run_program program)) (job_in running.0) running.1 refl refl)
        not_alice)
      (acquires 1 3 [] [] refl refl refl) tt

others_spare_example :
    Lasting 0 (seen "alice" 7 done.server.sessions) (seen "alice" 7 bob_runs.server.sessions)
others_spare_example = others_spare externals digits "1.0.0" loaded 0 0 "alice" created tt by_bob 7

-- alice answers the function call of her session, and goes away before there is a permit.
abbrev resuming : Opened types × AppState types String
resuming =
    arrive externals digits "1.0.0" moment (v1 from_alice (continue_session 7 answer)) done.server

abbrev metered : Tracker
metered = used (new_tracker (resolve none loaded.limits) 0)

abbrev alice_waits : System types String
alice_waits = record {
  server = record resuming.1 {
    concurrency = record { permits = 4; waiting = 1 ∷ []; running = [] };
  };
  jobs = (1, resumes 7 0 ResumeInput.pending (function_call 0) metered) ∷ [];
  next = 2;
}

abbrev alice_left : System types String
alice_left = record alice_waits {
  server = record alice_waits.server {
    concurrency = record { permits = 4; waiting = []; running = [] };
  };
  jobs = [];
}

waits : Steps externals digits "1.0.0" (started loaded 0) alice_waits
unfolding new open_gate Store.new arrive admit authenticate bearer_token split_once
    same_ignoring_case trim trim_start trim_end is_space lookup check Limiter.new into_spec closes
    start_session conclude settle count spawned start_task insert erase into_input new_tracker
    resolve begin_resume Store.get store_started spawn_execution Store.create
    Store.acquire_for_resume end_and_finish finish_step end_segment run_calls begun begin_segment
waits = Concurrent.follows created (
    arrives moment (v1 from_alice (continue_session 7 answer)) (job_in resuming.0) resuming.1 refl
      refl)

dropped_stays_busy_example :
    begin_resume 7 "alice" alice_left.server.sessions
    ≡ (err session_busy, alice_left.server.sessions)
unfolding closes spawned start_task arrive into_input admit authenticate Store.get lookup insert
    erase bearer_token split_once same_ignoring_case trim trim_start trim_end is_space check
    Limiter.new into_spec start_session conclude settle new Store.new open_gate begin_resume
    store_started spawn_execution Store.create Store.acquire_for_resume end_and_finish finish_step
    Store.update
dropped_stays_busy_example =
    dropped_stays_busy externals digits "1.0.0" loaded 0 1 7 0 ResumeInput.pending (function_call 0)
      metered [] [] alice_waits alice_left alice_left 7 "alice" waits refl
      (gives_up 1 (resumes 7 0 ResumeInput.pending (function_call 0) metered) [] [] [] [] refl refl
        refl)
      refl refl Concurrent.stays refl

in_flight_refuses_example :
    (show_entry externals 7 30 0 alice_waits.server.sessions ≡ err internal)
    × (status externals 30 "alice" 7 alice_waits.server.sessions ≡ err internal)
    × (begin_resume 7 "alice" alice_waits.server.sessions
        ≡ (err session_busy, alice_waits.server.sessions))
unfolding closes spawned start_task arrive into_input admit authenticate Store.get lookup insert
    erase bearer_token split_once same_ignoring_case trim trim_start trim_end is_space check
    Limiter.new into_spec start_session conclude settle new Store.new open_gate begin_resume
    store_started spawn_execution Store.create Store.acquire_for_resume end_and_finish finish_step
    Store.update
in_flight_refuses_example =
    in_flight_refuses externals digits "1.0.0" loaded 0 1 7 0 ResumeInput.pending (function_call 0)
      metered [] [] alice_waits 7 30 "alice" waits refl refl

-- alice's request, on the clock of the limiter
in_time : TimedSteps externals digits "1.0.0" (started loaded 0) busy
unfolding new open_gate Store.new arrive admit authenticate bearer_token split_once
    same_ignoring_case trim trim_start trim_end is_space lookup check Limiter.new into_spec
in_time =
    Timed.follows
      (Timed.follows Timed.stays 0
        (arrives moment (v1 from_alice creation) (job_in opening.0) opening.1 refl refl))
      3 (acquires 0 3 [] [] refl refl refl)

served-le_quota_example : served "alice" in_time * token ≤ 120 * token + duration in_time * 120
unfolding in_time duration authenticate bearer_token split_once same_ignoring_case trim trim_start
    trim_end is_space lookup
served-le_quota_example =
    served-le_quota externals digits "1.0.0" any_ip (some 4) vars loaded from_alice alice 0 in_time
      loads refl one_rate ((tt, (refl, refl)), tt)
