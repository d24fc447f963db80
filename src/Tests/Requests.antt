-- ===== src/Tests/Requests.antt =====
-- Tests of src/session.rs and src/api/sessions.rs.
use monty_server.Common.{
  ℕ, ◌+◌, ◌-◌, ◌≤◌, ◌≡◌, ◌≢◌, refl, String, str_eq, some, none, [], ◌∷◌, arith, true, false,
  nat_key, lookup, insert, retain, ◌==◌, if◌then◌else◌,
}
use monty_server.Error.{bad_request}
use monty_server.Limits.{resolve}
use monty_server.Tracker.{Tracker, ExecStats, new}
use monty_server.External.{null, function_call}
use monty_server.Engine.{Output, SessionStep, paused, ResumeInput}
use monty_server.Session as Store
use monty_server.Session.{
  SessionStore, SessionEntry, Cell, StepSnapshot, create, has_room, new_entry, insert_entry, get,
  reap_expired, len, acquire_for_resume, update, split_step,
}
use monty_server.Session.Entries.{IsBusy, IsConsistent}
use monty_server.Session.Capacity.{Creation, Turns, stays, follows, tests, inserts, len-le_capacity}
use monty_server.Session.Owners.{get-create}
use monty_server.Session.Reaping.{survives, reap_expired-retain}
use monty_server.Api.Sessions.Requests.{ResumeRequest, into_input, one_action}
use monty_server.Api.Sessions.Handlers.{begin_resume}
use monty_server.Api.Sessions.Inputs.{IsAnswer, IsBadRequest, into_input-eq-err}
use monty_server.Api.Sessions.Inputs.Alone.{IsAlone, into_input-eq-ok}
use monty_server.Api.Sessions.Flights.{
  System, Step, Steps, creates, begins, count, land, empty_system,
}
use monty_server.Api.Sessions.Flights as Flights
use monty_server.Api.Sessions.Flights.Single.{single_flight}
use monty_server.Tests.Samples.{types, externals, bounds}

abbrev fresh : Tracker
fresh = new (resolve none bounds) 0

abbrev output : Output
output = record { stdout = ""; stderr = "" }

abbrev sample_stats : ExecStats
sample_stats = record { duration = 0; allocations = 0; peak_memory_bytes = 0 }

abbrev pause : SessionStep types
pause = paused (function_call 3) output sample_stats

abbrev pub idle : SessionEntry types
idle = record {
  principal = "alice";
  ttl = 100;
  created_at = 0;
  expires_at = 100;
  tracker = fresh;
  progress = some (function_call 3);
  terminal = false;
  snapshot = StepSnapshot.paused output sample_stats;
}

abbrev taken : SessionEntry types
taken = record idle { progress = none }

-- One session of alice under 7, paused.
abbrev pub one_session : SessionStore types
one_session = record {
  sessions = (7, 0) ∷ [];
  max_sessions = 2;
  heap = (0, record { entry = idle; poisoned = false }) ∷ [];
  next_ref = 1;
}

abbrev one_taken : SessionStore types
one_taken = record one_session { heap = (0, record { entry = taken; poisoned = false }) ∷ [] }

unused : (k : ℕ) → lookup k one_session.sessions ≢ some one_session.next_ref
unfolding lookup
unused k = ground arith

get-create_example : get 7 "bob" (create "bob" 50 fresh pause 8 20 one_session).1 ≡ (
    if 8 == 7
    then (if str_eq "bob" "bob" then some one_session.next_ref else none)
    else get 7 "bob" one_session)
unfolding has_room
get-create_example = get-create "bob" 50 fresh pause 8 20 one_session refl unused 7 "bob"

reap_expired-retain_example :
    ((reap_expired 100 one_session).1 ≡ record one_session {
      sessions = retain (survives 100 one_session.heap) one_session.sessions;
    })
    × ((reap_expired 100 one_session).0 + len (reap_expired 100 one_session).1 ≡ len one_session)
unfolding lookup
reap_expired-retain_example = reap_expired-retain 100 one_session (refl, tt)

-- Two requests pass the test of a store for one session, and both insert.
abbrev raced : Creation types
raced = record { store = insert_entry 8 idle (insert_entry 7 idle (Store.new 1)); cleared = 0 }

race : Turns 2 (record { store = Store.new {x = types} 1; cleared = 0 }) raced
unfolding has_room Store.new insert_entry
race =
    follows
      (follows
        (follows (follows stays (tests refl (omega arith) refl)) (tests refl (omega arith) refl))
        (inserts 7 idle (omega arith) refl))
      (inserts 8 idle (omega arith) refl)

len-le_capacity_example : len raced.store ≤ 1 + (2 - 1)
len-le_capacity_example = len-le_capacity 1 2 race

abbrev pub answer : ResumeRequest types
answer = record {
  return_value = none;
  exception = none;
  pending = some true;
  value = none;
  undefined = none;
  futures = none;
}

abbrev two_answers : ResumeRequest types
two_answers = record answer { return_value = some null }

abbrev digits : ℕ → String
digits _ = "0"

into_input-eq-ok_example :
    IsAnswer externals digits answer ResumeInput.pending × IsAlone answer ResumeInput.pending
unfolding into_input
into_input-eq-ok_example = into_input-eq-ok externals digits answer ResumeInput.pending refl

into_input-eq-err_example : IsBadRequest (bad_request one_action)
unfolding into_input
into_input-eq-err_example =
    into_input-eq-err externals digits two_answers (bad_request one_action) refl

-- A session is created, and its resume begins.
abbrev created : System types
created = record { store = (create "alice" 100 fresh pause 7 0 (Store.new 2)).1; flights = [] }

abbrev flying : System types
flying = record { store = (begin_resume 7 "alice" created.store).1; flights = 0 ∷ [] }

flight : Steps (empty_system {x = types} 2) flying
unfolding begin_resume create Store.new get lookup insert acquire_for_resume
flight =
    Flights.follows (Flights.follows Flights.stays (creates "alice" 100 fresh pause 7 0 refl))
      (begins 7 "alice" 0 (function_call 3) fresh refl refl)

single_flight_example :
    (count 0 flying.flights ≡ 1)
    × (c : Cell types) × (lookup 0 flying.store.heap ≡ some c)
    × IsBusy c.entry
    × IsConsistent c.entry
unfolding count
single_flight_example = single_flight 2 0 flight (omega arith)
