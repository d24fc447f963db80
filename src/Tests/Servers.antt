-- ===== src/Tests/Servers.antt =====
-- Tests of the server as a whole: src/api/mod.rs over src/api/sessions.rs.
use monty_server.Common.{
  ◌+◌, false, true, ℕ, ◌≡◌, ◌≢◌, refl, subst, ok-injective, ◌⊎◌, String, none, some, Option, ok,
  err, false, lookup, nat_key, string_key,
}
use monty_server.Error.{bad_request}
use monty_server.Text.{is_space, split_once, same_ignoring_case, trim, trim_start, trim_end}
use monty_server.RateLimit as Limiter
use monty_server.RateLimit.{check}
use monty_server.Auth.{Request, Caller, admit, authenticate, bearer_token}
use monty_server.Session as Store
use monty_server.Session.{SessionStore}
use monty_server.Session.Isolation.{seen}
use monty_server.External.{RunProgress, function_call}
use monty_server.Engine.{ResumeInput, mismatch_message, is_match, start_session, conclude, settle}
use monty_server.Api.{completes}
use monty_server.Api.Dto.{SourceFields, into_spec}
use monty_server.Api.Sessions.Requests.{ResumeRequest, into_input}
use monty_server.Api.Sessions.Handlers.{Surroundings, resume}
use monty_server.Api.Sessions.Handlers
use monty_server.Api.Sessions.Refusals.{resume-mismatch}
use monty_server.Server.{AppState, Tick, new, sweep}
use monty_server.Server.Sweeping.{sweep-keeps}
use monty_server.Session.Expiry.{unexpired}
use monty_server.RateLimit.Level.{level}
use monty_server.Server.Requests.{Operation, create_session, v1, Answer, refused, Moment, serve}
use monty_server.Server.Privacy.{starts, serve-hides}
use monty_server.Server.Admitted.{IsUnknown, IsLimited, IsHandled, serve-cases}
use monty_server.Server.Returning.{fueled, serve_returns}
use monty_server.Tests.Programs.{os_budget}
use monty_server.Tests.Samples.{types, externals, readings}
use monty_server.Tests.Configs.{loaded, any_ip, vars, loads}
use monty_server.Tests.Requests.{one_session, idle, answer}

abbrev tick : Tick
tick = record { reaped_at = 40; pruned_at = 50; locked = λ _. false }

abbrev pub digits : ℕ → String
digits _ = "0"

abbrev pub at : Surroundings
at = record {
  fuel = 10;
  readings = readings;
  stored_at = 20;
  shown_at = 30;
  task_end = completes;
  fresh_id = 7;
}

abbrev pub moment : Moment
moment = record { bucket_made_at = 0; checked_at = 0; at = at }

abbrev pub from_alice : Request
from_alice = record {
  authorization = some "Bearer s3cret";
  forwarded_for = none;
  address = "10.0.0.1";
}

abbrev pub program : SourceFields types
program = record {
  code = some "f()";
  snapshot = none;
  filename = none;
  inputs = none;
  limits = none;
}

abbrev pub creation : Operation types
creation = create_session (record { source = program; ttl_seconds = none })

abbrev started : AppState types String
started = new loaded 0

abbrev result : Option (Answer types × AppState types String)
result = serve externals digits "1.0.0" moment (v1 from_alice creation) started

abbrev answer_in : Option (Answer types × AppState types String) → Answer types
answer_in none = refused (bad_request "")
answer_in (some (a, s)) = a

abbrev state_in : Option (Answer types × AppState types String) → AppState types String
state_in none = started
state_in (some (a, s)) = s

abbrev alice : Caller
alice = record { id = "alice"; rate = record { per_minute = 120; burst = 120 } }

not_bob :
    (caller : Caller)
    → authenticate started.config.auth started.config.default_rate from_alice ≡ ok caller
    → caller.id ≢ "bob"
unfolding new authenticate bearer_token split_once same_ignoring_case trim trim_start trim_end
    is_space lookup
not_bob caller h = subst (λ (c : Caller). c.id ≢ "bob") (ok-injective {v = alice} h) (λ e. cc)

-- alice creates a session.
served : result ≡ some (answer_in result, state_in result)
unfolding new Store.new serve admit authenticate bearer_token split_once same_ignoring_case trim
    trim_start trim_end is_space lookup check Limiter.new Handlers.create into_spec start_session
    conclude settle
served = refl

serve-hides_example : seen "bob" 7 (state_in result).sessions ≡ seen "bob" 7 started.sessions
unfolding new Store.new lookup
serve-hides_example =
    serve-hides externals digits "1.0.0" loaded started (state_in result) moment from_alice creation
      (answer_in result) "bob" (starts 0) refl served not_bob 7

serve-cases_example :
    IsUnknown from_alice started (state_in result) (answer_in result)
    ⊎ (caller : Caller) × (authenticate started.config.auth started.config.default_rate from_alice
        ≡ ok caller)
      × (IsLimited moment caller started (state_in result) (answer_in result)
          ⊎ IsHandled externals digits "1.0.0" moment caller creation started
              (state_in result)
              (answer_in result))
serve-cases_example =
    serve-cases externals digits "1.0.0" moment from_alice creation started (state_in result)
      (answer_in result) served

abbrev asked : RunProgress types
asked = function_call 3

abbrev named : ResumeInput types
named = ResumeInput.name_undefined

-- alice answers a function call as a name lookup
abbrev misfit : ResumeRequest types
misfit = record answer { pending = none; undefined = some true }

resume-mismatch_example :
    (s' : SessionStore types) × (resume externals digits at "alice" 7 misfit one_session
      ≡ some (err (bad_request (mismatch_message asked named)), s'))
    × (s'.sessions ≡ one_session.sessions)
    × ((j : ℕ) → lookup j s'.heap ≡ lookup j one_session.heap)
unfolding into_input is_match lookup Store.get
resume-mismatch_example =
    resume-mismatch externals digits at "alice" 7 misfit one_session 0
      (record { entry = idle; poisoned = false }) asked named refl refl refl refl refl refl refl

sweep-keeps_example :
    ((principal : String) (id : ℕ)
      → seen principal id (sweep tick started).sessions
        ≡ unexpired 40 (seen principal id started.sessions))
    × ((request : Request) (caller : Caller)
        → authenticate started.config.auth started.config.default_rate request ≡ ok caller
        → level caller.rate 50 (sweep tick started).rate_limiter caller.id
          ≡ level caller.rate 50 started.rate_limiter caller.id)
sweep-keeps_example =
    sweep-keeps externals digits "1.0.0" any_ip (some 4) vars loaded started tick loads (starts 0)

serve_returns_example :
    (fuel : ℕ) × (a : Answer types) × (s' : AppState types String) × ((extra : ℕ)
      → serve externals digits "1.0.0"
          (fueled moment (fuel + extra))
          (v1 from_alice creation)
          started
        ≡ some (a, s'))
serve_returns_example =
    serve_returns externals digits "1.0.0" os_budget moment (v1 from_alice creation) started
