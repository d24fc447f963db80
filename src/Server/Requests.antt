-- ===== src/Server/Requests.antt =====
-- The routes of src/api/mod.rs: a request that axum has matched and decoded, through the layers of
-- its route and its handler, with no other request in between; a blocking task gets its permit at
-- once. What the layers outside of the routes do (a timeout, a body that is too large, CORS) is
-- tower's.
use mathlib.Core.Option
use monty_server.Common.{ℕ, String, Option, some, ok, err}
use monty_server.Error.{ApiError, ApiResult}
use monty_server.Error as Error
use monty_server.Auth.{Request, Caller, admit}
use monty_server.External.{Types, Externals}
use monty_server.Api.Dto.{SourceFields, Outcome}
use monty_server.Api.Run.{run}
use monty_server.Api.Compile.{CompileRequest, CompileResponse, compile}
use monty_server.Api.Sessions.Requests.{CreateSessionRequest, ResumeRequest}
use monty_server.Api.Sessions.View.{SessionView}
use monty_server.Api.Sessions.Handlers.{
  CreateOutcome, created, compile_failed, Surroundings, create, resume, status, delete,
}
use monty_server.Session.{SessionStore}
use monty_server.Server.{AppState}
use monty_server.Server.Meta.{Banner, InfoView, root, health, info}

-- A request on a route under `/v1`. The path or the body of one that is malformed is refused by
-- axum, after the layers, with a status of axum's.
pub data Operation (x : Types) : Type 0 where
  run_program : SourceFields x → Operation x
  compile_program : CompileRequest → Operation x
  show_info : Operation x
  create_session : CreateSessionRequest x → Operation x
  get_session delete_session : (id : ℕ) → Operation x
  continue_session : (id : ℕ) → ResumeRequest x → Operation x
  malformed : (status_code : ℕ) → Operation x

-- A request on a route of the router.
pub data Route (x : Types) : Type 0 where
  get_root get_health : Route x
  v1 : Request → Operation x → Route x

pub data Answer (x : Types) : Type 0 where
  banner : Banner → Answer x
  healthy : String → Answer x
  summary : InfoView → Answer x
  outcome : Outcome x → Answer x
  compiled : CompileResponse → Answer x
  session_created : CreateOutcome x → Answer x
  session : SessionView x → Answer x
  empty : (status_code : ℕ) → Answer x
  refused : ApiError → Answer x
  rejected : (status_code : ℕ) → Answer x

-- the status of `IntoResponse for CreateOutcome`
created_status : {x : Types} → CreateOutcome x → ℕ
created_status (created _) = 201
created_status (compile_failed _) = 200

-- the HTTP status of a response
unfoldable pub status_code : {x : Types} → Answer x → ℕ
unfolding created_status
status_code (session_created c) = created_status c
status_code (empty code) = code
status_code (refused e) = Error.status e
status_code (rejected code) = code
status_code _ = 200

-- What the request reads besides: the clock in the limiter, and what its handler reads.
pub record Moment : Type 0 where
  pub bucket_made_at : ℕ
  pub checked_at : ℕ
  pub at : Surroundings

module _ {x : Types} where
  -- `IntoResponse` of what a handler returns
  abbrev pub answer_of : {A : Type 0} → (A → Answer x) → ApiResult A → Answer x
  answer_of shape (err e) = refused e
  answer_of shape (ok a) = shape a

-- `show` prints a `usize`, `version` is that of the package.
module _ {x : Types} (m : Externals x) (show : ℕ → String) (version : String)
    {Address : Type 0} where
  -- the handler of a route under `/v1`: the answer, and the sessions after it
  unfoldable pub handle :
      Surroundings → Caller → Operation x → AppState x Address → Option (Answer x × SessionStore x)
  handle at caller (run_program request) s =
      some (answer_of outcome (run m s.config.limits at.readings at.task_end request), s.sessions)
  handle at caller (compile_program request) s =
      some (answer_of compiled (compile m at.task_end request), s.sessions)
  handle at caller show_info s = some (summary (info version at.shown_at s), s.sessions)
  handle at caller (create_session request) s =
      Option.map (λ r. (answer_of session_created r.0, r.1))
        (create m show s.config.limits s.config.sessions at caller.id request s.sessions)
  handle at caller (get_session id) s =
      some (answer_of session (status m at.shown_at caller.id id s.sessions), s.sessions)
  handle at caller (delete_session id) s =
      let (answer, sessions) = delete m caller.id id s.sessions in
      some (answer_of empty answer, sessions)
  handle at caller (continue_session id request) s =
      Option.map (λ r. (answer_of session r.0, r.1))
        (resume m show at caller.id id request s.sessions)
  handle at caller (malformed status_code) s = some (rejected status_code, s.sessions)

  -- behind `authenticate` and `rate_limit`
  unfoldable pub behind_layers :
      Moment
      → Operation x
      → ApiResult Caller
      → AppState x Address
      → Option (Answer x × AppState x Address)
  unfolding handle
  behind_layers moment call (err e) s = some (refused e, s)
  behind_layers moment call (ok caller) s =
      Option.map (λ r. (r.0, record s { sessions = r.1 })) (handle moment.at caller call s)

  -- `build_router`
  unfoldable pub serve :
      Moment → Route x → AppState x Address → Option (Answer x × AppState x Address)
  unfolding behind_layers
  serve moment get_root s = some (banner (root version), s)
  serve moment get_health s = some (healthy health, s)
  serve moment (v1 request call) s =
      let (admission, limiter) =
        admit s.config.auth s.config.default_rate request moment.bucket_made_at moment.checked_at
          s.rate_limiter in
      behind_layers moment call admission (record s { rate_limiter = limiter })
