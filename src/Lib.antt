-- ===== src/Lib.antt =====
-- monty-server is an HTTP API in front of monty, a sandboxed interpreter of Python. A request carries
-- code or a compiled snapshot, inputs as JSON and limits. The server resolves the limits against its
-- own, runs the program under a tracker that meters and stops it, and answers with the outcome
-- (`POST /v1/run`), or keeps the paused program as a session that the client resumes step by step
-- (`/v1/sessions`).
--
-- The files, and the code that each models:
--   Common     lists, maps as association lists, `Result`, tests on numbers
--   Error      src/error.rs: `ApiError`, its status, code and response
--   Text       what the code uses of `str`: trimming, splitting, reading unsigned numbers, as std
--              documents them
--   Config     src/config.rs: its records; Config/Env, Config/Tokens and Config/Loading are
--              `Config::from_env` and what it calls
--   Auth       src/auth.rs: `authenticate` and `rate_limit`, the two layers in front of every handler
--   Limits     src/limits.rs: `ResolvedLimits::resolve`
--   Tracker    src/tracker.rs: `StatsTracker` and its `ResourceTracker` calls; an execution is, for its
--              tracker, a list of such calls (`Call`)
--   RateLimit  src/rate_limit.rs: `RateLimiter::check` and `prune_idle`
--   External   what other crates do: monty, serde_json, base64, as a record of types and one of
--              operations, which are arguments of everything that uses them
--   Convert    src/convert.rs: JSON to values of monty and back; Convert/Format is the table at the
--              head of that file as a relation, Convert/Wire a translation in the other direction
--   Engine     src/engine.rs: `run_to_completion`, `start_session`, `resume_session`, `settle`
--   Session    src/session.rs: `SessionStore` and `SessionEntry`; a shared entry is a reference into a
--              heap of cells, so that a handler can hold an entry which is no longer in the map
--   Api        src/api/mod.rs (`spawn_execution`), with Api/Dto (src/api/dto.rs), Api/Run
--              (src/api/run.rs), Api/Compile (src/api/compile.rs) and Api/Sessions
--              (src/api/sessions.rs: bodies in Requests, views in View, handlers in Handlers);
--              Api/Executions is the semaphore in front of the blocking tasks
--   Server     src/state.rs (`AppState`) and the reaper of src/main.rs; Server/Requests is the router
--              of src/api/mod.rs, Server/Meta is src/api/meta.rs, Server/Launch the start in
--              src/main.rs and `cors_layer`; Server/Tasks splits a request at its blocking task,
--              and Server/Concurrent has the steps of a server with many requests at a time
--   Tests      tests at concrete inputs, on a small interpreter
-- The lemmas and theorems on a module stand in the files of its folder.
--
-- A handler takes the store and gives back a result and the store. The readings of the clock, fresh
-- ids and the ends of blocking tasks are arguments. What interleaves is split where the code holds no
-- lock: `begin_resume` and `finish_resume` in Api/Sessions/Handlers.antt are the two halves of `resume`
-- around its task, `has_room` and `insert_entry` the two halves of `create`. Flights.antt (all requests
-- on sessions), Capacity.antt (creations) and Executions.antt (permits) have the relations of their
-- steps. `serve` in Server/Requests.antt runs one request from its layers to its answer with no
-- other in between, and gives its blocking task a permit at once. Server/Concurrent.antt has the
-- steps of all requests on all routes: `arrive` is a request up to its task, `closes` the task and
-- what follows it, and between these it waits for its permit, and may be dropped. There `create` of
-- the store is one step, and Capacity.antt tells its halves apart. There too the view that a creation
-- or a resume answers with is read in the step that stores the session: the source locks the entry
-- again for it, so that it may show what a later step has stored, or find that the next resume has the
-- program. The view changes no state, so the states that are reached are the same, and
-- Server/Concurrent/InFlight.antt is about reading an entry at any other time.
--
-- Numbers: durations are nanoseconds, and a token of the rate limiter is 60 * 10^9 units, in which the
-- refill of the source would be exact. The source computes in floats, which round: where the tokens of
-- a bucket are within rounding of a whole one, its answer, or by one second the time to wait that it
-- names, can differ from that of the model. The allocations, the memory and the
-- counter of time checks wrap at their width or saturate, as in a release build.
--
-- Fuel: `settle` loops while the program makes OS calls, each of which it answers with an
-- exception. Its fuel counts these rounds, and `none` is a loop that has not ended. `OsBudget`
-- (Engine/Settling.antt) says that the program makes finitely many OS calls in a row, and bounds
-- their number: fuel for these and one more is enough. `Returns` (Common/Fuel.antt) says of anything
-- on fuel that it returns on some fuel, and the same on any more.
--
-- Not modelled: sockets, signals and logging (src/main.rs), and what axum and tower do around the
-- routes: matching paths, the timeout, the limit on bodies, CORS headers, catching panics. A request
-- that the timeout drops is a step of Server/Concurrent.antt. Parsing of bodies and paths belongs to
-- serde and axum; a request that they refuse is `malformed`. The texts of `ConfigError` and the
-- logged lines are left out.
pub mod Common
pub mod Error
pub mod Text
pub mod Config
pub mod Limits
pub mod Tracker
pub mod RateLimit
pub mod External
pub mod Convert
pub mod Engine
pub mod Session
pub mod Auth
pub mod Api
pub mod Server
pub mod Tests
