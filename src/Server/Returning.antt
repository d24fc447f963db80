-- ===== src/Server/Returning.antt =====
-- A request on a route of the router (src/api/mod.rs) gets an answer.
use monty_server.Common.{ℕ, ◌+◌, ◌≡◌, String, some, err, ok, Returns, some-Returns, map-Returns}
use monty_server.Error.{ApiResult}
use monty_server.Auth.{Caller}
use monty_server.External.{Types, Externals}
use monty_server.Engine.Settling.{OsBudget}
use monty_server.Api.Sessions.Handlers.{Surroundings}
use monty_server.Api.Sessions.Returning.{with_fuel, create-Returns, resume-Returns}
use monty_server.Server.{AppState}
use monty_server.Server.Requests.{
  Operation, run_program, compile_program, show_info, create_session, get_session, delete_session,
  continue_session, malformed, Route, get_root, get_health, v1, Answer, Moment, handle,
  behind_layers, serve,
}

-- The same moment with another fuel.
abbrev pub fueled : Moment → ℕ → Moment
fueled moment fuel = record moment { at = with_fuel moment.at fuel }

module _ {x : Types} (m : Externals x) (show : ℕ → String) (version : String)
    {Address : Type 0} where
  handle-Returns :
      (b : OsBudget m) (at : Surroundings) (caller : Caller) (operation : Operation x)
      (s : AppState x Address)
      → Returns (λ fuel. handle m show version (with_fuel at fuel) caller operation s)
  unfolding handle
  handle-Returns b at caller (run_program request) s = some-Returns _
  handle-Returns b at caller (compile_program request) s = some-Returns _
  handle-Returns b at caller show_info s = some-Returns _
  handle-Returns b at caller (create_session request) s =
      map-Returns _
        (create-Returns m b show s.config.limits s.config.sessions at caller.id request s.sessions)
  handle-Returns b at caller (get_session id) s = some-Returns _
  handle-Returns b at caller (delete_session id) s = some-Returns _
  handle-Returns b at caller (continue_session id request) s =
      map-Returns _ (resume-Returns m b show at caller.id id request s.sessions)
  handle-Returns b at caller (malformed code) s = some-Returns _

  behind_layers-Returns :
      (b : OsBudget m) (moment : Moment) (operation : Operation x) (admission : ApiResult Caller)
      (s : AppState x Address)
      → Returns (λ fuel. behind_layers m show version (fueled moment fuel) operation admission s)
  unfolding behind_layers
  behind_layers-Returns b moment operation (err e) s = some-Returns _
  behind_layers-Returns b moment operation (ok caller) s =
      map-Returns _ (handle-Returns b moment.at caller operation s)

  serve-Returns :
      (b : OsBudget m) (moment : Moment) (route : Route x) (s : AppState x Address)
      → Returns (λ fuel. serve m show version (fueled moment fuel) route s)
  unfolding serve
  serve-Returns b moment get_root s = some-Returns _
  serve-Returns b moment get_health s = some-Returns _
  serve-Returns b moment (v1 request operation) s = behind_layers-Returns b moment operation _ _

  -- If the program makes finitely many OS calls in a row, then every request on a route of the
  -- router, in every state of the server, gets an answer on some fuel, given that a blocking task
  -- gets its permit at once, and the same answer and state on any more fuel.
  pub serve_returns :
      (b : OsBudget m) (moment : Moment) (route : Route x) (s : AppState x Address)
      → (fuel : ℕ) × (answer : Answer x) × (s' : AppState x Address) × ((extra : ℕ)
          → serve m show version (fueled moment (fuel + extra)) route s ≡ some (answer, s'))
  serve_returns b moment route s =
      let r = serve-Returns b moment route s in (r.enough, r.value.0, r.value.1, r.returned)
