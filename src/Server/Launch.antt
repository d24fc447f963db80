-- ===== src/Server/Launch.antt =====
-- The start of the server (src/main.rs) and its CORS layer (src/api/mod.rs). What tokio, axum, tower
-- and the subscriber of tracing do is a parameter or left out.
use monty_server.Common.{
  ℕ, String, str_eq, Bool, false, ◌||◌, Option, none, some, List, [], ◌∷◌, ok, err, if◌then◌else◌,
}
use monty_server.Text.{same_ignoring_case}
use monty_server.Config.Env.{Vars}
use monty_server.Config.Loading.{from_env}
use monty_server.External.{Types}
use monty_server.Server.{AppState, new}

-- `CorsLayer`, as the server builds it
pub data CorsLayer (HeaderValue : Type 0) : Type 0 where
  closed any_origin : CorsLayer HeaderValue
  listed : List HeaderValue → CorsLayer HeaderValue

-- `origins.iter().any(|o| o == "*")`
unfoldable pub has_star : List String → Bool
has_star [] = false
has_star (o ∷ origins) = str_eq o "*" || has_star origins

-- the `filter_map` in `cors_layer`
unfoldable pub parsed :
    {HeaderValue : Type 0} → (String → Option HeaderValue) → List String → List HeaderValue
parsed parse [] = []
parsed parse (o ∷ origins) =
    let rest = parsed parse origins in elim (parse o) [ none ↦ rest | some value ↦ value ∷ rest ]

-- `cors_layer`; `parse` is `HeaderValue::from_str`
unfoldable pub cors_layer :
    {HeaderValue : Type 0}
    → (parse : String → Option HeaderValue) → List String
    → CorsLayer HeaderValue
unfolding has_star parsed
cors_layer parse [] = closed
cors_layer parse (o ∷ origins) =
    if has_star (o ∷ origins) then any_origin else listed (parsed parse (o ∷ origins))

-- the format that `init_tracing` chooses
unfoldable pub wants_json : Vars → Bool
wants_json vars = elim (vars "MONTY_LOG_FORMAT") [
  | none ↦ false
  | some value ↦ same_ignoring_case value "json"
]

-- `ExitCode`
pub data ExitCode : Type 0 where
  success failure : ExitCode

-- `main`: `bind` gives a listener, and `run` tells whether `axum::serve` ends without an error.
module _ {x : Types} {Address Listener : Type 0} (parse_ip : String → Option Address)
    (parallelism : Option ℕ) (bind : Address → (port : ℕ) → Option Listener)
    (run : Listener → AppState x Address → Bool) where
  unfoldable pub main : Vars → (now : ℕ) → ExitCode
  main vars now = elim (from_env parse_ip parallelism vars) [
    | err _ ↦ failure
    | ok config ↦ elim (bind config.host config.port) [
      | none ↦ failure
      | some listener ↦ if run listener (new config now) then success else failure
    ]
  ]
