-- ===== src/Auth.antt =====
-- src/auth.rs: who is calling, and the charge to that caller's bucket. A header is there if `to_str`
-- reads it.
pub mod Admission
pub mod Layers
use mathlib.Core.Option
use Prim.Native.Char.{Char, code}
use Prim.Native.String.{◌++◌ as str_append}
use monty_server.Common.{
  ℕ, ◌+◌, String, str_eq, Bool, true, false, ◌&&◌, ◌||◌, not, Option, none, some, get_or, List,
  Result, ok, err, ◌>>=◌, map_err, ok_or, leb, ◌==◌, if◌then◌else◌, lookup, string_key,
}
use monty_server.Error.{ApiResult, unauthorized, rate_limited}
use monty_server.Text.{is_empty, trim, split_once, head_of_split, same_ignoring_case}
use monty_server.Config.{RateRule, Principal, Auth, disabled, tokens}
use monty_server.RateLimit.{RateLimiter, check}

-- `Caller`
pub record Caller : Type 0 where
  pub id : String
  pub rate : RateRule

-- What the two layers read of a request; `address` is the socket's, as text.
pub record Request : Type 0 where
  pub authorization : Option String
  pub forwarded_for : Option String
  pub address : String

-- `bearer_token`
unfoldable pub bearer_token : Request → Option String
bearer_token r = elim r.authorization [
  | none ↦ none
  | some value ↦ elim (split_once 32 value) [
    | none ↦ none
    | some (scheme, rest) ↦ if same_ignoring_case scheme "bearer" then some (trim rest) else none
  ]
]

-- `client_ip`
unfoldable pub client_ip : Request → String
client_ip r = elim r.forwarded_for [
  | none ↦ r.address
  | some value ↦
      let ip : String = trim (head_of_split 44 value) in if is_empty ip then r.address else ip
]

-- `authenticate`, up to the next layer
unfoldable pub authenticate : Auth → (default_rate : RateRule) → Request → ApiResult Caller
authenticate disabled default_rate r =
    ok (record { id = str_append "ip:" (client_ip r); rate = default_rate })
authenticate (tokens known) default_rate r = do
  token ← ok_or (bearer_token r) unauthorized
  principal ← ok_or (lookup token known) unauthorized
  ok (record { id = principal.name; rate = principal.rate })

-- `rate_limit`, up to the handler
unfoldable pub rate_limit :
    Caller → (started now : ℕ) → RateLimiter → ApiResult (Unit {0}) × RateLimiter
rate_limit caller started now l =
    let (answer, l') = check l caller.id caller.rate started now in
    (map_err rate_limited answer, l')

charged : ApiResult Caller → (started now : ℕ) → RateLimiter → ApiResult Caller × RateLimiter
unfolding rate_limit
charged (err e) started now l = (err e, l)
charged (ok caller) started now l =
    let (answer, l') = rate_limit caller started now l in ((do _ ← answer; ok caller), l')

-- the two layers, as the router stacks them
unfoldable pub admit :
    Auth
    → (default_rate : RateRule) → Request
    → (started now : ℕ) → RateLimiter
    → ApiResult Caller × RateLimiter
unfolding charged
admit auth default_rate r started now l = charged (authenticate auth default_rate r) started now l
