-- ===== src/Tests/Configs.antt =====
-- Tests of src/config.rs and of the gate in src/api/mod.rs.
use monty_server.Common.{
  Option-cases, Bool-cases, ◌∙◌, inl, inr, ◌+◌, ◌*◌, ◌^◌, ◌≤◌, ◌≡◌, refl, String, str_eq, Option,
  none, some, List, [], ◌∷◌, ok, arith, lookup, insert, erase, string_key, if◌then◌else◌,
}
use monty_server.Text.{
  is_space, trim, trim_start, trim_end, split, split_once, parse_unsigned, read_digits,
}
use monty_server.Config.{RateRule, rate_rule, Principal, tokens, Config}
use monty_server.Config.Env.{Vars, env_str, env_int}
use monty_server.Config.Tokens.{entry_of, read_entries, load_auth}
use monty_server.Config.Tokens.Written.{
  labelled, rated, Line, write, write_lines, last_principal, load_auth-write_lines,
}
use monty_server.Config.Loading.{origins_of, load_limits, load_sessions, load_rest, from_env}
use monty_server.Config.Admissible.{IsAdmissible, from_env-IsAdmissible}
use monty_server.Config.Quota.{HasRate}
use monty_server.Auth.{Caller, authenticate, bearer_token}
use monty_server.Limits.{from_millis, from_secs}
use monty_server.Api.Executions.{
  Gate, open_gate, Steps, arrives, acquires, stays, follows, executions-le_max,
}

abbrev tokens_text : String
tokens_text = " alice:s3cret,bob:t0ken:5 "

abbrev pub vars : Vars
vars var = if str_eq var "MONTY_API_TOKENS" then some tokens_text else none

abbrev alice_line : Line
alice_line = record { raw = " alice:s3cret"; entry = labelled "alice" "s3cret" }

abbrev bob_line : Line
bob_line = record { raw = "bob:t0ken:5 "; entry = rated "bob" "t0ken" "5" 5 }

load_auth-write_lines_example :
    (known : List (String × Principal)) × (load_auth vars (rate_rule 120) ≡ ok (tokens known))
    × ((secret : String)
        → lookup secret known ≡ last_principal (rate_rule 120) secret (alice_line ∷ bob_line ∷ []))
unfolding write_lines write trim trim_start trim_end is_space split_once parse_unsigned read_digits
load_auth-write_lines_example =
    load_auth-write_lines vars (rate_rule 120) alice_line (bob_line ∷ []) refl
      (record { one = refl; written = refl; filled = refl; clean = (refl, refl) })
      (record { one = refl; written = refl; filled = refl; clean = (refl, refl, refl, refl) }, tt)

abbrev five : RateRule
five = record { per_minute = 5; burst = 5 }

abbrev default_rule : RateRule
default_rule = record { per_minute = 120; burst = 120 }

abbrev pub loaded : Config String
loaded = record {
  host = "0.0.0.0";
  port = 8080;
  auth = tokens (
      ("t0ken", record { name = "bob"; rate = five })
      ∷ ("s3cret", record { name = "alice"; rate = default_rule })
      ∷ []);
  default_rate = default_rule;
  max_concurrency = 4;
  max_body_bytes = 2 ^ 20;
  request_timeout = from_secs 35;
  limits = record {
    default_duration = from_millis 5000;
    max_duration = from_millis 30000;
    default_memory_bytes = 64 * 2 ^ 20;
    max_memory_bytes = 256 * 2 ^ 20;
    default_max_allocations = 5000000;
    max_allocations = 50000000;
    default_recursion_depth = 1000;
    max_recursion_depth = 4000;
  };
  sessions = record { default_ttl = from_secs 300; max_ttl = from_secs 3600; max_sessions = 1000 };
  cors_origins = [];
}

abbrev pub any_ip : String → Option String
any_ip s = some s

pub loads : from_env any_ip (some 4) vars ≡ ok loaded
unfolding from_env load_rest load_limits load_sessions load_auth read_entries entry_of env_str
    env_int origins_of rate_rule trim trim_start trim_end is_space split parse_unsigned read_digits
    insert erase
loads = refl

from_env-IsAdmissible_example : IsAdmissible loaded
from_env-IsAdmissible_example = from_env-IsAdmissible any_ip (some 4) vars loaded loads

-- Of two requests that wait, one has a permit.
abbrev half_full : Gate
half_full = record { permits = 3; waiting = 2 ∷ []; running = 1 ∷ [] }

arrivals : Steps (open_gate loaded) half_full
unfolding open_gate
arrivals =
    follows (follows (follows stays (arrives 1 refl)) (arrives 2 refl))
      (acquires 1 3 (2 ∷ []) [] refl refl refl)

executions-le_max_example : (1 ≤ 4) × (3 + 1 ≡ 4)
executions-le_max_example = executions-le_max loaded half_full arrivals

abbrev pub alice : Caller
alice = record { id = "alice"; rate = default_rule }

not_alice : {A : Type 0} → ◌≡◌ {A = String} "bob" "alice" → A
not_alice e = absurd cc

pub one_rate : HasRate loaded "alice" default_rule
unfolding authenticate lookup
one_rate request caller known same = elim (Option-cases (bearer_token request)) [
  | inl absent ↦ ground (arith, known, absent)
  | inr (secret, given) ↦ elim (Bool-cases (str_eq "t0ken" secret)) [
    | inl is_bob ↦
        let named_bob : "bob" ≡ caller.id = ground (arith, known, given, is_bob) in
        not_alice (named_bob ∙ same)
    | inr other ↦ elim (Bool-cases (str_eq "s3cret" secret)) [
      | inl is_alice ↦ ground (arith, known, given, other, is_alice)
      | inr unknown ↦ ground (arith, known, given, other, unknown)
    ]
  ]
]
