-- ===== src/Tests/Callers.antt =====
-- Tests of src/auth.rs.
use Prim.Native.String.{◌++◌ as str_append}
use monty_server.Common.{
  ◌+◌, String, ◌≡◌, refl, none, some, List, [], ◌∷◌, ok, lookup, string_key, insert,
}
use monty_server.Text.{is_space, split_once, same_ignoring_case, trim, trim_start, trim_end}
use monty_server.Config.{RateRule, Principal, tokens}
use monty_server.RateLimit.{token, RateLimiter, new, check}
use monty_server.RateLimit.Level.{level}
use monty_server.Auth.{Caller, Request, authenticate, admit, bearer_token, rate_limit}
use monty_server.Auth.Admission.{authenticate-bearer, admit-eq-ok}

abbrev slow : RateRule
slow = record { per_minute = 1; burst = 1 }

abbrev alice : Principal
alice = record { name = "alice"; rate = slow }

abbrev known_tokens : List (String × Principal)
known_tokens = ("s3cret", alice) ∷ []

abbrev signed : Request
signed = record { authorization = some "bearer s3cret"; forwarded_for = none; address = "10.0.0.1" }

authenticate-bearer_example :
    authenticate (tokens known_tokens) slow (record {
      authorization = some (str_append "BEARER" (String.◌∷◌ " " "s3cret"));
      forwarded_for = none;
      address = "10.0.0.1";
    })
    ≡ ok (record { id = "alice"; rate = slow })
unfolding split_once same_ignoring_case trim trim_start trim_end is_space lookup
authenticate-bearer_example =
    authenticate-bearer known_tokens slow "BEARER" "s3cret" "10.0.0.1" none alice refl refl refl
      refl

abbrev caller : Caller
caller = record { id = "alice"; rate = slow }

abbrev after : RateLimiter
after = (check new "alice" slow 0 0).1

admit-eq-ok_example :
    (authenticate (tokens known_tokens) slow signed ≡ ok caller)
    × (token + level slow 0 after "alice" ≡ level slow 0 new "alice")
unfolding admit authenticate bearer_token split_once same_ignoring_case trim trim_start trim_end
    is_space lookup insert rate_limit check new
admit-eq-ok_example = admit-eq-ok (tokens known_tokens) slow signed 0 0 new caller after refl
