-- ===== src/Auth/Admission.antt =====
-- The two layers of src/auth.rs together: who is admitted, and at what price.
use Prim.Native.String.{◌++◌ as str_append}
use Prim.Native.String.append
use monty_server.Common.{
  ℕ, ◌+◌, ◌≡◌, refl, String, true, Option, none, some, List, Result, ok, err, ◌>>=◌, map_err, arith,
  subst, lookup, string_key, ◌∙◌, ap,
}
use monty_server.Error.{ApiResult, rate_limited}
use monty_server.Text.{trim, split_once, same_ignoring_case}
use monty_server.Config.{RateRule, Principal, Auth, tokens}
use monty_server.RateLimit.{token, RateLimiter, check}
use monty_server.RateLimit.Level.{level, check-level, level-check}
use monty_server.Auth.{Caller, Request, bearer_token, authenticate, rate_limit, charged, admit}

split_once-append :
    (scheme secret : String)
    → split_once 32 scheme ≡ none
    → split_once 32 (str_append scheme (String.◌∷◌ " " secret)) ≡ some (scheme, secret)
unfolding split_once
split_once-append String.[] secret h = rw (append.nil (String.◌∷◌ " " secret)) refl
split_once-append (String.◌∷◌ c s) secret h =
    rw (append.cons c s (String.◌∷◌ " " secret)) (ground (arith, h, split_once-append s secret))

bearer_token-scheme :
    (scheme secret address : String) (forwarded_for : Option String)
    → split_once 32 scheme ≡ none
    → same_ignoring_case scheme "bearer" ≡ true
    → bearer_token (record {
      authorization = some (str_append scheme (String.◌∷◌ " " secret));
      forwarded_for = forwarded_for;
      address = address;
    })
      ≡ some (trim secret)
unfolding bearer_token
bearer_token-scheme scheme secret address forwarded_for one bearer =
    rw (bearer_token, split_once-append scheme secret one, bearer) refl

-- A request whose header is the word bearer in any case, with no space in it, then a space and a
-- configured token is taken for that token's principal, with the principal's rate, if the token has
-- no space around it.
pub authenticate-bearer :
    (known : List (String × Principal)) (default_rate : RateRule) (scheme secret address : String)
    (forwarded_for : Option String) (p : Principal)
    → split_once 32 scheme ≡ none
    → same_ignoring_case scheme "bearer" ≡ true
    → trim secret ≡ secret
    → lookup secret known ≡ some p
    → authenticate (tokens known) default_rate (record {
      authorization = some (str_append scheme (String.◌∷◌ " " secret));
      forwarded_for = forwarded_for;
      address = address;
    })
      ≡ ok (record { id = p.name; rate = p.rate })
unfolding authenticate
authenticate-bearer known default_rate scheme secret address forwarded_for p one bearer trimmed
      found =
    let read =
      bearer_token-scheme scheme secret address forwarded_for one bearer ∙ ap some trimmed in
    simp (authenticate, read, found)

paid :
    (a : Result (Unit {0}) ℕ) (c caller : Caller) (l l' : RateLimiter)
    → ◌≡◌ {A = ApiResult Caller × RateLimiter}
        ((do _ ← map_err rate_limited a; ok c), l)
        (ok caller, l')
    → (a ≡ ok tt) × (c ≡ caller) × (l ≡ l')
paid (ok u) c caller l l' h = (refl, cc, ap (λ (q : ApiResult Caller × RateLimiter). q.1) h)
paid (err n) c caller l l' h = cc

pub charge-level :
    (c : Caller) (started now : ℕ) (l : RateLimiter)
    → (check l c.id c.rate started now).0 ≡ ok tt
    → token + level c.rate now (check l c.id c.rate started now).1 c.id ≡ level c.rate now l c.id
charge-level c started now l h =
    ground (arith, h, check-level c.rate now l c.id started, level-check c.rate now l c.id started)

charged-eq-ok :
    (a : ApiResult Caller) (started now : ℕ) (l : RateLimiter) {caller : Caller} {l' : RateLimiter}
    → charged a started now l ≡ (ok caller, l')
    → (a ≡ ok caller)
      × (token + level caller.rate now l' caller.id ≡ level caller.rate now l caller.id)
unfolding charged rate_limit
charged-eq-ok (err e) started now l h = cc
charged-eq-ok (ok c) started now l {caller} {l'} h =
    let (a, same, left) = paid (check l c.id c.rate started now).0 c caller _ l' h in
    (
      ap ok same,
      subst (λ d. token + level d.rate now l' d.id ≡ level d.rate now l d.id) same
          (subst (λ k. token + level c.rate now k c.id ≡ level c.rate now l c.id) left
            (charge-level c started now l a)),
    )

-- A request that the two layers admit has been authenticated as its caller, and the admission has
-- cost that caller one token: right after it the level of the caller's bucket is one token lower
-- than it was at that moment.
pub admit-eq-ok :
    (auth : Auth) (default_rate : RateRule) (r : Request) (started now : ℕ) (l : RateLimiter)
    (caller : Caller) (l' : RateLimiter)
    → admit auth default_rate r started now l ≡ (ok caller, l')
    → (authenticate auth default_rate r ≡ ok caller)
      × (token + level caller.rate now l' caller.id ≡ level caller.rate now l caller.id)
unfolding admit
admit-eq-ok auth default_rate r started now l caller l' h =
    charged-eq-ok (authenticate auth default_rate r) started now l h
