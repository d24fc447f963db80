-- ===== src/Auth/Layers.antt =====
-- The ways through the two layers of src/auth.rs, as cases.
use monty_server.Common.{
  ℕ, ◌≡◌, refl, ◌∙◌, ap, ◌⊎◌, inl, inr, ok, err, arith, Result-cases, Option-cases, lookup,
  string_key,
}
use monty_server.Error.{ApiError, ApiResult, unauthorized, rate_limited}
use monty_server.Config.{RateRule, Auth, disabled, tokens}
use monty_server.RateLimit.{RateLimiter, check}
use monty_server.Auth.{Caller, Request, bearer_token, authenticate, rate_limit, charged, admit}

authenticate-eq-err :
    (auth : Auth) (default_rate : RateRule) (r : Request) {e : ApiError}
    → authenticate auth default_rate r ≡ err e
    → e ≡ unauthorized
unfolding authenticate
authenticate-eq-err disabled default_rate r h = cc
authenticate-eq-err (tokens known) default_rate r h = elim (Option-cases (bearer_token r)) [
  | inl absent ↦ ground (arith, h, absent)
  | inr (secret, given) ↦ ground (arith, h, given, lookup secret known)
]

module _ (auth : Auth) (default_rate : RateRule) (r : Request) (started now : ℕ)
    (l : RateLimiter) where
  Passed : Caller → ApiResult Caller × RateLimiter → Type 0
  Passed caller p =
      let (answer, l') = check l caller.id caller.rate started now in
      ((answer ≡ ok tt) × (p ≡ (ok caller, l')))
      ⊎ ((wait : ℕ) × (answer ≡ err wait) × (p ≡ (err (rate_limited wait), l')))

  charged-Passed : (caller : Caller) → Passed caller (charged (ok caller) started now l)
  unfolding charged rate_limit Passed
  charged-Passed caller = elim (Result-cases (check l caller.id caller.rate started now).0) [
    | inl (v, taken) ↦ inl (taken, rw (taken) refl)
    | inr (wait, refused) ↦ inr (wait, refused, rw (refused) refl)
  ]

  -- A request is not authenticated, and costs nothing; or it is, and is admitted or refused by the
  -- limiter.
  pub admit-cases :
      ((authenticate auth default_rate r ≡ err unauthorized)
        × (admit auth default_rate r started now l ≡ (err unauthorized, l)))
      ⊎ ((caller : Caller) × (authenticate auth default_rate r ≡ ok caller)
          × (((check l caller.id caller.rate started now).0 ≡ ok tt)
                × (admit auth default_rate r started now l
                    ≡ (ok caller, (check l caller.id caller.rate started now).1))
              ⊎ (wait : ℕ) × ((check l caller.id caller.rate started now).0 ≡ err wait)
                × (admit auth default_rate r started now l
                    ≡ (err (rate_limited wait), (check l caller.id caller.rate started now).1))))
  unfolding admit charged Passed
  admit-cases = elim (Result-cases (authenticate auth default_rate r)) [
    | inl (caller, known) ↦ inr (caller, known, rw (admit, known) (charged-Passed caller))
    | inr (e, unknown) ↦
        (let known : authenticate auth default_rate r ≡ err unauthorized =
            unknown ∙ ap err (authenticate-eq-err auth default_rate r unknown) in
          inl (known, rw (admit, known) refl))
  ]
