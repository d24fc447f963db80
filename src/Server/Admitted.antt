-- ===== src/Server/Admitted.antt =====
-- The ways of a request under `/v1` through the layers of its route (src/api/mod.rs, src/auth.rs).
use monty_server.Common.{
  map-eq-some, some_pair, subst, ℕ, ◌+◌, ◌-◌, ◌<◌, ◌≡◌, ◌∙◌, ap, sym, ◌⊎◌, inl, inr, String, Option,
  some, ok, err, arith,
}
use monty_server.Error as Error
use monty_server.Error.{ApiResult, unauthorized, rate_limited}
use monty_server.RateLimit.{token, retry_after, RateLimiter, check}
use monty_server.RateLimit.Level.{level, check-level, level-check}
use monty_server.Auth.{Request, Caller, authenticate}
use monty_server.Auth.Admission.{charge-level}
use monty_server.Auth.Layers.{admit-cases}
use monty_server.External.{Types, Externals}
use monty_server.Session.{SessionStore}
use monty_server.Server.{AppState}
use monty_server.Server.Requests.{
  Operation, v1, Answer, refused, status_code, Moment, handle, behind_layers, serve,
}

module _ {x : Types} {Address : Type 0} where
  -- The request is not authenticated: nothing changes.
  pub record IsUnknown (request : Request) (s s' : AppState x Address) (answer : Answer x)
      : Type 0 where
    pub unknown : authenticate s.config.auth s.config.default_rate request ≡ err unauthorized
    pub answered : answer ≡ refused unauthorized
    pub code : status_code answer ≡ 401
    pub same : s' ≡ s

  -- What a caller has left: the level of its bucket at the time of the check.
  abbrev pub budget : Moment → Caller → AppState x Address → ℕ
  budget moment caller s = level caller.rate moment.checked_at s.rate_limiter caller.id

  -- The caller has no token left: it is told to wait, and the sessions and its level stay.
  pub record IsLimited (moment : Moment) (caller : Caller) (s s' : AppState x Address)
      (answer : Answer x) : Type 0 where
    pub poor : budget moment caller s < token
    pub answered :
        answer ≡ refused (rate_limited (retry_after caller.rate (token - budget moment caller s)))
    pub code : status_code answer ≡ 429
    pub sessions_same : s'.sessions ≡ s.sessions
    pub level_same : budget moment caller s' ≡ budget moment caller s

module _ {x : Types} (m : Externals x) (show : ℕ → String) (version : String)
    {Address : Type 0} where
  -- The caller has paid one token, and its handler has answered.
  pub record IsHandled (moment : Moment) (caller : Caller) (call : Operation x)
      (s s' : AppState x Address) (answer : Answer x) : Type 0 where
    pub paid : token + budget moment caller s' ≡ budget moment caller s
    pub handled :
        handle m show version moment.at caller call (record s { rate_limiter = s'.rate_limiter })
        ≡ some (answer, s'.sessions)

  limited :
      (moment : Moment) (caller : Caller) (call : Operation x) (s s' : AppState x Address)
      (answer : Answer x) (wait : ℕ)
      → (check s.rate_limiter caller.id caller.rate moment.bucket_made_at moment.checked_at).0
        ≡ err wait
      → behind_layers m show version moment call (err (rate_limited wait)) (record s {
        rate_limiter =
            (check s.rate_limiter caller.id caller.rate moment.bucket_made_at moment.checked_at).1;
      })
        ≡ some (answer, s')
      → IsLimited moment caller s s' answer
  unfolding behind_layers status_code Error.status
  limited moment caller call s s' answer wait refused_check got =
      let exact =
        check-level caller.rate moment.checked_at s.rate_limiter caller.id moment.bucket_made_at in
      let after =
        level-check caller.rate moment.checked_at s.rate_limiter caller.id moment.bucket_made_at in
      let poor : budget moment caller s < token = ground (arith, exact, refused_check) in
      let same_wait : wait ≡ retry_after caller.rate (token - budget moment caller s) =
        ground (arith, exact, refused_check, poor) in
      let (answered, ended) = some_pair got in
      record {
        poor = poor;
        answered = sym answered ∙ ap (λ n. refused (rate_limited n)) same_wait;
        code = ap status_code (sym answered);
        sessions_same = ap (λ (u : AppState x Address). u.sessions) (sym ended);
        level_same =
            ap (λ (u : AppState x Address). budget moment caller u) (sym ended)
            ∙ ground (arith, after, poor);
      }

  passed :
      (moment : Moment) (caller : Caller) (call : Operation x) (s s' : AppState x Address)
      (answer : Answer x)
      → (check s.rate_limiter caller.id caller.rate moment.bucket_made_at moment.checked_at).0
        ≡ ok tt
      → behind_layers m show version moment call (ok caller) (record s {
        rate_limiter =
            (check s.rate_limiter caller.id caller.rate moment.bucket_made_at moment.checked_at).1;
      })
        ≡ some (answer, s')
      → IsHandled moment caller call s s' answer
  unfolding behind_layers
  passed moment caller call s s' answer taken got =
      let charged_state : AppState x Address = record s {
        rate_limiter =
            (check s.rate_limiter caller.id caller.rate moment.bucket_made_at moment.checked_at).1;
      } in
      let ((a, u), handled, same) =
        map-eq-some
          (λ (r : Answer x × SessionStore x). (r.0, record charged_state { sessions = r.1 }))
          (handle m show version moment.at caller call charged_state) (answer, s') got in
      subst (λ (q : Answer x × AppState x Address). IsHandled moment caller call s q.1 q.0) same
        (record {
          paid = charge-level caller moment.bucket_made_at moment.checked_at s.rate_limiter taken;
          handled = handled;
        })

  unlock :
      (moment : Moment) (call : Operation x) (s : AppState x Address)
      → ApiResult Caller × RateLimiter
      → Option (Answer x × AppState x Address)
  unlock moment call s p =
      behind_layers m show version moment call p.0 (record s { rate_limiter = p.1 })

  unlock-IsUnknown :
      (moment : Moment) (request : Request) (call : Operation x) (s s' : AppState x Address)
      (answer : Answer x)
      → authenticate s.config.auth s.config.default_rate request ≡ err unauthorized
      → unlock moment call s (err unauthorized, s.rate_limiter) ≡ some (answer, s')
      → IsUnknown request s s' answer
  unfolding unlock behind_layers status_code Error.status
  unlock-IsUnknown moment request call s s' answer unknown got =
      let (answered, ended) = some_pair got in
      record {
        unknown = unknown;
        answered = sym answered;
        code = ap status_code (sym answered);
        same = sym ended;
      }

  -- A request under `/v1` that returns has gone one of three ways: it is not authenticated, the
  -- answer is 401 and nothing has changed; or its caller has less than one token left, the answer
  -- is 429 with the time to wait, and the sessions and the caller's level are as before; or its
  -- caller has paid exactly one token, and the answer and the sessions are those of its handler.
  pub serve-cases :
      (moment : Moment) (request : Request) (call : Operation x) (s s' : AppState x Address)
      (answer : Answer x)
      → serve m show version moment (v1 request call) s ≡ some (answer, s')
      → IsUnknown request s s' answer
        ⊎ (caller : Caller) × (authenticate s.config.auth s.config.default_rate request ≡ ok caller)
          × (IsLimited moment caller s s' answer ⊎ IsHandled moment caller call s s' answer)
  unfolding serve unlock
  serve-cases moment request call s s' answer got =
      elim (admit-cases s.config.auth s.config.default_rate request moment.bucket_made_at
        moment.checked_at s.rate_limiter) [
          | inl (unknown, through) ↦ inl (
              unlock-IsUnknown moment request call s s' answer unknown
                (sym (ap (unlock moment call s) through) ∙ got))
          | inr (caller, known, inl (taken, through)) ↦ inr (
            caller,
            known,
            inr (
                passed moment caller call s s' answer taken
                  (sym (ap (unlock moment call s) through) ∙ got)),
          )
          | inr (caller, known, inr (wait, refused_check, through)) ↦ inr (
            caller,
            known,
            inl (
                limited moment caller call s s' answer wait refused_check
                  (sym (ap (unlock moment call s) through) ∙ got)),
          )
        ]
