-- ===== src/Server/Privacy.antt =====
-- The server over many requests and sweeps (src/api/mod.rs, src/main.rs): what one caller's request
-- leaves of the sessions of another.
use mathlib.Core.Option
use monty_server.Common.{
  ℕ, ◌≡◌, ◌≢◌, refl, ap, subst, String, Option, none, some, ok, err, nat_key, lookup,
}
use monty_server.Error.{ApiResult}
use monty_server.Auth.{Request, Caller, authenticate, admit}
use monty_server.Auth.Admission.{admit-eq-ok}
use monty_server.Config.{Config}
use monty_server.External.{Types, Externals}
use monty_server.Session.{SessionStore, reap_expired}
use monty_server.Session as Store
use monty_server.Session.Isolation.{seen}
use monty_server.Session.Links.{IsLinked, reap_expired-IsLinked}
use monty_server.Api.Sessions.Spared.{Spares, Spares-refl}
use monty_server.Api.Sessions.Isolated.{create-Spares, resume-Spares, delete-Spares}
use monty_server.Server.{AppState, Tick, new, sweep}
use monty_server.Server.Requests.{
  Operation, run_program, compile_program, show_info, create_session, get_session, delete_session,
  continue_session, malformed, Route, get_root, get_health, v1, Answer, Moment, answer_of, handle,
  behind_layers, serve, session_created, session,
}

module _ {x : Types} where
  -- Of what a handler returns, the sessions.
  SparesResult : String → SessionStore x → Option (Answer x × SessionStore x) → Type 0
  SparesResult caller s none = Unit
  SparesResult caller s (some (answer, s')) = Spares caller s s'

  map-SparesResult :
      {A : Type 0} (caller : String) (s : SessionStore x) (shape : A → Answer x)
      (o : Option (A × SessionStore x))
      → ((a : A) (s' : SessionStore x) → o ≡ some (a, s') → Spares caller s s')
      → SparesResult caller s (Option.map (λ (r : A × SessionStore x). (shape r.0, r.1)) o)
  unfolding SparesResult
  map-SparesResult caller s shape none h = tt
  map-SparesResult caller s shape (some (a, s')) h = h a s' refl

  module _ {Address : Type 0} where
    -- Of what the server returns, the sessions have a property.
    Leaves : (SessionStore x → Type 0) → Option (Answer x × AppState x Address) → Type 0
    Leaves P none = Unit
    Leaves P (some (answer, s)) = P s.sessions

    map-Leaves :
        (P : SessionStore x → Type 0) (caller : String) (s : AppState x Address)
        (o : Option (Answer x × SessionStore x))
        → ((s' : SessionStore x) → Spares caller s.sessions s' → P s')
        → SparesResult caller s.sessions o
        → Leaves P
            (Option.map (λ (r : Answer x × SessionStore x). (r.0, record s { sessions = r.1 })) o)
    unfolding SparesResult Leaves
    map-Leaves P caller s none h spares = tt
    map-Leaves P caller s (some (answer, s')) h spares = h s' spares

module _ {x : Types} (m : Externals x) (show : ℕ → String) (version : String)
    {Address : Type 0} where
  -- The uuid that a request may draw is not in use.
  abbrev pub IsFresh : Moment → AppState x Address → Type 0
  IsFresh moment s = lookup moment.at.fresh_id s.sessions.sessions ≡ none

  -- The server after any requests and sweeps, from its start on.
  pub data Reachable (config : Config Address) : AppState x Address → Type 0 where
    starts : (now : ℕ) → Reachable config (new config now)
    serves :
        {s s' : AppState x Address} {answer : Answer x} (moment : Moment) (route : Route x)
        → Reachable config s
        → IsFresh moment s
        → serve m show version moment route s ≡ some (answer, s')
        → Reachable config s'
    sweeps :
        {s : AppState x Address} (tick : Tick)
        → Reachable config s
        → Reachable config (sweep tick s)

  handle-Spares :
      (moment : Moment) (caller : Caller) (call : Operation x) (s : AppState x Address)
      → IsLinked s.sessions
      → IsFresh moment s
      → SparesResult caller.id s.sessions (handle m show version moment.at caller call s)
  unfolding handle SparesResult
  handle-Spares moment caller (run_program request) s h fresh = Spares-refl caller.id s.sessions
  handle-Spares moment caller (compile_program request) s h fresh = Spares-refl caller.id s.sessions
  handle-Spares moment caller show_info s h fresh = Spares-refl caller.id s.sessions
  handle-Spares moment caller (create_session request) s h fresh =
      map-SparesResult caller.id s.sessions (answer_of session_created) _ (λ answer s' got.
        create-Spares m show s.config.limits s.config.sessions moment.at caller.id request
          s.sessions h fresh got)
  handle-Spares moment caller (get_session id) s h fresh = Spares-refl caller.id s.sessions
  handle-Spares moment caller (delete_session id) s h fresh =
      delete-Spares m caller.id id s.sessions
  handle-Spares moment caller (continue_session id request) s h fresh =
      map-SparesResult caller.id s.sessions (answer_of session) _
        (λ answer s' got. resume-Spares m show moment.at caller.id id request s.sessions got)
  handle-Spares moment caller (malformed code) s h fresh = Spares-refl caller.id s.sessions

  behind_layers-Leaves :
      (P : SessionStore x → Type 0) (moment : Moment) (call : Operation x)
      (admission : ApiResult Caller) (s : AppState x Address)
      → IsLinked s.sessions
      → IsFresh moment s
      → P s.sessions
      → ((caller : Caller) (s' : SessionStore x)
          → admission ≡ ok caller
          → Spares caller.id s.sessions s'
          → P s')
      → Leaves P (behind_layers m show version moment call admission s)
  unfolding behind_layers Leaves
  behind_layers-Leaves P moment call (err e) s h fresh before after = before
  behind_layers-Leaves P moment call (ok caller) s h fresh before after =
      map-Leaves P caller.id s (handle m show version moment.at caller call s)
        (λ s'. after caller s' refl) (handle-Spares moment caller call s h fresh)

  -- A property of the sessions that holds before a request, and that its caller keeps.
  serve-Leaves :
      (P : SessionStore x → Type 0) (moment : Moment) (request : Request) (call : Operation x)
      (s : AppState x Address)
      → IsLinked s.sessions
      → IsFresh moment s
      → P s.sessions
      → ((caller : Caller) (s' : SessionStore x)
          → authenticate s.config.auth s.config.default_rate request ≡ ok caller
          → Spares caller.id s.sessions s'
          → P s')
      → Leaves P (serve m show version moment (v1 request call) s)
  unfolding serve
  serve-Leaves P moment request call s h fresh before after =
      let admission =
        admit s.config.auth s.config.default_rate request moment.bucket_made_at moment.checked_at
          s.rate_limiter in
      behind_layers-Leaves P moment call admission.0 (record s { rate_limiter = admission.1 }) h
        fresh before
        (λ caller s' same.
          after caller s'
            (admit-eq-ok s.config.auth s.config.default_rate request moment.bucket_made_at
              moment.checked_at s.rate_limiter caller admission.1
              (ap (λ a. (a, admission.1)) same)).0)

  Leaves-eq-some :
      (P : SessionStore x → Type 0) (o : Option (Answer x × AppState x Address)) {answer : Answer x}
      {s' : AppState x Address}
      → o ≡ some (answer, s')
      → Leaves P o
      → P s'.sessions
  unfolding Leaves
  Leaves-eq-some P o same left = subst (Leaves P) same left

  serve-IsLinked :
      (moment : Moment) (route : Route x) (s : AppState x Address) {answer : Answer x}
      {s' : AppState x Address}
      → IsLinked s.sessions
      → IsFresh moment s
      → serve m show version moment route s ≡ some (answer, s')
      → IsLinked s'.sessions
  unfolding Leaves serve
  serve-IsLinked moment get_root s h fresh got = Leaves-eq-some IsLinked _ got h
  serve-IsLinked moment get_health s h fresh got = Leaves-eq-some IsLinked _ got h
  serve-IsLinked moment (v1 request call) s h fresh got = Leaves-eq-some IsLinked _ got (
      serve-Leaves IsLinked moment request call s h fresh h (λ caller s' _ spares. spares.linked h))

  pub Reachable-IsLinked :
      {config : Config Address} {s : AppState x Address} → Reachable config s → IsLinked s.sessions
  unfolding new Store.new sweep lookup
  Reachable-IsLinked (starts now) = record { distinct = tt; older = λ id ref found. cc }
  Reachable-IsLinked (serves moment route before fresh got) =
      serve-IsLinked moment route _ (Reachable-IsLinked before) fresh got
  Reachable-IsLinked (sweeps tick before) =
      reap_expired-IsLinked tick.reaped_at _ (Reachable-IsLinked before)

  -- In every state that the server reaches from its start by any requests and sweeps: a request
  -- under `/v1` that returns changes nothing of what a principal sees of the sessions, under any
  -- id, if that principal is not the caller that the request is authenticated as, and the uuid that
  -- the request may draw is not in use.
  pub serve-hides :
      (config : Config Address) (s s' : AppState x Address) (moment : Moment) (request : Request)
      (call : Operation x) (answer : Answer x) (principal : String)
      → Reachable config s
      → IsFresh moment s
      → serve m show version moment (v1 request call) s ≡ some (answer, s')
      → ((caller : Caller)
          → authenticate s.config.auth s.config.default_rate request ≡ ok caller
          → caller.id ≢ principal)
      → (id : ℕ) → seen principal id s'.sessions ≡ seen principal id s.sessions
  serve-hides config s s' moment request call answer principal reached fresh got other =
      Leaves-eq-some (λ u. (id : ℕ) → seen principal id u ≡ seen principal id s.sessions) _ got
        (serve-Leaves (λ u. (id : ℕ) → seen principal id u ≡ seen principal id s.sessions) moment
          request call s (Reachable-IsLinked reached) fresh (λ id. refl)
          (λ caller u same spares. spares.hidden principal (other caller same)))
