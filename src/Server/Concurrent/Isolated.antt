-- ===== src/Server/Concurrent/Isolated.antt =====
-- What a principal keeps of its sessions while the requests of others are served, many at a time
-- (src/api/mod.rs).
use monty_server.Common.{ℕ, refl, sym, subst, String, some, All, inl, nat_key}
use monty_server.Config.{Config}
use monty_server.External.{Types, Externals}
use monty_server.Session.{SessionStore}
use monty_server.Session.Isolation.{seen}
use monty_server.Session.Expiry.{seen-reap_expired}
use monty_server.Api.Sessions.Flights.Apart.{Lasting, Lasting-trans, expired-Lasting}
use monty_server.Api.Sessions.Flights.Linked.{Steps-IsLinked}
use monty_server.Server.{sweep}
use monty_server.Server.Tasks.{Job}
use monty_server.Server.Concurrent.{
  System, Step, answers_at_once, arrives, acquires, ends, answers, gives_up, disconnects, sweeps,
  Steps, started,
}
use monty_server.Server.Concurrent.Refines.{Refines, steps-Refines}
use monty_server.Server.Concurrent.Unseen.{IsNotOf, ClosesFor, arrived-ArrivesFor, closes-ClosesFor}
use monty_server.Server.Concurrent.Others.{
  All-without, NonePending, IsOthers, OthersSteps, stays, follows, steps_of, Step-NonePending,
}

module _ {x : Types} (m : Externals x) (show : ℕ → String) (version : String)
    {Address : Type 0} where
  module _ (config : Config Address) (p : String) (latest : ℕ) where
    LastsTo : SessionStore x → System x Address → Type 0
    LastsTo before s = (id : ℕ) → Lasting latest (seen p id before) (seen p id s.server.sessions)

    Step-Lasts :
        (s s' : System x Address) (step : Step m show version s s')
        → IsOthers m show version p latest step
        → Refines config s
        → NonePending p s
        → LastsTo s.server.sessions s'
    unfolding LastsTo sweep
    Step-Lasts s s' (answers_at_once moment route answer u got e) other h none_pending =
        subst (LastsTo s.server.sessions) (sym e)
          (λ id. inl (arrived-ArrivesFor m show version p moment route s.server other got id))
    Step-Lasts s s' (arrives moment route job u got e) other h none_pending =
        subst (LastsTo s.server.sessions) (sym e)
          (λ id. inl ((arrived-ArrivesFor m show version p moment route s.server other got).0 id))
    Step-Lasts s s' (acquires request left before after w q e) other h none_pending =
        subst (LastsTo s.server.sessions) (sym e) (λ id. inl refl)
    Step-Lasts s s' (ends request before after r e) other h none_pending =
        subst (LastsTo s.server.sessions) (sym e) (λ id. inl refl)
    Step-Lasts s s' (answers request job before after at answer sessions listed outside got e)
          unused h none_pending =
        let mine =
          (All-without (λ (j : ℕ × Job x). IsNotOf p s.server.sessions j.1) before after
            (request, job)
            (subst (All (λ (j : ℕ × Job x). IsNotOf p s.server.sessions j.1)) listed
              none_pending)).0 in
        let closed : ClosesFor p s.server.sessions (some (answer, sessions)) =
          subst (ClosesFor p s.server.sessions) got (
            closes-ClosesFor m show p at job s.server.sessions mine
              (Steps-IsLinked config.sessions.max_sessions h.flown) unused) in
        subst (LastsTo s.server.sessions) (sym e) (λ id. inl (closed id))
    Step-Lasts s s' (gives_up request job before after ahead behind l w e) other h none_pending =
        subst (LastsTo s.server.sessions) (sym e) (λ id. inl refl)
    Step-Lasts s s' (disconnects request job before after l w e) other h none_pending =
        subst (LastsTo s.server.sessions) (sym e) (λ id. inl refl)
    Step-Lasts s s' (sweeps tick e) le h none_pending =
        let linked = Steps-IsLinked config.sessions.max_sessions h.flown in
        subst (LastsTo s.server.sessions) (sym e) (λ id.
          subst (Lasting latest (seen p id s.server.sessions))
            (sym (seen-reap_expired tick.reaped_at s.server.sessions linked.distinct p id))
            (expired-Lasting latest tick.reaped_at (seen p id s.server.sessions) le))

    -- What `p` has kept, and that none of its requests has come.
    record Apart (s s' : System x Address) : Type 0 where
      lasts : LastsTo s.server.sessions s'
      pending : NonePending p s'

    steps-Apart :
        (now : ℕ) {s s' : System x Address}
        → Steps m show version (started config now) s
        → NonePending p s
        → OthersSteps m show version p latest s s'
        → Apart s s'
    unfolding LastsTo
    steps-Apart now before none_pending stays = record {
      lasts = λ id. inl refl;
      pending = none_pending;
    }
    steps-Apart now before none_pending (follows after step other) =
        let first = steps-Apart now before none_pending after in
        let h = steps-Refines m show version config now (steps_of m show version before after) in
        record {
          lasts = λ id.
              Lasting-trans latest _ _ _ (first.lasts id)
                (Step-Lasts _ _ step other h first.pending id);
          pending = Step-NonePending m show version config p latest _ _ step other h first.pending;
        }

  -- In every state that the server reaches with many requests at a time and in which no request on
  -- behalf of `p` is unanswered, and over any steps from there that are not of requests
  -- authenticated as `p`: under every id `p` sees the same session with the same entry, or its
  -- entry had expired by `latest` and it is gone. A step that stores a session draws a uuid that is
  -- not in use, and no sweep is after `latest`.
  pub others_spare :
      (config : Config Address) (now latest : ℕ) (p : String) {s s' : System x Address}
      → Steps m show version (started config now) s
      → NonePending p s
      → OthersSteps m show version p latest s s'
      → (id : ℕ) → Lasting latest (seen p id s.server.sessions) (seen p id s'.server.sessions)
  unfolding LastsTo
  others_spare config now latest p before none_pending others id =
      (steps-Apart config p latest now before none_pending others).lasts id
