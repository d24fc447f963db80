-- ===== src/Server/Concurrent/Quota.antt =====
-- How many requests of one caller the layers of src/auth.rs let pass while the server of src/api/mod.rs
-- has many requests at a time.
use monty_server.Common.{
  ℕ, ◌+◌, ◌*◌, ◌≤◌, ◌≡◌, refl, sym, subst, ◌∙◌, String, Option, ok, err, arith, IsDistinct,
  string_key,
}
use monty_server.Config.{Config, RateRule}
use monty_server.Config.Env.{Vars}
use monty_server.Config.Loading.{from_env}
use monty_server.Config.Admissible.{from_env-IsAdmissible}
use monty_server.Config.Quota.{passes, HasRate, admit-Pays}
use monty_server.Config.Quota
use monty_server.RateLimit as Limiter
use monty_server.RateLimit.{RateLimiter, token, capacity}
use monty_server.RateLimit.Level.{
  IsSteady, level, level-elapse, level-prune_idle, prune_idle-IsDistinct,
}
use monty_server.RateLimit.Quota.{level-le_capacity}
use monty_server.Error.{ApiResult}
use monty_server.Auth.{Caller, Request, authenticate, admit}
use monty_server.External.{Types, Externals}
use monty_server.Api.Executions.{Gate}
use monty_server.Server.{AppState, Tick, new, sweep}
use monty_server.Server.Requests.{Operation, Route, get_root, get_health, v1, Moment}
use monty_server.Server.Tasks.{Opened, opens_behind, arrive}
use monty_server.Server.Concurrent.{
  System, Step, answers_at_once, arrives, acquires, ends, answers, gives_up, disconnects, sweeps,
  started, with_gate,
}
use monty_server.Server.Concurrent.Timed.{
  TimedSteps, stays, follows, duration, IsAt, IsClocked, route_passes, lets_pass, served,
}

module _ {x : Types} (m : Externals x) (show : ℕ → String) (version : String)
    {Address : Type 0} where
  module _ (config : Config Address) (key : String) (rule : RateRule) where
    -- Between two states at one time: what is let pass is paid for, and the rest stays as it is.
    record Pays (n now : ℕ) (s u : AppState x Address) : Type 0 where
      paid : n * token + level rule now u.rate_limiter key ≤ level rule now s.rate_limiter key
      distinct : IsDistinct u.rate_limiter.buckets
      same : u.config ≡ config

    PaysTo : (n now : ℕ) → System x Address → System x Address → Type 0
    PaysTo n now s s' = Pays n now s.server s'.server

    idle-Pays :
        (now : ℕ) (s u : AppState x Address)
        → u.rate_limiter ≡ s.rate_limiter
        → u.config ≡ s.config
        → IsDistinct s.rate_limiter.buckets
        → s.config ≡ config
        → Pays 0 now s u
    idle-Pays now s u limiter same distinct configured = record {
      paid = rw limiter (omega arith);
      distinct = subst (λ (l : RateLimiter). IsDistinct l.buckets) (sym limiter) distinct;
      same = same ∙ configured;
    }

    arrive-limiter :
        (now : ℕ) (call : Operation x) (admission : ApiResult Caller) (s : AppState x Address)
        → ((opens_behind m show version now call admission s).1.rate_limiter ≡ s.rate_limiter)
          × ((opens_behind m show version now call admission s).1.config ≡ s.config)
    unfolding opens_behind
    arrive-limiter now call (err e) s = (refl, refl)
    arrive-limiter now call (ok caller) s = (refl, refl)

    admit_at :
        (config' : Config Address) (request : Request) (made checked now : ℕ) (l : RateLimiter)
        → made ≡ now
        → checked ≡ now
        → HasRate config' key rule
        → Quota.Pays config' key rule now l
            (admit config'.auth config'.default_rate request made checked l)
    admit_at config' request made checked now l e f rated =
        subst
          (λ t.
            Quota.Pays config' key rule now l
              (admit config'.auth config'.default_rate request t checked l))
          (sym e)
          (subst
            (λ t.
              Quota.Pays config' key rule now l
                (admit config'.auth config'.default_rate request now t l))
            (sym f) (admit-Pays config' key rule request now l rated))

    arrive-Pays :
        (now : ℕ) (moment : Moment) (route : Route x) (s : AppState x Address)
        → (moment.bucket_made_at ≡ now) × (moment.checked_at ≡ now)
        → HasRate config key rule
        → IsDistinct s.rate_limiter.buckets
        → s.config ≡ config
        → Pays (route_passes key moment route s) now s (arrive m show version moment route s).1
    unfolding arrive
    arrive-Pays now moment get_root s at rated distinct configured =
        idle-Pays now s s refl refl distinct configured
    arrive-Pays now moment get_health s at rated distinct configured =
        idle-Pays now s s refl refl distinct configured
    arrive-Pays now moment (v1 request call) s (made, checked) rated distinct configured =
        let admission =
          admit s.config.auth s.config.default_rate request moment.bucket_made_at moment.checked_at
            s.rate_limiter in
        let (limiter, same) =
          arrive-limiter moment.at.shown_at call admission.0
            (record s { rate_limiter = admission.1 }) in
        let (pays, keeps) =
          admit_at s.config request moment.bucket_made_at moment.checked_at now s.rate_limiter made
            checked (subst (λ c. HasRate c key rule) (sym configured) rated) in
        record {
          paid = rw limiter (omega (arith, pays));
          distinct =
              subst (λ (l : RateLimiter). IsDistinct l.buckets) (sym limiter) (keeps distinct);
          same = same ∙ configured;
        }

    arrived-Pays :
        (now : ℕ) (moment : Moment) (route : Route x) (s : AppState x Address) {opened : Opened x}
        {u : AppState x Address}
        → arrive m show version moment route s ≡ (opened, u)
        → (moment.bucket_made_at ≡ now) × (moment.checked_at ≡ now)
        → HasRate config key rule
        → IsDistinct s.rate_limiter.buckets
        → s.config ≡ config
        → Pays (route_passes key moment route s) now s u
    arrived-Pays now moment route s got at rated distinct configured =
        subst
          (λ (q : Opened x × AppState x Address). Pays (route_passes key moment route s) now s q.1)
          got (arrive-Pays now moment route s at rated distinct configured)

    with_gate-Pays :
        (n now : ℕ) (gate : Gate) (s u : AppState x Address)
        → Pays n now s u
        → Pays n now s (with_gate gate u)
    with_gate-Pays n now gate s u h = record { paid = h.paid; distinct = h.distinct; same = h.same }

    sweep-Pays :
        (now : ℕ) (tick : Tick) (s : AppState x Address)
        → tick.pruned_at ≡ now
        → IsSteady rule
        → IsDistinct s.rate_limiter.buckets
        → s.config ≡ config
        → Pays 0 now s (sweep tick s)
    unfolding sweep
    sweep-Pays now tick s at steady distinct configured = record {
      paid =
          rw at (
            omega
              (arith, level-prune_idle rule now tick.locked s.rate_limiter key steady distinct));
      distinct = prune_idle-IsDistinct tick.locked tick.pruned_at s.rate_limiter distinct;
      same = configured;
    }

    Step-Pays :
        (now : ℕ) (s s' : System x Address) (step : Step m show version s s')
        → IsAt now step
        → HasRate config key rule
        → IsSteady rule
        → IsDistinct s.server.rate_limiter.buckets
        → s.server.config ≡ config
        → Pays (lets_pass key step) now s.server s'.server
    unfolding PaysTo
    Step-Pays now s s' (answers_at_once moment route answer u got e) at rated steady d c =
        subst (PaysTo (route_passes key moment route s.server) now s) (sym e)
          (arrived-Pays now moment route s.server got at rated d c)
    Step-Pays now s s' (arrives moment route job u got e) at rated steady d c =
        subst (PaysTo (route_passes key moment route s.server) now s) (sym e) (
          with_gate-Pays _ now _ s.server u
            (arrived-Pays now moment route s.server got at rated d c))
    Step-Pays now s s' (sweeps tick e) at rated steady d c =
        subst (PaysTo 0 now s) (sym e) (sweep-Pays now tick s.server at steady d c)
    Step-Pays now s s' (acquires request left before after w p e) at rated steady d c =
        subst (PaysTo 0 now s) (sym e) (idle-Pays now s.server _ refl refl d c)
    Step-Pays now s s' (ends request before after r e) at rated steady d c =
        subst (PaysTo 0 now s) (sym e) (idle-Pays now s.server _ refl refl d c)
    Step-Pays now s s' (answers request job before after a answer sessions l o got e) at rated
          steady d c =
        subst (PaysTo 0 now s) (sym e) (idle-Pays now s.server _ refl refl d c)
    Step-Pays now s s' (gives_up request job before after ahead behind l w e) at rated steady d c =
        subst (PaysTo 0 now s) (sym e) (idle-Pays now s.server _ refl refl d c)
    Step-Pays now s s' (disconnects request job before after l w e) at rated steady d c =
        subst (PaysTo 0 now s) (sym e) (idle-Pays now s.server _ refl refl d c)

    -- The state after some steps from the start at `start`.
    record HasPaid (n start elapsed : ℕ) (s : AppState x Address) : Type 0 where
      within :
          n * token + level rule (start + elapsed) s.rate_limiter key
          ≤ capacity rule + elapsed * rule.per_minute
      distinct : IsDistinct s.rate_limiter.buckets
      same : s.config ≡ config

    steps-HasPaid :
        (start : ℕ) {s : System x Address}
        (steps : TimedSteps m show version (started config start) s)
        → IsClocked start steps
        → HasRate config key rule
        → IsSteady rule
        → HasPaid (served key steps) start (duration steps) s.server
    unfolding served duration new Limiter.new
    steps-HasPaid start stays clocked rated steady = record {
      within = omega (arith, level-le_capacity (λ _. rule) key (start + 0) Limiter.new);
      distinct = tt;
      same = refl;
    }
    steps-HasPaid start (follows {u = u} before gap step) (clocked, at) rated steady =
        let h = steps-HasPaid start before clocked rated steady in
        let p =
          Step-Pays (start + (duration before + gap)) _ _ step at rated steady h.distinct h.same in
        let elapsed = duration before in
        let later : start + (elapsed + gap) ≡ start + elapsed + gap = omega arith in
        let rises =
          subst
            (λ t.
              level rule t u.server.rate_limiter key
              ≤ level rule (start + elapsed) u.server.rate_limiter key + gap * rule.per_minute)
            (sym later) (level-elapse rule (start + elapsed) gap u.server.rate_limiter key).0 in
        record {
          within = omega (arith, p.paid, h.within, rises);
          distinct = p.distinct;
          same = p.same;
        }

  -- Under a configuration that `from_env` returns, from the start of the server and over any steps
  -- of many requests at a time with the time that passes before each: the requests of one caller
  -- that the two layers let pass are at most its burst plus its rate times the time that has
  -- passed, if all requests that are authenticated under its name have its rate, and each step
  -- reads the clock of the limiter at its time.
  pub served-le_quota :
      (parse_ip : String → Option Address) (parallelism : Option ℕ) (vars : Vars)
      (config : Config Address) (request : Request) (caller : Caller) (start : ℕ)
      {s : System x Address} (steps : TimedSteps m show version (started config start) s)
      → from_env parse_ip parallelism vars ≡ ok config
      → authenticate config.auth config.default_rate request ≡ ok caller
      → HasRate config caller.id caller.rate
      → IsClocked start steps
      → served caller.id steps * token
        ≤ caller.rate.burst * token + duration steps * caller.rate.per_minute
  served-le_quota parse_ip parallelism vars config request caller start steps loaded known rated
        clocked =
      let sound = from_env-IsAdmissible parse_ip parallelism vars config loaded in
      let paid =
        steps-HasPaid config caller.id caller.rate start steps clocked rated
          (sound.caller_usable request caller known).1 in
      omega (arith, paid.within)
