-- ===== src/Server/Sweeping.antt =====
-- A sweep of the reaper (src/main.rs) in a server that runs under a configuration which
-- src/config.rs has loaded.
use mathlib.Core.Option
use monty_server.Common.{
  ℕ, ◌≡◌, refl, sym, subst, String, Option, none, some, ok, err, inl, inr, IsDistinct, string_key,
}
use monty_server.Error.{ApiResult}
use monty_server.Config.{Config}
use monty_server.Config.Env.{Vars}
use monty_server.Config.Loading.{from_env}
use monty_server.Config.Admissible.{from_env-IsAdmissible}
use monty_server.RateLimit as Limiter
use monty_server.RateLimit.{RateLimiter}
use monty_server.RateLimit.Level.{level, level-prune_idle, check-IsDistinct, prune_idle-IsDistinct}
use monty_server.Auth.{Request, Caller, authenticate, admit}
use monty_server.Auth.Layers.{admit-cases}
use monty_server.External.{Types, Externals}
use monty_server.Session.{SessionStore}
use monty_server.Session.Isolation.{seen}
use monty_server.Session.Expiry.{unexpired, seen-reap_expired}
use monty_server.Server.{AppState, Tick, new, sweep}
use monty_server.Server.Requests.{
  Operation, Route, get_root, get_health, v1, Answer, Moment, handle, behind_layers, serve,
}
use monty_server.Server.Privacy.{Reachable, starts, serves, sweeps, Reachable-IsLinked}

-- The limiter that a layer leaves holds no key twice.
HasDistinct : ApiResult Caller × RateLimiter → Type 0
HasDistinct p = IsDistinct p.1.buckets

admit-HasDistinct :
    {Address : Type 0} (config : Config Address) (r : Request) (started now : ℕ) (l : RateLimiter)
    → IsDistinct l.buckets
    → HasDistinct (admit config.auth config.default_rate r started now l)
unfolding HasDistinct
admit-HasDistinct config r started now l h =
    elim (admit-cases config.auth config.default_rate r started now l) [
      | inl (_, through) ↦ subst HasDistinct (sym through) h
      | inr (caller, _, inl (_, through)) ↦
          subst HasDistinct (sym through) (check-IsDistinct l caller.id caller.rate started now h)
      | inr (caller, _, inr (_, _, through)) ↦
          subst HasDistinct (sym through) (check-IsDistinct l caller.id caller.rate started now h)
    ]

module _ {x : Types} (m : Externals x) (show : ℕ → String) (version : String)
    {Address : Type 0} where
  -- The configuration is the one that the server started with, and no key of the limiter stands
  -- twice.
  record IsRunning (config : Config Address) (s : AppState x Address) : Type 0 where
    same : s.config ≡ config
    distinct : IsDistinct s.rate_limiter.buckets

  Runs : Config Address → Option (Answer x × AppState x Address) → Type 0
  Runs config none = Unit
  Runs config (some (answer, s)) = IsRunning config s

  map-Runs :
      (config : Config Address) (s : AppState x Address) (o : Option (Answer x × SessionStore x))
      → IsRunning config s
      → Runs config
          (Option.map (λ (r : Answer x × SessionStore x). (r.0, record s { sessions = r.1 })) o)
  unfolding Runs
  map-Runs config s none h = tt
  map-Runs config s (some (answer, s')) h = record { same = h.same; distinct = h.distinct }

  behind_layers-Runs :
      (config : Config Address) (moment : Moment) (operation : Operation x)
      (admission : ApiResult Caller) (s : AppState x Address)
      → IsRunning config s
      → Runs config (behind_layers m show version moment operation admission s)
  unfolding behind_layers Runs
  behind_layers-Runs config moment operation (err e) s h = h
  behind_layers-Runs config moment operation (ok caller) s h =
      map-Runs config s (handle m show version moment.at caller operation s) h

  serve-Runs :
      (config : Config Address) (moment : Moment) (route : Route x) (s : AppState x Address)
      → IsRunning config s
      → Runs config (serve m show version moment route s)
  unfolding serve Runs HasDistinct
  serve-Runs config moment get_root s h = h
  serve-Runs config moment get_health s h = h
  serve-Runs config moment (v1 request operation) s h =
      behind_layers-Runs config moment operation _ _ (record {
        same = h.same;
        distinct =
            admit-HasDistinct s.config request moment.bucket_made_at moment.checked_at
              s.rate_limiter h.distinct;
      })

  Reachable-IsRunning :
      {config : Config Address} {s : AppState x Address}
      → Reachable m show version config s
      → IsRunning config s
  unfolding new Limiter.new sweep Runs
  Reachable-IsRunning (starts now) = record { same = refl; distinct = tt }
  Reachable-IsRunning {config} (serves moment route before fresh got) =
      subst (Runs config) got (serve-Runs config moment route _ (Reachable-IsRunning before))
  Reachable-IsRunning (sweeps tick before) =
      let h = Reachable-IsRunning before in
      record {
        same = h.same;
        distinct = prune_idle-IsDistinct tick.locked tick.pruned_at _ h.distinct;
      }

  -- In every state that a server reaches which runs under a configuration of `from_env`, a sweep of
  -- the reaper leaves each principal exactly the sessions that it saw before and that have not
  -- expired, with their entries, and leaves the level of every caller that `authenticate` can
  -- return as it was.
  pub sweep-keeps :
      (parse_ip : String → Option Address) (parallelism : Option ℕ) (vars : Vars)
      (config : Config Address) (s : AppState x Address) (tick : Tick)
      → from_env parse_ip parallelism vars ≡ ok config
      → Reachable m show version config s
      → ((principal : String) (id : ℕ)
          → seen principal id (sweep tick s).sessions
            ≡ unexpired tick.reaped_at (seen principal id s.sessions))
        × ((request : Request) (caller : Caller)
            → authenticate s.config.auth s.config.default_rate request ≡ ok caller
            → level caller.rate tick.pruned_at (sweep tick s).rate_limiter caller.id
              ≡ level caller.rate tick.pruned_at s.rate_limiter caller.id)
  unfolding sweep
  sweep-keeps parse_ip parallelism vars config s tick loaded reached =
      let h = Reachable-IsRunning reached in
      let sound = from_env-IsAdmissible parse_ip parallelism vars config loaded in
      (
        seen-reap_expired tick.reaped_at s.sessions
            (Reachable-IsLinked m show version reached).distinct,
        λ request caller known.
            let usable = sound.caller_usable request caller (
              subst (λ (c : Config Address). authenticate c.auth c.default_rate request ≡ ok caller)
                h.same known) in
            level-prune_idle caller.rate tick.pruned_at tick.locked s.rate_limiter caller.id
              usable.1 h.distinct,
      )
