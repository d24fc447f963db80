-- ===== src/Server/Concurrent/Timed.antt =====
-- The steps of src/api/mod.rs's server with many requests at a time, with the time they take and the
-- requests that the layers of src/auth.rs let pass.
use monty_server.Common.{ℕ, ◌+◌, ◌≡◌, String}
use monty_server.Auth.{admit}
use monty_server.Config.Quota.{passes}
use monty_server.External.{Types, Externals}
use monty_server.Server.{AppState}
use monty_server.Server.Requests.{Route, get_root, get_health, v1, Moment}
use monty_server.Server.Concurrent.{
  System, Step, answers_at_once, arrives, acquires, ends, answers, gives_up, disconnects, sweeps,
}

module _ {x : Types} (m : Externals x) (show : ℕ → String) (version : String)
    {Address : Type 0} where
  -- Steps with the time that passes before each.
  pub data TimedSteps (s : System x Address) : System x Address → Type 0 where
    stays : TimedSteps s s
    follows :
        {u s' : System x Address}
        → TimedSteps s u
        → (gap : ℕ) → Step m show version u s'
        → TimedSteps s s'

module _ {x : Types} {Address : Type 0} where
  -- 1 if the route has a request of the caller `key` which the two layers let pass
  abbrev pub route_passes : (key : String) → Moment → Route x → AppState x Address → ℕ
  route_passes key moment get_root s = 0
  route_passes key moment get_health s = 0
  route_passes key moment (v1 request call) s =
      passes key
        (admit s.config.auth s.config.default_rate request moment.bucket_made_at moment.checked_at
          s.rate_limiter).0

module _ {x : Types} {m : Externals x} {show : ℕ → String} {version : String}
    {Address : Type 0} where
  unfoldable pub duration : {s s' : System x Address} → TimedSteps m show version s s' → ℕ
  duration stays = 0
  duration (follows before gap step) = duration before + gap

  -- The step reads the clock at `now`, if its limiter does.
  abbrev pub IsAt : (now : ℕ) → {s s' : System x Address} → Step m show version s s' → Type 0
  IsAt now (answers_at_once moment route answer u got e) =
      (moment.bucket_made_at ≡ now) × (moment.checked_at ≡ now)
  IsAt now (arrives moment route job u got e) =
      (moment.bucket_made_at ≡ now) × (moment.checked_at ≡ now)
  IsAt now (sweeps tick e) = tick.pruned_at ≡ now
  IsAt now (acquires request left before after w p e) = Unit
  IsAt now (ends request before after r e) = Unit
  IsAt now (answers request job before after at answer sessions l o got e) = Unit
  IsAt now (gives_up request job before after ahead behind l w e) = Unit
  IsAt now (disconnects request job before after l w e) = Unit

  abbrev pub IsClocked :
      (start : ℕ) → {s s' : System x Address} → TimedSteps m show version s s' → Type 0
  IsClocked start stays = Unit
  IsClocked start (follows before gap step) =
      IsClocked start before × IsAt (start + (duration before + gap)) step

  abbrev pub lets_pass : (key : String) → {s s' : System x Address} → Step m show version s s' → ℕ
  lets_pass key {s} (answers_at_once moment route answer u got e) =
      route_passes key moment route s.server
  lets_pass key {s} (arrives moment route job u got e) = route_passes key moment route s.server
  lets_pass key (sweeps tick e) = 0
  lets_pass key (acquires request left before after w p e) = 0
  lets_pass key (ends request before after r e) = 0
  lets_pass key (answers request job before after at answer sessions l o got e) = 0
  lets_pass key (gives_up request job before after ahead behind l w e) = 0
  lets_pass key (disconnects request job before after l w e) = 0

  -- How many requests of the caller `key` the layers have let pass.
  unfoldable pub served :
      (key : String) → {s s' : System x Address} → TimedSteps m show version s s' → ℕ
  served key stays = 0
  served key (follows before gap step) = served key before + lets_pass key step
