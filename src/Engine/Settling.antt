-- ===== src/Engine/Settling.antt =====
-- The loop of `settle` (src/engine.rs).
use native.Mathlib.Nat.{suc-add}
use monty_server.Common.{ℕ, zero, suc, ◌+◌, ◌≤◌, ◌<◌, ◌≡◌, refl, ◌≢◌, some, Result, ok, arith}
use monty_server.Tracker.{Tracker}
use monty_server.External.{
  Types, Externals, RunProgress, function_call, name_lookup, resolve_futures, os_call, complete,
}
use monty_server.Engine.{Context, perform, denied, settle}

-- A client can answer it.
abbrev pub IsActionable : {x : Types} → RunProgress x → Type 0
IsActionable (function_call _) = Unit
IsActionable (name_lookup _) = Unit
IsActionable (resolve_futures _) = Unit
IsActionable (os_call _) = ⊥
IsActionable (complete _) = ⊥

-- Between two OS calls in a row the program gets closer to another kind of stop, since its
-- execution is limited.
pub record OsBudget {x : Types} (m : Externals x) : Type 0 where
  pub budget : x.OsCall → ℕ
  pub falls :
      (call next : x.OsCall) (t : Tracker)
      → (m.resume_os call (denied m) t).outcome ≡ ok (os_call next)
      → budget next < budget call

module _ {x : Types} (m : Externals x) where
  -- The OS calls that may still come.
  abbrev pub rounds : OsBudget m → Result (RunProgress x) x.Exception → ℕ
  rounds b (ok (os_call call)) = suc (b.budget call)
  rounds b _ = 0

  rounds_below :
      (b : OsBudget m) (n : ℕ) (r : Result (RunProgress x) x.Exception)
      → ((next : x.OsCall) → r ≡ ok (os_call next) → b.budget next < n)
      → rounds b r ≤ n
  rounds_below b n (ok (os_call call)) h = h call refl
  rounds_below b n _ h = omega arith

  settle_total :
      (b : OsBudget m) (fuel : ℕ) (r : Result (RunProgress x) x.Exception) (c : Context)
      → rounds b r < fuel
      → (out : Result (RunProgress x) x.Exception × Context) × (settle m fuel r c ≡ some out)
  unfolding settle perform
  settle_total b zero r c h = absurd (omega arith)
  settle_total b (suc fuel) (ok (os_call call)) c h =
      let next = rounds_below b (b.budget call) _ (λ n e. b.falls call n c.tracker e) in
      settle_total b fuel (m.resume_os call (denied m) c.tracker).outcome _ (omega arith)
  settle_total b (suc fuel) r c h = ((r, c), refl)

  settle_mono :
      (fuel extra : ℕ) (r : Result (RunProgress x) x.Exception) (c : Context)
      {out : Result (RunProgress x) x.Exception × Context}
      → settle m fuel r c ≡ some out
      → settle m (fuel + extra) r c ≡ some out
  unfolding settle
  settle_mono zero extra r c h = cc
  settle_mono (suc fuel) extra (ok (os_call call)) c h = rw suc-add (settle_mono fuel extra _ _ h)
  settle_mono (suc fuel) extra r c h = rw suc-add h

  -- If the program makes finitely many OS calls in a row, the loop of `settle` returns on fuel for
  -- the calls that may still come, with the same result for any more fuel.
  pub settle_returns :
      (b : OsBudget m) (r : Result (RunProgress x) x.Exception) (c : Context)
      → (out : Result (RunProgress x) x.Exception × Context) × ((extra : ℕ)
          → settle m (suc (rounds b r) + extra) r c ≡ some out)
  settle_returns b r c =
      let (out, h) = settle_total b (suc (rounds b r)) r c (omega arith) in
      (out, λ extra. settle_mono (suc (rounds b r)) extra r c h)

  -- Whatever the fuel, `settle` never returns a program that is stopped at an OS call.
  pub settle_hides_os :
      (fuel : ℕ) (r : Result (RunProgress x) x.Exception) (c c' : Context) (call : x.OsCall)
      → settle m fuel r c ≢ some (ok (os_call call), c')
  unfolding settle
  settle_hides_os zero r c c' call = λ p. cc
  settle_hides_os (suc fuel) (ok (os_call other)) c c' call = settle_hides_os fuel _ _ c' call
  settle_hides_os (suc fuel) _ c c' call = λ p. cc
