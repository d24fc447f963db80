-- ===== src/Engine/Returning.antt =====
-- `start_session` and `resume_session` (src/engine.rs) return, whatever they are given.
use monty_server.Common.{
  Bool-cases, inl, inr, Result, Returns, some-Returns, same-Returns, map-Returns,
}
use monty_server.Limits.{ResolvedLimits}
use monty_server.Tracker.{Tracker}
use monty_server.External.{Types, Externals, RunProgress, Objects}
use monty_server.Engine.{
  Context, Readings, ResumeInput, stepped, is_match, settle, end_and_finish, conclude,
  start_session, resume_session,
}
use monty_server.Engine.Settling.{OsBudget, settle_returns}
use monty_server.Engine.Resuming.{resume_session_mismatch, resume_session_returns}

module _ {x : Types} (m : Externals x) (b : OsBudget m) where
  settle-Returns :
      (r : Result (RunProgress x) x.Exception) (c : Context) → Returns (λ fuel. settle m fuel r c)
  settle-Returns r c =
      let (out, settled) = settle_returns m b r c in
      record { enough = _; value = out; returned = settled }

  pub start_session-Returns :
      (at : Readings) (program : x.Run) (inputs : Objects x) (limits : ResolvedLimits)
      → Returns (λ fuel. start_session m fuel at program inputs limits)
  unfolding start_session conclude
  start_session-Returns at program inputs limits =
      map-Returns (end_and_finish m at) (settle-Returns _ _)

  pub resume_session-Returns :
      (at : Readings) (progress : RunProgress x) (t : Tracker) (input : ResumeInput x)
      → Returns (λ fuel. resume_session m fuel at progress t input)
  resume_session-Returns at progress t input = elim (Bool-cases (is_match progress input)) [
    | inl good ↦
        (let (fuel, step, t', returned) = resume_session_returns m b at progress t input good in
          record { enough = fuel; value = (stepped step, t'); returned = returned })
    | inr bad ↦
        same-Returns (λ fuel. resume_session_mismatch m fuel at progress t input bad)
          (some-Returns _)
  ]
