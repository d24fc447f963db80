-- ===== src/Engine/Metering.antt =====
-- The counters and the breach that a step or a run of src/engine.rs reports.
use mathlib.Core.Option
use monty_server.Common.{
  ℕ, String, zero, suc, ◌≤◌, ◌≡◌, refl, ap, subst, ◌∙◌, Option, some, List, [], Result, ok, err,
  arith,
}
use monty_server.Config.{LimitBounds}
use monty_server.Limits.{ResolvedLimits, LimitsRequest, resolve}
use monty_server.Limits.Clamping.{resolve-IsBounded}
use monty_server.Tracker.{
  Tracker, Breach, Call, ExecStats, new, run, begin_segment, end_segment, stats, breach,
  code_of_breach,
}
use monty_server.Tracker.Budget.{IsWithin, new-IsWithin, run-IsWithin}
use monty_server.Tracker.Breaches.{breach_persists, breach_code-run_kept}
use monty_server.External.{
  Types, Externals, RunProgress, os_call, Execution, Object, Objects, PrintStream,
}
use monty_server.Engine.{
  Context, Readings, SessionStep, Output, ResumeInput, stepped, perform, begun, settle, finish_step,
  end_and_finish, conclude, start_session, resume_session, exec_result, run_to_completion,
  ExecResult,
}
use monty_server.Engine.Resuming.{resume_session-stepped}

-- A property of trackers that no execution can take away.
pub record IsKept (P : Tracker → Type 0) : Type 0 where
  begin_keeps : (now : ℕ) (t : Tracker) → P t → P (begin_segment now t)
  run_keeps : (cs : List Call) (t : Tracker) → P t → P (run cs t)
  end_keeps : (now later : ℕ) (t : Tracker) → P t → P (end_segment now later t)

unfoldable pub step_stats : {x : Types} → SessionStep x → ExecStats
step_stats (SessionStep.complete _ _ s) = s
step_stats (SessionStep.failed _ _ _ s) = s
step_stats (SessionStep.paused _ _ s) = s

module _ {x : Types} (m : Externals x) {P : Tracker → Type 0} (kept : IsKept P) where
  open kept use {begin_keeps, run_keeps, end_keeps}

  settle_keeps :
      (fuel : ℕ) (r : Result (RunProgress x) x.Exception) (c : Context)
      (out : Result (RunProgress x) x.Exception × Context)
      → P c.tracker
      → settle m fuel r c ≡ some out
      → P out.1.tracker
  unfolding settle perform
  settle_keeps zero r c out p h = cc
  settle_keeps (suc fuel) (ok (os_call call)) c out p h =
      settle_keeps fuel _ _ out (run_keeps _ c.tracker p) h
  settle_keeps (suc fuel) r c out p h =
      subst (λ (o : Result (RunProgress x) x.Exception × Context). P o.1.tracker)
        (Option.some-injective _ _ h) p

  finish_step-stats :
      (settled : Result (RunProgress x) x.Exception) (t : Tracker)
      (fs : List (PrintStream × String)) (reads : ℕ)
      → step_stats (finish_step m settled t fs reads) ≡ stats reads t
  unfolding finish_step step_stats
  finish_step-stats (ok (RunProgress.complete _)) t fs reads = refl
  finish_step-stats (ok _) t fs reads = refl
  finish_step-stats (err _) t fs reads = refl

  -- The tracker of a step has the property, and the step reports that tracker's counters.
  conclude_keeps :
      (fuel : ℕ) (at : Readings) (begins : Result (RunProgress x) x.Exception × Context)
      (step : SessionStep x) (t : Tracker)
      → P begins.1.tracker
      → conclude m fuel at begins ≡ some (step, t)
      → P t × (step_stats step ≡ stats at.reads t)
  unfolding conclude end_and_finish
  conclude_keeps fuel at (r, c) step t p h =
      let ((settled, c'), e, f) =
        (Option.map-eq-some_iff (end_and_finish m at) (settle m fuel r c)).0 h in
      let ended = ap (λ (u : SessionStep x × Tracker). u.1) f in
      let finished = ap (λ (u : SessionStep x × Tracker). u.0) f in
      let q = settle_keeps fuel r c (settled, c') p e in
      (
        subst P ended (end_keeps at.ends at.restarts c'.tracker q),
        rw (← finished, ← ended) (finish_step-stats settled _ c'.fragments at.reads),
      )

  pub start_session_keeps :
      (fuel : ℕ) (at : Readings) (program : x.Run) (inputs : Objects x) (limits : ResolvedLimits)
      (step : SessionStep x) (t : Tracker)
      → P (new limits at.created)
      → start_session m fuel at program inputs limits ≡ some (step, t)
      → P t × (step_stats step ≡ stats at.reads t)
  unfolding start_session perform begun
  start_session_keeps fuel at program inputs limits step t p h =
      conclude_keeps fuel at _ step t (run_keeps _ _ (begin_keeps at.begins _ p)) h

  pub resume_session_keeps :
      (fuel : ℕ) (at : Readings) (progress : RunProgress x) (t : Tracker) (input : ResumeInput x)
      (step : SessionStep x) (t' : Tracker)
      → P t
      → resume_session m fuel at progress t input ≡ some (stepped step, t')
      → P t' × (step_stats step ≡ stats at.reads t')
  unfolding perform begun
  resume_session_keeps fuel at progress t input step t' p h =
      let (e, _, _, ended) = resume_session-stepped m fuel at progress t input step t' h in
      conclude_keeps fuel at _ step t' (run_keeps _ _ (begin_keeps at.begins _ p)) ended

IsWithin-IsKept : (l : ResolvedLimits) → IsKept (IsWithin l)
unfolding begin_segment end_segment
IsWithin-IsKept l = record {
  begin_keeps = λ now t w. ground arith;
  run_keeps = λ cs t w. run-IsWithin cs w;
  end_keeps = λ now later t w. ground arith;
}

breach_IsKept : (b : Breach) → IsKept (λ t. t.breach_code ≡ code_of_breach b)
unfolding begin_segment end_segment
breach_IsKept b = record {
  begin_keeps = λ now t h. h;
  run_keeps = λ cs t h. breach_code-run_kept cs t b h;
  end_keeps = λ now later t h. h;
}

-- The counters that a response reports are under the server's ceilings.
pub record IsUnder (bounds : LimitBounds) (s : ExecStats) : Type 0 where
  pub allocations : s.allocations ≤ bounds.max_allocations
  pub peak : s.peak_memory_bytes ≤ bounds.max_memory_bytes

stats-IsUnder :
    (request : Option LimitsRequest) (bounds : LimitBounds) (reads : ℕ) (t : Tracker)
    → IsWithin (resolve request bounds) t
    → IsUnder bounds (stats reads t)
unfolding stats
stats-IsUnder request bounds reads t w = ground (arith, resolve-IsBounded request bounds)

unfoldable pub exec_stats : {x : Types} → ExecResult x → ExecStats
exec_stats (ExecResult.completed _ _ s) = s
exec_stats (ExecResult.failed _ _ _ s) = s

-- The life of a session up to a step: how it was started, and each resume that made a step.
pub data Life {x : Types} (m : Externals x) (limits : ResolvedLimits)
    : SessionStep x → Tracker → Type 0 where
  started :
      (fuel : ℕ) (at : Readings) (program : x.Run) (inputs : Objects x) {step : SessionStep x}
      {t : Tracker}
      → start_session m fuel at program inputs limits ≡ some (step, t)
      → Life m limits step t
  resumed :
      (fuel : ℕ) (at : Readings) (progress : RunProgress x) (input : ResumeInput x)
      {before after : SessionStep x} {t t' : Tracker}
      → Life m limits before t
      → resume_session m fuel at progress t input ≡ some (stepped after, t')
      → Life m limits after t'

module _ {x : Types} (m : Externals x) (request : Option LimitsRequest) (bounds : LimitBounds) where
  abbrev limits : ResolvedLimits
  limits = resolve request bounds

  Life-IsWithin : {step : SessionStep x} {t : Tracker} → Life m limits step t → IsWithin limits t
  Life-IsWithin (started fuel at program inputs h) =
      (start_session_keeps m (IsWithin-IsKept limits) fuel at program inputs limits _ _
        (new-IsWithin limits at.created) h).0
  Life-IsWithin (resumed fuel at progress input life h) =
      (resume_session_keeps m (IsWithin-IsKept limits) fuel at progress _ input _ _
        (Life-IsWithin life) h).0

  Life-stats :
      {step : SessionStep x} {t : Tracker}
      → Life m limits step t
      → (reads : ℕ) × (step_stats step ≡ stats reads t)
  Life-stats (started fuel at program inputs h) = (
    at.reads,
    (start_session_keeps m (IsWithin-IsKept limits) fuel at program inputs limits _ _
        (new-IsWithin limits at.created) h).1,
  )
  Life-stats (resumed fuel at progress input life h) = (
    at.reads,
    (resume_session_keeps m (IsWithin-IsKept limits) fuel at progress _ input _ _
        (Life-IsWithin life) h).1,
  )

  -- Whatever limits a client asks for, every step of a session, from its start through any number
  -- of resumes, reports allocations and peak memory that are at most the server's maxima.
  pub session-IsUnder_ceiling :
      (step : SessionStep x) (t : Tracker) → Life m limits step t → IsUnder bounds (step_stats step)
  session-IsUnder_ceiling step t life =
      let (reads, e) = Life-stats life in
      rw e (stats-IsUnder request bounds reads t (Life-IsWithin life))

  exec_result-stats :
      (r : Result (Object x) x.Exception) (t : Tracker) (o : Output) (reads : ℕ)
      → exec_stats (exec_result m r t o reads) ≡ stats reads t
  unfolding exec_result exec_stats
  exec_result-stats (ok _) t o reads = refl
  exec_result-stats (err _) t o reads = refl

  -- Whatever limits a client asks for, a run to completion reports allocations and peak memory that
  -- are at most the server's maxima.
  pub run-IsUnder_ceiling :
      (at : Readings) (program : x.Run) (inputs : Objects x)
      → IsUnder bounds (exec_stats (run_to_completion m at program inputs limits))
  unfolding run_to_completion
  run-IsUnder_ceiling at program inputs =
      let t : Tracker = (begun m at (new limits at.created)).tracker in
      let e : Execution x (Object x) = m.run program inputs t in
      let began = kept.begin_keeps at.begins _ (new-IsWithin limits at.created) in
      let ended = kept.end_keeps at.ends at.restarts _ (kept.run_keeps e.calls t began) in
      rw (exec_result-stats e.outcome _ _ at.reads) (stats-IsUnder request bounds at.reads _ ended)
    where
      kept : IsKept (IsWithin limits)
      kept = IsWithin-IsKept limits

module _ {x : Types} (m : Externals x) where
  finish_step-breach :
      (settled : Result (RunProgress x) x.Exception) (t : Tracker)
      (fs : List (PrintStream × String)) (reads : ℕ) (e : x.Exception) (b : Option Breach)
      (o : Output) (s : ExecStats)
      → finish_step m settled t fs reads ≡ SessionStep.failed e b o s
      → b ≡ breach t
  unfolding finish_step
  finish_step-breach (ok (RunProgress.complete _)) t fs reads e b o s h = cc
  finish_step-breach (ok _) t fs reads e b o s h = cc
  finish_step-breach (err _) t fs reads e b o s h = cc

  conclude-breach :
      (fuel : ℕ) (at : Readings) (begins : Result (RunProgress x) x.Exception × Context)
      (e : x.Exception) (b : Option Breach) (o : Output) (s : ExecStats) (t : Tracker)
      → conclude m fuel at begins ≡ some (SessionStep.failed e b o s, t)
      → b ≡ breach t
  unfolding conclude end_and_finish
  conclude-breach fuel at (r, c) e b o s t h =
      let ((settled, c'), _, f) =
        (Option.map-eq-some_iff (end_and_finish m at) (settle m fuel r c)).0 h in
      let ended = ap (λ (u : SessionStep x × Tracker). u.1) f in
      let finished = ap (λ (u : SessionStep x × Tracker). u.0) f in
      finish_step-breach settled _ c'.fragments at.reads e b o s finished ∙ ap breach ended

  -- If a limit was met before a resume, and the resume ends in an exception, the failure is
  -- reported as the breach of that limit, whatever the exception is.
  pub failed_blames_first :
      (fuel : ℕ) (at : Readings) (progress : RunProgress x) (t : Tracker) (input : ResumeInput x)
      (e : x.Exception) (b : Option Breach) (o : Output) (s : ExecStats) (t' : Tracker)
      (first : Breach)
      → t.breach_code ≡ code_of_breach first
      → resume_session m fuel at progress t input ≡ some (stepped (SessionStep.failed e b o s), t')
      → b ≡ some first
  unfolding run
  failed_blames_first fuel at progress t input e b o s t' first met h =
      let (x, _, _, ended) = resume_session-stepped m fuel at progress t input _ t' h in
      let (kept, _) =
        resume_session_keeps m (breach_IsKept first) fuel at progress t input _ t' met h in
      conclude-breach fuel at _ e b o s t' ended ∙ breach_persists [] t' first kept
