-- ===== src/Engine/Resuming.antt =====
-- `resume_session` (src/engine.rs), for answers that match the pause and others.
use mathlib.Core.Option
use monty_server.Common.{
  ℕ, suc, ◌+◌, ◌≡◌, refl, ◌≢◌, String, true, false, some, Bool-cases, inl, inr, List, subst, sym,
  ap, ◌∙◌, Result, ok, err, arith,
}
use monty_server.Tracker.{Tracker}
use monty_server.External.{
  Types, Externals, RunProgress, function_call, name_lookup, resolve_futures, os_call, complete,
  Execution, PrintStream,
}
use monty_server.Engine.{
  Context, Readings, ResumeInput, stepped, mismatch, SessionStep, Output, paused, is_match,
  mismatch_message, check_resume, apply_resume, settle, finish_step, begun, perform, as_stepped,
  end_and_finish, conclude, resume_session,
}
use monty_server.Tracker.{ExecStats}
use monty_server.Engine.Settling.{IsActionable, OsBudget, rounds, settle_returns, settle_hides_os}

module _ {x : Types} (m : Externals x) where
  apply_resume_total :
      (progress : RunProgress x) (input : ResumeInput x) (t : Tracker)
      → is_match progress input ≡ true
      → (e : Execution x (RunProgress x)) × (apply_resume m progress input t ≡ some e)
  unfolding is_match apply_resume
  apply_resume_total (function_call _) (ResumeInput.return _) t h = (_, refl)
  apply_resume_total (function_call _) (ResumeInput.raise _) t h = (_, refl)
  apply_resume_total (function_call _) ResumeInput.pending t h = (_, refl)
  apply_resume_total (name_lookup _) (ResumeInput.name _) t h = (_, refl)
  apply_resume_total (name_lookup _) ResumeInput.name_undefined t h = (_, refl)
  apply_resume_total (resolve_futures _) (ResumeInput.futures _) t h = (_, refl)
  apply_resume_total _ _ t h = cc

  pub resume_session_mismatch :
      (fuel : ℕ) (at : Readings) (progress : RunProgress x) (t : Tracker) (input : ResumeInput x)
      → is_match progress input ≡ false
      → resume_session m fuel at progress t input
        ≡ some (mismatch progress (mismatch_message progress input), t)
  unfolding resume_session check_resume
  resume_session_mismatch fuel at progress t input h = rw (h, check_resume, resume_session)

  shown :
      (p q : RunProgress x) {o o' : Output} {s s' : ExecStats}
      → ◌≡◌ {A = SessionStep x} (paused p o s) (paused q o' s')
      → q ≡ p
  shown p q h = cc

  paused_settled :
      (settled : Result (RunProgress x) x.Exception) (u : Tracker)
      (fs : List (PrintStream × String)) (reads : ℕ) (p : RunProgress x) (o : Output)
      (s : ExecStats)
      → ((call : x.OsCall) → settled ≢ ok (os_call call))
      → paused p o s ≡ finish_step m settled u fs reads
      → IsActionable p
  unfolding finish_step
  paused_settled (ok (function_call a)) u fs reads p o s no_os h =
      subst IsActionable (shown _ _ h) tt
  paused_settled (ok (name_lookup a)) u fs reads p o s no_os h = subst IsActionable (shown _ _ h) tt
  paused_settled (ok (resolve_futures a)) u fs reads p o s no_os h =
      subst IsActionable (shown _ _ h) tt
  paused_settled (ok (os_call a)) u fs reads p o s no_os h = absurd (no_os a refl)
  paused_settled (ok (complete a)) u fs reads p o s no_os h = cc
  paused_settled (err e) u fs reads p o s no_os h = cc

  end_and_finish-IsActionable :
      (at : Readings) (out : Result (RunProgress x) x.Exception × Context) (p : RunProgress x)
      (o : Output) (s : ExecStats) (t : Tracker)
      → ((call : x.OsCall) → out.0 ≢ ok (os_call call))
      → end_and_finish m at out ≡ (paused p o s, t)
      → IsActionable p
  unfolding end_and_finish
  end_and_finish-IsActionable at (settled, c) p o s t no_os h =
      paused_settled settled _ c.fragments at.reads p o s no_os
        (sym (ap (λ (r : SessionStep x × Tracker). r.0) h))

  pub conclude-IsActionable :
      (fuel : ℕ) (at : Readings) (start : Result (RunProgress x) x.Exception × Context)
      (p : RunProgress x) (o : Output) (s : ExecStats) (t : Tracker)
      → conclude m fuel at start ≡ some (paused p o s, t)
      → IsActionable p
  unfolding conclude
  conclude-IsActionable fuel at (r, c) p o s t h =
      let (out, e, f) = (Option.map-eq-some_iff (end_and_finish m at) (settle m fuel r c)).0 h in
      end_and_finish-IsActionable at out p o s t
        (λ call q. settle_hides_os m fuel r c out.1 call (e ∙ ap some (λ i. (q i, out.1)))) f

  -- A resume that matches the pause is the execution of its answer.
  resume_session_matched :
      (fuel : ℕ) (at : Readings) (progress : RunProgress x) (t : Tracker) (input : ResumeInput x)
      {e : Execution x (RunProgress x)}
      → is_match progress input ≡ true
      → apply_resume m progress input (begun m at t).tracker ≡ some e
      → resume_session m fuel at progress t input
        ≡ Option.map (as_stepped m) (conclude m fuel at (perform e (begun m at t)))
  unfolding resume_session check_resume
  resume_session_matched fuel at progress t input h applied =
      rw (resume_session, check_resume, h, applied)

  as_stepped_inj :
      (u : SessionStep x × Tracker) (step : SessionStep x) (t : Tracker)
      → as_stepped m u ≡ (stepped step, t)
      → u ≡ (step, t)
  as_stepped_inj (step', t') step t h = ground arith

  -- A resume that made a step matched the pause, and is the execution of its answer.
  pub resume_session-stepped :
      (fuel : ℕ) (at : Readings) (progress : RunProgress x) (t : Tracker) (input : ResumeInput x)
      (step : SessionStep x) (t' : Tracker)
      → resume_session m fuel at progress t input ≡ some (stepped step, t')
      → (e : Execution x (RunProgress x)) × (is_match progress input ≡ true)
        × (apply_resume m progress input (begun m at t).tracker ≡ some e)
        × (conclude m fuel at (perform e (begun m at t)) ≡ some (step, t'))
  resume_session-stepped fuel at progress t input step t' h =
      elim (Bool-cases (is_match progress input)) [
        | inl good ↦
            let (e, applied) = apply_resume_total progress input (begun m at t).tracker good in
            let run = resume_session_matched fuel at progress t input good applied in
            let (u, ended, f) = (Option.map-eq-some_iff (as_stepped m) _).0 (sym run ∙ h) in
            (e, good, applied, ended ∙ ap some (as_stepped_inj u step t' f))
        | inr bad ↦ cc (resume_session_mismatch fuel at progress t input bad)
      ]

  -- If a resume leaves a session paused, the pause is one that a client can answer: a function
  -- call, a name lookup or pending futures.
  pub resume_session-IsActionable :
      (fuel : ℕ) (at : Readings) (progress : RunProgress x) (t : Tracker) (input : ResumeInput x)
      (p : RunProgress x) (o : Output) (s : ExecStats) (t' : Tracker)
      → resume_session m fuel at progress t input ≡ some (stepped (paused p o s), t')
      → IsActionable p
  resume_session-IsActionable fuel at progress t input p o s t' h =
      let (e, _, _, ended) = resume_session-stepped fuel at progress t input (paused p o s) t' h in
      conclude-IsActionable fuel at (perform e (begun m at t)) p o s t' ended

  -- If the program makes finitely many OS calls in a row, a resume whose input matches the pause
  -- returns a step on some fuel, and the same step on any more fuel.
  pub resume_session_returns :
      (b : OsBudget m) (at : Readings) (progress : RunProgress x) (t : Tracker)
      (input : ResumeInput x)
      → is_match progress input ≡ true
      → (fuel : ℕ) × (step : SessionStep x) × (t' : Tracker) × ((extra : ℕ)
          → resume_session m (fuel + extra) at progress t input ≡ some (stepped step, t'))
  unfolding conclude
  resume_session_returns b at progress t input h =
      let (e, applied) = apply_resume_total progress input (begun m at t).tracker h in
      let (r, c) = perform e (begun m at t) in
      let (out, settled) = settle_returns m b r c in
      let (step, t') = end_and_finish m at out in
      (
        suc (rounds m b r),
        step,
        t',
        λ extra.
            resume_session_matched (suc (rounds m b r) + extra) at progress t input h applied
            ∙ ap (λ o. Option.map (as_stepped m) (Option.map (end_and_finish m at) o))
                (settled extra),
      )
