-- ===== src/Tracker/Breaches.antt =====
-- Which breach `StatsTracker` (src/tracker.rs) reports.
use mathlib.Core.Option
use monty_server.Common.{
  ℕ, ◌≡◌, refl, Option, none, some, List, [], ◌∷◌, Result, ok, err, Result-cases, inl, inr, arith,
  ap, ◌∙◌,
}
use monty_server.Tracker.{
  Tracker, Breach, time, memory, allocations, recursion, ResourceError, allocation_error,
  memory_error, time_error, recursion_error, Call, allocates, frees, grows, checks_time,
  checks_depth, checks_large, code_of_breach, breach_of_code, breach, call, run,
}

-- The limit that an error is about.
abbrev pub kind : ResourceError → Breach
kind (allocation_error _ _) = allocations
kind (memory_error _ _) = memory
kind (time_error _ _) = time
kind (recursion_error _ _) = recursion

-- The answer of the first call that is refused.
unfoldable pub first_refusal : List Call → Tracker → Option ResourceError
first_refusal [] t = none
first_refusal (c ∷ cs) t =
    let later = first_refusal cs (call c t).1 in elim (call c t).0 [ ok _ ↦ later | err e ↦ some e ]

abbrev code_after : Result (Unit {0}) ResourceError → ℕ
code_after (ok _) = 0
code_after (err e) = code_of_breach (kind e)

breach_code-call :
    (c : Call) (t : Tracker)
    → t.breach_code ≡ 0
    → (call c t).1.breach_code ≡ code_after (call c t).0
unfolding call
breach_code-call (allocates size) t h = ground arith
breach_code-call (frees size) t h = ground arith
breach_code-call (grows n) t h = ground arith
breach_code-call (checks_time now) t h = ground arith
breach_code-call (checks_depth n) t h = ground arith
breach_code-call (checks_large n) t h = ground arith

breach_code-call_kept :
    (c : Call) (t : Tracker) (b : Breach)
    → t.breach_code ≡ code_of_breach b
    → (call c t).1.breach_code ≡ code_of_breach b
unfolding call
breach_code-call_kept (allocates size) t b h = ground arith
breach_code-call_kept (frees size) t b h = ground arith
breach_code-call_kept (grows n) t b h = ground arith
breach_code-call_kept (checks_time now) t b h = ground arith
breach_code-call_kept (checks_depth n) t b h = ground arith
breach_code-call_kept (checks_large n) t b h = ground arith

pub breach_code-run_kept :
    (cs : List Call) (t : Tracker) (b : Breach)
    → t.breach_code ≡ code_of_breach b
    → (run cs t).breach_code ≡ code_of_breach b
unfolding run
breach_code-run_kept [] t b h = h
breach_code-run_kept (c ∷ cs) t b h =
    breach_code-run_kept cs (call c t).1 b (breach_code-call_kept c t b h)

decode : (b : Breach) → breach_of_code (code_of_breach b) ≡ some b
unfolding breach_of_code
decode time = refl
decode memory = refl
decode allocations = refl
decode recursion = refl

pub breach_persists :
    (cs : List Call) (t : Tracker) (b : Breach)
    → t.breach_code ≡ code_of_breach b
    → breach (run cs t) ≡ some b
unfolding breach
breach_persists cs t b h = ap breach_of_code (breach_code-run_kept cs t b h) ∙ decode b

-- On a tracker without a breach, the breach after any calls is the kind of the first of them that
-- was refused, and none if none was.
pub breach-run :
    (cs : List Call) (t : Tracker)
    → t.breach_code ≡ 0
    → breach (run cs t) ≡ Option.map kind (first_refusal cs t)
unfolding run first_refusal
breach-run [] t h = unfold breach breach_of_code in ground arith
breach-run (c ∷ cs) t h = elim (Result-cases (call c t).0) [
  | inl (_, e) ↦
      rw (e, Option.map) (breach-run cs (call c t).1 (breach_code-call c t h ∙ ap code_after e))
  | inr (x, e) ↦
      rw (e, Option.map)
        (breach_persists cs (call c t).1 (kind x) (breach_code-call c t h ∙ ap code_after e))
]
