-- ===== src/Tracker/Budget.antt =====
-- The counters of `StatsTracker` (src/tracker.rs) against its limits.
use monty_server.Common.{ℕ, ◌≤◌, ◌≡◌, some, List, [], ◌∷◌, arith, max}
use monty_server.Limits.{ResolvedLimits}
use monty_server.Tracker.{
  Tracker, Call, allocates, frees, grows, checks_time, checks_depth, checks_large, new, call, run,
}

pub record IsWithin (l : ResolvedLimits) (t : Tracker) : Type 0 where
  pub memory_limit : t.max_memory ≡ some l.max_memory_bytes
  pub allocation_limit : t.max_allocations ≡ some l.max_allocations
  pub allocated : t.allocations ≤ l.max_allocations
  pub live : t.live_memory ≤ t.peak_memory
  pub peak : t.peak_memory ≤ l.max_memory_bytes

pub new-IsWithin : (l : ResolvedLimits) (now : ℕ) → IsWithin l (new l now)
unfolding new
new-IsWithin l now = ground arith

call-IsWithin :
    {l : ResolvedLimits} {t : Tracker} (c : Call) → IsWithin l t → IsWithin l (call c t).1
unfolding call
call-IsWithin (allocates size) w = ground arith
call-IsWithin (frees size) w = ground arith
call-IsWithin (grows n) w = ground arith
call-IsWithin (checks_time now) w = ground arith
call-IsWithin (checks_depth n) w = ground arith
call-IsWithin (checks_large n) w = ground arith

-- From a tracker whose limits are those of `l` and whose counters are within them, after any calls
-- of the interpreter the limits are the same, the allocations and the peak memory are at most them,
-- and the live memory is at most the peak.
pub run-IsWithin :
    {l : ResolvedLimits} (cs : List Call) {t : Tracker} → IsWithin l t → IsWithin l (run cs t)
unfolding run
run-IsWithin [] w = w
run-IsWithin (c ∷ cs) w = run-IsWithin cs (call-IsWithin c w)

-- The largest amount of live memory after any prefix of the calls.
pub high_water : List Call → Tracker → ℕ
high_water [] t = t.live_memory
high_water (c ∷ cs) t = max t.live_memory (high_water cs (call c t).1)

peak-call :
    (c : Call) (t : Tracker)
    → t.live_memory ≤ t.peak_memory
    → (call c t).1.peak_memory ≡ max t.peak_memory (call c t).1.live_memory
unfolding call
peak-call (allocates size) t h = ground arith
peak-call (frees size) t h = ground arith
peak-call (grows n) t h = ground arith
peak-call (checks_time now) t h = ground arith
peak-call (checks_depth n) t h = ground arith
peak-call (checks_large n) t h = ground arith

live-le-high_water : (cs : List Call) (t : Tracker) → t.live_memory ≤ high_water cs t
unfolding high_water
live-le-high_water [] t = omega arith
live-le-high_water (c ∷ cs) t = omega arith

-- If the live memory is at most the peak, then after any calls the peak is the larger of the peak
-- before and the most live memory that there was after any number of the calls.
pub peak-run :
    (cs : List Call) (t : Tracker)
    → t.live_memory ≤ t.peak_memory
    → (run cs t).peak_memory ≡ max t.peak_memory (high_water cs t)
unfolding run high_water
peak-run [] t h = omega arith
peak-run (c ∷ cs) t h =
    let next = peak-run cs (call c t).1 (omega (arith, peak-call c t h)) in
    omega (arith, peak-call c t h, next, live-le-high_water cs (call c t).1)
