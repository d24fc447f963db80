-- ===== src/Tracker.antt =====
-- src/tracker.rs: `StatsTracker`, which meters and limits one execution. The shared atomics are one
-- record, since an execution runs on one thread at a time. `Instant::now()` is an argument, the
-- durations are nanoseconds, and the arithmetic on machine words is that of a release build.
pub mod Budget
pub mod Breaches
pub mod Sampling
pub mod Segments
use monty_server.Common.{
  ℕ, ◌+◌, ◌-◌, ◌%◌, ◌^◌, Option, none, some, List, [], ◌∷◌, Bool, Result, ok, err, max, min, ltb,
  leb, ◌==◌, if◌then◌else◌,
}
use monty_server.Limits.{ResolvedLimits}

-- `TIME_CHECK_INTERVAL`
abbrev pub time_check_interval : ℕ
time_check_interval = 16

-- `usize` and `u64` addition, and `u32` addition, wrap around.
abbrev pub wrap64 : ℕ → ℕ
wrap64 n = n % 2 ^ 64

abbrev pub wrap32 : ℕ → ℕ
wrap32 n = n % 2 ^ 32

abbrev pub saturating_add : ℕ → ℕ → ℕ
saturating_add a b = min (a + b) (2 ^ 64 - 1)

-- `Breach`
pub data Breach : Type 0 where
  time memory allocations recursion : Breach

-- `monty::ResourceError`, as it is built here
pub data ResourceError : Type 0 where
  allocation_error : (limit count : ℕ) → ResourceError
  memory_error : (limit used : ℕ) → ResourceError
  time_error : (limit elapsed : ℕ) → ResourceError
  recursion_error : (limit depth : ℕ) → ResourceError

-- `ExecStats`
pub record ExecStats : Type 0 where
  pub duration : ℕ
  pub allocations : ℕ
  pub peak_memory_bytes : ℕ

-- `Clock`
pub record Clock : Type 0 where
  pub segment_start : ℕ
  pub accumulated : ℕ

-- `State`
pub record Tracker : Type 0 where
  pub max_duration : Option ℕ
  pub max_memory : Option ℕ
  pub max_allocations : Option ℕ
  pub max_recursion_depth : Option ℕ
  pub gc_interval : Option ℕ
  pub allocations : ℕ
  pub live_memory : ℕ
  pub peak_memory : ℕ
  pub time_check_counter : ℕ
  pub breach_code : ℕ
  pub clock : Clock

-- `StatsTracker::new`
unfoldable pub new : ResolvedLimits → (now : ℕ) → Tracker
new limits now = record {
  max_duration = some limits.max_duration;
  max_memory = some limits.max_memory_bytes;
  max_allocations = some limits.max_allocations;
  max_recursion_depth = some limits.max_recursion_depth;
  gc_interval = limits.gc_interval;
  allocations = 0;
  live_memory = 0;
  peak_memory = 0;
  time_check_counter = 0;
  breach_code = 0;
  clock = record { segment_start = now; accumulated = 0 };
}

-- `begin_segment`
unfoldable pub begin_segment : ℕ → Tracker → Tracker
begin_segment now t = record t { clock = record t.clock { segment_start = now } }

-- `end_segment`: `elapsed()` of an instant saturates at zero. `now` and `later` are the two
-- readings of the clock that it makes.
unfoldable pub end_segment : (now later : ℕ) → Tracker → Tracker
end_segment now later t = record t {
  clock = record {
    segment_start = later;
    accumulated = t.clock.accumulated + (now - t.clock.segment_start);
  };
}

-- `elapsed`
unfoldable pub elapsed : ℕ → Tracker → ℕ
elapsed now t = t.clock.accumulated + (now - t.clock.segment_start)

-- `stats`
unfoldable pub stats : ℕ → Tracker → ExecStats
unfolding elapsed
stats now t = record {
  duration = elapsed now t;
  allocations = t.allocations;
  peak_memory_bytes = t.peak_memory;
}

-- `breach`
unfoldable pub breach_of_code : ℕ → Option Breach
breach_of_code n =
    if n == 1
    then some time
    else if n == 2
    then some memory
    else if n == 3
    then some allocations
    else if n == 4
    then some recursion
    else none

unfoldable pub breach : Tracker → Option Breach
unfolding breach_of_code
breach t = breach_of_code t.breach_code

-- the encoding in `record_breach`
abbrev pub code_of_breach : Breach → ℕ
code_of_breach time = 1
code_of_breach memory = 2
code_of_breach allocations = 3
code_of_breach recursion = 4

-- `State::record_breach`: a compare-exchange from 0
unfoldable pub record_breach : Breach → Tracker → Tracker
record_breach b t = if t.breach_code == 0 then record t { breach_code = code_of_breach b } else t

-- `store_memory`
unfoldable pub store_memory : ℕ → Tracker → Tracker
store_memory n t = record t { live_memory = n; peak_memory = max t.peak_memory n }

-- `if let Some(max) = limit && test(max)`
abbrev pub exceeded : Option ℕ → (ℕ → Bool) → Option ℕ
exceeded none test = none
exceeded (some limit) test = if test limit then some limit else none

abbrev pub Check : Type 0
Check = Result (Unit {0}) ResourceError × Tracker

-- the second half of `on_allocate`, when the count is within its limit
allocate_memory : (size : ℕ) → Tracker → Check
unfolding store_memory record_breach
allocate_memory size t =
    let new_memory : ℕ = wrap64 (t.live_memory + size) in
    elim (exceeded t.max_memory (λ limit. ltb limit new_memory)) [
      | some limit ↦ (err (memory_error limit new_memory), record_breach memory t)
      | none ↦
          (ok tt, store_memory new_memory (record t { allocations = wrap64 (t.allocations + 1) }))
    ]

-- `on_allocate`; `size` is what `get_size()` returns
unfoldable pub on_allocate : (size : ℕ) → Tracker → Check
unfolding allocate_memory record_breach
on_allocate size t = elim (exceeded t.max_allocations (λ limit. leb limit t.allocations)) [
  | some limit ↦
      (err (allocation_error limit (wrap64 (t.allocations + 1))), record_breach allocations t)
  | none ↦ allocate_memory size t
]

-- `on_free`
unfoldable pub on_free : (size : ℕ) → Tracker → Tracker
on_free size t = record t { live_memory = t.live_memory - size }

-- `on_grow`
unfoldable pub on_grow : (additional_bytes : ℕ) → Tracker → Check
unfolding store_memory record_breach
on_grow additional_bytes t =
    let new_memory : ℕ = saturating_add t.live_memory additional_bytes in
    elim (exceeded t.max_memory (λ limit. ltb limit new_memory)) [
      | some limit ↦ (err (memory_error limit new_memory), record_breach memory t)
      | none ↦ (ok tt, store_memory new_memory t)
    ]

-- the clock reading of `check_time`
read_clock : (now limit : ℕ) → Tracker → Check
unfolding elapsed record_breach
read_clock now limit t =
    if ltb limit (elapsed now t)
    then (
      err (time_error limit (elapsed now t)),
      record_breach time (record t { time_check_counter = time_check_interval - 1 }),
    )
    else (ok tt, t)

count_check : Tracker → Tracker
count_check t = record t { time_check_counter = wrap32 (t.time_check_counter + 1) }

-- `check_time`; the value tested is the new value of the counter
unfoldable pub check_time : (now : ℕ) → Tracker → Check
unfolding read_clock count_check
check_time now t = elim t.max_duration [
  | none ↦ (ok tt, t)
  | some limit ↦
      if wrap32 (t.time_check_counter + 1) % time_check_interval == 0
      then read_clock now limit (count_check t)
      else (ok tt, count_check t)
]

-- `check_recursion_depth`
unfoldable pub check_recursion_depth : (current_depth : ℕ) → Tracker → Check
unfolding record_breach
check_recursion_depth current_depth t =
    elim (exceeded t.max_recursion_depth (λ limit. leb limit current_depth)) [
      | some limit ↦
          (err (recursion_error limit (wrap64 (current_depth + 1))), record_breach recursion t)
      | none ↦ (ok tt, t)
    ]

-- `check_large_result`
unfoldable pub check_large_result : (estimated_bytes : ℕ) → Tracker → Check
unfolding record_breach
check_large_result estimated_bytes t =
    let projected : ℕ = saturating_add t.live_memory estimated_bytes in
    elim (exceeded t.max_memory (λ limit. ltb limit projected)) [
      | some limit ↦ (err (memory_error limit projected), record_breach memory t)
      | none ↦ (ok tt, t)
    ]

-- A call of the `ResourceTracker` interface, which is all that the interpreter can do to a tracker.
pub data Call : Type 0 where
  allocates : (size : ℕ) → Call
  frees : (size : ℕ) → Call
  grows : (additional_bytes : ℕ) → Call
  checks_time : (now : ℕ) → Call
  checks_depth : (current_depth : ℕ) → Call
  checks_large : (estimated_bytes : ℕ) → Call

-- `impl ResourceTracker for StatsTracker`
unfoldable pub call : Call → Tracker → Check
unfolding on_allocate on_free on_grow check_time check_recursion_depth check_large_result
call (allocates size) t = on_allocate size t
call (frees size) t = (ok tt, on_free size t)
call (grows n) t = on_grow n t
call (checks_time now) t = check_time now t
call (checks_depth n) t = check_recursion_depth n t
call (checks_large n) t = check_large_result n t

-- The calls of one execution, in order, whatever it makes of their answers.
unfoldable pub run : List Call → Tracker → Tracker
unfolding call
run [] t = t
run (c ∷ cs) t = run cs (call c t).1
