-- ===== src/Tests/Meters.antt =====
-- Tests of src/limits.rs and src/tracker.rs.
use monty_server.Common.{
  ℕ, ◌+◌, ◌-◌, ◌≡◌, ◌≢◌, refl, some, none, List, [], ◌∷◌, map, err, arith, max,
}
use monty_server.Limits.{ResolvedLimits, resolve}
use monty_server.Tracker.{
  Tracker, new, Call, allocates, frees, checks_time, run, stats, time_error, check_time, elapsed,
}
use monty_server.Tracker.Budget.{IsWithin, new-IsWithin, run-IsWithin, high_water, peak-run}
use monty_server.Tracker.Breaches.{first_refusal}
use monty_server.Tracker.Sampling.{IsLate, deadline-within_interval, expired_stays}
use monty_server.Tracker.Segments.{Segment, segment, segments, charged, duration-segments}
use monty_server.Tests.Samples.{bounds, greedy}

abbrev sample_limits : ResolvedLimits
sample_limits = resolve (some greedy) bounds

abbrev fresh : Tracker
fresh = new sample_limits 0

abbrev rushed : Tracker
rushed = record fresh { max_duration = some 5 }

abbrev armed : Tracker
armed = record rushed { time_check_counter = 15 }

abbrev sample_calls : List Call
sample_calls = allocates 600 ∷ allocates 300 ∷ frees 600 ∷ allocates 1900 ∷ []

abbrev late_times : List ℕ
late_times = 20 ∷ 21 ∷ 22 ∷ 23 ∷ 24 ∷ 25 ∷ 26 ∷ 27 ∷ 28 ∷ 29 ∷ 30 ∷ 31 ∷ 32 ∷ 33 ∷ 34 ∷ 35 ∷ []

abbrev sample_segment : Segment
sample_segment = record { begins = 100; calls = sample_calls; ends = 130; restarts = 131 }

run-IsWithin_example : IsWithin sample_limits (run sample_calls fresh)
run-IsWithin_example = run-IsWithin sample_calls (new-IsWithin sample_limits 0)

peak-run_example :
    (run sample_calls fresh).peak_memory ≡ max fresh.peak_memory (high_water sample_calls fresh)
unfolding new
peak-run_example = peak-run sample_calls fresh (omega arith)

late : IsLate 5 rushed late_times
unfolding elapsed new
late = ground arith

deadline-within_interval_example : first_refusal (map checks_time late_times) rushed ≢ none
deadline-within_interval_example = deadline-within_interval 5 rushed late_times refl refl late

expired_stays_example :
    let t' = run (allocates 1 ∷ checks_time 120 ∷ []) (check_time 100 armed).1 in
    (check_time 150 t').0 ≡ err (time_error 5 (elapsed 150 t'))
unfolding check_time new
expired_stays_example =
    expired_stays 5 100 150 armed (time_error 5 100) (allocates 1 ∷ checks_time 120 ∷ []) refl refl
      (tt, (omega arith, tt)) (omega arith)

duration-segments_example :
    (stats 140 (segment sample_segment (segments (sample_segment ∷ []) fresh))).duration
    ≡ fresh.clock.accumulated + charged (sample_segment ∷ []) + (130 - 100) + (140 - 131)
duration-segments_example = duration-segments (sample_segment ∷ []) sample_segment fresh 140
