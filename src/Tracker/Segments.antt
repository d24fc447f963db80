-- ===== src/Tracker/Segments.antt =====
-- The duration that `stats` (src/tracker.rs) reports over several segments.
use monty_server.Common.{ℕ, ◌+◌, ◌-◌, ◌≡◌, refl, List, [], ◌∷◌, arith, ◌∙◌}
use monty_server.Tracker.{
  Tracker, Call, allocates, frees, grows, checks_time, checks_depth, checks_large, begin_segment,
  end_segment, elapsed, stats, call, run,
}

clock-call : (c : Call) (t : Tracker) → (call c t).1.clock ≡ t.clock
unfolding call
clock-call (allocates size) t = ground arith
clock-call (frees size) t = ground arith
clock-call (grows n) t = ground arith
clock-call (checks_time now) t = ground arith
clock-call (checks_depth n) t = ground arith
clock-call (checks_large n) t = ground arith

pub clock-run : (cs : List Call) (t : Tracker) → (run cs t).clock ≡ t.clock
unfolding run
clock-run [] t = refl
clock-run (c ∷ cs) t = clock-run cs (call c t).1 ∙ clock-call c t

-- One segment: it begins at `begins`, makes its calls, and ends with two readings of the clock.
pub record Segment : Type 0 where
  pub begins : ℕ
  pub calls : List Call
  pub ends : ℕ
  pub restarts : ℕ

unfoldable pub segment : Segment → Tracker → Tracker
segment s t = end_segment s.ends s.restarts (run s.calls (begin_segment s.begins t))

unfoldable pub segments : List Segment → Tracker → Tracker
segments [] t = t
segments (s ∷ ss) t = segments ss (segment s t)

-- The lengths of the segments, added up.
unfoldable pub charged : List Segment → ℕ
charged [] = 0
charged (s ∷ ss) = (s.ends - s.begins) + charged ss

accumulated-segment :
    (s : Segment) (t : Tracker)
    → (segment s t).clock.accumulated ≡ t.clock.accumulated + (s.ends - s.begins)
unfolding segment end_segment begin_segment
accumulated-segment s t = rw (clock-run s.calls) refl

accumulated-segments :
    (ss : List Segment) (t : Tracker)
    → (segments ss t).clock.accumulated ≡ t.clock.accumulated + charged ss
unfolding segments charged
accumulated-segments [] t = omega arith
accumulated-segments (s ∷ ss) t =
    omega (arith, accumulated-segments ss (segment s t), accumulated-segment s t)

elapsed-segment :
    (s : Segment) (t : Tracker) (now : ℕ)
    → elapsed now (segment s t) ≡ (segment s t).clock.accumulated + (now - s.restarts)
unfolding elapsed segment end_segment
elapsed-segment s t now = refl

-- The duration reported after a number of segments and one more is what was accumulated before,
-- with the lengths of the segments and the time since the last one ended: no time between two
-- segments is charged, and the time from the last end to the report is.
pub duration-segments :
    (ss : List Segment) (s : Segment) (t : Tracker) (now : ℕ)
    → (stats now (segment s (segments ss t))).duration
      ≡ t.clock.accumulated + charged ss + (s.ends - s.begins) + (now - s.restarts)
unfolding stats
duration-segments ss s t now = omega (
  arith,
  elapsed-segment s (segments ss t) now,
  accumulated-segment s (segments ss t),
  accumulated-segments ss t,
)
