-- ===== src/Tracker/Sampling.antt =====
-- `check_time` (src/tracker.rs), which reads the clock on every sixteenth check only.
use monty_server.Common.{
  ℕ, ◌+◌, ◌-◌, ◌%◌, ◌≤◌, ◌<◌, ◌≡◌, ◌≢◌, none, some, List, [], ◌∷◌, map, ok, err, arith, length, All,
  Bool, true, false, ◌==◌, Bool-cases, inl, inr, subst,
}
use monty_server.Tracker.{
  Tracker, wrap32, ResourceError, time_error, Call, allocates, frees, grows, checks_time,
  checks_depth, checks_large, time_check_interval, elapsed, check_time, call, run,
}
use monty_server.Tracker.Breaches.{first_refusal}

-- Every check of `ts` comes after the execution has used up its time.
abbrev pub IsLate : ℕ → Tracker → List ℕ → Type 0
IsLate limit t = All (λ now. limit < elapsed now t)

abbrev fires : Tracker → Bool
fires t = wrap32 (t.time_check_counter + 1) % time_check_interval == 0

module _ (now limit : ℕ) (t : Tracker) (bound : t.max_duration ≡ some limit) where
  refused :
      limit < elapsed now t
      → fires t ≡ true
      → (check_time now t).0 ≡ err (time_error limit (elapsed now t))
  unfolding check_time
  refused late e = ground arith

  passed : fires t ≡ false → (check_time now t).0 ≡ ok tt
  unfolding check_time
  passed e = ground arith

  counted :
      fires t ≡ false
      → record t { time_check_counter = wrap32 (t.time_check_counter + 1) } ≡ (check_time now t).1
  unfolding check_time
  counted e = ground arith

-- With `n` checks to come before a reading of the clock, `n + 1` late checks are not all passed.
late_refused :
    (limit : ℕ) (ts : List ℕ) (t : Tracker)
    → t.max_duration ≡ some limit
    → IsLate limit t ts
    → 16 ≤ t.time_check_counter % 16 + length ts
    → first_refusal (map checks_time ts) t ≢ none
unfolding first_refusal call elapsed
late_refused limit [] t d late enough = absurd (omega arith)
late_refused limit (now ∷ ts) t d late enough = elim (Bool-cases (fires t)) [
  | inl e ↦ rw (first_refusal, refused now limit t d late.0 e) (λ p. cc)
  | inr e ↦
      rw (first_refusal, passed now limit t d e)
        (subst (λ u. first_refusal (map checks_time ts) u ≢ none) (counted now limit t d e)
          (late_refused limit ts _ d late.1 (ground arith)))
]

-- With a limit on time, of sixteen checks of the time in a row that all come after the execution
-- has used up its time, at least one is refused.
pub deadline-within_interval :
    (limit : ℕ) (t : Tracker) (ts : List ℕ)
    → t.max_duration ≡ some limit
    → length ts ≡ time_check_interval
    → IsLate limit t ts
    → first_refusal (map checks_time ts) t ≢ none
deadline-within_interval limit t ts d n late = late_refused limit ts t d late (omega arith)

-- The state after a refusal for time: the next check reads the clock, and finds it too late.
record IsExpired (limit now : ℕ) (t : Tracker) : Type 0 where
  bound : t.max_duration ≡ some limit
  late : limit < elapsed now t
  armed : t.time_check_counter ≡ time_check_interval - 1

-- All readings of the clock in `c` are at `start` or later.
abbrev pub IsAfter : ℕ → Call → Type 0
IsAfter start (checks_time now) = start ≤ now
IsAfter start _ = Unit

module _ (limit : ℕ) where
  check_time-IsExpired :
      (now : ℕ) (t : Tracker) (e : ResourceError)
      → t.max_duration ≡ some limit
      → (check_time now t).0 ≡ err e
      → IsExpired limit now (check_time now t).1
  unfolding check_time elapsed
  check_time-IsExpired now t e d h = ground arith

  call-IsExpired :
      (start : ℕ) (c : Call) (t : Tracker)
      → IsAfter start c
      → IsExpired limit start t
      → IsExpired limit start (call c t).1
  unfolding call elapsed
  call-IsExpired start (allocates size) t a x = ground arith
  call-IsExpired start (frees size) t a x = ground arith
  call-IsExpired start (grows n) t a x = ground arith
  call-IsExpired start (checks_time now) t a x = ground arith
  call-IsExpired start (checks_depth n) t a x = ground arith
  call-IsExpired start (checks_large n) t a x = ground arith

  run-IsExpired :
      (start : ℕ) (cs : List Call) (t : Tracker)
      → All (IsAfter start) cs
      → IsExpired limit start t
      → IsExpired limit start (run cs t)
  unfolding run
  run-IsExpired start [] t a x = x
  run-IsExpired start (c ∷ cs) t a x =
      run-IsExpired start cs (call c t).1 a.1 (call-IsExpired start c t a.0 x)

  IsExpired-refused :
      (start later : ℕ) (t : Tracker)
      → IsExpired limit start t
      → start ≤ later
      → (check_time later t).0 ≡ err (time_error limit (elapsed later t))
  unfolding check_time elapsed
  IsExpired-refused start later t x le = ground arith

-- Once a check of the time has been refused, the next check is refused with the time limit,
-- whatever calls come in between, if no reading of the clock goes back before the refusal.
pub expired_stays :
    (limit now later : ℕ) (t : Tracker) (e : ResourceError) (cs : List Call)
    → t.max_duration ≡ some limit
    → (check_time now t).0 ≡ err e
    → All (IsAfter now) cs
    → now ≤ later
    → let t' = run cs (check_time now t).1 in
      (check_time later t').0 ≡ err (time_error limit (elapsed later t'))
expired_stays limit now later t e cs d h after le =
    IsExpired-refused limit now later _
      (run-IsExpired limit now cs _ after (check_time-IsExpired limit now t e d h)) le
