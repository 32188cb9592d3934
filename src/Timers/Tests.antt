-- ===== src/Timers/Tests.antt =====
-- A clock that moves with every second reading.
use cs739_distributed_system.Base.{
  ℕ, ◌+◌, ◌-◌, ◌/◌, ◌<◌, ◌≡◌, refl, inl, Bool, true, false, not, some, arith, if◌then◌else◌, State,
  Yields,
}
use cs739_distributed_system.Clock.{
  TimeSpec, TimeVal, elapsed, sub64, convert_to_time, convert_timeval,
}
use cs739_distributed_system.Timers.Moving.{Moves, Measured, timers_main-Measured}
use cs739_distributed_system.Stats.{sample}
use cs739_distributed_system.Timers.{
  Clocks, timers_main, Resolutions, unmeasured, spin, measure, resolution,
}

abbrev ticks : State ℕ ℕ
ticks w = (w / 2, w + 1)

abbrev measured : Resolutions
measured = record {
  times = record { min = 1; max = 1; sum = 2 };
  iterations = record { min = 0; max = 0; sum = 0 };
}

two_rounds : resolution ticks (λ start end. end - start) 2 3 unmeasured 1 ≡ some (measured, 5)
unfolding resolution measure spin sample
two_rounds = refl

abbrev at : ℕ → TimeSpec
at n = record { tv_sec = 1; tv_nsec = n }

-- A clock that shows two times in turn.
abbrev turning : Clocks Bool
turning = record {
  clock_gettime = λ clock_id w. (at (if w then 5 else 7), not w);
  gettimeofday = λ w. (record { tv_sec = 1; tv_usec = if w then 5 else 7 }, not w);
}

turning_moves : (w : Bool) → 0 < elapsed (at (if w then 5 else 7)) (at (if not w then 5 else 7))
unfolding elapsed sub64 convert_to_time
turning_moves true = omega arith
turning_moves false = omega arith

turning-Moves : (clock_id : ℕ) → Moves (turning.clock_gettime clock_id) elapsed 1
turning-Moves clock_id = record {
  still = λ w. 0;
  still_bounded = λ w. omega arith;
  moves = λ w. inl (turning_moves w);
}

abbrev day : Bool → TimeVal
day w = (turning.gettimeofday w).0

day_moves : (w : Bool) → 0 < sub64 (convert_timeval (day (not w))) (convert_timeval (day w))
unfolding sub64 convert_timeval
day_moves true = omega arith
day_moves false = omega arith

day-Moves :
    Moves turning.gettimeofday (λ start end. sub64 (convert_timeval end) (convert_timeval start)) 1
day-Moves = record {
  still = λ w. 0;
  still_bounded = λ w. omega arith;
  moves = λ w. inl (day_moves w);
}

timers_main-Measured_example : Yields Measured (timers_main turning 1 true)
timers_main-Measured_example =
    timers_main-Measured turning 1 turning-Moves day-Moves 1 true (omega arith)
