-- ===== src/Timers.antt =====
-- HW1/timers/timer_precision.cpp: the resolution of the clocks, and the time that a reading takes.
-- The texts that are printed are left out; what they show is returned, an average by its parts.
pub mod Resolution
pub mod Moving
mod Tests
use Prim.Native.String.{String}
use cs739_distributed_system.Base.{
  ℕ, zero, suc, ◌+◌, ◌-◌, ◌*◌, ◌/◌, ◌%◌, ◌^◌, ◌≤◌, ◌<◌, min, max, ◌≡◌, refl, sym, ap, subst, ◌∙◌,
  ◌≢◌, ◌↔◌, ◌⊎◌, inl, inr, Bool, true, false, not, ◌&&◌, ◌||◌, Option, none, some, List, [], ◌∷◌,
  ◌++◌, map, append_assoc, append-nil, arith, dec_lt, ℕ_discrete, ltb, leb, ◌==◌, if◌then◌else◌,
  ltb→lt, lt→ltb, le→ltb, Bool-cases, Option-cases, length, take, drop, replicate, All,
  length-append, take-append-drop, length-take, length-drop, length-replicate, take_all, take-add,
  All-mono, ℤ, pos, negsuc, minus_one, is_neg, of_bool, to_u32, IsInt, to_u32-lt, State, Partial,
  ◌>>=◌, ◌>>◌, pure, finish, after, after-eq-some, chain-eq-some, chain_of_some, after_of_some,
  some-injective, chain,
}
use cs739_distributed_system.Clock.{
  million, TimeSpec, TimeVal, convert_to_time, convert_timeval, sub64, elapsed,
}
use cs739_distributed_system.Stats.{Stats, fresh, sample}

-- The clocks of the system.
pub record Clocks (W : Type 0) : Type 0 where
  pub clock_gettime : ℕ → State W TimeSpec
  pub gettimeofday : State W TimeVal

abbrev pub clock_realtime : ℕ
clock_realtime = 0

abbrev pub clock_monotonic : ℕ
clock_monotonic = 1

abbrev pub clock_monotonic_raw : ℕ
clock_monotonic_raw = 4

-- `clock_name`, which has no value for another clock.
unfoldable pub clock_name : ℕ → Option String
clock_name clock_id =
    if clock_id == clock_monotonic
    then some "CLOCK_MONOTONIC"
    else if clock_id == clock_realtime
    then some "CLOCK_REALTIME"
    else if clock_id == clock_monotonic_raw
    then some "CLOCK_MONOTONIC_RAW"
    else none

-- `sum`, `min` and `max`, and `iteration_count`, `min_iter` and `max_iter`.
pub record Resolutions : Type 0 where
  pub times : Stats
  pub iterations : Stats

abbrev pub unmeasured : Resolutions
unmeasured = record { times = fresh; iterations = fresh }

-- The loops have one text for the two kinds of readings `A`. The counter `n` is an `int`: a clock
-- that stands still for 2^31 readings is not modelled.
module _ {W A : Type 0} (now : State W A) (difference : A → A → ℕ) where
  -- `while (end - start <= 0) { ...; n++; }`, for at most so many tests, and what follows: the
  -- difference and `n`.
  unfoldable pub spin : ℕ → ℕ → A → A → Partial W (ℕ × ℕ)
  spin zero n start end w = none
  spin (suc tests) n start end w =
      let again = do start' ← now; end' ← now; spin tests (n + 1) start' end'
      in if ltb 0 (difference start end) then some ((difference start end, n), w) else again w

  -- A round of the first loop.
  unfoldable pub measure : ℕ → Partial W (ℕ × ℕ)
  measure tests = do start ← now; end ← now; spin tests 0 start end

  -- The first loop.
  unfoldable pub resolution : ℕ → ℕ → Resolutions → Partial W Resolutions
  resolution zero tests r w = some (r, w)
  resolution (suc rounds) tests r w =
      chain (measure tests)
        (λ m.
          resolution rounds tests
            (record { times = sample r.times m.0; iterations = sample r.iterations m.1 }))
        w

-- `(end - start) - (temp - start)`.
unfoldable pub call_time : TimeSpec → TimeSpec → TimeSpec → ℕ
call_time start temp end = sub64 (elapsed start end) (elapsed start temp)

module _ {W : Type 0} (clocks : Clocks W) where
  -- The second loop of `clock_gettime_resolution`, whose rounds are counted in `iteration_count`.
  unfoldable pub call_times : ℕ → ℕ → Stats → State W Stats
  call_times zero clock_id s w = (s, w)
  call_times (suc rounds) clock_id s w =
      let start = clocks.clock_gettime clock_id w in
      let temp = clocks.clock_gettime clock_id start.1 in
      let end = clocks.clock_gettime clock_id temp.1 in
      call_times rounds clock_id (sample s (call_time start.0 temp.0 end.0)) end.1

  -- The two lines that are printed.
  unfoldable pub clock_gettime_resolution : ℕ → ℕ → Partial W (Resolutions × Stats)
  clock_gettime_resolution tests clock_id =
      after (resolution (clocks.clock_gettime clock_id) elapsed million tests unmeasured)
        (λ r. do s ← call_times million clock_id fresh; pure (r, s))

  unfoldable pub gettimeofday_resolution : ℕ → Partial W Resolutions
  gettimeofday_resolution tests =
      resolution clocks.gettimeofday
        (λ start end. sub64 (convert_timeval end) (convert_timeval start)) million tests unmeasured

  -- `main`.
  unfoldable pub timers_main : ℕ → Partial W (List (Resolutions × Stats) × Resolutions)
  timers_main tests = chain (clock_gettime_resolution tests clock_monotonic) (λ a.
      chain (clock_gettime_resolution tests clock_realtime) (λ b.
        chain (clock_gettime_resolution tests clock_monotonic_raw)
          (λ c. after (gettimeofday_resolution tests) (λ d. pure (a ∷ b ∷ c ∷ [], d)))))
