-- ===== src/Timers/Moving.antt =====
-- HW1/timers/timer_precision.cpp ends on clocks that move.
use cs739_distributed_system.Timers.Resolution.{sample-positive}
use cs739_distributed_system.Base.{
  ℕ, zero, suc, ◌+◌, ◌≤◌, ◌<◌, ◌≡◌, refl, ◌⊎◌, inl, inr, List, arith, ltb, ltb→lt, lt→ltb,
  Bool-cases, length, All, State, Yields, Yields-chain, Yields-after,
}
use cs739_distributed_system.Stats.{Stats}
use cs739_distributed_system.Clock.{million, convert_timeval, sub64, elapsed}
use cs739_distributed_system.Timers.{
  Clocks, clock_monotonic, clock_realtime, clock_monotonic_raw, Resolutions, unmeasured, spin,
  measure, resolution, clock_gettime_resolution, gettimeofday_resolution, timers_main,
}

-- Of two readings, the second is later, or the number that bounds how long the clock stands still
-- becomes smaller. It is always below the bound.
pub record Moves {W A : Type 0} (now : State W A) (difference : A → A → ℕ) (bound : ℕ)
    : Type 0 where
  pub still : W → ℕ
  pub still_bounded : (w : W) → still w < bound
  pub moves :
      (w : W)
      → let start = now w in
        let end = now start.1 in (0 < difference start.0 end.0) ⊎ (still end.1 < still w)

module _ {W A : Type 0} (now : State W A) (difference : A → A → ℕ) (bound : ℕ)
    (moving : Moves now difference bound) where
  open moving use {still, still_bounded, moves}

  abbrev Later : ℕ × ℕ → W → Type 0
  Later m v = 0 < m.0

  spin-Later :
      (more n : ℕ) (start end : A) (w : W)
      → (0 < difference start end) ⊎ (still w < more)
      → Yields Later (spin now difference (suc more) n start end w)
  unfolding spin
  spin-Later zero n start end w (inl h) = rw (lt→ltb 0 _ h) h
  spin-Later zero n start end w (inr h) = absurd (omega arith)
  spin-Later (suc more) n start end w h = elim (Bool-cases (ltb 0 (difference start end))) [
    | inl e ↦ rw e (ltb→lt 0 _ e)
    | inr e ↦
        let again = moves w in
        let shorter : still w < suc more = elim h [
          | inl k ↦ absurd (let e' = lt→ltb 0 _ k in cc)
          | inr k ↦ k
        ] in
        let start' = now w in
        let end' = now start'.1 in
        rw e (
          spin-Later more (n + 1) start'.0 end'.0 end'.1
            (elim again [ inl k ↦ inl k | inr k ↦ inr (omega arith) ]))
  ]

  measure-Later :
      (tests : ℕ) (w : W) → bound ≤ tests → Yields Later (measure now difference tests w)
  unfolding measure
  measure-Later zero w h = absurd (let b = still_bounded w in omega arith)
  measure-Later (suc tests) w h =
      let start = now w in
      let end = now start.1 in
      let b = still_bounded w in
      spin-Later tests 0 start.0 end.0 end.1
        (elim (moves w) [ inl k ↦ inl k | inr k ↦ inr (omega arith) ])

  -- Some difference was measured.
  abbrev pub Resolved : Resolutions → W → Type 0
  Resolved r v = 0 < r.times.min

  resolution-Resolved :
      (rounds tests : ℕ) (before : Resolutions) (w : W)
      → bound ≤ tests
      → 0 < before.times.min
      → Yields Resolved (resolution now difference rounds tests before w)
  unfolding resolution
  resolution-Resolved zero tests before w h k = k
  resolution-Resolved (suc rounds) tests before w h k =
      Yields-chain Resolved (measure now difference tests) _ w (measure-Later tests w h) (λ m v l.
        resolution-Resolved rounds tests _ v h
          (sample-positive now difference before.times m.0 k l))

-- What `main` prints: three clocks and `gettimeofday`, none with the resolution 0.
abbrev pub Measured : {W : Type 0} → List (Resolutions × Stats) × Resolutions → W → Type 0
Measured r v = (length r.0 ≡ 3) × All (λ p. 0 < p.0.times.min) r.0 × (0 < r.1.times.min)

module _ {W : Type 0} (clocks : Clocks W) (bound : ℕ)
    (clocks_move : (clock_id : ℕ) → Moves (clocks.clock_gettime clock_id) elapsed bound)
    (day_moves : Moves clocks.gettimeofday
      (λ start end. sub64 (convert_timeval end) (convert_timeval start))
      bound) where
  million_unmeasured : 0 < unmeasured.times.min
  million_unmeasured = omega arith

  clock_gettime_resolution-Resolved :
      (tests clock_id : ℕ) (w : W)
      → bound ≤ tests
      → Yields (λ p v. 0 < p.0.times.min) (clock_gettime_resolution clocks tests clock_id w)
  unfolding clock_gettime_resolution
  clock_gettime_resolution-Resolved tests clock_id w h =
      Yields-after (λ p v. 0 < p.0.times.min)
        (resolution (clocks.clock_gettime clock_id) elapsed million tests unmeasured) _ w
        (resolution-Resolved (clocks.clock_gettime clock_id) elapsed bound (clocks_move clock_id)
          million tests unmeasured w h million_unmeasured)
        (λ r v k. k)

  gettimeofday_resolution-Resolved :
      (tests : ℕ) (w : W)
      → bound ≤ tests
      → Yields (λ r v. 0 < r.times.min) (gettimeofday_resolution clocks tests w)
  unfolding gettimeofday_resolution
  gettimeofday_resolution-Resolved tests w h =
      resolution-Resolved clocks.gettimeofday _ bound day_moves million tests unmeasured w h
        million_unmeasured

  -- When each clock moves within `bound` pairs of readings, and the waiting loops may test that often,
  -- `main` ends: it prints the figures of three clocks and of `gettimeofday`, and no resolution is 0.
  pub timers_main-Measured :
      (tests : ℕ) (w : W) → bound ≤ tests → Yields Measured (timers_main clocks tests w)
  unfolding timers_main
  timers_main-Measured tests w h =
      Yields-chain Measured (clock_gettime_resolution clocks tests clock_monotonic) _ w
        (clock_gettime_resolution-Resolved tests clock_monotonic w h)
        (λ a u k.
          Yields-chain Measured (clock_gettime_resolution clocks tests clock_realtime) _ u
            (clock_gettime_resolution-Resolved tests clock_realtime u h)
            (λ b v l.
              Yields-chain Measured (clock_gettime_resolution clocks tests clock_monotonic_raw) _ v
                (clock_gettime_resolution-Resolved tests clock_monotonic_raw v h)
                (λ c x m.
                  Yields-after Measured (gettimeofday_resolution clocks tests) _ x
                    (gettimeofday_resolution-Resolved tests x h)
                    (λ d y n. (refl, (k, (l, (m, tt))), n)))))
