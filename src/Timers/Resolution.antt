-- ===== src/Timers/Resolution.antt =====
-- What the loops of HW1/timers/timer_precision.cpp measure.
use cs739_distributed_system.Base.{
  ℕ, zero, suc, ◌+◌, ◌<◌, ◌≡◌, subst, inl, inr, some, arith, ltb, ltb→lt, Bool-cases, State,
  chain-eq-some, some-injective,
}
use cs739_distributed_system.Clock.{TimeSpec, sub64, elapsed}
use cs739_distributed_system.Stats.{Stats, sample}
use cs739_distributed_system.Timers.{Resolutions, unmeasured, spin, measure, resolution, call_time}

-- Whatever the first of three readings is, the second loop measures the time between the other
-- two.
call_time-elapsed : (start temp end : TimeSpec) → call_time start temp end ≡ elapsed temp end
unfolding call_time elapsed sub64
call_time-elapsed start temp end = omega arith

module _ {W A : Type 0} (now : State W A) (difference : A → A → ℕ) where
  spin-positive :
      (tests n : ℕ) (start end : A) (w : W) (r : (ℕ × ℕ) × W)
      → spin now difference tests n start end w ≡ some r
      → 0 < r.0.0
  unfolding spin
  spin-positive zero n start end w r h = cc
  spin-positive (suc tests) n start end w r h = elim (Bool-cases (ltb 0 (difference start end))) [
    | inl e ↦ subst (λ p. 0 < p.0.0) (some-injective _ _ (rw e at h)) (ltb→lt 0 _ e)
    | inr e ↦ spin-positive tests (n + 1) _ _ _ r (rw e at h)
  ]

  measure-positive :
      (tests : ℕ) (w : W) (r : (ℕ × ℕ) × W) → measure now difference tests w ≡ some r → 0 < r.0.0
  unfolding measure
  measure-positive tests w r h = spin-positive tests 0 _ _ _ r h

  pub sample-positive : (s : Stats) (d : ℕ) → 0 < s.min → 0 < d → 0 < (sample s d).min
  unfolding sample
  sample-positive s d h k = ground arith

  resolution_from-positive :
      (rounds tests : ℕ) (before : Resolutions) (w : W) (r : Resolutions × W)
      → 0 < before.times.min
      → resolution now difference rounds tests before w ≡ some r
      → 0 < r.0.times.min
  unfolding resolution
  resolution_from-positive zero tests before w r h e =
      subst (λ p. 0 < p.0.times.min) (some-injective _ _ e) h
  resolution_from-positive (suc rounds) tests before w r h e =
      let (m, v, first, rest) = chain-eq-some (measure now difference tests) _ w r.0 r.1 e in
      resolution_from-positive rounds tests _ v r
        (sample-positive before.times m.0 h (measure-positive tests w (m, v) first)) rest

  -- The least difference of a loop that returned is not 0: a round ends only when two readings differ.
  resolution_positive :
      (rounds tests : ℕ) (w : W) (r : Resolutions × W)
      → resolution now difference rounds tests unmeasured w ≡ some r
      → 0 < r.0.times.min
  resolution_positive rounds tests w r h =
      resolution_from-positive rounds tests unmeasured w r (omega arith) h
