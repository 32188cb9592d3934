-- ===== src/Clock/Order.antt =====
-- What `convert_to_time` and the difference of two readings mean for clocks in range.
use cs739_distributed_system.Base.{ℕ, ◌+◌, ◌-◌, ◌*◌, ◌/◌, ◌%◌, ◌^◌, ◌<◌, ◌≡◌, ◌↔◌, ◌⊎◌, arith}
use cs739_distributed_system.Clock.{billion, TimeSpec, convert_to_time, sub64, elapsed}

-- Nanoseconds since the epoch, with no wrap-around.
abbrev pub nanoseconds : TimeSpec → ℕ
nanoseconds t = t.tv_sec * billion + t.tv_nsec

-- A reading that POSIX allows and that fits 64 bits.
pub record IsReading (t : TimeSpec) : Type 0 where
  pub normal : t.tv_nsec < billion
  pub fits : nanoseconds t < 2 ^ 64

-- A reading can be had back from the number that it is converted to.
pub convert_to_time_roundtrip :
    (t : TimeSpec)
    → IsReading t
    → (convert_to_time t / billion ≡ t.tv_sec) × (convert_to_time t % billion ≡ t.tv_nsec)
unfolding convert_to_time
convert_to_time_roundtrip t r = omega arith

-- The numbers are ordered as the readings are: by seconds, then by nanoseconds.
convert_to_time-lt_iff :
    (s t : TimeSpec)
    → IsReading s
    → IsReading t
    → (convert_to_time s < convert_to_time t)
      ↔ ((s.tv_sec < t.tv_sec) ⊎ ((s.tv_sec ≡ t.tv_sec) × (s.tv_nsec < t.tv_nsec)))
unfolding convert_to_time
convert_to_time-lt_iff s t r q = ground arith

-- Every difference fits 64 bits.
pub elapsed-lt : (s t : TimeSpec) → elapsed s t < 2 ^ 64
unfolding elapsed sub64
elapsed-lt s t = omega arith

-- A clock that ran forwards by `d` nanoseconds yields `d`; one that was set back by `d`
-- nanoseconds, with `d` not 0, yields 2^64 - d.
pub elapsed_lem :
    (s t : TimeSpec) (d : ℕ)
    → IsReading s
    → IsReading t
    → (nanoseconds s + d ≡ nanoseconds t → elapsed s t ≡ d)
      × (nanoseconds t + d ≡ nanoseconds s → 0 < d → elapsed s t ≡ 2 ^ 64 - d)
unfolding elapsed sub64 convert_to_time
elapsed_lem s t d r q = (λ e. omega arith, λ e p. omega arith)
