-- ===== src/Stats.antt =====
-- The running minimum, maximum and sum that every measuring loop of HW1/part1/part1.cpp,
-- HW1/timers/timer_precision.cpp and the two servers keep in three `uint64` variables.
pub mod Laws
mod Tests
use cs739_distributed_system.Base.{ℕ, ◌+◌, ◌-◌, ◌%◌, ◌^◌, List, [], ◌∷◌, ltb, if◌then◌else◌}

abbrev pub ullong_max : ℕ
ullong_max = 2 ^ 64 - 1

pub record Stats : Type 0 where
  pub min : ℕ
  pub max : ℕ
  pub sum : ℕ

-- `max = sum = 0; min = ULLONG_MAX;`
abbrev pub fresh : Stats
fresh = record { min = ullong_max; max = 0; sum = 0 }

-- `sum += diff; if (diff < min) { min = diff; } if (diff > max) { max = diff; }`
unfoldable pub sample : Stats → ℕ → Stats
sample s diff = record {
  min = if ltb diff s.min then diff else s.min;
  max = if ltb s.max diff then diff else s.max;
  sum = (s.sum + diff) % 2 ^ 64;
}

-- The variables after a whole run of differences.
unfoldable pub samples : Stats → List ℕ → Stats
samples s [] = s
samples s (d ∷ ds) = samples (sample s d) ds
