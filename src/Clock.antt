-- ===== src/Clock.antt =====
-- Clock readings as nanoseconds in a `uint64`: `convert_to_time` of HW1/part1/part1.cpp,
-- HW1/timers/timer_precision.cpp, HW1/part1/Generic.h, HW1/part2/Generic.h and HW1/part2/Socket.h,
-- and the difference that every measuring loop takes.
-- The fields of a reading are non-negative: the clocks are read after 1970.
pub mod Order
mod Tests
use cs739_distributed_system.Base.{ℕ, ◌+◌, ◌-◌, ◌*◌, ◌%◌, ◌^◌}

abbrev pub billion : ℕ
billion = 1000000000

abbrev pub million : ℕ
million = 1000000

abbrev pub kilo : ℕ
kilo = 1000

-- `struct timespec`, as `clock_gettime` fills it.
pub record TimeSpec : Type 0 where
  pub tv_sec : ℕ
  pub tv_nsec : ℕ

-- `struct timeval`, as `gettimeofday` fills it.
pub record TimeVal : Type 0 where
  pub tv_sec : ℕ
  pub tv_usec : ℕ

-- The `uint64` that a reading stands for: nanoseconds.
unfoldable pub convert_to_time : TimeSpec → ℕ
convert_to_time time = (time.tv_sec * billion + time.tv_nsec) % 2 ^ 64

-- The overload for `gettimeofday`: microseconds.
unfoldable pub convert_timeval : TimeVal → ℕ
convert_timeval time = (time.tv_sec * million + time.tv_usec) % 2 ^ 64

-- Subtraction of two `uint64` values.
unfoldable pub sub64 : ℕ → ℕ → ℕ
sub64 a b = (a + 2 ^ 64 - b % 2 ^ 64) % 2 ^ 64

-- `convert_to_time(end) - convert_to_time(start)`.
unfoldable pub elapsed : TimeSpec → TimeSpec → ℕ
elapsed start end = sub64 (convert_to_time end) (convert_to_time start)
