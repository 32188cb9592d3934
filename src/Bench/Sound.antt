-- ===== src/Bench/Sound.antt =====
-- What the printed lines of HW1/part1/part1.cpp mean.
use cs739_distributed_system.Base.{◌^◌, ◌<◌}
use cs739_distributed_system.Clock.{million, kilo}
use cs739_distributed_system.Stats.Laws.{total}
use cs739_distributed_system.Bench.Loop.{Machine, differences, IsSound, repeat-IsSound}
use cs739_distributed_system.Bench.Timed.{
  time_lock, print_mutex_lock_time, time_unlock, print_mutex_unlock_time, time_copy,
  read_1mb_from_memory, time_read, read_1mb_from_disk,
}

module _ {W : Type 0} (m : Machine W) (w : W) where
  -- The lines about the mutex, about `memcpy` and about the file are sound, each for the
  -- differences of its own rounds, as long as these add up to less than 2^64 nanoseconds.
  pub printed_lines-IsSound :
      total (differences million (time_lock m) w) < 2 ^ 64
      → total (differences million (time_unlock m) w) < 2 ^ 64
      → total (differences kilo (time_copy m) w) < 2 ^ 64
      → total (differences 10 (time_read m) w) < 2 ^ 64
      → IsSound (print_mutex_lock_time m w).0 (differences million (time_lock m) w)
        × IsSound (print_mutex_unlock_time m w).0 (differences million (time_unlock m) w)
        × IsSound (read_1mb_from_memory m w).0 (differences kilo (time_copy m) w)
        × IsSound (read_1mb_from_disk m w).0 (differences 10 (time_read m) w)
  unfolding print_mutex_lock_time print_mutex_unlock_time read_1mb_from_memory read_1mb_from_disk
  printed_lines-IsSound a b c d = (
    repeat-IsSound 999_999 (time_lock m) w a,
    repeat-IsSound 999_999 (time_unlock m) w b,
    repeat-IsSound 999 (time_copy m) w c,
    repeat-IsSound 9 (time_read m) w d,
  )
