-- ===== src/Bench/Tests.antt =====
-- A machine whose clock reads the same second always, and whose Snappy copies its input.
use cs739_distributed_system.Base.{ℕ, zero, suc, ◌≡◌, refl, some, arith, pos, State}
use cs739_distributed_system.Clock.{million, kilo, elapsed, sub64, convert_to_time}
use cs739_distributed_system.Stats.Laws.{total}
use cs739_distributed_system.Bench.Loop.{Machine, IsSound, differences}
use cs739_distributed_system.Bench.Cache.{
  l1_sweep, l2_sweep, l3_sweep, print_l1_cache_time, print_l2_cache_time, print_l3_cache_time,
}
use cs739_distributed_system.Bench.Timed.{
  print_mutex_lock_time, print_mutex_unlock_time, time_lock, time_unlock, time_copy,
  read_1mb_from_memory, time_read, read_1mb_from_disk,
}
use cs739_distributed_system.Bench.Counts.{free, guarded, mutex_measurements_free}
use cs739_distributed_system.Bench.CacheAverage.{Divides, cache_averages}
use cs739_distributed_system.Bench.Main.{Report, bench_main}
use cs739_distributed_system.Bench.Complete.{bench_main_returns}
use cs739_distributed_system.Bench.Sound.{printed_lines-IsSound}

abbrev still : Machine (Unit {0})
still = record {
  clock = λ w. (record { tv_sec = 1; tv_nsec = 0 }, tt);
  lock = λ w. (tt, tt);
  unlock = λ w. (tt, tt);
  compress = λ input w. (input, tt);
  uncompress = λ output w. (output, tt);
  memcpy = λ w. (tt, tt);
  open_file = λ w. (pos 3, tt);
  read_file = λ fd size w. (pos size, tt);
  close_file = λ fd w. (tt, tt);
  cerr = λ w. (tt, tt);
}

mutex_measurements_free_example :
    ((print_mutex_lock_time (guarded still) (tt, free)).1.1 ≡ free)
    × ((print_mutex_unlock_time (guarded still) (tt, free)).1.1 ≡ free)
mutex_measurements_free_example = mutex_measurements_free still tt

cache_averages_example :
    Divides still l1_sweep 32768 32768 (print_l1_cache_time still tt)
    × Divides still l2_sweep 64 64 (print_l2_cache_time still tt)
    × Divides still l3_sweep 5756 256 (print_l3_cache_time still tt)
cache_averages_example = cache_averages still tt

-- Rounds that take no time add up to none.
total-still :
    (n : ℕ) (body : State (Unit {0}) ℕ)
    → ((w : Unit {0}) → (body w).0 ≡ 0)
    → total (differences n body tt) ≡ 0
unfolding differences
total-still zero body h = refl
total-still (suc n) body h = rw (h tt) (omega (arith, total-still n body h))

instantly : elapsed (record { tv_sec = 1; tv_nsec = 0 }) (record { tv_sec = 1; tv_nsec = 0 }) ≡ 0
unfolding elapsed sub64 convert_to_time
instantly = refl

printed_lines-IsSound_example :
    IsSound (print_mutex_lock_time still tt).0 (differences million (time_lock still) tt)
    × IsSound (print_mutex_unlock_time still tt).0 (differences million (time_unlock still) tt)
    × IsSound (read_1mb_from_memory still tt).0 (differences kilo (time_copy still) tt)
    × IsSound (read_1mb_from_disk still tt).0 (differences 10 (time_read still) tt)
unfolding time_lock time_unlock time_copy time_read
printed_lines-IsSound_example =
    printed_lines-IsSound still tt
      (omega (arith, total-still million (time_lock still) (λ w. instantly)))
      (omega (arith, total-still million (time_unlock still) (λ w. instantly)))
      (omega (arith, total-still kilo (time_copy still) (λ w. instantly)))
      (omega (arith, total-still 10 (time_read still) (λ w. instantly)))

bench_main_returns_example :
    (r : Report) × (w' : Unit {0}) × (bench_main still tt ≡ some (r, w'))
    × (r.main_memory.0.rounds ≡ 1024)
bench_main_returns_example = bench_main_returns still tt
