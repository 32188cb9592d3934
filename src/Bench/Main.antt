-- ===== src/Bench/Main.antt =====
-- `main` of HW1/part1/part1.cpp.
use cs739_distributed_system.Base.{ℕ, Partial, ◌>>=◌, pure, after, chain}
use cs739_distributed_system.Bench.Loop.{Machine, Printed}
use cs739_distributed_system.Bench.Cache.{CacheTimes, print_cache_time}
use cs739_distributed_system.Bench.Timed.{
  print_mutex_lock_time, print_mutex_unlock_time, print_compress_uncompress_data,
  read_1mb_from_memory, read_1mb_from_disk, print_main_mem_reference_time,
}

-- All that the program prints.
pub record Report : Type 0 where
  pub caches : CacheTimes × CacheTimes × CacheTimes
  pub lock : Printed
  pub unlock : Printed
  pub main_memory : Printed × ℕ
  pub snappy : Printed × Printed × ℕ
  pub memory_copy : Printed
  pub disk : Printed

-- The measurements, in the order of the calls.
unfoldable pub bench_main : {W : Type 0} → Machine W → Partial W Report
bench_main m = chain (print_cache_time m) (λ caches. do
  lock ← print_mutex_lock_time m
  unlock ← print_mutex_unlock_time m
  after (print_main_mem_reference_time m) (λ main_memory. do
    snappy ← print_compress_uncompress_data m
    memory_copy ← read_1mb_from_memory m
    disk ← read_1mb_from_disk m
    pure (record {
      caches = caches;
      lock = lock;
      unlock = unlock;
      main_memory = main_memory;
      snappy = snappy;
      memory_copy = memory_copy;
      disk = disk;
    })))
