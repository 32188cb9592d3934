-- ===== src/Bench/Complete.antt =====
-- `main` of HW1/part1/part1.cpp ends.
use cs739_distributed_system.Base.{◌≡◌, ◌∙◌, some, chain_of_some, after_of_some}
use cs739_distributed_system.Bench.Loop.{Machine}
use cs739_distributed_system.Bench.Cache.{
  CacheTimes, print_l1_cache_time, print_l2_cache_time, print_l3_cache_time, print_cache_time,
}
use cs739_distributed_system.Bench.CacheAverage.{cache_averages}
use cs739_distributed_system.Bench.Timed.{
  print_mutex_lock_time, print_mutex_unlock_time, print_main_mem_reference_time,
}
use cs739_distributed_system.Bench.Counts.{memory_iterations}
use cs739_distributed_system.Bench.Main.{Report, bench_main}

module _ {W : Type 0} (m : Machine W) where
  print_cache_time_returns :
      (w : W)
      → (c : CacheTimes × CacheTimes × CacheTimes) × (w' : W) × (print_cache_time m w
          ≡ some (c, w'))
  unfolding print_cache_time
  print_cache_time_returns w =
      let a = (cache_averages m w).0.0 in
      let b = (cache_averages m a.world).1.0 in
      let c = (cache_averages m b.world).2.0 in
      (
        (a.printed, b.printed, c.printed),
        c.world,
        chain_of_some (print_l1_cache_time m) _ w a.world a.printed a.returned
            ∙ chain_of_some (print_l2_cache_time m) _ a.world b.world b.printed b.returned
            ∙ after_of_some (print_l3_cache_time m) _ b.world c.world c.printed c.returned,
      )

  -- On any machine the program ends: the loops over memory and over the caches do not run out of
  -- their bounds, no measurement of a cache leaves its buffer, and the line about main memory divides
  -- by the 1024 rounds of its loop.
  pub bench_main_returns :
      (w : W)
      → (r : Report) × (w' : W) × (bench_main m w ≡ some (r, w')) × (r.main_memory.0.rounds ≡ 1024)
  unfolding bench_main
  bench_main_returns w =
      let (c, v, e) = print_cache_time_returns w in
      let lock = print_mutex_lock_time m v in
      let unlock = print_mutex_unlock_time m lock.1 in
      let (p, u, f, rounds) = memory_iterations m unlock.1 in
      (
        _,
        _,
        chain_of_some (print_cache_time m) _ w v c e
            ∙ after_of_some (print_main_mem_reference_time m) _ unlock.1 u p f,
        rounds,
      )
