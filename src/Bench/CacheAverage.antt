-- ===== src/Bench/CacheAverage.antt =====
-- What the averages of the cache measurements of HW1/part1/part1.cpp divide by.
use cs739_distributed_system.Base.{ℕ, ◌≡◌, ◌∙◌, Option, arith}
use cs739_distributed_system.Bench.Loop.{Machine}
use cs739_distributed_system.Bench.Cache.{
  CacheTimes, Sweep, l1_sweep, l2_sweep, l3_sweep, print_l1_cache_time, print_l2_cache_time,
  print_l3_cache_time,
}
use cs739_distributed_system.Bench.CacheSafe.{IsSafe, Swept, cache_time-Swept}

module _ {W : Type 0} (m : Machine W) where
  -- The sweep ended after so many timed loads, and the time is divided by `iterations`.
  abbrev pub Divides : (sweep : Sweep) → ℕ → ℕ → Option (CacheTimes × W) → Type 0
  Divides sweep reads iterations result =
      (s : Swept m sweep result) × (s.reads ≡ reads) × (s.printed.iterations ≡ iterations)

  l1_sweep-IsSafe : IsSafe l1_sweep
  l1_sweep-IsSafe = record {
    moves = ground arith;
    begins = ground arith;
    fills = ground arith;
    reads_filled = ground arith;
    inside = ground arith;
  }

  l2_sweep-IsSafe : IsSafe l2_sweep
  l2_sweep-IsSafe = record {
    moves = ground arith;
    begins = ground arith;
    fills = ground arith;
    reads_filled = ground arith;
    inside = ground arith;
  }

  l3_sweep-IsSafe : IsSafe l3_sweep
  l3_sweep-IsSafe = record {
    moves = ground arith;
    begins = ground arith;
    fills = ground arith;
    reads_filled = ground arith;
    inside = ground arith;
  }

  -- For any machine the three measurements of the caches end without leaving the buffer or reading
  -- a byte that was not written; `helper` is what 32768, 64 and 5756 loads from the filled buffer add
  -- up to, each in steps of the measurement; and the times of these loads are divided by 32768, 64 and
  -- 256.
  pub cache_averages :
      (w : W)
      → Divides l1_sweep 32768 32768 (print_l1_cache_time m w)
        × Divides l2_sweep 64 64 (print_l2_cache_time m w)
        × Divides l3_sweep 5756 256 (print_l3_cache_time m w)
  unfolding print_l1_cache_time print_l2_cache_time print_l3_cache_time
  cache_averages w =
      let a = cache_time-Swept m l1_sweep w l1_sweep-IsSafe in
      let b = cache_time-Swept m l2_sweep w l2_sweep-IsSafe in
      let c = cache_time-Swept m l3_sweep w l3_sweep-IsSafe in
      (
        (a, omega (arith, a.low, a.high), a.divisor ∙ omega (arith, a.low, a.high)),
        (b, omega (arith, b.low, b.high), b.divisor),
        (c, omega (arith, c.low, c.high), c.divisor),
      )
