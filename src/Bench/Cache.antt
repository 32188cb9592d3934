-- ===== src/Bench/Cache.antt =====
-- `print_l1_cache_time`, `print_l2_cache_time` and `print_l3_cache_time` of
-- HW1/part1/part1.cpp. The three functions have one text but for the bounds, the step and the
-- passes of their loops and what they add to `iterations`, which a `Sweep` holds. A byte of the
-- buffer that was not written yet is `none`, and the result is `none` if the code leaves the
-- buffer or reads such a byte, or if the fuel of its reading loop is used up.
use cs739_distributed_system.Base.{
  ℕ, zero, suc, ◌+◌, ◌-◌, ◌*◌, ◌/◌, ◌%◌, ◌^◌, true, false, Option, none, some, ltb, ◌==◌,
  if◌then◌else◌, State, Partial, ◌>>=◌, pure, after, chain,
}
use cs739_distributed_system.Clock.{kilo, sub64, elapsed}
use cs739_distributed_system.Stats.{sample, fresh}
use cs739_distributed_system.Bench.Loop.{Machine, repeat}

pub record Buffer : Type 0 where
  pub size : ℕ
  pub cell : ℕ → Option ℕ

-- `malloc(size)`.
abbrev pub malloc : ℕ → Buffer
malloc size = record { size = size; cell = λ _. none }

abbrev pub update : (ℕ → Option ℕ) → ℕ → ℕ → ℕ → Option ℕ
update cell k v i = if k == i then some v else cell i

unfoldable pub store : Buffer → ℕ → ℕ → Option Buffer
store b k v = if ltb k b.size then some (record b { cell = update b.cell k v }) else none

unfoldable pub load : Buffer → ℕ → Option ℕ
load b k = if ltb k b.size then b.cell k else none

-- `reg += buf[i]`: a `char` is signed; `reg` is an `int`, kept by its 32 bits.
unfoldable pub add_char : ℕ → ℕ → ℕ
add_char reg v = (reg + (if ltb v 128 then v else v + 2 ^ 32 - 256)) % 2 ^ 32

pub record Sweep : Type 0 where
  -- the fill loop stores below `top`, this many times
  pub top : ℕ
  pub passes : ℕ
  -- `for (i = first; i < last; i += skip)`
  pub first : ℕ
  pub last : ℕ
  pub skip : ℕ
  -- what is added to `iterations`, from the value of `i` after the loop
  pub counted : ℕ → ℕ

-- `for(int k = top - 1; k >= 0; --k) { buf[k] = ((k + p) % 256); }`
unfoldable pub fill_down : ℕ → ℕ → Buffer → Option Buffer
fill_down zero p b = some b
fill_down (suc k) p b = elim (store b k ((k + p) % 256)) [
  | none ↦ none
  | some b' ↦ fill_down k p b'
]

-- `for(int p = 0; p < passes; p++)` around it: the passes left and `p`.
unfoldable pub fill_passes : ℕ → ℕ → ℕ → Buffer → Option Buffer
fill_passes zero p top b = some b
fill_passes (suc n) p top b = elim (fill_down top p b) [
  | none ↦ none
  | some b' ↦ fill_passes n (p + 1) top b'
]

-- `for (i = first; i < last; i += skip) { reg += buf[i]; }`: `reg` and `i` after the loop.
unfoldable pub read_span : ℕ → ℕ → ℕ → Buffer → ℕ → ℕ → Option (ℕ × ℕ)
read_span zero last skip b i reg = none
read_span (suc fuel) last skip b i reg = elim (ltb i last) [
  | false ↦ some (reg, i)
  | true ↦ elim (load b i) [
    | none ↦ none
    | some v ↦ read_span fuel last skip b (i + skip) (add_char reg v)
  ]
]

-- What is printed: `(sum - loop_time) / iterations`, `(min - loop_time / REPEAT) / l1_size`,
-- `(max - loop_time / REPEAT) / l1_size` and `helper`, the quotients by their parts.
pub record CacheTimes : Type 0 where
  pub sum : ℕ
  pub iterations : ℕ
  pub min : ℕ
  pub max : ℕ
  pub helper : ℕ

abbrev pub l1_size : ℕ
l1_size = 32 * 1024

abbrev pub l2_size : ℕ
l2_size = 256 * 1024

abbrev pub l3_size : ℕ
l3_size = 6144 * 1024

abbrev pub total_size : ℕ
total_size = l3_size - 100 * 1024

abbrev pub l1_sweep : Sweep
l1_sweep = record {
  top = l1_size;
  passes = 100;
  first = 0;
  last = l1_size;
  skip = 1;
  counted = λ i. i;
}

abbrev pub l2_sweep : Sweep
l2_sweep = record {
  top = l2_size + l1_size;
  passes = 1;
  first = l1_size;
  last = l1_size + l2_size;
  skip = 4096;
  counted = λ _. l2_size / 4096;
}

abbrev pub l3_sweep : Sweep
l3_sweep = record {
  top = total_size;
  passes = 100;
  first = l1_size + l2_size;
  last = total_size;
  skip = 1024;
  counted = λ _. l2_size / 1024;
}

module _ {W : Type 0} (m : Machine W) where
  -- A round of the loop that measures an empty loop.
  unfoldable pub time_empty : State W ℕ
  time_empty = do start ← m.clock; end ← m.clock; pure (elapsed start end)

  -- The measured loop, whose `REPEAT` is 1, and what is printed.
  unfoldable pub measure_sweep : Sweep → ℕ → Buffer → Partial W CacheTimes
  measure_sweep sweep loop_time b w =
      let start = m.clock w in
      elim (read_span (suc sweep.last) sweep.last sweep.skip b sweep.first 0) [
        | none ↦ none
        | some (reg, i) ↦
            let end = m.clock start.1 in
            let s = sample fresh (elapsed start.0 end.0) in
            some (
              record {
                sum = sub64 s.sum loop_time;
                iterations = sweep.counted i;
                min = sub64 s.min (loop_time / 1);
                max = sub64 s.max (loop_time / 1);
                helper = reg;
              },
              end.1,
            )
      ]

  -- One of the three functions.
  unfoldable pub cache_time : Sweep → Partial W CacheTimes
  cache_time sweep w =
      let empty = repeat kilo time_empty fresh w in
      elim (fill_passes sweep.passes 0 sweep.top (malloc total_size)) [
        | none ↦ none
        | some b ↦ measure_sweep sweep (empty.0.sum / kilo) b empty.1
      ]

  unfoldable pub print_l1_cache_time : Partial W CacheTimes
  print_l1_cache_time = cache_time l1_sweep

  unfoldable pub print_l2_cache_time : Partial W CacheTimes
  print_l2_cache_time = cache_time l2_sweep

  unfoldable pub print_l3_cache_time : Partial W CacheTimes
  print_l3_cache_time = cache_time l3_sweep

  unfoldable pub print_cache_time : Partial W (CacheTimes × CacheTimes × CacheTimes)
  print_cache_time =
      chain print_l1_cache_time
        (λ a. chain print_l2_cache_time (λ b. after print_l3_cache_time (λ c. pure (a, b, c))))
