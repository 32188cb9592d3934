-- ===== src/Bench/CacheSafe.antt =====
-- The cache measurements of HW1/part1/part1.cpp stay inside their buffer, read only bytes that
-- were written, and end; and what their averages divide by.
use cs739_distributed_system.Base.{
  ℕ, zero, suc, ◌+◌, ◌-◌, ◌*◌, ◌/◌, ◌%◌, ◌≤◌, ◌<◌, ◌≡◌, refl, sym, ap, subst, ◌∙◌, inl, inr, Option,
  some, arith, dec_lt, ltb, ◌==◌, ltb→lt, lt→ltb, Bool-cases,
}
use cs739_distributed_system.Clock.{kilo, sub64, elapsed}
use cs739_distributed_system.Stats.{sample, fresh}
use cs739_distributed_system.Bench.Loop.{Machine, repeat}
use cs739_distributed_system.Bench.Cache.{
  Buffer, malloc, update, store, load, add_char, Sweep, fill_down, fill_passes, read_span,
  CacheTimes, total_size, time_empty, measure_sweep, cache_time,
}

abbrev IsWritten : Buffer → ℕ → Type 0
IsWritten b i = (v : ℕ) × (b.cell i ≡ some v)

-- Every byte below `n` was written.
abbrev pub IsFilled : ℕ → Buffer → Type 0
IsFilled n b = (i : ℕ) → i < n → IsWritten b i

-- No byte is forgotten.
abbrev Keeps : Buffer → Buffer → Type 0
Keeps b b' = (i : ℕ) → IsWritten b i → IsWritten b' i

-- What filling up to `k` leads to.
record Filled (k : ℕ) (b : Buffer) (result : Option Buffer) : Type 0 where
  buffer : Buffer
  returned : result ≡ some buffer
  same_size : buffer.size ≡ b.size
  filled : IsFilled k buffer
  keeps : Keeps b buffer

update-IsWritten :
    (b : Buffer) (k v i : ℕ) → IsWritten b i → IsWritten (record b { cell = update b.cell k v }) i
update-IsWritten b k v i (u, e) = elim (Bool-cases (k == i)) [
  | inl same ↦ (v, rw same refl)
  | inr other ↦ (u, rw other e)
]

-- The fill loop does not fault inside the buffer.
fill_down-Filled : (k p : ℕ) (b : Buffer) → k ≤ b.size → Filled k b (fill_down k p b)
unfolding fill_down store
fill_down-Filled zero p b h = record {
  buffer = b;
  returned = refl;
  same_size = refl;
  filled = λ i lt. absurd (omega arith);
  keeps = λ i w. w;
}
fill_down-Filled (suc k) p b h =
    let v = (k + p) % 256 in
    let b1 : Buffer = record b { cell = update b.cell k v } in
    let rest = fill_down-Filled k p b1 (omega arith) in
    record {
      buffer = rest.buffer;
      returned = rw (lt→ltb k b.size h, fill_down) rest.returned;
      same_size = rest.same_size;
      filled = λ i lt. elim (dec_lt i k) [
        | yes below ↦ rest.filled i below
        | no last ↦
            let e : k ≡ i = omega arith in
            subst (IsWritten rest.buffer) e (rest.keeps k (v, ground arith))
      ];
      keeps = λ i w. rest.keeps i (update-IsWritten b k v i w);
    }

fill_passes-Filled :
    (n p top : ℕ) (b : Buffer) → top ≤ b.size → Filled top b (fill_passes (suc n) p top b)
unfolding fill_passes
fill_passes-Filled zero p top b h =
    let once = fill_down-Filled top p b h in
    record {
      buffer = once.buffer;
      returned = rw (once.returned, fill_passes) refl;
      same_size = once.same_size;
      filled = once.filled;
      keeps = once.keeps;
    }
fill_passes-Filled (suc n) p top b h =
    let once = fill_down-Filled top p b h in
    let rest = fill_passes-Filled n (p + 1) top once.buffer (omega (arith, once.same_size)) in
    record {
      buffer = rest.buffer;
      returned = rw (once.returned, fill_passes) rest.returned;
      same_size = rest.same_size ∙ once.same_size;
      filled = rest.filled;
      keeps = λ i w. rest.keeps i (once.keeps i w);
    }

-- So many bytes were loaded and added up, from `i` on in steps of `skip`.
pub data Reads (b : Buffer) (skip : ℕ) : ℕ → ℕ → ℕ → ℕ → Type 0 where
  no_more : {i reg : ℕ} → Reads b skip zero i reg reg
  one_more :
      {n i v reg reg' : ℕ}
      → load b i ≡ some v
      → Reads b skip n (i + skip) (add_char reg v) reg'
      → Reads b skip (suc n) i reg reg'

-- The reading loop does not fault on written bytes, and ends with `i` at the first multiple of the
-- step, counted from where it began, that is not below `last`: after `k` reads.
read_span-returns :
    (fuel last skip i reg : ℕ) (b : Buffer)
    → 0 < fuel
    → 0 < skip
    → last < i + fuel
    → last ≤ b.size
    → i < last + skip
    → IsFilled last b
    → (k : ℕ) × (r : ℕ) × (read_span fuel last skip b i reg ≡ some (r, i + k * skip))
      × Reads b skip k i reg r
      × (last ≤ i + k * skip)
      × (i + k * skip < last + skip)
unfolding read_span
read_span-returns zero last skip i reg b some_fuel s enough size near filled = absurd (omega arith)
read_span-returns (suc fuel) last skip i reg b some_fuel s enough size near filled =
    elim (Bool-cases (ltb i last)) [
      | inl e ↦
          let lt = ltb→lt i last e in
          let (v, written) = filled i lt in
          let loaded : load b i ≡ some v =
            unfold load in rw (lt→ltb i b.size (omega arith)) written in
          let (k, r, returned, reads, low, high) =
            read_span-returns fuel last skip (i + skip) (add_char reg v) b (omega arith) s
              (omega arith) size (omega arith) filled in
          let same : i + skip + k * skip ≡ i + suc k * skip = omega arith in
          (
            suc k,
            r,
            rw (e, loaded, read_span) (returned ∙ ap (λ j. some (r, j)) same),
            one_more loaded reads,
            omega arith,
            omega arith,
          )
      | inr e ↦
          let same : i ≡ i + 0 * skip = omega arith in
          (
            0,
            reg,
            rw (e, read_span) (ap (λ j. some (reg, j)) same),
            no_more,
            ground arith,
            omega arith,
          )
    ]

-- A sweep inside a buffer of `total_size` bytes that reads only what it has written.
pub record IsSafe (sweep : Sweep) : Type 0 where
  pub moves : 0 < sweep.skip
  pub begins : sweep.first ≤ sweep.last
  pub fills : 0 < sweep.passes
  pub reads_filled : sweep.last ≤ sweep.top
  pub inside : sweep.top ≤ total_size

module _ {W : Type 0} (m : Machine W) where
  -- What a safe sweep prints: `buffer` is what the fill loops leave, `reads` is the number of the
  -- loads from it that are timed, and `helper` is what they add up to.
  pub record Swept (sweep : Sweep) (result : Option (CacheTimes × W)) : Type 0 where
    pub buffer : Buffer
    pub filled : fill_passes sweep.passes 0 sweep.top (malloc total_size) ≡ some buffer
    pub reads : ℕ
    pub printed : CacheTimes
    pub world : W
    pub returned : result ≡ some (printed, world)
    pub low : sweep.last ≤ sweep.first + reads * sweep.skip
    pub high : sweep.first + reads * sweep.skip < sweep.last + sweep.skip
    pub read_them : Reads buffer sweep.skip reads sweep.first 0 printed.helper
    pub divisor : printed.iterations ≡ sweep.counted (sweep.first + reads * sweep.skip)

  measure_sweep-Swept :
      (sweep : Sweep) (loop_time : ℕ) (b : Buffer) (w : W)
      → IsSafe sweep
      → sweep.last ≤ b.size
      → IsFilled sweep.last b
      → fill_passes sweep.passes 0 sweep.top (malloc total_size) ≡ some b
      → Swept sweep (measure_sweep m sweep loop_time b w)
  unfolding measure_sweep
  measure_sweep-Swept sweep loop_time b w safe size filled made =
      let (k, r, e, read_them, low, high) =
        read_span-returns (suc sweep.last) sweep.last sweep.skip sweep.first 0 b (omega arith)
          safe.moves (omega arith) size (omega (arith, safe.moves, safe.begins)) filled in
      let start = m.clock w in
      let end = m.clock start.1 in
      let s = sample fresh (elapsed start.0 end.0) in
      record {
        buffer = b;
        filled = made;
        reads = k;
        printed = record {
          sum = sub64 s.sum loop_time;
          iterations = sweep.counted (sweep.first + k * sweep.skip);
          min = sub64 s.min (loop_time / 1);
          max = sub64 s.max (loop_time / 1);
          helper = r;
        };
        world = end.1;
        returned = rw (e, measure_sweep) refl;
        low = low;
        high = high;
        read_them = read_them;
        divisor = refl;
      }

  -- The measurement of a safe sweep, for any machine: it does not leave the buffer nor read a byte
  -- that was not written, it ends, and the reads that it times go from `first` to `last`.
  pub cache_time-Swept : (sweep : Sweep) (w : W) → IsSafe sweep → Swept sweep (cache_time m sweep w)
  unfolding cache_time
  cache_time-Swept sweep w safe =
      let passes : suc (sweep.passes - 1) ≡ sweep.passes = omega (arith, safe.fills) in
      let f =
        subst
          (λ n.
            Filled sweep.top (malloc total_size) (fill_passes n 0 sweep.top (malloc total_size)))
          passes
          (fill_passes-Filled (sweep.passes - 1) 0 sweep.top (malloc total_size) safe.inside) in
      let empty = repeat kilo (time_empty m) fresh w in
      let rest =
        measure_sweep-Swept sweep (empty.0.sum / kilo) f.buffer empty.1 safe
          (subst (λ n. sweep.last ≤ n) (sym f.same_size)
            (omega (arith, safe.reads_filled, safe.inside)))
          (λ i lt. f.filled i (omega (arith, safe.reads_filled))) f.returned in
      record {
        buffer = rest.buffer;
        filled = rest.filled;
        reads = rest.reads;
        printed = rest.printed;
        world = rest.world;
        returned = rw (f.returned, cache_time) rest.returned;
        low = rest.low;
        high = rest.high;
        read_them = rest.read_them;
        divisor = rest.divisor;
      }
