-- ===== src/Bench/Timed.antt =====
-- The measurements of a mutex, of Snappy, of main memory, of `memcpy` and of a file in
-- HW1/part1/part1.cpp.
use cs739_distributed_system.Base.{
  ℕ, zero, suc, ◌+◌, ◌*◌, ◌/◌, ◌%◌, ◌^◌, Bool, true, false, not, ◌&&◌, none, some, List, [], ◌∷◌,
  ltb, ◌==◌, if◌then◌else◌, ℤ, pos, negsuc, State, Partial, ◌>>=◌, ◌>>◌, pure, after,
}
use cs739_distributed_system.Clock.{million, kilo, elapsed}
use cs739_distributed_system.Stats.{Stats, sample, fresh}
use cs739_distributed_system.Bench.Loop.{Machine, Printed, printed, repeat}

abbrev pub one_mb : ℕ
one_mb = 1024 * 1024

-- `input` of `print_compress_uncompress_data`: the letter, and 1023 bytes from the printable ones
-- in turn; the number of bytes left and the index of the next.
unfoldable pub printable : ℕ → ℕ → List ℕ
printable zero i = []
printable (suc n) i = (b' ' + i % 95) ∷ printable n (i + 1)

abbrev pub compress_input : List ℕ
compress_input = b'a' ∷ printable 1023 0

-- Equality of two strings.
unfoldable pub same_bytes : List ℕ → List ℕ → Bool
same_bytes [] [] = true
same_bytes [] (y ∷ ys) = false
same_bytes (x ∷ xs) [] = false
same_bytes (x ∷ xs) (y ∷ ys) = x == y && same_bytes xs ys

-- The variables of the second loop of `print_compress_uncompress_data`; `errors` counts the lines
-- that it prints on `cout`.
pub record Checked : Type 0 where
  pub stats : Stats
  pub iter : ℕ
  pub errors : ℕ

-- `ret < 0 && ret != _1_mb`.
unfoldable pub is_reported : ℤ → Bool
is_reported (pos n) = false && not (n == one_mb)
is_reported (negsuc n) = true && true

-- The variables of the loop of `print_main_mem_reference_time`.
pub record MemoryLoop : Type 0 where
  pub iterations : ℕ
  pub helper : ℕ
  pub stats : Stats

abbrev pub memory_size : ℕ
memory_size = one_mb * 1024 / 8

abbrev pub memory_skip : ℕ
memory_skip = one_mb / 8

module _ {W : Type 0} (m : Machine W) where
  -- `print_mutex_lock_time`: the call of `unlock` comes after the second reading.
  unfoldable pub time_lock : State W ℕ
  time_lock = do start ← m.clock; m.lock; end ← m.clock; m.unlock; pure (elapsed start end)

  unfoldable pub print_mutex_lock_time : State W Printed
  print_mutex_lock_time = do s ← repeat million time_lock fresh; pure (printed million s)

  -- `print_mutex_unlock_time`: the call of `lock` comes before the first reading.
  unfoldable pub time_unlock : State W ℕ
  time_unlock = do m.lock; start ← m.clock; m.unlock; end ← m.clock; pure (elapsed start end)

  unfoldable pub print_mutex_unlock_time : State W Printed
  print_mutex_unlock_time = do s ← repeat million time_unlock fresh; pure (printed million s)

  -- The first loop of `print_compress_uncompress_data`: `output` keeps what its last round stored.
  unfoldable pub repeat_compress : ℕ → List ℕ → List ℕ → Stats → State W (List ℕ × Stats)
  repeat_compress zero input output s w = ((output, s), w)
  repeat_compress (suc n) input output s w =
      let start = m.clock w in
      let stored = m.compress input start.1 in
      let end = m.clock stored.1 in
      repeat_compress n input stored.0 (sample s (elapsed start.0 end.0)) end.1

  -- A round of its second loop, on the compressed bytes that are left from the first one: a
  -- difference counts only if the input came back.
  unfoldable pub time_uncompress : List ℕ → List ℕ → Checked → State W Checked
  time_uncompress input output c = do
    start ← m.clock
    output_uncom ← m.uncompress output
    end ← m.clock
    if same_bytes input output_uncom
        then pure (record c { stats = sample c.stats (elapsed start end); iter = c.iter + 1 })
        else pure (record c { errors = c.errors + 1 })

  unfoldable pub repeat_uncompress : ℕ → List ℕ → List ℕ → Checked → State W Checked
  repeat_uncompress zero input output c w = (c, w)
  repeat_uncompress (suc n) input output c w =
      let r = time_uncompress input output c w in repeat_uncompress n input output r.0 r.1

  -- The two lines that are printed, and the number of errors.
  unfoldable pub print_compress_uncompress_data : State W (Printed × Printed × ℕ)
  print_compress_uncompress_data = do
    (output, s) ← repeat_compress kilo compress_input [] fresh
    c ←
        repeat_uncompress kilo compress_input output
          (record { stats = fresh; iter = 0; errors = 0 })
    pure (printed kilo s, printed c.iter c.stats, c.errors)

  -- A round of `read_1mb_from_memory`.
  unfoldable pub time_copy : State W ℕ
  time_copy = do start ← m.clock; m.memcpy; end ← m.clock; pure (elapsed start end)

  unfoldable pub read_1mb_from_memory : State W Printed
  read_1mb_from_memory = do s ← repeat kilo time_copy fresh; pure (printed kilo s)

  -- A round of `read_1mb_from_disk`: it opens the file, reads once, and closes it. What `open`
  -- returns is not looked at.
  unfoldable pub time_read : State W ℕ
  unfolding is_reported
  time_read = do
    read_fd ← m.open_file
    start ← m.clock
    ret ← m.read_file read_fd one_mb
    end ← m.clock
    if is_reported ret then m.cerr else pure tt
    m.close_file read_fd
    pure (elapsed start end)

  unfoldable pub read_1mb_from_disk : State W Printed
  read_1mb_from_disk = do s ← repeat 10 time_read fresh; pure (printed 10 s)

  -- The second loop of `print_main_mem_reference_time`, from index `i` on, for less than so many
  -- rounds; the element at `i` is `i`, which the first loop stored, and `helper` is an `int`, kept
  -- by its 32 bits.
  unfoldable pub memory_loop : ℕ → ℕ → ℕ → ℕ → MemoryLoop → Partial W MemoryLoop
  memory_loop zero n skip i l w = none
  memory_loop (suc rounds) n skip i l w = elim (ltb i n) [
    | false ↦ some (l, w)
    | true ↦
        let start = m.clock w in
        let end = m.clock start.1 in
        memory_loop rounds n skip (i + skip)
          (record {
            iterations = l.iterations + 1;
            helper = (l.helper + i) % 2 ^ 32;
            stats = sample l.stats (elapsed start.0 end.0);
          })
          end.1
  ]

  -- 1 GB of `uint64`, and a step of 1 MB. The fuel is one more than the number of elements.
  unfoldable pub print_main_mem_reference_time : Partial W (Printed × ℕ)
  print_main_mem_reference_time =
      after
        (memory_loop (memory_size + 1) memory_size memory_skip 0
          (record { iterations = 0; helper = 0; stats = fresh }))
        (λ l. pure (printed l.iterations l.stats, l.helper))
