-- ===== src/Bench/Counts.antt =====
-- What the loops of HW1/part1/part1.cpp count: rounds, errors, and the use of the mutex.
use cs739_distributed_system.Base.{
  ℕ, zero, suc, ◌+◌, ◌*◌, ◌%◌, ◌^◌, ◌≤◌, ◌<◌, ◌≡◌, refl, sym, ap, subst, ◌∙◌, inl, inr, true, some,
  List, [], ◌∷◌, arith, ltb, ltb→lt, Bool-cases, length, All, State, after_of_some,
}
use cs739_distributed_system.Clock.{million, kilo, elapsed}
use cs739_distributed_system.Stats.{Stats, sample, fresh}
use cs739_distributed_system.Bench.Loop.{Machine, Printed, repeat}
use cs739_distributed_system.Bench.Timed.{
  printable, compress_input, same_bytes, Checked, time_lock, print_mutex_lock_time, time_unlock,
  print_mutex_unlock_time, repeat_compress, time_uncompress, repeat_uncompress,
  print_compress_uncompress_data, MemoryLoop, memory_loop, memory_size, memory_skip,
  print_main_mem_reference_time,
}

-- A mutex that notices a `lock` by its owner and an `unlock` by somebody else, both of which are
-- undefined.
pub data Mutex : Type 0 where
  free held misused : Mutex

abbrev pub locked : Mutex → Mutex
locked free = held
locked _ = misused

abbrev pub unlocked : Mutex → Mutex
unlocked held = free
unlocked _ = misused

-- Any machine, with such a mutex.
abbrev pub guarded : {W : Type 0} → Machine W → Machine (W × Mutex)
guarded m = record {
  clock = λ (w, x). let r = m.clock w in (r.0, (r.1, x));
  lock = λ (w, x). let r = m.lock w in (r.0, (r.1, locked x));
  unlock = λ (w, x). let r = m.unlock w in (r.0, (r.1, unlocked x));
  compress = λ input (w, x). let r = m.compress input w in (r.0, (r.1, x));
  uncompress = λ input (w, x). let r = m.uncompress input w in (r.0, (r.1, x));
  memcpy = λ (w, x). let r = m.memcpy w in (r.0, (r.1, x));
  open_file = λ (w, x). let r = m.open_file w in (r.0, (r.1, x));
  read_file = λ fd size (w, x). let r = m.read_file fd size w in (r.0, (r.1, x));
  close_file = λ fd (w, x). let r = m.close_file fd w in (r.0, (r.1, x));
  cerr = λ (w, x). let r = m.cerr w in (r.0, (r.1, x));
}

module _ {W : Type 0} (m : Machine W) where
  repeat_free :
      (n : ℕ) (body : State (W × Mutex) ℕ) (s : Stats) (w : W)
      → ((v : W) → (body (v, free)).1.1 ≡ free)
      → (repeat n body s (w, free)).1.1 ≡ free
  unfolding repeat
  repeat_free zero body s w keep = refl
  repeat_free (suc n) body s w keep =
      let r = body (w, free) in
      let again = repeat_free n body (sample s r.0) r.1.0 keep in
      subst (λ x. (repeat n body (sample s r.0) (r.1.0, x)).1.1 ≡ free) (sym (keep w)) again

  -- Both mutex measurements take the lock only when it is free, release it only when it is held,
  -- and leave it free.
  pub mutex_measurements_free :
      (w : W)
      → ((print_mutex_lock_time (guarded m) (w, free)).1.1 ≡ free)
        × ((print_mutex_unlock_time (guarded m) (w, free)).1.1 ≡ free)
  unfolding print_mutex_lock_time print_mutex_unlock_time
  mutex_measurements_free w = (
    repeat_free million (time_lock (guarded m)) fresh w (λ v. unfold time_lock in refl),
    repeat_free million (time_unlock (guarded m)) fresh w (λ v. unfold time_unlock in refl),
  )

pub same_bytes_refl : (xs : List ℕ) → same_bytes xs xs ≡ true
unfolding same_bytes
same_bytes_refl [] = refl
same_bytes_refl (x ∷ xs) = ground (arith, same_bytes_refl xs)

pub same_bytes→eq : (xs ys : List ℕ) → same_bytes xs ys ≡ true → xs ≡ ys
unfolding same_bytes
same_bytes→eq [] [] h = refl
same_bytes→eq [] (y ∷ ys) h = cc
same_bytes→eq (x ∷ xs) [] h = cc
same_bytes→eq (x ∷ xs) (y ∷ ys) h = ground (arith, same_bytes→eq xs ys)

-- The input that is compressed has 1024 bytes, the printable characters of ASCII.
pub printable-All :
    (n i : ℕ) → (length (printable n i) ≡ n) × All (λ b. (32 ≤ b) × (b ≤ 126)) (printable n i)
unfolding printable
printable-All zero i = (refl, tt)
printable-All (suc n) i =
    let rest = printable-All n (i + 1) in (ap suc rest.0, ((omega arith, omega arith), rest.1))

module _ {W : Type 0} (m : Machine W) where
  time_uncompress-counts :
      (input output : List ℕ) (c : Checked) (w : W)
      → let r = (time_uncompress m input output c w).0 in r.iter + r.errors ≡ c.iter + c.errors + 1
  unfolding time_uncompress
  time_uncompress-counts input output c w = ground arith

  time_uncompress-errors :
      (input output : List ℕ) (c : Checked) (w : W)
      → ((v : W) → (m.uncompress output v).0 ≡ input)
      → (time_uncompress m input output c w).0.errors ≡ c.errors
  unfolding time_uncompress
  time_uncompress-errors input output c w back = rw (back (m.clock w).1, same_bytes_refl input) refl

  -- Each round of the second Snappy loop either measures or reports an error.
  repeat_uncompress-counts :
      (n : ℕ) (input output : List ℕ) (c : Checked) (w : W)
      → let r = (repeat_uncompress m n input output c w).0 in
        r.iter + r.errors ≡ c.iter + c.errors + n
  unfolding repeat_uncompress
  repeat_uncompress-counts zero input output c w = omega arith
  repeat_uncompress-counts (suc n) input output c w =
      let r = time_uncompress m input output c w in
      omega (
        arith,
        time_uncompress-counts input output c w,
        repeat_uncompress-counts n input output r.0 r.1,
      )

  repeat_uncompress-errors :
      (n : ℕ) (input output : List ℕ) (c : Checked) (w : W)
      → ((v : W) → (m.uncompress output v).0 ≡ input)
      → (repeat_uncompress m n input output c w).0.errors ≡ c.errors
  unfolding repeat_uncompress
  repeat_uncompress-errors zero input output c w back = refl
  repeat_uncompress-errors (suc n) input output c w back =
      let r = time_uncompress m input output c w in
      repeat_uncompress-errors n input output r.0 r.1 back
      ∙ time_uncompress-errors input output c w back

  repeat_compress-stored :
      (n : ℕ) (input output : List ℕ) (s : Stats) (w : W)
      → (v : W) × ((repeat_compress m (suc n) input output s w).0.0 ≡ (m.compress input v).0)
  unfolding repeat_compress
  repeat_compress-stored zero input output s w = ((m.clock w).1, refl)
  repeat_compress-stored (suc n) input output s w =
      let start = m.clock w in
      let stored = m.compress input start.1 in
      let end = m.clock stored.1 in
      repeat_compress-stored n input stored.0 (sample s (elapsed start.0 end.0)) end.1

  -- The rounds of the memory loop cover the array in steps of `skip`, and no more.
  memory_loop-iterations :
      (rounds n skip i : ℕ) (l : MemoryLoop) (w : W)
      → 0 < skip
      → n < i + rounds
      → 0 < rounds
      → i < n + skip
      → (k : ℕ) × (l' : MemoryLoop) × (v : W) × (memory_loop m rounds n skip i l w ≡ some (l', v))
        × (l'.iterations ≡ l.iterations + k)
        × (n ≤ i + k * skip)
        × (i + k * skip < n + skip)
  unfolding memory_loop
  memory_loop-iterations zero n skip i l w pos_skip enough some_fuel near = absurd (omega arith)
  memory_loop-iterations (suc rounds) n skip i l w pos_skip enough some_fuel near =
      elim (Bool-cases (ltb i n)) [
        | inl e ↦
            let lt = ltb→lt i n e in
            let start = m.clock w in
            let end = m.clock start.1 in
            let (k, l', v, returned, counted, low, high) =
              memory_loop-iterations rounds n skip (i + skip)
                (record {
                  iterations = l.iterations + 1;
                  helper = (l.helper + i) % 2 ^ 32;
                  stats = sample l.stats (elapsed start.0 end.0);
                })
                end.1 pos_skip (omega arith) (omega arith) (omega arith) in
            (
              suc k,
              l',
              v,
              rw (e, memory_loop) returned,
              omega (arith, counted),
              omega arith,
              omega arith,
            )
        | inr e ↦ (0, l, w, rw (e, memory_loop) refl, omega arith, ground arith, omega arith)
      ]

  -- Every round of the second Snappy loop either counts for its average or prints an error,
  -- whatever Snappy does.
  snappy_rounds :
      (w : W) → let r = (print_compress_uncompress_data m w).0 in r.1.rounds + r.2 ≡ kilo
  unfolding print_compress_uncompress_data
  snappy_rounds w =
      let c = repeat_compress m kilo compress_input [] fresh w in
      omega (
        arith,
        repeat_uncompress-counts kilo compress_input c.0.0
            (record { stats = fresh; iter = 0; errors = 0 }) c.1,
      )

  -- If Snappy undoes its own compression of the input, no error is printed, and all of the 1000
  -- rounds count.
  snappy_no_errors :
      (w : W)
      → ((v v' : W) → (m.uncompress (m.compress compress_input v).0 v').0 ≡ compress_input)
      → let r = (print_compress_uncompress_data m w).0 in (r.2 ≡ 0) × (r.1.rounds ≡ kilo)
  unfolding print_compress_uncompress_data
  snappy_no_errors w inverse =
      let c = repeat_compress m kilo compress_input [] fresh w in
      let start : Checked = record { stats = fresh; iter = 0; errors = 0 } in
      let (v, stored) = repeat_compress-stored 999 compress_input [] fresh w in
      let none_wrong =
        repeat_uncompress-errors kilo compress_input c.0.0 start c.1
          (λ v'. rw stored (inverse v v')) in
      (
        none_wrong,
        omega (arith, repeat_uncompress-counts kilo compress_input c.0.0 start c.1, none_wrong),
      )

  -- The memory measurement ends, and its average divides by the 1024 rounds of its loop.
  pub memory_iterations :
      (w : W)
      → (r : Printed × ℕ) × (v : W) × (print_main_mem_reference_time m w ≡ some (r, v))
        × (r.0.rounds ≡ 1024)
  unfolding print_main_mem_reference_time
  memory_iterations w =
      let zero_loop : MemoryLoop = record { iterations = 0; helper = 0; stats = fresh } in
      let fuel = memory_size + 1 in
      let (k, l, v, returned, counted, low, high) =
        memory_loop-iterations fuel memory_size memory_skip 0 zero_loop w (omega arith)
          (omega arith) (omega arith) (omega arith) in
      (
        _,
        v,
        after_of_some (memory_loop m fuel memory_size memory_skip 0 zero_loop) _ w v l returned,
        omega (arith, counted),
      )
