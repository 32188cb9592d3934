-- ===== src/Bench/Loop.antt =====
-- The shape of a measuring loop: so many rounds, each of which yields a difference of two clock
-- readings that goes into the running minimum, maximum and sum.
use mathlib.Core.List.{Mem}
use cs739_distributed_system.Base.{
  ℕ, zero, suc, ◌/◌, ◌^◌, ◌≤◌, ◌<◌, ◌≡◌, refl, sym, ap, subst, List, [], ◌∷◌, arith, length, All, ℤ,
  State,
}
use cs739_distributed_system.Clock.{TimeSpec}
use cs739_distributed_system.Stats.{Stats, sample, samples, fresh}
use cs739_distributed_system.Stats.Laws.{total, samples-Summary, average-between}

-- What the program takes from the system and the libraries: `clock_gettime(CLOCK_REALTIME, ...)`,
-- the operations of a `mutex`, Snappy, which is a copy of another project,
-- `memcpy` between two buffers that nothing else reads, and files. `compress`
-- and `uncompress` return what they store in their last argument, `read_file` what `read` returns.
pub record Machine (W : Type 0) : Type 0 where
  pub clock : State W TimeSpec
  pub lock : State W (Unit {0})
  pub unlock : State W (Unit {0})
  pub compress : List ℕ → State W (List ℕ)
  pub uncompress : List ℕ → State W (List ℕ)
  pub memcpy : State W (Unit {0})
  pub open_file : State W ℤ
  pub read_file : ℤ → ℕ → State W ℤ
  pub close_file : ℤ → State W (Unit {0})
  pub cerr : State W (Unit {0})

-- What a loop prints: the average is `sum` divided by `rounds`, as a floating-point number.
pub record Printed : Type 0 where
  pub sum : ℕ
  pub rounds : ℕ
  pub min : ℕ
  pub max : ℕ

-- What is printed of a loop.
abbrev pub printed : ℕ → Stats → Printed
printed rounds s = record { sum = s.sum; rounds = rounds; min = s.min; max = s.max }

-- A printed line is sound for some measurements: the minimum and the maximum are among
-- them, and the least and the greatest of them, and the average lies between.
pub record IsSound (p : Printed) (xs : List ℕ) : Type 0 where
  pub all_counted : p.rounds ≡ length xs
  pub least : All (λ x. p.min ≤ x) xs
  pub most : All (λ x. x ≤ p.max) xs
  pub min_taken : Mem p.min xs
  pub max_taken : Mem p.max xs
  pub average_low : p.min ≤ p.sum / p.rounds
  pub average_high : p.sum / p.rounds ≤ p.max

samples-IsSound :
    (n x : ℕ) (rest : List ℕ)
    → length (x ∷ rest) ≡ n
    → total (x ∷ rest) < 2 ^ 64
    → IsSound (printed n (samples fresh (x ∷ rest))) (x ∷ rest)
samples-IsSound n x rest e small =
    let s = samples fresh (x ∷ rest) in
    let summary = samples-Summary x rest (omega arith) in
    let between = average-between x rest small in
    record {
      all_counted = sym e;
      least = summary.least;
      most = summary.most;
      min_taken = summary.min_taken;
      max_taken = summary.max_taken;
      average_low = subst (λ k. s.min ≤ s.sum / k) e between.0;
      average_high = subst (λ k. s.sum / k ≤ s.max) e between.1;
    }

module _ {W : Type 0} where
  -- `for (int repeat = 0; repeat < n; repeat++) { ...; sum += diff; ... }`
  unfoldable pub repeat : ℕ → State W ℕ → Stats → State W Stats
  repeat zero body s w = (s, w)
  repeat (suc n) body s w = let r = body w in repeat n body (sample s r.0) r.1

  -- The differences that the rounds yield, in order.
  unfoldable pub differences : ℕ → State W ℕ → W → List ℕ
  differences zero body w = []
  differences (suc n) body w = let r = body w in r.0 ∷ differences n body r.1

  repeat-samples :
      (n : ℕ) (body : State W ℕ) (s : Stats) (w : W)
      → (repeat n body s w).0 ≡ samples s (differences n body w)
  unfolding repeat differences samples
  repeat-samples zero body s w = refl
  repeat-samples (suc n) body s w = repeat-samples n body _ _

  length-differences : (n : ℕ) (body : State W ℕ) (w : W) → length (differences n body w) ≡ n
  unfolding differences
  length-differences zero body w = refl
  length-differences (suc n) body w = ap suc (length-differences n body _)

  -- A loop of at least one round whose differences add up to less than 2^64 prints a sound line.
  pub repeat-IsSound :
      (n : ℕ) (body : State W ℕ) (w : W)
      → total (differences (suc n) body w) < 2 ^ 64
      → IsSound (printed (suc n) (repeat (suc n) body fresh w).0) (differences (suc n) body w)
  unfolding differences
  repeat-IsSound n body w small = rw (repeat-samples (suc n) body fresh w) (
      samples-IsSound (suc n) _ (differences n body (body w).1) (length-differences (suc n) body w)
        small)
