-- ===== src/Stats/Laws.antt =====
-- What the three variables hold after a run of measurements.
use mathlib.Core.List.{Mem, mem-cons_self, mem-cons_of_mem}
use cs739_distributed_system.Base.{
  ℕ, ◌+◌, ◌*◌, ◌/◌, ◌%◌, ◌^◌, ◌≤◌, ◌<◌, ◌≡◌, refl, sym, subst, ◌∙◌, ◌⊎◌, inl, inr, List, [], ◌∷◌,
  arith, length, All,
}
use cs739_distributed_system.Stats.{Stats, fresh, sample, samples}

-- The sum with no wrap-around.
abbrev pub total : List ℕ → ℕ
total [] = 0
total (x ∷ xs) = x + total xs

-- What `s` says of the measurements `xs`.
pub record Summary (s : Stats) (xs : List ℕ) : Type 0 where
  pub least : All (λ x. s.min ≤ x) xs
  pub most : All (λ x. x ≤ s.max) xs
  pub min_taken : Mem s.min xs
  pub max_taken : Mem s.max xs
  pub summed : s.sum ≡ total xs % 2 ^ 64

All-le_trans : {m n : ℕ} (xs : List ℕ) → m ≤ n → All (λ x. n ≤ x) xs → All (λ x. m ≤ x) xs
All-le_trans [] h a = tt
All-le_trans (x ∷ xs) h a = (omega arith, All-le_trans xs h a.1)

samples-min_le : (s : Stats) (xs : List ℕ) → (samples s xs).min ≤ s.min
unfolding samples sample
samples-min_le s [] = omega arith
samples-min_le s (x ∷ xs) = ground (arith, samples-min_le (sample s x) xs)

samples-le_max : (s : Stats) (xs : List ℕ) → s.max ≤ (samples s xs).max
unfolding samples sample
samples-le_max s [] = omega arith
samples-le_max s (x ∷ xs) = ground (arith, samples-le_max (sample s x) xs)

sample-min_le : (s : Stats) (x : ℕ) → (sample s x).min ≤ x
unfolding sample
sample-min_le s x = ground arith

sample-le_max : (s : Stats) (x : ℕ) → x ≤ (sample s x).max
unfolding sample
sample-le_max s x = ground arith

samples-least : (s : Stats) (xs : List ℕ) → All (λ x. (samples s xs).min ≤ x) xs
unfolding samples
samples-least s [] = tt
samples-least s (x ∷ xs) = (
  omega (arith, samples-min_le (sample s x) xs, sample-min_le s x),
  samples-least (sample s x) xs,
)

samples-most : (s : Stats) (xs : List ℕ) → All (λ x. x ≤ (samples s xs).max) xs
unfolding samples
samples-most s [] = tt
samples-most s (x ∷ xs) =
    (omega (arith, samples-le_max (sample s x) xs, sample-le_max s x), samples-most (sample s x) xs)

sample-min_cases : (s : Stats) (x : ℕ) → ((sample s x).min ≡ s.min) ⊎ ((sample s x).min ≡ x)
unfolding sample
sample-min_cases s x = ground arith

sample-max_cases : (s : Stats) (x : ℕ) → ((sample s x).max ≡ s.max) ⊎ ((sample s x).max ≡ x)
unfolding sample
sample-max_cases s x = ground arith

-- The minimum is one of the measurements, or the one from before.
samples-min_taken :
    (s : Stats) (xs : List ℕ) → ((samples s xs).min ≡ s.min) ⊎ Mem (samples s xs).min xs
unfolding samples
samples-min_taken s [] = inl refl
samples-min_taken s (x ∷ xs) = elim (samples-min_taken (sample s x) xs) [
  | inl e ↦ elim (sample-min_cases s x) [
    | inl old ↦ inl (e ∙ old)
    | inr new ↦ inr (subst (λ m. Mem m (x ∷ xs)) (sym (e ∙ new)) mem-cons_self)
  ]
  | inr m ↦ inr (mem-cons_of_mem x m)
]

samples-max_taken :
    (s : Stats) (xs : List ℕ) → ((samples s xs).max ≡ s.max) ⊎ Mem (samples s xs).max xs
unfolding samples
samples-max_taken s [] = inl refl
samples-max_taken s (x ∷ xs) = elim (samples-max_taken (sample s x) xs) [
  | inl e ↦ elim (sample-max_cases s x) [
    | inl old ↦ inl (e ∙ old)
    | inr new ↦ inr (subst (λ m. Mem m (x ∷ xs)) (sym (e ∙ new)) mem-cons_self)
  ]
  | inr m ↦ inr (mem-cons_of_mem x m)
]

sample-sum : (s : Stats) (x : ℕ) → (sample s x).sum ≡ (s.sum + x) % 2 ^ 64
unfolding sample
sample-sum s x = refl

samples-sum :
    (s : Stats) (xs : List ℕ) → s.sum < 2 ^ 64 → (samples s xs).sum ≡ (s.sum + total xs) % 2 ^ 64
unfolding samples
samples-sum s [] h = omega arith
samples-sum s (x ∷ xs) h =
    omega (arith, sample-sum s x, samples-sum (sample s x) xs (omega (arith, sample-sum s x)))

-- The first measurement replaces both initial values.
sample-fresh :
    (x : ℕ)
    → x < 2 ^ 64
    → ((sample fresh x).min ≡ x) × ((sample fresh x).max ≡ x) × ((sample fresh x).sum ≡ x)
unfolding sample
sample-fresh x h = ground arith

taken_of_cases : {v y x : ℕ} (xs : List ℕ) → y ≡ x → (v ≡ y) ⊎ Mem v xs → Mem v (x ∷ xs)
taken_of_cases {v} {x = x} xs e (inl p) = subst (λ m. Mem m (x ∷ xs)) (sym (p ∙ e)) mem-cons_self
taken_of_cases {x = x} xs e (inr m) = mem-cons_of_mem x m

-- After one or more measurements, each below 2^64, the variables hold the least of them, the
-- greatest of them, and their sum modulo 2^64.
pub samples-Summary : (x : ℕ) (xs : List ℕ) → x < 2 ^ 64 → Summary (samples fresh (x ∷ xs)) (x ∷ xs)
unfolding samples
samples-Summary x xs h = record {
  least = samples-least fresh (x ∷ xs);
  most = samples-most fresh (x ∷ xs);
  min_taken = taken_of_cases xs (sample-fresh x h).0 (samples-min_taken (sample fresh x) xs);
  max_taken = taken_of_cases xs (sample-fresh x h).1 (samples-max_taken (sample fresh x) xs);
  summed = omega (arith, samples-sum fresh (x ∷ xs) (omega arith));
}

total-bounds :
    (m n : ℕ) (xs : List ℕ)
    → All (λ x. m ≤ x) xs
    → All (λ x. x ≤ n) xs
    → (m * length xs ≤ total xs) × (total xs ≤ n * length xs)
total-bounds m n [] l u = omega arith
total-bounds m n (x ∷ xs) l u = omega (arith, total-bounds m n xs l.1 u.1)

div-between : (m n t k : ℕ) → 0 < k → m * k ≤ t → t ≤ n * k → (m ≤ t / k) × (t / k ≤ n)
div-between m n t k h l u = grind arith

-- If the measurements add up to less than 2^64, the average that is printed, the sum divided by
-- their number, lies between the printed minimum and the printed maximum.
pub average-between :
    (x : ℕ) (xs : List ℕ)
    → total (x ∷ xs) < 2 ^ 64
    → let s = samples fresh (x ∷ xs) in
      (s.min ≤ s.sum / length (x ∷ xs)) × (s.sum / length (x ∷ xs) ≤ s.max)
average-between x xs h =
    let s = samples fresh (x ∷ xs) in
    let bounds =
      total-bounds s.min s.max (x ∷ xs) (samples-least fresh (x ∷ xs))
        (samples-most fresh (x ∷ xs)) in
    let e : s.sum ≡ total (x ∷ xs) = omega (arith, samples-sum fresh (x ∷ xs) (omega arith)) in
    rw e
      (div-between s.min s.max (total (x ∷ xs)) (length (x ∷ xs)) (omega arith) bounds.0 bounds.1)
