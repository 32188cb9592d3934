-- ===== src/Cpu.antt =====
-- `get_cpu_core` of HW1/part1/Generic.h and of HW1/part2/Generic.h, which have one text. The text
-- that is printed is returned, without the process number; `sched_getaffinity` is a parameter.
pub mod Affinity
mod Tests
use cs739_distributed_system.Base.{
  ℕ, zero, suc, ◌+◌, ◌-◌, ◌*◌, ◌/◌, ◌%◌, ◌^◌, ◌≤◌, ◌<◌, min, max, ◌≡◌, refl, sym, ap, subst, ◌∙◌,
  ◌≢◌, ◌↔◌, ◌⊎◌, inl, inr, Bool, true, false, not, ◌&&◌, ◌||◌, Option, none, some, List, [], ◌∷◌,
  ◌++◌, map, append_assoc, append-nil, arith, dec_lt, ℕ_discrete, ltb, leb, ◌==◌, if◌then◌else◌,
  ltb→lt, lt→ltb, le→ltb, Bool-cases, Option-cases, length, take, drop, replicate, All,
  length-append, take-append-drop, length-take, length-drop, length-replicate, take_all, take-add,
  All-mono, ℤ, pos, negsuc, minus_one, is_neg, of_bool, to_u32, IsInt, to_u32-lt, State, Partial,
  ◌>>=◌, ◌>>◌, pure, finish, after, after-eq-some, Yields, Yields-chain, Yields-after, Yields-some,
  Allows, Allows-chain, Allows-after, chain-eq-some, chain_of_some, after_of_some, some-injective,
  chain,
}
use cs739_distributed_system.Tcp.Net.{Outcome, exited, faulted, value}

-- `CPU_SETSIZE`.
abbrev pub cpu_setsize : ℕ
cpu_setsize = 1024

-- The digits of a number before some bytes. A number has at most as many digits as its value and
-- one, so that the counter does not run out.
unfoldable pub digits : ℕ → ℕ → List ℕ → List ℕ
digits zero n bytes = bytes
digits (suc more) n bytes =
    let rest = digits more (n / 10) ((b'0' + n % 10) ∷ bytes) in
    if ltb n 10 then (b'0' + n) ∷ bytes else rest

-- `sprintf(cpunum, "%d ", j)`, without the final NUL.
unfoldable pub cpu_text : ℕ → List ℕ
unfolding digits
cpu_text j = digits (suc j) j (b' ' ∷ [])

-- A round of the loop, on `count` and `str`. The text and its NUL have to fit into the three bytes
-- of `cpunum`, and the line into the eighty bytes of `str`.
unfoldable pub add_cpu : (ℕ → Bool) → ℕ → ℕ × List ℕ → Outcome (ℕ × List ℕ)
add_cpu my_set j (count, str) =
    if not (my_set j)
    then value (count, str)
    else if ltb 3 (length (cpu_text j) + 1)
    then faulted
    else if ltb 80 (length str + length (cpu_text j) + 1)
    then faulted
    else value (count + 1, str ++ cpu_text j)

-- So many rounds, from `j` on.
unfoldable pub add_cpus : (ℕ → Bool) → ℕ → ℕ → ℕ × List ℕ → Outcome (ℕ × List ℕ)
add_cpus my_set zero j r = value r
add_cpus my_set (suc n) j r = elim (add_cpu my_set j r) [
  | exited status ↦ exited status
  | faulted ↦ faulted
  | value r' ↦ add_cpus my_set n (j + 1) r'
]

-- The line is printed, and the result of `sched_getaffinity`, which is 0, returned.
unfoldable pub print_cpus : Outcome (ℕ × List ℕ) → Outcome (ℤ × Option (ℕ × List ℕ))
print_cpus (exited status) = exited status
print_cpus faulted = faulted
print_cpus (value r) = value (pos 0, some r)

-- What `get_cpu_core` does with the result of `sched_getaffinity`: it prints the number of CPUs and
-- the list of them when the result is 0.
unfoldable pub report_cpus : ℤ × (ℕ → Bool) → Outcome (ℤ × Option (ℕ × List ℕ))
report_cpus (pos zero, my_set) = print_cpus (add_cpus my_set cpu_setsize 0 (0, b' ' ∷ []))
report_cpus (pos (suc k), my_set) = value (pos (suc k), none)
report_cpus (negsuc k, my_set) = value (negsuc k, none)

-- `get_cpu_core(pid)`.
unfoldable pub get_cpu_core :
    {W : Type 0} → (ℕ → State W (ℤ × (ℕ → Bool))) → ℕ → State W (Outcome (ℤ × Option (ℕ × List ℕ)))
get_cpu_core sched_getaffinity pid = do r ← sched_getaffinity pid; pure (report_cpus r)
