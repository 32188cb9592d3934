-- ===== src/Cpu/Tests.antt =====
-- Sets of CPUs.
use cs739_distributed_system.Base.{
  ℕ, ◌≤◌, ◌<◌, ◌≡◌, refl, Bool, true, false, ◌||◌, some, ◌∷◌, arith, ◌==◌, length, pos,
}
use cs739_distributed_system.Tcp.Net.{faulted, value}
use cs739_distributed_system.Cpu.{cpu_setsize, get_cpu_core}
use cs739_distributed_system.Cpu.Affinity.{
  members, cpu_line, get_cpu_core-line, get_cpu_core-faulted,
}

-- A system that gives the CPUs 0 and 3.
abbrev pair_of_cpus : ℕ → Bool
pair_of_cpus j = (j == 0) || (j == 3)

pair_is_small : (i : ℕ) → 10 ≤ i → i < cpu_setsize → pair_of_cpus i ≡ false
pair_is_small i h k = ground arith

get_cpu_core-line_example :
    get_cpu_core {W = Unit {0}} (λ pid w. ((pos 0, pair_of_cpus), w)) 100 tt ≡ (
      value (
        pos 0,
        some (
          length (members pair_of_cpus cpu_setsize 0),
          b' ' ∷ cpu_line (members pair_of_cpus cpu_setsize 0),
        ),
      ),
      tt,
    )
get_cpu_core-line_example =
    get_cpu_core-line pair_of_cpus (λ pid w. ((pos 0, pair_of_cpus), w)) 100 tt tt refl
      pair_is_small

get_cpu_core-faulted_example :
    get_cpu_core {W = Unit {0}} (λ pid w. ((pos 0, λ j. true), w)) 100 tt ≡ (faulted, tt)
get_cpu_core-faulted_example =
    get_cpu_core-faulted (λ j. true) (λ pid w. ((pos 0, λ j. true), w)) 100 63 tt tt refl refl
      (omega arith) (omega arith)
