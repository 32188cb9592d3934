-- ===== src/Tcp/Net.antt =====
-- What the programs over TCP take from the system, how they end, and `set_cpu_core` of
-- HW1/part1/Generic.h.
use Prim.Native.String.{String}
use cs739_distributed_system.Base.{
  ℕ, ◌*◌, ◌≡◌, Bool, Option, some, List, ◌==◌, if◌then◌else◌, ℤ, is_neg, State, Partial,
  chain_of_some, chain,
}
use cs739_distributed_system.Clock.{TimeSpec}
use cs739_distributed_system.Transfer.{Stream}
use cs739_distributed_system.Udp.Net.{SockAddr}

-- The system and the C library. `gethostbyaddr` returns the addresses of the host, if it knows one.
pub record TcpNet (W : Type 0) : Type 0 where
  pub socket : ℕ → ℕ → ℕ → State W ℤ
  pub set_nodelay : ℤ → ℕ → State W ℤ
  pub bind : ℤ → SockAddr → State W ℤ
  pub listen : ℤ → ℕ → State W ℤ
  pub accept : ℤ → State W ℤ
  pub connect : ℤ → SockAddr → State W ℤ
  pub close : ℤ → State W ℤ
  pub stream : Stream W
  pub clock_gettime : State W TimeSpec
  pub getpid : State W ℕ
  pub sched_setaffinity : ℕ → (ℕ → Bool) → State W ℤ
  pub gethostbyaddr : ℕ → State W (Option ℕ)
  pub inet_aton : String → Option ℕ
  pub htonl : ℕ → ℕ
  pub atoi : List ℕ → ℤ
  pub perror : String → State W (Unit {0})

abbrev pub sock_stream : ℕ
sock_stream = 1

-- How a program ends, or a part of it: by `exit(status)`, by leaving a buffer, or with a value.
pub data Outcome (A : Type 0) : Type 0 where
  exited : ℕ → Outcome A
  faulted : Outcome A
  value : A → Outcome A

module _ {W A B : Type 0} where
  -- What follows a part that ended with a value.
  unfoldable pub then_value : (A → Partial W (Outcome B)) → Outcome A → Partial W (Outcome B)
  then_value next (exited status) w = some (exited status, w)
  then_value next faulted w = some (faulted, w)
  then_value next (value a) w = next a w

  -- A part that may leave a buffer, and what follows it.
  unfoldable pub chain_value :
      Partial W (Outcome A) → (A → Partial W (Outcome B)) → Partial W (Outcome B)
  chain_value m next w = chain m (then_value next) w

  pub chain_value_of_some :
      (m : Partial W (Outcome A)) (next : A → Partial W (Outcome B)) (w v : W) (a : A)
      → m w ≡ some (value a, v)
      → chain_value m next w ≡ next a v
  unfolding chain_value then_value
  chain_value_of_some m next w v a e = chain_of_some m (then_value next) w v (value a) e

-- `BUFF_SIZE`.
abbrev pub buff_size : ℕ
buff_size = 1024 * 1024

-- `NUM_TRIALS`.
abbrev pub num_trials : ℕ
num_trials = 2000

module _ {W : Type 0} (net : TcpNet W) where
  -- `if (err < 0) { socketperror(message, ...); exit(1); }`, and what follows.
  abbrev pub or_exit : {A : Type 0} → ℤ → String → State W (Outcome A) → State W (Outcome A)
  or_exit err message next w = if is_neg err then (exited 1, (net.perror message w).1) else next w

  -- `set_cpu_core(pid, core_num)`: the set has one element.
  unfoldable pub set_cpu_core : ℕ → ℕ → State W ℤ
  set_cpu_core pid core_num = net.sched_setaffinity pid (λ cpu. cpu == core_num)
