-- ===== src/Driver/Budget.antt =====
-- How many acknowledgements SocketServer.cpp needs to end, and how many datagrams
-- SocketClient.cpp of HW1/part2 sends: on any systems, by counting.
pub mod Writes
pub mod Server
pub mod Client
mod Tests
use Prim.Native.String.{String}
use cs739_distributed_system.Base.{
  ℕ, zero, suc, ◌+◌, ◌-◌, ◌*◌, ◌/◌, ◌%◌, ◌^◌, ◌≤◌, ◌<◌, min, max, ◌≡◌, refl, sym, ap, subst, ◌∙◌,
  ◌≢◌, ◌↔◌, ◌⊎◌, inl, inr, Bool, true, false, not, ◌&&◌, ◌||◌, Option, none, some, List, [], ◌∷◌,
  ◌++◌, map, append_assoc, append-nil, arith, dec_lt, ℕ_discrete, ltb, leb, ◌==◌, if◌then◌else◌,
  ltb→lt, lt→ltb, le→ltb, Bool-cases, Option-cases, length, take, drop, replicate, All,
  length-append, take-append-drop, length-take, length-drop, length-replicate, take_all, take-add,
  All-mono, ℤ, pos, negsuc, minus_one, is_neg, of_bool, to_u32, IsInt, to_u32-lt, State, Partial,
  ◌>>=◌, ◌>>◌, pure, finish, after, after-eq-some, Yields, Yields-chain, Yields-after, Yields-mono,
  Yields-some, Allows, Allows-chain, Allows-after, Allows-chain_of, Allows-after_of, Allows-mono,
  Allows-nothing, chain-eq-some, chain_of_some, after_of_some, some-injective, chain,
}
use cs739_distributed_system.Clock.{TimeVal}
use cs739_distributed_system.Udp.Net.{SockAddr, Net, is_ack, rcv_timeout}

-- A system on which every `sendto` succeeds and at most `budget` acknowledgements still come: each
-- that comes makes it smaller, and no call makes it larger.
pub record Spends {W : Type 0} (net : Net W) (budget : W → ℕ) : Type 0 where
  pub sends :
      (fd : ℤ) (bytes : List ℕ) (addr : SockAddr) (w : W)
      → is_neg (net.sendto fd bytes addr w).0 ≡ false
  pub spends :
      (fd : ℤ) (size : ℕ) (w : W)
      → is_ack (net.recvfrom fd size w).0 ≡ true
      → budget (net.recvfrom fd size w).1 < budget w
  pub recvfrom_keeps : (fd : ℤ) (size : ℕ) (w : W) → budget (net.recvfrom fd size w).1 ≤ budget w
  pub sendto_keeps :
      (fd : ℤ) (bytes : List ℕ) (addr : SockAddr) (w : W)
      → budget (net.sendto fd bytes addr w).1 ≤ budget w
  pub rand_keeps : (w : W) → budget (net.rand w).1 ≤ budget w
  pub clock_keeps : (w : W) → budget (net.clock_gettime w).1 ≤ budget w
  pub option_keeps :
      (fd : ℤ) (tv : TimeVal) (w : W) → budget (net.setsockopt fd (rcv_timeout tv) w).1 ≤ budget w
  pub cerr_keeps : (text : String) (w : W) → budget (net.cerr text w).1 ≤ budget w
  pub close_keeps : (fd : ℤ) (w : W) → budget (net.close fd w).1 ≤ budget w

-- A system that counts what it is asked to send.
pub record Counts {W : Type 0} (net : Net W) (sent : W → ℕ) : Type 0 where
  pub sendto_counts :
      (fd : ℤ) (bytes : List ℕ) (addr : SockAddr) (w : W)
      → sent (net.sendto fd bytes addr w).1 ≤ suc (sent w)
  pub recvfrom_keeps : (fd : ℤ) (size : ℕ) (w : W) → sent (net.recvfrom fd size w).1 ≤ sent w
  pub cerr_keeps : (text : String) (w : W) → sent (net.cerr text w).1 ≤ sent w
  pub close_keeps : (fd : ℤ) (w : W) → sent (net.close fd w).1 ≤ sent w
