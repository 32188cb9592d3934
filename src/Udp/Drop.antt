-- ===== src/Udp/Drop.antt =====
-- The simulated packet loss of HW1/part2/Socket.h: `RandomNumber` and `DropPacket`, which the two
-- socket classes have in the same words.
use cs739_distributed_system.Base.{ℕ, ◌+◌, ◌*◌, ◌%◌, ◌^◌, Bool, ltb, ℤ, to_u32, State, ◌>>=◌, pure}
use cs739_distributed_system.Clock.{billion}
use cs739_distributed_system.Udp.Net.{Net}

-- The test of `DropPacket` on the random number, in `unsigned int`: a negative percentage is
-- converted to a large number.
unfoldable pub is_dropped : ℕ → ℤ → Bool
is_dropped random percent_drop = ltb (random % 100) (to_u32 percent_drop)

module _ {W : Type 0} (net : Net W) where
  -- The macro: a `longtime`, whose range is not modelled, since only its lowest 32 bits are used.
  unfoldable pub get_current_time : State W ℕ
  get_current_time = do
    global_res ← net.clock_gettime
    pure (global_res.tv_sec * billion + global_res.tv_nsec)

  -- `rand() * get_current_time()`, returned as an `unsigned int`.
  unfoldable pub random_number : State W ℕ
  unfolding get_current_time
  random_number = do factor ← net.rand; now ← get_current_time; pure ((factor * now) % 2 ^ 32)

  unfoldable pub drop_packet : ℤ → State W Bool
  unfolding random_number is_dropped
  drop_packet percent_drop = do random ← random_number; pure (is_dropped random percent_drop)
