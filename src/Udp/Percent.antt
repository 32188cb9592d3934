-- ===== src/Udp/Percent.antt =====
-- The simulated loss drops as many random numbers of each hundred as the percentage says.
use cs739_distributed_system.Base.{
  ℕ, zero, suc, ◌+◌, ◌^◌, ◌≤◌, ◌<◌, min, ◌≡◌, Bool, true, false, arith, if◌then◌else◌, ℤ, pos,
  negsuc, IsInt,
}
use cs739_distributed_system.Udp.Net.{Net}
use cs739_distributed_system.Udp.Drop.{is_dropped}
use cs739_distributed_system.Udp.Server.{
  ServerSocket, is_bad_percentage, server_set_drop_percentage,
}

-- How many of the numbers below `n` satisfy the test.
pub count_below : ℕ → (ℕ → Bool) → ℕ
count_below zero test = 0
count_below (suc n) test = count_below n test + (if test n then 1 else 0)

count_below-is_dropped :
    (n percent : ℕ)
    → n ≤ 100
    → percent < 2 ^ 32
    → count_below n (λ r. is_dropped r (pos percent)) ≡ min n percent
unfolding count_below is_dropped
count_below-is_dropped zero percent h p = omega arith
count_below-is_dropped (suc n) percent h p = ground (arith, count_below-is_dropped n percent)

-- Of a hundred consecutive random numbers exactly `percent` are dropped, if `percent` is at most
-- 100.
dropped_in_hundred :
    (percent : ℕ) → percent ≤ 100 → count_below 100 (λ r. is_dropped r (pos percent)) ≡ percent
dropped_in_hundred percent h =
    omega (arith, count_below-is_dropped 100 percent (omega arith) (omega arith))

-- A percentage that the constructor takes unchecked, below 0 or above 99, drops every packet.
pub is_dropped_always :
    (percent : ℤ) (random : ℕ)
    → is_bad_percentage percent ≡ true
    → IsInt percent
    → is_dropped random percent ≡ true
unfolding is_bad_percentage is_dropped
is_dropped_always (pos n) random h r = ground arith
is_dropped_always (negsuc n) random h r = ground arith

-- A percentage that `SetDropPercentage` accepts.
abbrev pub IsPercentage : ℤ → Type 0
IsPercentage percent = is_bad_percentage percent ≡ false

module _ {W : Type 0} (net : Net W) (w : W) (percentage : ℤ) where
  -- The setters store the new percentage exactly if it lies between 0 and 99, and change no other
  -- field: a valid percentage stays valid.
  pub server_set-IsPercentage :
      (s : ServerSocket)
      → let s' = (server_set_drop_percentage net s percentage w).0 in
        (IsPercentage s.percent_drop → IsPercentage s'.percent_drop)
        × (IsPercentage percentage → s' ≡ record s { percent_drop = percentage })
        × (is_bad_percentage percentage ≡ true → s' ≡ s)
  unfolding server_set_drop_percentage
  server_set-IsPercentage s = ground arith
