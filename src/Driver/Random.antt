-- ===== src/Driver/Random.antt =====
-- HW1/part2/random.cpp: how many of 100000 random numbers are dropped. Its `RandomNumber` is the one
-- of HW1/part2/Socket.h.
use cs739_distributed_system.Base.{
  ℕ, zero, suc, ◌+◌, ◌≡◌, ◌∙◌, true, Option, none, some, List, ◌∷◌, arith, if◌then◌else◌, ℤ, IsInt,
  State, ◌>>=◌, pure,
}
use cs739_distributed_system.Udp.Net.{Net}
use cs739_distributed_system.Udp.Drop.{is_dropped, random_number}
use cs739_distributed_system.Udp.Server.{is_bad_percentage}
use cs739_distributed_system.Udp.Percent.{is_dropped_always}

module _ {W : Type 0} (net : Net W) where
  -- `for (int i = 0; i < N; ++i) { ... }`
  unfoldable pub count_drops : ℕ → ℤ → ℕ → State W ℕ
  count_drops zero percentage count w = (count, w)
  count_drops (suc n) percentage count w =
      let ranum = random_number net w in
      count_drops n percentage (count + (if is_dropped ranum.0 percentage then 1 else 0)) ranum.1

  -- `main`: the number that is printed.
  unfoldable pub random_main : (List ℕ → ℤ) → List (List ℕ) → State W (Option ℕ)
  random_main atoi (program ∷ percentage ∷ rest) = do
    count ← count_drops 100000 (atoi percentage) 0
    pure (some count)
  random_main atoi _ = pure none

  -- A percentage below 0 or above 99 drops every packet, whatever the random numbers are.
  pub count_drops_all :
      (n count : ℕ) (percentage : ℤ) (w : W)
      → is_bad_percentage percentage ≡ true
      → IsInt percentage
      → (count_drops n percentage count w).0 ≡ count + n
  unfolding count_drops
  count_drops_all zero count percentage w h k = omega arith
  count_drops_all (suc n) count percentage w h k =
      let ranum = random_number net w in
      rw (is_dropped_always percentage ranum.0 h k, count_drops)
        (count_drops_all n (count + 1) percentage ranum.1 h k ∙ omega arith)
