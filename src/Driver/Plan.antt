-- ===== src/Driver/Plan.antt =====
-- The loop headers that the two programs have in common: which part of the buffer is used in each
-- round of the outer loops, and how often.
use cs739_distributed_system.Base.{
  ℕ, zero, suc, ◌+◌, List, [], ◌∷◌, ◌++◌, ltb, if◌then◌else◌, take, drop,
}

-- `buffer.get() + skip_size` and `pkt_size`, in a loop of `count` rounds.
pub record Group : Type 0 where
  pub skip_size : ℕ
  pub pkt_size : ℕ
  pub count : ℕ

-- A group after `SetDropPercentage(drop_percent)`.
pub record Lossy : Type 0 where
  pub drop_percent : ℕ
  pub group : Group

-- `for (int pkt_size : packet_sizes) { ...; skip_size += pkt_size; }`
unfoldable pub groups : ℕ → ℕ → List ℕ → List Group
groups count skip_size [] = []
groups count skip_size (pkt_size ∷ rest) =
    record { skip_size = skip_size; pkt_size = pkt_size; count = count }
    ∷ groups count (skip_size + pkt_size) rest

-- `for (int drop_percent = 5; drop_percent < 95; drop_percent += 5) { ...; skip_size += pkt_size; }`
-- for at most so many rounds.
unfoldable pub lossy_groups : ℕ → ℕ → ℕ → ℕ → ℕ → List Lossy
lossy_groups zero count pkt_size drop_percent skip_size = []
lossy_groups (suc rounds) count pkt_size drop_percent skip_size =
    let rest = lossy_groups rounds count pkt_size (drop_percent + 5) (skip_size + pkt_size) in
    if ltb drop_percent 95
    then record {
      drop_percent = drop_percent;
      group = record { skip_size = skip_size; pkt_size = pkt_size; count = count };
    }
      ∷ rest
    else []

-- The sum of the packet sizes: `total_buffer_size`.
unfoldable pub total_size : List ℕ → ℕ
total_size [] = 0
total_size (size ∷ rest) = size + total_size rest

-- The bytes at `buffer.get() + skip_size`.
unfoldable pub slice : Group → List ℕ → List ℕ
slice g buffer = take g.pkt_size (drop g.skip_size buffer)

-- The buffer after those bytes were overwritten.
unfoldable pub store_slice : Group → List ℕ → List ℕ → List ℕ
store_slice g buffer bytes =
    take g.skip_size buffer ++ (bytes ++ drop (g.skip_size + g.pkt_size) buffer)
