-- ===== src/PacketSize/Tests.antt =====
-- Sizes of packets.
use cs739_distributed_system.Base.{
  ℕ, ◌+◌, ◌-◌, ◌*◌, ◌≡◌, refl, some, List, [], ◌∷◌, ◌++◌, arith, ltb, if◌then◌else◌, ℤ, pos,
}
use cs739_distributed_system.PacketSize.{get_packet_size}
use cs739_distributed_system.PacketSize.Suffix.{get_packet_size_value, get_packet_size_wraps}

-- The value of decimal digits, up to the first other byte: what `atoi` does with such texts.
abbrev digits : ℕ → List ℕ → ℕ
digits n [] = n
digits n (b ∷ bs) =
    let more = digits (n * 10 + (b - b'0')) bs in
    if ltb b b'0' then n else if ltb b'9' b then n else more

abbrev decimal : List ℕ → ℤ
decimal bs = pos (digits 0 bs)

get_packet_size_value_example :
    (s' : List ℕ) × (get_packet_size decimal ((b'6' ∷ b'4' ∷ []) ++ b'k' ∷ [])
      ≡ some (pos (64 * 1024), s'))
get_packet_size_value_example =
    get_packet_size_value decimal (b'6' ∷ b'4' ∷ []) b'k' 64 1024 refl refl (omega arith)

get_packet_size_wraps_example :
    get_packet_size decimal ((b'4' ∷ b'0' ∷ b'9' ∷ b'6' ∷ []) ++ b'M' ∷ [])
    ≡ some (pos 0, (b'4' ∷ b'0' ∷ b'9' ∷ b'6' ∷ []) ++ b'M' ∷ [])
get_packet_size_wraps_example =
    get_packet_size_wraps decimal (b'4' ∷ b'0' ∷ b'9' ∷ b'6' ∷ []) 1 refl (omega arith)
