-- ===== src/PacketSize.antt =====
-- `get_packet_size` of HW1/part1/Generic.h, HW1/part2/Generic.h and HW1/part2/Socket.h: a size
-- with a suffix `k`, `K`, `m` or `M`. The text is the list of its bytes before the final NUL; the
-- function writes to it and restores it, so the text is returned too. `atoi` of the C library is a
-- parameter. Sums of `int` that leave its range are taken modulo 2^32, as the machine does.
pub mod Suffix
mod Tests
use cs739_distributed_system.Base.{
  ℕ, ◌+◌, ◌-◌, ◌*◌, ◌%◌, ◌^◌, List, [], ◌∷◌, ◌++◌, Option, none, some, Bool, ◌||◌, ltb, ◌==◌,
  if◌then◌else◌, ℤ, pos, negsuc, to_u32,
}

-- The conversion of a `uint` to an `int`.
unfoldable pub to_int : ℕ → ℤ
to_int n = if ltb n (2 ^ 31) then pos n else negsuc (2 ^ 32 - 1 - n)

-- All but the last byte, and the last: `s[len - 1]`. There is none in the empty text.
unfoldable pub split_last : ℕ → List ℕ → List ℕ × ℕ
split_last b [] = ([], b)
split_last b (c ∷ cs) = let r = split_last c cs in (b ∷ r.0, r.1)

-- `(atoi(s)) * factor`, stored in the `uint` `res` and returned as an `int`.
unfoldable pub scaled : ℤ → ℕ → ℤ
unfolding to_int
scaled value factor = to_int ((to_u32 value * factor) % 2 ^ 32)

-- The body, once the last byte is known.
unfoldable pub by_suffix : (List ℕ → ℤ) → List ℕ → ℕ → ℤ × List ℕ
unfolding scaled
by_suffix atoi front last =
    if last == b'm' || last == b'M'
    then (scaled (atoi front) (1024 * 1024), front ++ b'M' ∷ [])
    else if last == b'k' || last == b'K'
    then (scaled (atoi front) 1024, front ++ b'K' ∷ [])
    else (atoi (front ++ last ∷ []), front ++ last ∷ [])

-- `none` stands for the read of `s[-1]`, before the beginning of an empty text.
unfoldable pub get_packet_size : (List ℕ → ℤ) → List ℕ → Option (ℤ × List ℕ)
unfolding by_suffix split_last
get_packet_size atoi [] = none
get_packet_size atoi (b ∷ bs) = let r = split_last b bs in some (by_suffix atoi r.0 r.1)
