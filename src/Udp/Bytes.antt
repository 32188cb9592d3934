-- ===== src/Udp/Bytes.antt =====
-- The words on the wire, and the buffers that datagrams are received into.
use cs739_distributed_system.Base.{
  append-nil, ℕ, zero, suc, ◌^◌, ◌<◌, ◌≡◌, refl, ap, List, [], ◌∷◌, true, take, drop, length,
  length-append, length-take, length-drop, arith,
}
use cs739_distributed_system.Udp.Net.{
  SockAddr, received, overlay, encode32, decode32, is_ack, ack_word,
}

-- Receiving never changes the size of a buffer, however long the datagram is.
pub length-overlay : (bytes buff : List ℕ) → length (overlay bytes buff) ≡ length buff
unfolding overlay
length-overlay bytes buff = omega (
  arith,
  length-append (take (length buff) bytes) (drop (length bytes) buff),
  length-take (length buff) bytes,
  length-drop (length bytes) buff,
)

-- A word of 32 bits survives the way over the wire.
pub decode32-encode32 : (n : ℕ) → n < 2 ^ 32 → decode32 (encode32 n) ≡ n
unfolding encode32 decode32
decode32-encode32 n h = omega arith

take-length : (bytes : List ℕ) → take (length bytes) bytes ≡ bytes
take-length [] = refl
take-length (b ∷ bs) = ap (◌∷◌ b) (take-length bs)

drop-length : (n : ℕ) (buff : List ℕ) → length buff ≡ n → drop n buff ≡ []
drop-length zero [] h = refl
drop-length zero (b ∷ bs) h = absurd (omega arith)
drop-length (suc n) [] h = refl
drop-length (suc n) (b ∷ bs) h = drop-length n bs (omega arith)

-- A datagram of the buffer's size replaces the whole buffer.
pub overlay-full : (bytes buff : List ℕ) → length bytes ≡ length buff → overlay bytes buff ≡ bytes
unfolding overlay
overlay-full bytes buff h =
    rw (← h, take-length bytes, drop-length (length bytes) buff (omega arith), append-nil) refl

-- The acknowledgement that `ReadData` sends is one for `WriteData`.
pub is_ack-encode32 : (from : SockAddr) → is_ack (received (encode32 ack_word) from) ≡ true
unfolding is_ack encode32
is_ack-encode32 from = refl
