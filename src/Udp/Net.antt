-- ===== src/Udp/Net.antt =====
-- What the sockets of HW1/part2/Socket.h take from the system, as one record of calls over the
-- world `W` that they read and change, and the bytes that travel: the handshake word and the
-- acknowledgement word, little-endian as on the machines that the programs run on.
use Prim.Native.String.{String}
use cs739_distributed_system.Base.{
  ℕ, ◌+◌, ◌*◌, ◌/◌, ◌%◌, ◌^◌, List, [], ◌∷◌, ◌++◌, Option, Bool, length, take, drop, ◌==◌, ℤ, pos,
  minus_one, State,
}
use cs739_distributed_system.Clock.{TimeSpec, TimeVal}

-- `struct sockaddr_in`.
pub record SockAddr : Type 0 where
  pub sin_family : ℕ
  pub sin_port : ℕ
  pub sin_addr : ℕ

-- `memset(&addr, 0, sizeof(addr))`.
abbrev pub zero_addr : SockAddr
zero_addr = record { sin_family = 0; sin_port = 0; sin_addr = 0 }

abbrev pub af_inet : ℕ
af_inet = 2

abbrev pub sock_dgram : ℕ
sock_dgram = 2

abbrev pub inaddr_any : ℕ
inaddr_any = 0

-- The options that are set, all at level SOL_SOCKET, with the value handed over.
pub data SockOpt : Type 0 where
  reuse_addr_port : ℕ → SockOpt
  rcv_timeout : TimeVal → SockOpt

-- What `recvfrom` did: it returned -1 and stored nothing, or it stored the bytes and the sender's
-- address and returned the number of the bytes.
pub data Received : Type 0 where
  failed : Received
  received : List ℕ → SockAddr → Received

-- The value that `recvfrom` returns.
abbrev pub recv_len : Received → ℤ
recv_len failed = minus_one
recv_len (received bytes from) = pos (length bytes)

-- The address variable after `recvfrom`.
abbrev pub sender_of : Received → SockAddr → SockAddr
sender_of failed old = old
sender_of (received bytes from) old = from

-- The system and the C library, which are not part of the repository. `recvfrom` takes the size of
-- the buffer. The results of `inet_aton` and `gethostbyname` are the address and the addresses
-- that they store, if they succeed.
pub record Net (W : Type 0) : Type 0 where
  pub socket : ℕ → ℕ → ℕ → State W ℤ
  pub setsockopt : ℤ → SockOpt → State W ℤ
  pub bind : ℤ → SockAddr → State W ℤ
  pub sendto : ℤ → List ℕ → SockAddr → State W ℤ
  pub recvfrom : ℤ → ℕ → State W Received
  pub close : ℤ → State W ℤ
  pub rand : State W ℕ
  pub clock_gettime : State W TimeSpec
  pub gethostbyname : String → State W (Option (List ℕ))
  pub inet_aton : String → Option ℕ
  pub inet_ntoa : ℕ → String
  pub htons : ℕ → ℕ
  pub htonl : ℕ → ℕ
  pub cerr : String → State W (Unit {0})

-- A received datagram overwrites the first bytes of the buffer.
unfoldable pub overlay : List ℕ → List ℕ → List ℕ
overlay bytes buff = take (length buff) bytes ++ drop (length bytes) buff

-- The four bytes of a `uint`.
unfoldable pub encode32 : ℕ → List ℕ
encode32 n = n % 256 ∷ n / 256 % 256 ∷ n / 2 ^ 16 % 256 ∷ n / 2 ^ 24 % 256 ∷ []

-- The `uint` that bytes in memory stand for.
unfoldable pub decode32 : List ℕ → ℕ
decode32 [] = 0
decode32 (b ∷ bs) = b + 256 * decode32 bs

abbrev pub ack_word : ℕ
ack_word = 0xaced

abbrev pub handshake_word : ℕ
handshake_word = 0xdeadbeef

-- The variable `ack` after `uint ack = 0; recvfrom(..., &ack, sizeof(uint), ...)`.
unfoldable pub ack_of : Received → ℕ
unfolding decode32 overlay
ack_of failed = 0
ack_of (received bytes from) = decode32 (overlay bytes (0 ∷ 0 ∷ 0 ∷ 0 ∷ []))

-- `ack == 0xaced`.
unfoldable pub is_ack : Received → Bool
unfolding ack_of
is_ack m = ack_of m == ack_word
