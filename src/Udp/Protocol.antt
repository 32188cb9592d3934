-- ===== src/Udp/Protocol.antt =====
-- A `ServerSocket` that writes and a `ClientSocket` that reads, as HW1/part2/SocketServer.cpp and
-- HW1/part2/SocketClient.cpp use them, over a network that may lose, delay and reorder datagrams.
-- The steps are those of the loop of `WriteData` and of `ReadData` in HW1/part2/Socket.h, at the
-- grain of one system call. All acknowledgements are the same word, so the ones in flight are
-- counted. A reader may read at any time, since `SocketClient.cpp` calls `ReadData` in loops.
pub mod Counting
pub mod Delivery
pub mod Stale
mod Tests
use cs739_distributed_system.Base.{
  ℕ, zero, suc, ◌+◌, ◌-◌, ◌*◌, ◌/◌, ◌%◌, ◌^◌, ◌≤◌, ◌<◌, min, max, ◌≡◌, refl, sym, ap, subst, ◌∙◌,
  ◌≢◌, ◌↔◌, ◌⊎◌, inl, inr, Bool, true, false, not, ◌&&◌, ◌||◌, Option, none, some, List, [], ◌∷◌,
  ◌++◌, map, append_assoc, append-nil, arith, dec_lt, ℕ_discrete, ltb, leb, ◌==◌, if◌then◌else◌,
  ltb→lt, lt→ltb, le→ltb, Bool-cases, Option-cases, length, take, drop, replicate, All,
  length-append, take-append-drop, length-take, length-drop, length-replicate, take_all, take-add,
  All-mono, ℤ, pos, negsuc, minus_one, is_neg, of_bool, to_u32, IsInt, to_u32-lt, State, Partial,
  ◌>>=◌, ◌>>◌, pure, finish, after, after-eq-some, Yields, Yields-chain, Yields-after, Yields-mono,
  Yields-some, Allows, Allows-chain, Allows-after, Allows-chain_of, Allows-after_of, Allows-mono,
  Allows-nothing, chain-eq-some, chain_of_some, after_of_some, some-injective, chain,
}

abbrev pub Message : Type 0
Message = List ℕ

-- Where the writer stands: between two calls of `WriteData`, at the head of its loop, or in the
-- `recvfrom` of its loop.
pub data Writer : Type 0 where
  idle : Writer
  turn : Message → Writer
  waiting : Message → Writer

pub record System : Type 0 where
  pub writer : Writer
  -- datagrams on their way to the reader
  pub data_in_flight : List Message
  -- acknowledgements on their way to the writer
  pub acks_in_flight : ℕ
  -- the messages of the calls of `WriteData` that an acknowledgement ended, the newest first
  pub written : List Message
  -- what the reader's calls of `ReadData` stored, the newest first
  pub delivered : List Message

-- `m` is taken out of the first list, wherever it stands, which leaves the second.
pub data Picks (m : Message) : List Message → List Message → Type 0 where
  here : {xs : List Message} → Picks m (m ∷ xs) xs
  there : {x : Message} {xs ys : List Message} → Picks m xs ys → Picks m (x ∷ xs) (x ∷ ys)

pub data Step (s : System) : System → Type 0 where
  -- `WriteData` is called
  call : (m : Message) → s.writer ≡ idle → Step s (record s { writer = turn m })
  -- `DropPacket` is false: `sendto`
  transmit :
      (m : Message)
      → s.writer ≡ turn m
      → Step s (record s { writer = waiting m; data_in_flight = m ∷ s.data_in_flight })
  -- `DropPacket` is true
  skip : (m : Message) → s.writer ≡ turn m → Step s (record s { writer = waiting m })
  -- `sendto` fails, and `WriteData` returns: its message does not count as written
  give_up : (m : Message) → s.writer ≡ turn m → Step s (record s { writer = idle })
  -- `recvfrom` times out
  time_out : (m : Message) → s.writer ≡ waiting m → Step s (record s { writer = turn m })
  -- `recvfrom` brings an acknowledgement, and `WriteData` returns
  take_ack :
      (m : Message) (n : ℕ)
      → s.writer ≡ waiting m
      → s.acks_in_flight ≡ suc n
      → Step s (record s { writer = idle; acks_in_flight = n; written = m ∷ s.written })
  -- `ReadData` stores a datagram and acknowledges it
  read :
      (m : Message) (rest : List Message)
      → Picks m s.data_in_flight rest
      → Step s (record s {
        data_in_flight = rest;
        acks_in_flight = suc s.acks_in_flight;
        delivered = m ∷ s.delivered;
      })
  -- `ReadData` stores a datagram, and its acknowledgement cannot be sent
  read_only :
      (m : Message) (rest : List Message)
      → Picks m s.data_in_flight rest
      → Step s (record s { data_in_flight = rest; delivered = m ∷ s.delivered })
  -- the network loses a datagram, or an acknowledgement
  lose_data :
      (m : Message) (rest : List Message)
      → Picks m s.data_in_flight rest
      → Step s (record s { data_in_flight = rest })
  lose_ack : (n : ℕ) → s.acks_in_flight ≡ suc n → Step s (record s { acks_in_flight = n })

pub data Run (s : System) : System → Type 0 where
  stay : Run s s
  next : {t u : System} → Run s t → Step t u → Run s u

-- Both programs have just connected.
abbrev pub initial : System
initial = record {
  writer = idle;
  data_in_flight = [];
  acks_in_flight = 0;
  written = [];
  delivered = [];
}
