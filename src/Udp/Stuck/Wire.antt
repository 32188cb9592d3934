-- ===== src/Udp/Stuck/Wire.antt =====
-- Two programs in the loop of `WriteData` of HW1/part2/Socket.h, over one wire.
use cs739_distributed_system.Base.{
  ℕ, ◌≡◌, false, Option, none, some, List, [], ◌∷◌, ◌++◌, length, take, All, pos,
}
use cs739_distributed_system.Clock.{TimeSpec}
use cs739_distributed_system.Udp.Net.{SockAddr, Net, Received, failed, received, is_ack}
use cs739_distributed_system.Udp.Protocol.{Message}
use cs739_distributed_system.Udp.Joint.{take_at, reader_addr, writer_addr}
use cs739_distributed_system.Udp.Stuck.{halted, goes_on, Loop, at_head, listening, over, advance}

-- The datagrams in flight, as one end sees them.
pub record Wire : Type 0 where
  pub incoming : List Message
  pub outgoing : List Message

-- As the other end sees them.
abbrev pub flip : Wire → Wire
flip w = record { incoming = w.outgoing; outgoing = w.incoming }

-- What one step of a program finds: the random number, the time, and the datagram in flight that
-- comes, or none in time.
pub record Luck : Type 0 where
  pub number : ℕ
  pub reading : TimeSpec
  pub place : Option ℕ

-- The datagram at a place, if there is one.
unfoldable pub fetch : Option ℕ → List Message → Option (Message × List Message)
fetch none ms = none
fetch (some k) ms = take_at k ms

-- `recvfrom` into a buffer of this size, which cuts a larger datagram.
unfoldable pub arrive : ℕ → SockAddr → Option (Message × List Message) → Wire → Received × Wire
arrive size from none w = (failed, w)
arrive size from (some (m, rest)) w = (received (take size m) from, record w { incoming = rest })

-- One end. The calls that the loop does not make are those of a system that works.
abbrev pub wire_net : SockAddr → Luck → Net Wire
wire_net other luck = record {
  socket = λ domain kind protocol w. (pos 3, w);
  setsockopt = λ fd option w. (pos 0, w);
  bind = λ fd addr w. (pos 0, w);
  sendto =
      λ fd bytes addr w. (pos (length bytes), record w { outgoing = w.outgoing ++ bytes ∷ [] });
  recvfrom = λ fd size w. arrive size other (fetch luck.place w.incoming) w;
  close = λ fd w. (pos 0, w);
  rand = λ w. (luck.number, w);
  clock_gettime = λ w. (luck.reading, w);
  gethostbyname = λ name w. (none, w);
  inet_aton = λ text. some 1;
  inet_ntoa = λ address. "";
  htons = λ n. n;
  htonl = λ n. n;
  cerr = λ message w. (tt, w);
}

-- Two programs and what each of them writes.
pub record Pair : Type 0 where
  pub server : Loop
  pub client : Loop
  -- as the server sees it
  pub wire : Wire

-- What may happen next: a step of a program, or the loss of a datagram.
pub data Event : Type 0 where
  server_moves : Luck → Event
  client_moves : Luck → Event
  lose_incoming : ℕ → Event
  lose_outgoing : ℕ → Event

-- What is left when the datagram at a place is lost.
unfoldable pub without : ℕ → List Message → List Message
without k ms = elim (take_at k ms) [ none ↦ ms | some (m, rest) ↦ rest ]

module _ (packet handshake : Message) where
  unfoldable pub happen : Event → Pair → Pair
  happen (server_moves luck) s =
      let r = advance (wire_net reader_addr luck) packet s.server s.wire in
      record s { server = r.0; wire = r.1 }
  happen (client_moves luck) s =
      let r = advance (wire_net writer_addr luck) handshake s.client (flip s.wire) in
      record s { client = r.0; wire = flip r.1 }
  happen (lose_incoming k) s = record s {
    wire = record s.wire { incoming = without k s.wire.incoming };
  }
  happen (lose_outgoing k) s = record s {
    wire = record s.wire { outgoing = without k s.wire.outgoing };
  }

  unfoldable pub happens : List Event → Pair → Pair
  happens [] s = s
  happens (e ∷ es) s = happens es (happen e s)

-- No acknowledgement, even when it is cut.
abbrev pub NoAck : Message → Type 0
NoAck m = is_ack (received (take 4 m) reader_addr) ≡ false

-- The loop goes on.
abbrev pub IsRunning : Loop → Type 0
IsRunning (at_head p ret) = Unit
IsRunning (listening p (goes_on ret)) = Unit
IsRunning (listening p (halted v)) = ⊥
IsRunning (over f) = ⊥

-- No acknowledgement is in flight in either direction.
pub record IsQuiet (w : Wire) : Type 0 where
  pub none_incoming : All NoAck w.incoming
  pub none_outgoing : All NoAck w.outgoing
