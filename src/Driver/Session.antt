-- ===== src/Driver/Session.antt =====
-- HW1/part2/SocketServer.cpp and HW1/part2/SocketClient.cpp at the two ends of a network that
-- loses nothing: what the system gives to each program. The client of such a network reads every
-- datagram that the server sends, and its acknowledgement comes back before the server's time-out.
pub mod Writes
pub mod Sends
pub mod Receives
pub mod Accepts
pub mod Connects
pub mod Copies
pub mod Measures
pub mod Whole
pub mod Meet
mod Tests
use cs739_distributed_system.Base.{
  ℕ, zero, suc, ◌+◌, ◌-◌, ◌*◌, ◌/◌, ◌%◌, ◌^◌, ◌≤◌, ◌<◌, min, max, ◌≡◌, refl, sym, ap, subst, ◌∙◌,
  ◌≢◌, ◌↔◌, ◌⊎◌, inl, inr, Bool, true, false, not, ◌&&◌, ◌||◌, Option, none, some, List, [], ◌∷◌,
  ◌++◌, map, append_assoc, append-nil, arith, dec_lt, ℕ_discrete, ltb, leb, ◌==◌, if◌then◌else◌,
  ltb→lt, lt→ltb, le→ltb, Bool-cases, Option-cases, length, take, drop, replicate, All,
  length-append, take-append-drop, length-take, length-drop, length-replicate, take_all, take-add,
  All-mono, ℤ, pos, negsuc, minus_one, is_neg, of_bool, to_u32, IsInt, to_u32-lt, State, Partial,
  ◌>>=◌, ◌>>◌, pure, finish, after, after-eq-some, Yields, Yields-chain, Yields-after, Yields-mono,
  Yields-some, Allows, Allows-chain, Allows-after, Allows-chain_of, Allows-after_of, Allows-mono,
  Allows-nothing, chain-eq-some, chain_of_some, after_of_some, some-injective, chain,
}
use cs739_distributed_system.Clock.{TimeSpec}
use cs739_distributed_system.Udp.Net.{SockAddr, Net, Received, failed, received, encode32, ack_word}
use cs739_distributed_system.Udp.Protocol.{Message}
use cs739_distributed_system.Udp.Joint.{head_or, tail, writer_addr, reader_addr}

-- Where the client stands, as the server's end sees it: its handshake is on the way, it waits for
-- the acknowledgement of that, or it reads and so many of its acknowledgements are on the way.
pub data Caller : Type 0 where
  calls : Message → Caller
  greeted : Caller
  reads : ℕ → Caller

-- The server's end: what it has sent, where the client stands, and what `rand` and the clock are
-- going to return. After these `rand` returns 99 and the clock shows one nanosecond.
pub record Outlet : Type 0 where
  pub sent : List Message
  pub caller : Caller
  pub numbers : List ℕ
  pub readings : List TimeSpec

abbrev pub one_nanosecond : TimeSpec
one_nanosecond = record { tv_sec = 0; tv_nsec = 1 }

abbrev pub outlet_recvfrom : Caller → Outlet → Received × Outlet
outlet_recvfrom (calls m) w = (received m reader_addr, record w { caller = greeted })
outlet_recvfrom greeted w = (failed, w)
outlet_recvfrom (reads zero) w = (failed, w)
outlet_recvfrom (reads (suc n)) w =
    (received (encode32 ack_word) reader_addr, record w { caller = reads n })

-- Where the client stands after the server has sent a datagram.
abbrev pub heard : Caller → Caller
heard (calls m) = calls m
heard greeted = reads 0
heard (reads n) = reads (suc n)

abbrev pub outlet_net : Net Outlet
outlet_net = record {
  socket = λ domain kind protocol w. (pos 3, w);
  setsockopt = λ fd option w. (pos 0, w);
  bind = λ fd addr w. (pos 0, w);
  sendto = λ fd bytes addr w.
      (pos (length bytes), record w { sent = w.sent ++ bytes ∷ []; caller = heard w.caller });
  recvfrom = λ fd size w. outlet_recvfrom w.caller w;
  close = λ fd w. (pos 0, w);
  rand = λ w. (head_or 99 w.numbers, record w { numbers = tail w.numbers });
  clock_gettime = λ w. (head_or one_nanosecond w.readings, record w { readings = tail w.readings });
  gethostbyname = λ name w. (none, w);
  inet_aton = λ text. none;
  inet_ntoa = λ address. "";
  htons = λ n. n;
  htonl = λ n. n;
  cerr = λ message w. (tt, w);
}

-- The client's end: the datagrams that come, in order, what `recvfrom` handed over of each, what the
-- client has sent, and what `rand` and the clock are going to return. Nothing comes before the client
-- has sent its handshake. A datagram that is larger than the buffer is cut.
pub record Inlet : Type 0 where
  pub incoming : List Message
  pub handed : List Message
  pub sent : List Message
  pub numbers : List ℕ
  pub readings : List TimeSpec

abbrev pub inlet_recvfrom : ℕ → List Message → List Message → Inlet → Received × Inlet
inlet_recvfrom size [] coming w = (failed, w)
inlet_recvfrom size (s ∷ ss) [] w = (failed, w)
inlet_recvfrom size (s ∷ ss) (m ∷ ms) w = (
  received (take size m) writer_addr,
  record w { incoming = ms; handed = w.handed ++ take size m ∷ [] },
)

abbrev pub inlet_net : Net Inlet
inlet_net = record {
  socket = λ domain kind protocol w. (pos 3, w);
  setsockopt = λ fd option w. (pos 0, w);
  bind = λ fd addr w. (pos 0, w);
  sendto = λ fd bytes addr w. (pos (length bytes), record w { sent = w.sent ++ bytes ∷ [] });
  recvfrom = λ fd size w. inlet_recvfrom size w.sent w.incoming w;
  close = λ fd w. (pos 0, w);
  rand = λ w. (head_or 99 w.numbers, record w { numbers = tail w.numbers });
  clock_gettime = λ w. (head_or one_nanosecond w.readings, record w { readings = tail w.readings });
  gethostbyname = λ name w. (none, w);
  inet_aton = λ text. some 1;
  inet_ntoa = λ address. "";
  htons = λ n. n;
  htonl = λ n. n;
  cerr = λ message w. (tt, w);
}
