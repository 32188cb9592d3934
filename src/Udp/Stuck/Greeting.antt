-- ===== src/Udp/Stuck/Greeting.antt =====
-- A handshake of HW1/part2/Socket.h whose acknowledgement is lost.
use cs739_distributed_system.Base.{
  ℕ, ◌≡◌, refl, sym, ◌∙◌, true, some, List, [], ◌∷◌, arith, length, take, pos,
}
use cs739_distributed_system.Udp.Net.{is_ack, encode32, decode32, ack_word, handshake_word}
use cs739_distributed_system.Udp.Bytes.{overlay-full, decode32-encode32}
use cs739_distributed_system.Udp.Server.{
  ServerSocket, server_peer, server_acknowledge, server_store, server_read_connected,
  server_read_data, server_accept,
}
use cs739_distributed_system.Udp.Protocol.{Message}
use cs739_distributed_system.Udp.Joint.{take_at, reader_addr}
use cs739_distributed_system.Udp.Stuck.{Loop, at_head}
use cs739_distributed_system.Udp.Stuck.Lost.{IsStuck, happens-IsStuck}
use cs739_distributed_system.Udp.Stuck.Wire.{
  Wire, Luck, fetch, arrive, wire_net, Pair, Event, lose_outgoing, without, happen, happens, NoAck,
  IsRunning,
}

-- The client's handshake is in flight, and nothing else.
abbrev pub calling : Wire
calling = record { incoming = encode32 handshake_word ∷ []; outgoing = [] }

-- The server's object after the handshake.
abbrev pub greeted : ServerSocket → ServerSocket
greeted s = record s { client_addr = reader_addr; accepted_connection = true }

handshake-NoAck : NoAck (encode32 handshake_word)
unfolding is_ack encode32
handshake-NoAck = refl

handshake_read :
    (luck : Luck) (s : ServerSocket) (memory : List ℕ)
    → luck.place ≡ some 0
    → s.accepted_connection ≡ true
    → length memory ≡ 4
    → server_read_data (wire_net reader_addr luck) s memory calling ≡ (
      (pos 4, record s { client_addr = reader_addr }, encode32 handshake_word),
      record { incoming = []; outgoing = encode32 ack_word ∷ [] },
    )
unfolding server_read_data server_read_connected server_store server_acknowledge fetch take_at
    arrive
handshake_read luck s memory first connected four =
    let whole : length (encode32 handshake_word) ≡ 4 = unfold encode32 in refl in
    let fits : take 4 (encode32 handshake_word) ≡ encode32 handshake_word =
      unfold encode32 in refl in
    simp (
      connected,
      first,
      four,
      fits,
      overlay-full (encode32 handshake_word) memory (whole ∙ sym four),
      whole,
    )

server_accept-greeted :
    (luck : Luck) (s : ServerSocket) (memory : List ℕ)
    → luck.place ≡ some 0
    → length memory ≡ 4
    → server_accept (wire_net reader_addr luck) memory s calling
      ≡ ((pos 0, greeted s), record { incoming = []; outgoing = encode32 ack_word ∷ [] })
unfolding server_accept
server_accept-greeted luck s memory first four =
    let word : decode32 (encode32 handshake_word) ≡ handshake_word =
      decode32-encode32 handshake_word (omega arith) in
    rw (handshake_read luck (record s { accepted_connection = true }) memory first refl four, word)
      refl

-- On a system where every `sendto` succeeds, the client's handshake is on the way, the client is in
-- the loop that sends it, and `Accept` reads
-- it: `Accept` returns 0, and the server writes a packet that is no acknowledgement. If the
-- acknowledgement of the handshake is lost then, neither loop ever ends, in any order of the steps of
-- both programs, with any random numbers and times, whatever is late, overtaken or lost.
pub greeting_lost :
    (luck : Luck) (s : ServerSocket) (memory : List ℕ) (client : Loop) (packet : Message)
    (es : List Event)
    → luck.place ≡ some 0
    → length memory ≡ 4
    → IsRunning client
    → NoAck packet
    → let r = server_accept (wire_net reader_addr luck) memory s calling in
      let start : Pair = record {
        server = at_head (server_peer r.0.1) (pos 0);
        client = client;
        wire = r.1;
      } in
      let s' = happens packet (encode32 handshake_word) (lose_outgoing 0 ∷ es) start in
      (r.0.0 ≡ pos 0) × IsRunning s'.server × IsRunning s'.client
unfolding happens happen without take_at
greeting_lost luck s memory client packet es first four running harmless =
    let r = server_accept (wire_net reader_addr luck) memory s calling in
    let accepted = server_accept-greeted luck s memory first four in
    let start : Pair = record {
      server = at_head (server_peer (greeted s)) (pos 0);
      client = client;
      wire = record { incoming = []; outgoing = [] };
    } in
    let stuck : IsStuck start = record {
      server_runs = tt;
      client_runs = running;
      quiet = record { none_incoming = tt; none_outgoing = tt };
    } in
    let end =
      happens-IsStuck packet (encode32 handshake_word) harmless handshake-NoAck es start stuck in
    rw accepted (refl, end.server_runs, end.client_runs)
