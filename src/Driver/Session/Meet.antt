-- ===== src/Driver/Session/Meet.antt =====
-- HW1/part2/SocketServer.cpp and HW1/part2/SocketClient.cpp, from their arguments to their ends,
-- over a network that loses nothing.
use Prim.Native.String.{String}
use cs739_distributed_system.Base.{
  ℕ, suc, ◌+◌, ◌*◌, ◌≤◌, ◌<◌, ◌≡◌, refl, sym, ap, ◌∙◌, true, Option, some, List, [], ◌∷◌, ◌++◌,
  arith, length, replicate, length-append, length-replicate, ℤ, pos, to_u32, Yields, Yields-after,
  Yields-some,
}
use cs739_distributed_system.Udp.Net.{SockAddr, encode32, ack_word, handshake_word}
use cs739_distributed_system.Udp.Server.{server_socket}
use cs739_distributed_system.Udp.Client.{client_socket, connect}
use cs739_distributed_system.Udp.Protocol.{Message}
use cs739_distributed_system.Udp.Joint.{reader_addr}
use cs739_distributed_system.Driver.Plan.{Group, slice, total_size}
use cs739_distributed_system.Driver.Server.{
  Average, Bandwidth, counting_bytes, server_packet_sizes, server_round_trips, server_bandwidth,
  server_lossy, server_measure, serve_bound, server_serve, server_main,
}
use cs739_distributed_system.Driver.Client.{client_measure, client_main}
use cs739_distributed_system.Driver.Session.{calls, Outlet, outlet_net, Inlet, inlet_net}
use cs739_distributed_system.Driver.Session.Writes.{pending}
use cs739_distributed_system.Driver.Session.Sends.{
  packet_count, sent_by, groups_of, session_packets, server_measure-Wrote,
}
use cs739_distributed_system.Driver.Session.Receives.{acks_for, acks_for-replicate}
use cs739_distributed_system.Driver.Session.Accepts.{
  bound, server_bind-bound, welcomed, server_accept-welcomed,
}
use cs739_distributed_system.Driver.Session.Connects.{awaited, Silent, connect-Connected}
use cs739_distributed_system.Driver.Session.Measures.{client_measure-Took}

length-sent_by : (gs : List Group) (buffer : List ℕ) → length (sent_by gs buffer) ≡ packet_count gs
unfolding sent_by
length-sent_by [] buffer = refl
length-sent_by (g ∷ rest) buffer = omega (
  arith,
  length-append (replicate g.count (slice g buffer)) (sent_by rest buffer),
  length-replicate g.count (slice g buffer),
  length-sent_by rest buffer,
)

session_packets-length : length session_packets ≡ 9100
unfolding session_packets server_round_trips server_lossy
session_packets-length =
    let first = sent_by server_round_trips (counting_bytes (total_size server_packet_sizes) 0) in
    let second = sent_by (server_bandwidth ∷ []) (counting_bytes (1024 * 63) 0) in
    let third = sent_by (groups_of server_lossy) (counting_bytes (1024 * 8 * 200) 0) in
    let a : length first ≡ 3500 =
      length-sent_by server_round_trips (counting_bytes (total_size server_packet_sizes) 0) in
    let b : length second ≡ 2000 =
      length-sent_by (server_bandwidth ∷ []) (counting_bytes (1024 * 63) 0) in
    let c : length third ≡ 3600 =
      length-sent_by (groups_of server_lossy) (counting_bytes (1024 * 8 * 200) 0) in
    length-append first (second ++ third)
    ∙ ap (λ n. length first + n) (length-append second third)
    ∙ ap (λ n. n + (length second + length third)) a
    ∙ ap (λ n. 3500 + (n + length third)) b
    ∙ ap (λ n. 3500 + (2000 + n)) c

-- The client acknowledges as many.
pub acks_for-session : acks_for session_packets ≡ replicate 9100 (encode32 ack_word)
acks_for-session =
    acks_for-replicate session_packets
    ∙ ap (λ n. replicate n (encode32 ack_word)) session_packets-length

-- The greeting and the packets.
abbrev everything : List Message
everything = encode32 ack_word ∷ session_packets

-- The status is 0, and this is what was sent.
abbrev Served : ℕ × Option (List Average × Bandwidth × List Average) → Outlet → Type 0
Served r w =
    ((figures : List Average × Bandwidth × List Average) × (r ≡ (0, some figures)))
    × (w.sent ≡ everything)

-- The status is 0, and this is what was read and sent.
abbrev Ended : ℕ → Inlet → Type 0
Ended status v =
    (status ≡ 0)
    × (v.incoming ≡ [])
    × (v.handed ≡ everything)
    × (v.sent ≡ encode32 handshake_word ∷ replicate 9100 (encode32 ack_word))

module _ (atoi : String → ℤ) (rounds : ℕ) (memory_fd : ℤ) (memory_addr memory_server : SockAddr)
    (program port server_ip drop : String) (more : List String) (percent : ℕ) (few : percent ≤ 99)
    (read_it : atoi drop ≡ pos percent) where
  server_main-Served :
      (handshake : List ℕ) (w : Outlet)
      → length handshake ≡ 4
      → w.sent ≡ []
      → w.caller ≡ calls (encode32 handshake_word)
      → pending w < rounds
      → Yields Served (
          server_main outlet_net rounds atoi memory_fd memory_addr handshake
            (program ∷ port ∷ drop ∷ more)
            w)
  unfolding server_main server_serve serve_bound server_socket
  server_main-Served handshake w four unsent calling enough =
      let s = server_socket memory_fd memory_addr (to_u32 (atoi port)) (atoi drop) in
      rw (server_bind-bound s w, server_accept-welcomed (bound s) handshake w four calling)
        (Yields-after Served
          (server_measure outlet_net rounds
            (record (bound s) { client_addr = reader_addr; accepted_connection = true }))
          _ (welcomed w)
          (server_measure-Wrote percent few rounds _ (welcomed w)
            (record { connected = refl; dropping = read_it }) refl enough)
          (λ figures v k. (
            (figures, refl),
            k.sent_them ∙ ap (λ l. (l ++ encode32 ack_word ∷ []) ++ session_packets) unsent,
          )))

  client_main-Took :
      (v : Inlet)
      → Silent v session_packets
      → awaited v < rounds
      → Yields Ended (
          client_main inlet_net rounds atoi memory_fd memory_server memory_addr
            (program ∷ port ∷ server_ip ∷ drop ∷ more)
            v)
  unfolding client_main client_socket
  client_main-Took v quiet enough =
      let s =
        client_socket memory_fd memory_server memory_addr (to_u32 (atoi port)) server_ip
          (atoi drop) in
      Yields-after _ (connect inlet_net rounds s) (λ r. client_measure inlet_net r.1) v
        (connect-Connected percent few rounds s session_packets v read_it quiet enough)
        (λ r u k.
          let (status, took) = client_measure-Took r.1 u k.1 (_, [], k.2.spoken) k.2.coming in
          (
            status,
            took.remaining,
            took.handed_them ∙ ap (λ l. l ++ session_packets) k.2.heard_it,
            took.answered_them
                ∙ ap (λ l. l ++ acks_for session_packets) k.2.spoken
                ∙ ap (◌∷◌ (encode32 handshake_word)) acks_for-session,
          ))

-- Take SocketServer and SocketClient with all their arguments, where `atoi` reads percentages of at
-- most 99, over a network that loses nothing: when the server accepts, the client's handshake is on
-- the way, and what the server sends is what comes to the client, nothing of it before the client
-- has spoken. The rounds of the loops are more than the random numbers and times that are given.
-- Then the server's `main` ends with status 0 and its figures, and has sent the acknowledgement of
-- the handshake and the packets of its three measurements in order, one datagram for each of the 9100
-- calls of `WriteData`, however many it dropped before. The client's `main` ends with status 0; each
-- of these datagrams was handed to it whole and in order, and none is left. It has sent the handshake
-- once and 9100 acknowledgements.
pub mains_meet :
    (atoi : String → ℤ) (rounds : ℕ) (server_fd client_fd : ℤ)
    (memory_addr memory_server memory_client : SockAddr) (handshake : List ℕ)
    (server_program server_port server_drop : String) (server_more : List String)
    (client_program client_port server_ip client_drop : String) (client_more : List String)
    (server_percent client_percent : ℕ) (w : Outlet) (v : Inlet)
    → server_percent ≤ 99
    → client_percent ≤ 99
    → atoi server_drop ≡ pos server_percent
    → atoi client_drop ≡ pos client_percent
    → length handshake ≡ 4
    → w.sent ≡ []
    → w.caller ≡ calls (encode32 handshake_word)
    → pending w < rounds
    → v.sent ≡ []
    → v.handed ≡ []
    → awaited v < rounds
    → (figures : List Average × Bandwidth × List Average) × (w' : Outlet) × (server_main outlet_net
          rounds atoi server_fd memory_addr handshake
          (server_program ∷ server_port ∷ server_drop ∷ server_more)
          w
        ≡ some ((0, some figures), w'))
      × (w'.sent ≡ encode32 ack_word ∷ session_packets)
      × (length w'.sent ≡ 9101)
      × (v' : Inlet) × (client_main inlet_net rounds atoi client_fd memory_server memory_client
            (client_program ∷ client_port ∷ server_ip ∷ client_drop ∷ client_more)
            (record v { incoming = w'.sent })
          ≡ some (0, v'))
      × (v'.incoming ≡ [])
      × (v'.handed ≡ w'.sent)
      × (v'.sent ≡ encode32 handshake_word ∷ replicate 9100 (encode32 ack_word))
mains_meet atoi rounds server_fd client_fd memory_addr memory_server memory_client handshake
      server_program server_port server_drop server_more client_program client_port server_ip
      client_drop client_more server_percent client_percent w v server_few client_few server_reads
      client_reads four unsent calling enough unsaid unheard enough' =
    let (r, w', served, ((figures, status), sent)) =
      Yields-some Served
        (server_main outlet_net rounds atoi server_fd memory_addr handshake
          (server_program ∷ server_port ∷ server_drop ∷ server_more) w)
        (server_main-Served atoi rounds server_fd memory_addr memory_server server_program
          server_port server_ip server_drop server_more server_percent server_few server_reads
          handshake w four unsent calling enough) in
    let quiet : Silent (record v { incoming = w'.sent }) session_packets = record {
      unsaid = unsaid;
      unheard = unheard;
      reply = sent;
    } in
    let (status', v', ran, (ended, remaining, handed, spoken)) = Yields-some Ended _ (
      client_main-Took atoi rounds client_fd memory_client memory_server client_program client_port
        server_ip client_drop client_more client_percent client_few client_reads
        (record v { incoming = w'.sent }) quiet enough') in
    (
      figures,
      w',
      served ∙ ap (λ q. some (q, w')) status,
      sent,
      ap length sent ∙ ap (λ n. suc n) session_packets-length,
      v',
      ran ∙ ap (λ n. some (n, v')) ended,
      remaining,
      handed ∙ sym sent,
      spoken,
    )
