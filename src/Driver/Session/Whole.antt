-- ===== src/Driver/Session/Whole.antt =====
-- What the client's buffers hold after the measurements of the round trip and of the bandwidth in
-- HW1/part2/SocketServer.cpp and HW1/part2/SocketClient.cpp.
use cs739_distributed_system.Base.{
  ℕ, ◌*◌, ◌≤◌, ◌<◌, ◌≡◌, sym, ap, ◌∙◌, true, some, List, [], ◌∷◌, ◌++◌, append-nil, arith,
  Yields-some,
}
use cs739_distributed_system.Udp.Server.{ServerSocket}
use cs739_distributed_system.Udp.Client.{ClientSocket}
use cs739_distributed_system.Udp.Protocol.{Message}
use cs739_distributed_system.Driver.Plan.{total_size}
use cs739_distributed_system.Driver.Server.{
  Average, Bandwidth, counting_bytes, server_packet_sizes, server_round_trips, server_bandwidth,
  server_round_trip_times, server_calculate_bandwidth,
}
use cs739_distributed_system.Driver.Client.{client_round_trip_times, client_calculate_bandwidth}
use cs739_distributed_system.Driver.Session.{reads, Outlet, outlet_net, Inlet, inlet_net}
use cs739_distributed_system.Driver.Session.Writes.{pending, Wrote, Willing}
use cs739_distributed_system.Driver.Session.Sends.{
  sent_by, server_round_trip_times-Wrote, bandwidth-Wrote,
}
use cs739_distributed_system.Driver.Session.Receives.{Speaking, Took-Speaking}
use cs739_distributed_system.Driver.Session.Measures.{
  client_round_trip_times-Read, client_calculate_bandwidth-Read,
}

abbrev first : List Message
first = sent_by server_round_trips (counting_bytes (total_size server_packet_sizes) 0)

abbrev second : List Message
second = sent_by (server_bandwidth ∷ []) (counting_bytes (1024 * 63) 0)

-- Take a connected server and a connected client that has spoken, over a network that loses nothing,
-- where the server drops at most 99 percent and the rounds of its loops are more than the random
-- numbers and times that are given. Then `calculate_round_trip_times` and `calculate_bandwidth` of
-- the server end; and when the client gets what the server sent, its two functions leave in their
-- buffers exactly the bytes of the server's buffers, and no datagram is left.
pub buffers_copied :
    (percent : ℕ) (few : percent ≤ 99) (rounds : ℕ) (server : ServerSocket) (client : ClientSocket)
    (w : Outlet) (v : Inlet)
    → Willing percent server
    → w.sent ≡ []
    → w.caller ≡ reads 0
    → pending w < rounds
    → client.accepted_connection ≡ true
    → Speaking v
    → (a : List Average × ServerSocket) × (w1 : Outlet) × (b : Bandwidth × ServerSocket)
      × (w2 : Outlet) × (server_round_trip_times outlet_net rounds server w ≡ some (a, w1))
      × (server_calculate_bandwidth outlet_net rounds a.1 w1 ≡ some (b, w2))
      × (let c = client_round_trip_times inlet_net client (record v { incoming = w2.sent }) in
          let d = client_calculate_bandwidth inlet_net c.0.0 c.1 in
          (c.0.1 ≡ counting_bytes (total_size server_packet_sizes) 0)
          × (d.0.1 ≡ counting_bytes (1024 * 63) 0)
          × (d.1.incoming ≡ []))
buffers_copied percent few rounds server client w v willing unsent idle enough connected speaking =
    let (a, w1, ran, (ready, wrote)) =
      Yields-some (λ r u. Willing percent r.1 × Wrote w u first)
        (server_round_trip_times outlet_net rounds server w)
        (server_round_trip_times-Wrote percent few rounds server w willing idle enough) in
    let (b, w2, ran', (still, wrote')) =
      Yields-some (λ r u. Willing percent r.1 × Wrote w1 u second)
        (server_calculate_bandwidth outlet_net rounds a.1 w1)
        (bandwidth-Wrote percent few rounds a.1 w1 ready wrote.answered
          (omega (arith, wrote.fewer))) in
    let sent : w2.sent ≡ first ++ second =
      wrote'.sent_them ∙ ap (λ l. l ++ second) (wrote.sent_them ∙ ap (λ l. l ++ first) unsent) in
    let start : Inlet = record v { incoming = w2.sent } in
    let c = client_round_trip_times inlet_net client start in
    let (ready', copied, took) =
      client_round_trip_times-Read client second start connected speaking sent in
    let (ready'', copied', took') =
      client_calculate_bandwidth-Read c.0.0 [] c.1 ready'
        (Took-Speaking start c.1 first second speaking took)
        (took.remaining ∙ sym (append-nil second)) in
    (a, w1, b, w2, ran, ran', (copied, copied', took'.remaining))
