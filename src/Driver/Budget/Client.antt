-- ===== src/Driver/Budget/Client.antt =====
-- Every `ReadData` of HW1/part2/SocketClient.cpp sends at most one acknowledgement, so one that is
-- lost is missing for ever.
use Prim.Native.String.{String}
use cs739_distributed_system.Base.{
  ℕ, zero, suc, ◌+◌, ◌≤◌, ◌<◌, ◌≡◌, inl, inr, true, none, List, [], ◌∷◌, arith, Bool-cases, length,
  ℤ, pos, minus_one, is_neg, Allows-nothing,
}
use cs739_distributed_system.Udp.Net.{Net, Received, failed, received, encode32, ack_word}
use cs739_distributed_system.Udp.Server.{ServerSocket, is_bad_percentage}
use cs739_distributed_system.Udp.Client.{
  ClientSocket, client_set_drop_percentage, client_acknowledge, client_store, client_read_connected,
  client_read_data, client_close,
}
use cs739_distributed_system.Driver.Plan.{Group, Lossy, slice, store_slice}
use cs739_distributed_system.Driver.Server.{server_measure}
use cs739_distributed_system.Driver.Client.{
  client_round_trips, client_bandwidth, client_lossy, read_times, read_groups, read_lossy,
  client_round_trip_times, client_calculate_bandwidth, client_round_trip_with_drops, client_measure,
}
use cs739_distributed_system.Driver.Session.Sends.{packet_count, groups_of}
use cs739_distributed_system.Driver.Budget.{Spends, Counts}
use cs739_distributed_system.Driver.Budget.Server.{server_measure-Took}

module _ {W : Type 0} (net : Net W) (sent : W → ℕ) (net_counts : Counts net sent) where
  open net_counts use {sendto_counts, recvfrom_keeps, cerr_keeps, close_keeps}

  client_acknowledge_sent :
      (s : ClientSocket) (buff : List ℕ) (len : ℤ) (w : W)
      → sent (client_acknowledge net s buff len w).1 ≤ suc (sent w)
  unfolding client_acknowledge
  client_acknowledge_sent s buff len w =
      let r = net.sendto s.sock_fd (encode32 ack_word) s.server_addr w in
      let once : sent r.1 ≤ suc (sent w) =
        sendto_counts s.sock_fd (encode32 ack_word) s.server_addr w in
      elim (Bool-cases (is_neg r.0)) [
        | inl e ↦ rw e (omega (arith, once, cerr_keeps ": Error in send the ack" r.1))
        | inr e ↦ rw e once
      ]

  client_store_sent :
      (s : ClientSocket) (buff : List ℕ) (m : Received) (w : W)
      → sent (client_store net s buff m w).1 ≤ suc (sent w)
  unfolding client_store
  client_store_sent s buff failed w = omega (arith, cerr_keeps " : Error in receiving data" w)
  client_store_sent s buff (received bytes from) w = client_acknowledge_sent _ _ _ w

  client_read_data_sent :
      (s : ClientSocket) (buff : List ℕ) (w : W)
      → sent (client_read_data net s buff w).1 ≤ suc (sent w)
  unfolding client_read_data client_read_connected
  client_read_data_sent s buff w =
      let r = net.recvfrom s.sock_fd (length buff) w in
      elim (Bool-cases s.accepted_connection) [
        | inl e ↦
            let same : client_read_data net s buff w ≡ client_store net s buff r.0 r.1 = simp e in
            rw same (
              omega
                (arith, client_store_sent s buff r.0 r.1, recvfrom_keeps s.sock_fd (length buff) w))
        | inr e ↦
            let text : String = " : Unable to read since no connection is established." in
            let same : client_read_data net s buff w ≡ ((minus_one, s, buff), (net.cerr text w).1) =
              simp e in
            rw same (omega (arith, cerr_keeps text w))
      ]

  read_times_sent :
      (n : ℕ) (g : Group) (s : ClientSocket) (buffer : List ℕ) (w : W)
      → sent (read_times net n g s buffer w).1 ≤ n + sent w
  unfolding read_times
  read_times_sent zero g s buffer w = omega arith
  read_times_sent (suc n) g s buffer w =
      let r = client_read_data net s (slice g buffer) w in
      omega (
        arith,
        client_read_data_sent s (slice g buffer) w,
        read_times_sent n g r.0.1 (store_slice g buffer r.0.2) r.1,
      )

  read_groups_sent :
      (gs : List Group) (s : ClientSocket) (buffer : List ℕ) (w : W)
      → sent (read_groups net gs s buffer w).1 ≤ packet_count gs + sent w
  unfolding read_groups
  read_groups_sent [] s buffer w = omega arith
  read_groups_sent (g ∷ gs) s buffer w =
      let r = read_times net g.count g s buffer w in
      omega (arith, read_times_sent g.count g s buffer w, read_groups_sent gs r.0.0 r.0.1 r.1)

  client_set_drop_percentage_sent :
      (s : ClientSocket) (percentage : ℤ) (w : W)
      → sent (client_set_drop_percentage net s percentage w).1 ≤ sent w
  unfolding client_set_drop_percentage
  client_set_drop_percentage_sent s percentage w =
      elim (Bool-cases (is_bad_percentage percentage)) [
        | inl e ↦ rw e (cerr_keeps ": Invalid packet drop percentage" w)
        | inr e ↦ rw e (omega arith)
      ]

  read_lossy_sent :
      (ls : List Lossy) (s : ClientSocket) (buffer : List ℕ) (w : W)
      → sent (read_lossy net ls s buffer w).1 ≤ packet_count (groups_of ls) + sent w
  unfolding read_lossy
  read_lossy_sent [] s buffer w = omega arith
  read_lossy_sent (l ∷ ls) s buffer w =
      let p = client_set_drop_percentage net s (pos l.drop_percent) w in
      let r = read_times net l.group.count l.group p.0 buffer p.1 in
      omega (
        arith,
        client_set_drop_percentage_sent s (pos l.drop_percent) w,
        read_times_sent l.group.count l.group p.0 buffer p.1,
        read_lossy_sent ls r.0.0 r.0.1 r.1,
      )

  client_round_trip_times_sent :
      (s : ClientSocket) (w : W) → sent (client_round_trip_times net s w).1 ≤ 3500 + sent w
  unfolding client_round_trip_times client_round_trips
  client_round_trip_times_sent s w = read_groups_sent client_round_trips s _ w

  client_calculate_bandwidth_sent :
      (s : ClientSocket) (w : W) → sent (client_calculate_bandwidth net s w).1 ≤ 2000 + sent w
  unfolding client_calculate_bandwidth
  client_calculate_bandwidth_sent s w = read_times_sent 2000 client_bandwidth s _ w

  client_round_trip_with_drops_sent :
      (s : ClientSocket) (w : W) → sent (client_round_trip_with_drops net s w).1 ≤ 3600 + sent w
  unfolding client_round_trip_with_drops client_lossy
  client_round_trip_with_drops_sent s w = read_lossy_sent client_lossy s _ w

  -- The measurements of the client send at most 9100 datagrams, whatever comes.
  client_measure_sent : (s : ClientSocket) (w : W) → sent (client_measure net s w).1 ≤ 9100 + sent w
  unfolding client_measure client_close
  client_measure_sent s w =
      let a = client_round_trip_times net s w in
      let b = client_calculate_bandwidth net a.0.0 a.1 in
      let c = client_round_trip_with_drops net b.0.0 b.1 in
      omega (
        arith,
        client_round_trip_times_sent s w,
        client_calculate_bandwidth_sent a.0.0 a.1,
        client_round_trip_with_drops_sent b.0.0 b.1,
        close_keeps c.0.0.sock_fd c.1,
      )

-- Take a connected server on a system where every `sendto` succeeds, and a client on any system.
-- When fewer acknowledgements reach the server in its measurements than the client sends datagrams
-- in its own, because one is lost, the server's measurements do not end, for any number of rounds.
pub lost_ack_hangs :
    {W V : Type 0} (net : Net W) (client_net : Net V) (budget : W → ℕ) (sent : V → ℕ) (rounds : ℕ)
    (server : ServerSocket) (w : W) (client : ClientSocket) (v : V)
    → Spends net budget
    → Counts client_net sent
    → server.accepted_connection ≡ true
    → sent v + budget w < sent (client_measure client_net client v).1
    → server_measure net rounds server w ≡ none
lost_ack_hangs net client_net budget sent rounds server w client v net_spends net_counts connected
      fewer =
    Allows-nothing (λ r u. 9100 + budget u ≤ budget w) (server_measure net rounds server w)
      (λ r u h. omega (arith, h, fewer, client_measure_sent client_net sent net_counts client v))
      (server_measure-Took net budget net_spends rounds server w connected)
