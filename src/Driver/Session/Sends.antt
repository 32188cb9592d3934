-- ===== src/Driver/Session/Sends.antt =====
-- What HW1/part2/SocketServer.cpp sends over a network that loses nothing.
use cs739_distributed_system.Base.{
  ℕ, ◌+◌, ◌*◌, ◌≤◌, ◌<◌, ◌≡◌, refl, true, false, List, [], ◌∷◌, ◌++◌, arith, ltb, le→ltb, replicate,
  All, pos, Yields, Yields-chain, Yields-after,
}
use cs739_distributed_system.Udp.Server.{
  ServerSocket, is_bad_percentage, server_set_drop_percentage, server_close,
}
use cs739_distributed_system.Udp.Protocol.{Message}
use cs739_distributed_system.Driver.Plan.{Group, Lossy, slice, total_size}
use cs739_distributed_system.Driver.Server.{
  counting_bytes, server_packet_sizes, server_round_trips, server_bandwidth, server_lossy,
  timed_writes, round_trips, server_round_trip_times, server_calculate_bandwidth, lossy_round_trips,
  server_round_trip_with_drops, server_measure,
}
use cs739_distributed_system.Driver.Session.{reads, Outlet, outlet_net}
use cs739_distributed_system.Driver.Session.Writes.{
  pending, Wrote, Wrote-nothing, Wrote-both, Willing, timed_writes-Wrote,
}

-- The packets of some groups, from one buffer.
unfoldable pub sent_by : List Group → List ℕ → List Message
sent_by [] buffer = []
sent_by (g ∷ rest) buffer = replicate g.count (slice g buffer) ++ sent_by rest buffer

-- How many packets these are.
abbrev pub packet_count : List Group → ℕ
packet_count [] = 0
packet_count (g ∷ rest) = g.count + packet_count rest

abbrev pub groups_of : List Lossy → List Group
groups_of [] = []
groups_of (l ∷ rest) = l.group ∷ groups_of rest

module _ (percent : ℕ) (few : percent ≤ 99) (rounds : ℕ) where
  round_trips-Wrote :
      (gs : List Group) (s : ServerSocket) (buffer : List ℕ) (w : Outlet)
      → Willing percent s
      → w.caller ≡ reads 0
      → pending w < rounds
      → Yields
          (λ r v. Willing percent r.1 × Wrote w v (sent_by gs buffer))
          (round_trips outlet_net rounds gs s buffer w)
  unfolding round_trips sent_by
  round_trips-Wrote [] s buffer w h answered enough = (h, Wrote-nothing w answered)
  round_trips-Wrote (g ∷ rest) s buffer w h answered enough =
      Yields-chain (λ r v. Willing percent r.1 × Wrote w v (sent_by (g ∷ rest) buffer))
        (timed_writes outlet_net rounds g s buffer) _ w
        (timed_writes-Wrote percent few rounds g s buffer w h answered enough)
        (λ r u k.
          Yields-after (λ r v. Willing percent r.1 × Wrote w v (sent_by (g ∷ rest) buffer))
            (round_trips outlet_net rounds rest r.1 buffer) _ u
            (round_trips-Wrote rest r.1 buffer u k.0 k.1.answered (omega (arith, k.1.fewer)))
            (λ q v l. (l.0, Wrote-both w u v _ (sent_by rest buffer) k.1 l.1)))

module _ (rounds : ℕ) where
  server_set_drop_percentage-eq :
      (percent : ℕ) (s : ServerSocket) (w : Outlet)
      → percent ≤ 99
      → server_set_drop_percentage outlet_net s (pos percent) w
        ≡ (record s { percent_drop = pos percent }, w)
  unfolding server_set_drop_percentage is_bad_percentage
  server_set_drop_percentage-eq percent s w few =
      let fine : ltb 99 percent ≡ false = le→ltb 99 percent few in rw fine refl

  lossy_round_trips-Wrote :
      (ls : List Lossy) (s : ServerSocket) (buffer : List ℕ) (w : Outlet)
      → All (λ l. l.drop_percent ≤ 99) ls
      → s.accepted_connection ≡ true
      → w.caller ≡ reads 0
      → pending w < rounds
      → Yields
          (λ r v. Wrote w v (sent_by (groups_of ls) buffer))
          (lossy_round_trips outlet_net rounds ls s buffer w)
  unfolding lossy_round_trips sent_by
  lossy_round_trips-Wrote [] s buffer w all h answered enough = Wrote-nothing w answered
  lossy_round_trips-Wrote (l ∷ rest) s buffer w (few, all) h answered enough =
      let s' = record s { percent_drop = pos l.drop_percent } in
      let willing : Willing l.drop_percent s' = record { connected = h; dropping = refl } in
      rw (server_set_drop_percentage-eq l.drop_percent s w few) (
        Yields-chain (λ r v. Wrote w v (sent_by (groups_of (l ∷ rest)) buffer))
          (timed_writes outlet_net rounds l.group s' buffer) _ w
          (timed_writes-Wrote l.drop_percent few rounds l.group s' buffer w willing answered enough)
          (λ r u k.
            Yields-after (λ r v. Wrote w v (sent_by (groups_of (l ∷ rest)) buffer))
              (lossy_round_trips outlet_net rounds rest r.1 buffer) _ u
              (lossy_round_trips-Wrote rest r.1 buffer u all k.0.connected k.1.answered
                (omega (arith, k.1.fewer)))
              (λ q v m. Wrote-both w u v _ (sent_by (groups_of rest) buffer) k.1 m)))

-- What `main` sends in its three measurements.
unfoldable pub session_packets : List Message
session_packets =
    sent_by server_round_trips (counting_bytes (total_size server_packet_sizes) 0)
    ++ (sent_by (server_bandwidth ∷ []) (counting_bytes (1024 * 63) 0)
        ++ sent_by (groups_of server_lossy) (counting_bytes (1024 * 8 * 200) 0))

-- The percentages of `main` are at most 99.
server_lossy-few : All (λ l. l.drop_percent ≤ 99) server_lossy
unfolding server_lossy
server_lossy-few = omega arith

module _ (percent : ℕ) (few : percent ≤ 99) (rounds : ℕ) where
  pub bandwidth-Wrote :
      (s : ServerSocket) (w : Outlet)
      → Willing percent s
      → w.caller ≡ reads 0
      → pending w < rounds
      → Yields
          (λ r v.
            Willing percent r.1
            × Wrote w v (sent_by (server_bandwidth ∷ []) (counting_bytes (1024 * 63) 0)))
          (server_calculate_bandwidth outlet_net rounds s w)
  unfolding server_calculate_bandwidth sent_by
  bandwidth-Wrote s w h answered enough =
      Yields-after
        (λ r v.
          Willing percent r.1
          × Wrote w v (sent_by (server_bandwidth ∷ []) (counting_bytes (1024 * 63) 0)))
        (timed_writes outlet_net rounds server_bandwidth s (counting_bytes (1024 * 63) 0)) _ w
        (timed_writes-Wrote percent few rounds server_bandwidth s (counting_bytes (1024 * 63) 0) w h
          answered enough)
        (λ r v k. (k.0, Wrote-both w v v _ [] k.1 (Wrote-nothing v k.1.answered)))

  pub server_round_trip_times-Wrote :
      (s : ServerSocket) (w : Outlet)
      → Willing percent s
      → w.caller ≡ reads 0
      → pending w < rounds
      → Yields
          (λ r v.
            Willing percent r.1
            × Wrote w v
                (sent_by server_round_trips (counting_bytes (total_size server_packet_sizes) 0)))
          (server_round_trip_times outlet_net rounds s w)
  unfolding server_round_trip_times
  server_round_trip_times-Wrote s w h answered enough =
      round_trips-Wrote percent few rounds server_round_trips s _ w h answered enough

  -- All measurements end, and every packet was sent once.
  pub server_measure-Wrote :
      (s : ServerSocket) (w : Outlet)
      → Willing percent s
      → w.caller ≡ reads 0
      → pending w < rounds
      → Yields (λ r v. Wrote w v session_packets) (server_measure outlet_net rounds s w)
  unfolding server_measure server_round_trip_times server_round_trip_with_drops server_close
      session_packets
  server_measure-Wrote s w h answered enough =
      Yields-chain (λ r v. Wrote w v session_packets) (server_round_trip_times outlet_net rounds s)
        _ w (round_trips-Wrote percent few rounds server_round_trips s _ w h answered enough)
        (λ a u k.
          Yields-chain (λ r v. Wrote w v session_packets)
            (server_calculate_bandwidth outlet_net rounds a.1) _ u
            (bandwidth-Wrote a.1 u k.0 k.1.answered (omega (arith, k.1.fewer)))
            (λ b v l.
              Yields-after (λ r x. Wrote w x session_packets)
                (server_round_trip_with_drops outlet_net rounds b.1) _ v
                (lossy_round_trips-Wrote rounds server_lossy b.1 _ v server_lossy-few l.0.connected
                  l.1.answered (omega (arith, k.1.fewer, l.1.fewer)))
                (λ c x m. Wrote-both w u x _ _ k.1 (Wrote-both u v x _ _ l.1 m))))
