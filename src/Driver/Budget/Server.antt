-- ===== src/Driver/Budget/Server.antt =====
-- Every `WriteData` of HW1/part2/SocketServer.cpp takes an acknowledgement of its own.
use cs739_distributed_system.Base.{
  ℕ, zero, suc, ◌+◌, ◌*◌, ◌≤◌, ◌≡◌, inl, inr, true, List, [], ◌∷◌, arith, Bool-cases, ℤ, pos,
  Allows, Allows-chain_of, Allows-after_of, Allows-mono,
}
use cs739_distributed_system.Udp.Net.{Net}
use cs739_distributed_system.Udp.Server.{
  ServerSocket, is_bad_percentage, server_write_data, server_set_drop_percentage, server_close,
}
use cs739_distributed_system.Udp.Protocol.{Message}
use cs739_distributed_system.Driver.Plan.{Group, Lossy, slice}
use cs739_distributed_system.Driver.Server.{
  counting_bytes, server_round_trips, server_bandwidth, server_lossy, write_times, timed_writes,
  round_trips, server_round_trip_times, server_calculate_bandwidth, lossy_round_trips,
  server_round_trip_with_drops, server_measure,
}
use cs739_distributed_system.Driver.Session.Sends.{packet_count, groups_of}
use cs739_distributed_system.Driver.Budget.{Spends}
use cs739_distributed_system.Driver.Budget.Writes.{Took, server_write_data-Took}

module _ {W : Type 0} (net : Net W) (budget : W → ℕ) (net_spends : Spends net budget) where
  open net_spends use {
    sends, spends, recvfrom_keeps, sendto_keeps, rand_keeps, clock_keeps, option_keeps, cerr_keeps,
    close_keeps,
  }

  write_times-Took :
      (n rounds bound : ℕ) (s : ServerSocket) (m : Message) (w : W)
      → s.accepted_connection ≡ true
      → budget w ≤ bound
      → Allows (Took net budget net_spends n bound) (write_times net rounds n s m w)
  unfolding write_times
  write_times-Took zero rounds bound s m w connected h = (connected, omega arith)
  write_times-Took (suc n) rounds bound s m w connected h =
      Allows-chain_of (Took net budget net_spends (suc n) bound) (server_write_data net rounds s m)
        _ w (server_write_data-Took net budget net_spends rounds bound s m w connected h)
        (λ r v k.
          Allows-mono (Took net budget net_spends (suc n) bound) (write_times net rounds n r.1 m v)
            (λ s' u l. (l.0, omega (arith, l.1, k.1)))
            (write_times-Took n rounds (budget v) r.1 m v k.0 (omega arith)))

  timed_writes-Took :
      (rounds bound : ℕ) (g : Group) (s : ServerSocket) (buffer : List ℕ) (w : W)
      → s.accepted_connection ≡ true
      → budget w ≤ bound
      → Allows
          (λ r v. Took net budget net_spends g.count bound r.1 v)
          (timed_writes net rounds g s buffer w)
  unfolding timed_writes
  timed_writes-Took rounds bound g s buffer w connected h =
      let start = (net.clock_gettime w).1 in
      Allows-chain_of (λ r v. Took net budget net_spends g.count bound r.1 v)
        (write_times net rounds g.count s (slice g buffer)) _ start
        (write_times-Took g.count rounds bound s (slice g buffer) start connected
          (omega (arith, clock_keeps w)))
        (λ s' v k. (k.0, omega (arith, k.1, clock_keeps v)))

  round_trips-Took :
      (rounds bound : ℕ) (gs : List Group) (s : ServerSocket) (buffer : List ℕ) (w : W)
      → s.accepted_connection ≡ true
      → budget w ≤ bound
      → Allows
          (λ r v. Took net budget net_spends (packet_count gs) bound r.1 v)
          (round_trips net rounds gs s buffer w)
  unfolding round_trips
  round_trips-Took rounds bound [] s buffer w connected h = (connected, omega arith)
  round_trips-Took rounds bound (g ∷ gs) s buffer w connected h =
      Allows-chain_of (λ r v. Took net budget net_spends (packet_count (g ∷ gs)) bound r.1 v)
        (timed_writes net rounds g s buffer) _ w
        (timed_writes-Took rounds bound g s buffer w connected h)
        (λ r v k.
          Allows-after_of (λ q u. Took net budget net_spends (packet_count (g ∷ gs)) bound q.1 u)
            (round_trips net rounds gs r.1 buffer) _ v
            (round_trips-Took rounds (budget v) gs r.1 buffer v k.0 (omega arith))
            (λ q u l. (l.0, omega (arith, k.1, l.1))))

  server_set_drop_percentage-Took :
      (s : ServerSocket) (percentage : ℤ) (w : W)
      → s.accepted_connection ≡ true
      → let r = server_set_drop_percentage net s percentage w in
        Took net budget net_spends 0 (budget w) r.0 r.1
  unfolding server_set_drop_percentage
  server_set_drop_percentage-Took s percentage w connected =
      elim (Bool-cases (is_bad_percentage percentage)) [
        | inl e ↦ rw e (connected, omega (arith, cerr_keeps ": Invalid packet drop percentage" w))
        | inr e ↦ rw e (connected, omega arith)
      ]

  lossy_round_trips-Took :
      (rounds bound : ℕ) (ls : List Lossy) (s : ServerSocket) (buffer : List ℕ) (w : W)
      → s.accepted_connection ≡ true
      → budget w ≤ bound
      → Allows
          (λ r v. Took net budget net_spends (packet_count (groups_of ls)) bound r.1 v)
          (lossy_round_trips net rounds ls s buffer w)
  unfolding lossy_round_trips
  lossy_round_trips-Took rounds bound [] s buffer w connected h = (connected, omega arith)
  lossy_round_trips-Took rounds bound (l ∷ ls) s buffer w connected h =
      let p = server_set_drop_percentage net s (pos l.drop_percent) w in
      let set = server_set_drop_percentage-Took s (pos l.drop_percent) w connected in
      Allows-chain_of
        (λ r v. Took net budget net_spends (packet_count (groups_of (l ∷ ls))) bound r.1 v)
        (timed_writes net rounds l.group p.0 buffer) _ p.1
        (timed_writes-Took rounds bound l.group p.0 buffer p.1 set.0 (omega (arith, set.1)))
        (λ r v k.
          Allows-after_of
            (λ q u. Took net budget net_spends (packet_count (groups_of (l ∷ ls))) bound q.1 u)
            (lossy_round_trips net rounds ls r.1 buffer) _ v
            (lossy_round_trips-Took rounds (budget v) ls r.1 buffer v k.0 (omega arith))
            (λ q u m. (m.0, omega (arith, k.1, m.1))))

  server_round_trip_times-Took :
      (rounds bound : ℕ) (s : ServerSocket) (w : W)
      → s.accepted_connection ≡ true
      → budget w ≤ bound
      → Allows
          (λ r v. Took net budget net_spends 3500 bound r.1 v)
          (server_round_trip_times net rounds s w)
  unfolding server_round_trip_times server_round_trips
  server_round_trip_times-Took rounds bound s w connected h =
      round_trips-Took rounds bound server_round_trips s _ w connected h

  server_calculate_bandwidth-Took :
      (rounds bound : ℕ) (s : ServerSocket) (w : W)
      → s.accepted_connection ≡ true
      → budget w ≤ bound
      → Allows
          (λ r v. Took net budget net_spends 2000 bound r.1 v)
          (server_calculate_bandwidth net rounds s w)
  unfolding server_calculate_bandwidth
  server_calculate_bandwidth-Took rounds bound s w connected h =
      Allows-after_of (λ r v. Took net budget net_spends 2000 bound r.1 v)
        (timed_writes net rounds server_bandwidth s (counting_bytes (1024 * 63) 0)) _ w
        (timed_writes-Took rounds bound server_bandwidth s (counting_bytes (1024 * 63) 0) w
          connected h)
        (λ r v k. k)

  server_round_trip_with_drops-Took :
      (rounds bound : ℕ) (s : ServerSocket) (w : W)
      → s.accepted_connection ≡ true
      → budget w ≤ bound
      → Allows
          (λ r v. Took net budget net_spends 3600 bound r.1 v)
          (server_round_trip_with_drops net rounds s w)
  unfolding server_round_trip_with_drops server_lossy
  server_round_trip_with_drops-Took rounds bound s w connected h =
      lossy_round_trips-Took rounds bound server_lossy s _ w connected h

  -- The measurements of a connected server take 9100 acknowledgements.
  pub server_measure-Took :
      (rounds : ℕ) (s : ServerSocket) (w : W)
      → s.accepted_connection ≡ true
      → Allows (λ r v. 9100 + budget v ≤ budget w) (server_measure net rounds s w)
  unfolding server_measure server_close
  server_measure-Took rounds s w connected =
      Allows-chain_of (λ r v. 9100 + budget v ≤ budget w) (server_round_trip_times net rounds s) _ w
        (server_round_trip_times-Took rounds (budget w) s w connected (omega arith))
        (λ a u k.
          Allows-chain_of (λ r v. 9100 + budget v ≤ budget w)
            (server_calculate_bandwidth net rounds a.1) _ u
            (server_calculate_bandwidth-Took rounds (budget u) a.1 u k.0 (omega arith))
            (λ b v l.
              Allows-after_of (λ r x. 9100 + budget x ≤ budget w)
                (server_round_trip_with_drops net rounds b.1) _ v
                (server_round_trip_with_drops-Took rounds (budget v) b.1 v l.0 (omega arith))
                (λ c x m. omega (arith, k.1, l.1, m.1, close_keeps c.1.sock_fd x))))
