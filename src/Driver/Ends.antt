-- ===== src/Driver/Ends.antt =====
-- The measurements of HW1/part2/SocketServer.cpp end.
use cs739_distributed_system.Base.{
  ℕ, zero, suc, ◌*◌, ◌<◌, ◌≡◌, refl, ap, inl, inr, false, List, [], ◌∷◌, Bool-cases, length, pos,
  Yields, Yields-chain, Yields-after,
}
use cs739_distributed_system.Udp.Net.{Net}
use cs739_distributed_system.Udp.Server.{
  ServerSocket, server_write_data, server_set_drop_percentage,
}
use cs739_distributed_system.Udp.Liveness.{Answers, server_write_data_returns}
use cs739_distributed_system.Udp.Keeps.{
  Keeps, server_write_data-keeps, server_set_drop_percentage-keeps,
}
use cs739_distributed_system.Driver.Plan.{Group, Lossy, slice}
use cs739_distributed_system.Driver.Server.{
  Average, Bandwidth, write_times, timed_writes, round_trips, server_round_trip_times,
  server_calculate_bandwidth, lossy_round_trips, server_round_trip_with_drops, server_measure,
  server_round_trips, server_lossy, server_bandwidth,
}

-- What `main` prints: a line for each packet size and each percentage, and what was sent.
abbrev pub Reported : {W : Type 0} → List Average × Bandwidth × List Average → W → Type 0
Reported r w = (length r.0 ≡ 7) × (r.1.bytes ≡ 1024 * 63 * 2000) × (length r.2 ≡ 18)

module _ {W : Type 0} (net : Net W) (pending : W → ℕ) (rounds : ℕ)
    (net_answers : Answers net pending) (net_keeps : Keeps net (λ w. pending w < rounds)) where
  -- The network answers in time.
  abbrev Ready : W → Type 0
  Ready w = pending w < rounds

  refused_write-Ready :
      (s : ServerSocket) (buff : List ℕ) (w : W)
      → s.accepted_connection ≡ false
      → Ready w
      → Yields (λ r v. Ready v) (server_write_data net rounds s buff w)
  unfolding server_write_data
  refused_write-Ready s buff w e h = simp e (net_keeps.cerr_keeps _ w h)

  server_write_data-Ready :
      (s : ServerSocket) (buff : List ℕ) (w : W)
      → Ready w
      → Yields (λ r v. Ready v) (server_write_data net rounds s buff w)
  server_write_data-Ready s buff w h = elim (Bool-cases s.accepted_connection) [
    | inl e ↦
        let (s', w', returned) =
          server_write_data_returns net pending net_answers buff rounds s w e h in
        rw returned
          (server_write_data-keeps net (λ v. pending v < rounds) net_keeps rounds s buff w (pos 0)
            s' w' e h returned).1
    | inr e ↦ refused_write-Ready s buff w e h
  ]

  write_times-Ready :
      (n : ℕ) (s : ServerSocket) (packet : List ℕ) (w : W)
      → Ready w
      → Yields (λ s. Ready) (write_times net rounds n s packet w)
  unfolding write_times
  write_times-Ready zero s packet w h = h
  write_times-Ready (suc n) s packet w h =
      Yields-chain (λ s. Ready) (server_write_data net rounds s packet) _ w
        (server_write_data-Ready s packet w h) (λ r v k. write_times-Ready n r.1 packet v k)

  timed_writes-Ready :
      (g : Group) (s : ServerSocket) (buffer : List ℕ) (w : W)
      → Ready w
      → Yields (λ r v. Ready v) (timed_writes net rounds g s buffer w)
  unfolding timed_writes
  timed_writes-Ready g s buffer w h =
      let start = net.clock_gettime w in
      Yields-chain (λ r v. Ready v) (write_times net rounds g.count s (slice g buffer)) _ start.1
        (write_times-Ready g.count s (slice g buffer) start.1 (net_keeps.clock_keeps w h))
        (λ s' v k. net_keeps.clock_keeps v k)

  -- The network is still ready, and a line was printed for each of so many groups.
  abbrev Printed : ℕ → List Average × ServerSocket → W → Type 0
  Printed n r w = (length r.0 ≡ n) × Ready w

  round_trips-Printed :
      (gs : List Group) (s : ServerSocket) (buffer : List ℕ) (w : W)
      → Ready w
      → Yields (Printed (length gs)) (round_trips net rounds gs s buffer w)
  unfolding round_trips
  round_trips-Printed [] s buffer w h = (refl, h)
  round_trips-Printed (g ∷ rest) s buffer w h =
      Yields-chain (Printed (length (g ∷ rest))) (timed_writes net rounds g s buffer) _ w
        (timed_writes-Ready g s buffer w h)
        (λ r v k.
          Yields-after (Printed (length (g ∷ rest))) (round_trips net rounds rest r.1 buffer) _ v
            (round_trips-Printed rest r.1 buffer v k) (λ q u p. (ap suc p.0, p.1)))

  lossy_round_trips-Printed :
      (ls : List Lossy) (s : ServerSocket) (buffer : List ℕ) (w : W)
      → Ready w
      → Yields (Printed (length ls)) (lossy_round_trips net rounds ls s buffer w)
  unfolding lossy_round_trips
  lossy_round_trips-Printed [] s buffer w h = (refl, h)
  lossy_round_trips-Printed (l ∷ rest) s buffer w h =
      let set = server_set_drop_percentage net s (pos l.drop_percent) w in
      let kept =
        server_set_drop_percentage-keeps net (λ v. pending v < rounds) net_keeps s
          (pos l.drop_percent) w h in
      Yields-chain (Printed (length (l ∷ rest))) (timed_writes net rounds l.group set.0 buffer) _
        set.1 (timed_writes-Ready l.group set.0 buffer set.1 kept.1)
        (λ r v k.
          Yields-after (Printed (length (l ∷ rest))) (lossy_round_trips net rounds rest r.1 buffer)
            _ v (lossy_round_trips-Printed rest r.1 buffer v k) (λ q u p. (ap suc p.0, p.1)))

  bandwidth-Ready :
      (s : ServerSocket) (w : W)
      → Ready w
      → Yields
          (λ r v. (r.0.bytes ≡ 1024 * 63 * 2000) × Ready v)
          (server_calculate_bandwidth net rounds s w)
  unfolding server_calculate_bandwidth
  bandwidth-Ready s w h =
      Yields-after (λ r v. (r.0.bytes ≡ 1024 * 63 * 2000) × Ready v)
        (timed_writes net rounds server_bandwidth s _) _ w
        (timed_writes-Ready server_bandwidth s _ w h) (λ r v k. (refl, k))

  -- On a network that answers, and whether or not the object is connected, the three measurements of the server end
  -- and print a line for each of the seven packet sizes and each of the eighteen percentages.
  pub server_measure-Reported :
      (s : ServerSocket) (w : W)
      → pending w < rounds
      → Yields Reported (server_measure net rounds s w)
  unfolding server_measure server_round_trip_times server_round_trip_with_drops server_round_trips
      server_lossy
  server_measure-Reported s w h =
      Yields-chain Reported (server_round_trip_times net rounds s) _ w
        (round_trips-Printed server_round_trips s _ w h)
        (λ a u k.
          Yields-chain Reported (server_calculate_bandwidth net rounds a.1) _ u
            (bandwidth-Ready a.1 u k.1)
            (λ b v l.
              Yields-after Reported (server_round_trip_with_drops net rounds b.1) _ v
                (lossy_round_trips-Printed server_lossy b.1 _ v l.1) (λ c x m. (k.0, l.0, m.0))))
