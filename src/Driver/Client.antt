-- ===== src/Driver/Client.antt =====
-- HW1/part2/SocketClient.cpp. Buffers start as `make_unique` makes them, filled with 0.
use Prim.Native.String.{String}
use cs739_distributed_system.Base.{
  ℕ, zero, suc, ◌*◌, List, [], ◌∷◌, replicate, ℤ, pos, to_u32, State, Partial, ◌>>=◌, ◌>>◌, pure,
  finish, after,
}
use cs739_distributed_system.Udp.Net.{SockAddr, Net}
use cs739_distributed_system.Udp.Client.{
  ClientSocket, client_socket, client_set_drop_percentage, connect, client_read_data, client_close,
}
use cs739_distributed_system.Driver.Plan.{
  Group, Lossy, groups, lossy_groups, total_size, slice, store_slice,
}

abbrev pub client_packet_sizes : List ℕ
client_packet_sizes =
    (1024 * 1) ∷ (1024 * 2) ∷ (1024 * 4) ∷ (1024 * 8) ∷ (1024 * 16) ∷ (1024 * 32) ∷ (1024 * 63) ∷ []

-- The rounds of `calculate_round_trip_times`.
unfoldable pub client_round_trips : List Group
unfolding groups
client_round_trips = groups 500 0 client_packet_sizes

-- The one loop of `calculate_bandwidth`.
abbrev pub client_bandwidth : Group
client_bandwidth = record { skip_size = 0; pkt_size = 1024 * 63; count = 2000 }

-- The rounds of `calculate_round_trip_with_drops`.
unfoldable pub client_lossy : List Lossy
unfolding lossy_groups
client_lossy = lossy_groups 20 200 (1024 * 8) 5 0

module _ {W : Type 0} (net : Net W) where
  -- `for (int i = 0; i < iterations; ++i) { client.ReadData(buffer.get() + skip_size, pkt_size); }`
  unfoldable pub read_times : ℕ → Group → ClientSocket → List ℕ → State W (ClientSocket × List ℕ)
  read_times zero g s buffer w = ((s, buffer), w)
  read_times (suc n) g s buffer w =
      let r = client_read_data net s (slice g buffer) w in
      read_times n g r.0.1 (store_slice g buffer r.0.2) r.1

  -- The outer loop of `calculate_round_trip_times`.
  unfoldable pub read_groups : List Group → ClientSocket → List ℕ → State W (ClientSocket × List ℕ)
  read_groups [] s buffer w = ((s, buffer), w)
  read_groups (g ∷ rest) s buffer w =
      let r = read_times g.count g s buffer w in read_groups rest r.0.0 r.0.1 r.1

  -- The outer loop of `calculate_round_trip_with_drops`.
  unfoldable pub read_lossy : List Lossy → ClientSocket → List ℕ → State W (ClientSocket × List ℕ)
  read_lossy [] s buffer w = ((s, buffer), w)
  read_lossy (l ∷ rest) s buffer w =
      let p = client_set_drop_percentage net s (pos l.drop_percent) w in
      let r = read_times l.group.count l.group p.0 buffer p.1 in read_lossy rest r.0.0 r.0.1 r.1

  unfoldable pub client_round_trip_times : ClientSocket → State W (ClientSocket × List ℕ)
  client_round_trip_times s =
      read_groups client_round_trips s (replicate (total_size client_packet_sizes) 0)

  unfoldable pub client_calculate_bandwidth : ClientSocket → State W (ClientSocket × List ℕ)
  client_calculate_bandwidth s =
      let g = client_bandwidth in read_times g.count g s (replicate g.pkt_size 0)

  unfoldable pub client_round_trip_with_drops : ClientSocket → State W (ClientSocket × List ℕ)
  client_round_trip_with_drops s = read_lossy client_lossy s (replicate (1024 * 8 * 200) 0)

  -- The three measurements of `main`, and the destructor: the exit status.
  unfoldable pub client_measure : ClientSocket → State W ℕ
  client_measure s = do
    a ← client_round_trip_times s
    b ← client_calculate_bandwidth a.0
    c ← client_round_trip_with_drops b.0
    _ ← client_close net c.0
    pure 0

  -- `main`: the exit status. The result of `Connect` is ignored. `rounds` bounds the loop that
  -- sends the handshake.
  unfoldable pub client_main :
      ℕ → (String → ℤ) → ℤ → SockAddr → SockAddr → List String → Partial W ℕ
  client_main rounds atoi memory_fd memory_server memory_client
        (program ∷ port ∷ server_ip ∷ drop_percentage ∷ rest) =
      after
        (connect net rounds (
          client_socket memory_fd memory_server memory_client (to_u32 (atoi port)) server_ip
            (atoi drop_percentage)))
        (λ r. client_measure r.1)
  client_main rounds atoi memory_fd memory_server memory_client _ = do
    net.cerr "Usage: SocketClient port server_ip_address drop_percentage"
    finish (pure 1)
