-- ===== src/Driver/Server.antt =====
-- HW1/part2/SocketServer.cpp. The unused variables `min` and `max` are left out, and what is
-- printed is returned.
use Prim.Native.String.{String}
use cs739_distributed_system.Base.{
  ℕ, zero, suc, ◌+◌, ◌*◌, ◌/◌, ◌%◌, Option, none, some, List, [], ◌∷◌, ℤ, pos, to_u32, Partial,
  ◌>>=◌, ◌>>◌, pure, finish, after, chain,
}
use cs739_distributed_system.Clock.{elapsed}
use cs739_distributed_system.Udp.Net.{SockAddr, Net}
use cs739_distributed_system.Udp.Server.{
  no_value, returned, Bound, ServerSocket, exited, server_socket, server_set_drop_percentage,
  server_bind, server_accept, server_write_data, server_close,
}
use cs739_distributed_system.Driver.Plan.{Group, Lossy, groups, lossy_groups, total_size, slice}

-- A line that `calculate_round_trip_times` prints: the packet size and `sum / iterations`; and one
-- of `calculate_round_trip_with_drops`: the percentage and `sum / iterations`.
pub record Average : Type 0 where
  pub label : ℕ
  pub average : ℕ

-- What `calculate_bandwidth` divides: `pkt_size * iterations` bytes by `sum` nanoseconds.
pub record Bandwidth : Type 0 where
  pub bytes : ℕ
  pub nanoseconds : ℕ

abbrev pub server_packet_sizes : List ℕ
server_packet_sizes =
    1024 ∷ (1024 * 2) ∷ (1024 * 4) ∷ (1024 * 8) ∷ (1024 * 16) ∷ (1024 * 32) ∷ (1024 * 63) ∷ []

-- `for (int i = 0; i < size; ++i) { buffer[i] = i; }` into an array of `char`.
unfoldable pub counting_bytes : ℕ → ℕ → List ℕ
counting_bytes zero i = []
counting_bytes (suc n) i = i % 256 ∷ counting_bytes n (i + 1)

-- The rounds of `calculate_round_trip_times`.
unfoldable pub server_round_trips : List Group
unfolding groups
server_round_trips = groups 500 0 server_packet_sizes

-- The one loop of `calculate_bandwidth`, over the last of the packet sizes.
abbrev pub server_bandwidth : Group
server_bandwidth = record { skip_size = 0; pkt_size = 1024 * 63; count = 2000 }

-- The rounds of `calculate_round_trip_with_drops`. Twenty are more than enough.
unfoldable pub server_lossy : List Lossy
unfolding lossy_groups
server_lossy = lossy_groups 20 200 (1024 * 8) 5 0

module _ {W : Type 0} (net : Net W) (rounds : ℕ) where
  -- `for (int i = 0; i < iterations; ++i) { server.WriteData(...); }`: the results are ignored.
  unfoldable pub write_times : ℕ → ServerSocket → List ℕ → Partial W ServerSocket
  write_times zero s packet w = some (s, w)
  write_times (suc n) s packet w =
      chain (server_write_data net rounds s packet) (λ r. write_times n r.1 packet) w

  -- Such a loop between two readings of the clock, and the difference.
  unfoldable pub timed_writes : Group → ServerSocket → List ℕ → Partial W (ℕ × ServerSocket)
  timed_writes g s buffer = do
    start ← net.clock_gettime
    chain (write_times g.count s (slice g buffer))
        (λ s'. do end ← net.clock_gettime; finish (pure (elapsed start end, s')))

  -- The outer loop of `calculate_round_trip_times`.
  unfoldable pub round_trips :
      List Group → ServerSocket → List ℕ → Partial W (List Average × ServerSocket)
  round_trips [] s buffer = finish (pure ([], s))
  round_trips (g ∷ rest) s buffer = chain (timed_writes g s buffer) (λ r.
      after (round_trips rest r.1 buffer)
        (λ q. pure (record { label = g.pkt_size; average = r.0 / g.count } ∷ q.0, q.1)))

  unfoldable pub server_round_trip_times : ServerSocket → Partial W (List Average × ServerSocket)
  server_round_trip_times s =
      round_trips server_round_trips s (counting_bytes (total_size server_packet_sizes) 0)

  unfoldable pub server_calculate_bandwidth : ServerSocket → Partial W (Bandwidth × ServerSocket)
  server_calculate_bandwidth s =
      let g = server_bandwidth in
      after (timed_writes g s (counting_bytes g.pkt_size 0))
        (λ r. pure (record { bytes = g.pkt_size * g.count; nanoseconds = r.0 }, r.1))

  -- The outer loop of `calculate_round_trip_with_drops`.
  unfoldable pub lossy_round_trips :
      List Lossy → ServerSocket → List ℕ → Partial W (List Average × ServerSocket)
  lossy_round_trips [] s buffer = finish (pure ([], s))
  lossy_round_trips (l ∷ rest) s buffer = do
    s' ← server_set_drop_percentage net s (pos l.drop_percent)
    chain (timed_writes l.group s' buffer) (λ r.
        after (lossy_round_trips rest r.1 buffer)
          (λ q. pure (record { label = l.drop_percent; average = r.0 / l.group.count } ∷ q.0, q.1)))

  unfoldable pub server_round_trip_with_drops :
      ServerSocket → Partial W (List Average × ServerSocket)
  server_round_trip_with_drops s =
      lossy_round_trips server_lossy s (counting_bytes (1024 * 8 * 200) 0)

  -- The three measurements of `main`, and the destructor.
  unfoldable pub server_measure : ServerSocket → Partial W (List Average × Bandwidth × List Average)
  server_measure s = chain (server_round_trip_times s) (λ a.
      chain (server_calculate_bandwidth a.1) (λ b.
        after (server_round_trip_with_drops b.1)
          (λ c. do _ ← server_close net c.1; pure (a.0, b.0, c.0))))

  -- `main` after `Bind`. A `Bind` that fails is ignored unless it calls `exit`, and so is the
  -- result of `Accept`.
  unfoldable pub serve_bound :
      List ℕ
      → Bound
      → ServerSocket
      → Partial W (ℕ × Option (List Average × Bandwidth × List Average))
  serve_bound handshake (exited status) s = finish (pure (status, none))
  serve_bound handshake (returned err) s = do
    (accepted, s') ← server_accept net handshake s
    after (server_measure s') (λ printed. pure (0, some printed))
  serve_bound handshake no_value s = do
    (accepted, s') ← server_accept net handshake s
    after (server_measure s') (λ printed. pure (0, some printed))

  -- `main` once the arguments are read.
  unfoldable pub server_serve :
      List ℕ → ServerSocket → Partial W (ℕ × Option (List Average × Bandwidth × List Average))
  server_serve handshake s = do (bound, s') ← server_bind net s; serve_bound handshake bound s'

  -- `main`: the exit status and what was printed. `atoi` is the C library's; the fields that the
  -- constructor leaves alone and the variable `handshake` hold what is in memory.
  unfoldable pub server_main :
      (String → ℤ)
      → ℤ
      → SockAddr
      → List ℕ
      → List String
      → Partial W (ℕ × Option (List Average × Bandwidth × List Average))
  server_main atoi memory_fd memory_addr handshake (program ∷ port ∷ drop_percentage ∷ rest) =
      server_serve handshake
        (server_socket memory_fd memory_addr (to_u32 (atoi port)) (atoi drop_percentage))
  server_main atoi memory_fd memory_addr handshake _ = do
    net.cerr "Usage: SocketServer port drop_percentage"
    finish (pure (1, none))
