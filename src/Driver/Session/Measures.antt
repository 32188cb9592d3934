-- ===== src/Driver/Session/Measures.antt =====
-- The three measurements of HW1/part2/SocketClient.cpp, over the packets of the server's.
use cs739_distributed_system.Base.{
  ℕ, ◌+◌, ◌*◌, ◌≡◌, refl, sym, subst, ◌∙◌, true, List, [], ◌∷◌, ◌++◌, append-nil, arith, length,
  replicate, All, length-replicate, All-mono,
}
use cs739_distributed_system.Udp.Client.{ClientSocket, client_close}
use cs739_distributed_system.Udp.Protocol.{Message}
use cs739_distributed_system.Driver.Plan.{groups, Group, Lossy, groups, total_size}
use cs739_distributed_system.Driver.Server.{
  counting_bytes, server_packet_sizes, server_round_trips, server_bandwidth, server_lossy,
}
use cs739_distributed_system.Driver.Client.{
  client_packet_sizes, client_round_trips, client_lossy, read_groups, read_lossy,
  client_round_trip_times, client_calculate_bandwidth, client_round_trip_with_drops, client_measure,
}
use cs739_distributed_system.Driver.Agreement.{
  IsInside, groups-IsInside, length-slice, length-counting_bytes, programs_agree,
}
use cs739_distributed_system.Driver.Session.{Inlet, inlet_net}
use cs739_distributed_system.Driver.Session.Sends.{sent_by, groups_of, session_packets}
use cs739_distributed_system.Driver.Session.Copies.{store_groups-copied}
use cs739_distributed_system.Driver.Session.Receives.{
  store_groups, Took, Speaking, Took-Speaking, Took-both, Carries, read_groups-Took,
  read_lossy-Took,
}

-- A group inside buffers of one size has whole packets.
Carries-inside : (size : ℕ) (g : Group) → IsInside size g → Carries size (counting_bytes size 0) g
Carries-inside size g h =
    (h, length-slice g (counting_bytes size 0) (rw (length-counting_bytes size 0) h))

round_trips-Carries :
    (count : ℕ) (sizes : List ℕ)
    → All (Carries (total_size sizes) (counting_bytes (total_size sizes) 0)) (groups count 0 sizes)
round_trips-Carries count sizes =
    let size = total_size sizes in
    All-mono (IsInside (0 + size)) (Carries size (counting_bytes size 0)) (groups count 0 sizes)
      (λ g h. Carries-inside size g (omega (arith, h))) (groups-IsInside count 0 sizes)

lossy-Carries :
    (size : ℕ) (ls : List Lossy)
    → All (λ l. IsInside size l.group) ls
    → All (λ l. Carries size (counting_bytes size 0) l.group) ls
lossy-Carries size ls h = All-mono _ _ ls (λ l k. Carries-inside size l.group k) h

same_rounds : client_round_trips ≡ server_round_trips
unfolding client_round_trips server_round_trips
same_rounds = refl

same_lossy : client_lossy ≡ server_lossy
same_lossy = sym programs_agree.2

-- The client is connected, its buffer holds these bytes, and the datagrams were read.
abbrev pub Read :
    Inlet → List Message → List Message → List ℕ → (ClientSocket × List ℕ) × Inlet → Type 0
Read v ms rest buffer r = (r.0.0.accepted_connection ≡ true) × (r.0.1 ≡ buffer) × Took v r.1 ms rest

server_round_trips-Carries :
    All
      (Carries (total_size client_packet_sizes) (counting_bytes (total_size client_packet_sizes) 0))
      server_round_trips
unfolding server_round_trips
server_round_trips-Carries = round_trips-Carries 500 client_packet_sizes

server_round_trips-copied :
    (buffer : List ℕ)
    → length buffer ≡ total_size client_packet_sizes
    → store_groups server_round_trips (counting_bytes (total_size client_packet_sizes) 0) buffer
      ≡ counting_bytes (total_size client_packet_sizes) 0
unfolding server_round_trips
server_round_trips-copied buffer sized =
    store_groups-copied 500 client_packet_sizes (counting_bytes (total_size client_packet_sizes) 0)
      buffer (omega arith) (length-counting_bytes (total_size client_packet_sizes) 0) sized

-- After `calculate_round_trip_times` the client's buffer is the server's.
pub client_round_trip_times-Read :
    (s : ClientSocket) (rest : List Message) (v : Inlet)
    → s.accepted_connection ≡ true
    → Speaking v
    → v.incoming
      ≡ sent_by server_round_trips (counting_bytes (total_size server_packet_sizes) 0) ++ rest
    → Read v
        (sent_by server_round_trips (counting_bytes (total_size server_packet_sizes) 0))
        rest
        (counting_bytes (total_size server_packet_sizes) 0)
        (client_round_trip_times inlet_net s v)
unfolding client_round_trip_times
client_round_trip_times-Read s rest v connected speaking coming =
    let size = total_size client_packet_sizes in
    let sized = length-replicate {A = ℕ} size 0 in
    let (c, q, t) =
      read_groups-Took server_round_trips size (counting_bytes size 0) s (replicate size 0) rest v
        server_round_trips-Carries connected speaking sized coming in
    subst
      (λ gs.
        Read v (sent_by server_round_trips (counting_bytes size 0)) rest (counting_bytes size 0)
          (read_groups inlet_net gs s (replicate size 0) v))
      (sym same_rounds) (c, q ∙ server_round_trips-copied (replicate size 0) sized, t)

bandwidth_copied :
    (buffer : List ℕ)
    → length buffer ≡ 1024 * 63
    → store_groups (server_bandwidth ∷ []) (counting_bytes (1024 * 63) 0) buffer
      ≡ counting_bytes (1024 * 63) 0
bandwidth_copied buffer sized =
    let whole : total_size (1024 * 63 ∷ []) ≡ 1024 * 63 = unfold total_size in omega arith in
    let one : groups 2000 0 (1024 * 63 ∷ []) ≡ server_bandwidth ∷ [] = unfold groups in refl in
    subst
      (λ gs. store_groups gs (counting_bytes (1024 * 63) 0) buffer ≡ counting_bytes (1024 * 63) 0)
      one
      (store_groups-copied 2000 (1024 * 63 ∷ []) (counting_bytes (1024 * 63) 0) buffer (omega arith)
        (length-counting_bytes (1024 * 63) 0 ∙ sym whole) (sized ∙ sym whole))

-- After `calculate_bandwidth` too.
pub client_calculate_bandwidth-Read :
    (s : ClientSocket) (rest : List Message) (v : Inlet)
    → s.accepted_connection ≡ true
    → Speaking v
    → v.incoming ≡ sent_by (server_bandwidth ∷ []) (counting_bytes (1024 * 63) 0) ++ rest
    → Read v
        (sent_by (server_bandwidth ∷ []) (counting_bytes (1024 * 63) 0))
        rest
        (counting_bytes (1024 * 63) 0)
        (client_calculate_bandwidth inlet_net s v)
unfolding client_calculate_bandwidth read_groups
client_calculate_bandwidth-Read s rest v connected speaking coming =
    let size : ℕ = 1024 * 63 in
    let sized = length-replicate {A = ℕ} size 0 in
    let (c, q, t) =
      read_groups-Took (server_bandwidth ∷ []) size (counting_bytes size 0) s (replicate size 0)
        rest v (Carries-inside size server_bandwidth (omega arith), tt) connected speaking sized
        coming in
    (c, q ∙ bandwidth_copied (replicate size 0) sized, t)

client_round_trip_with_drops-Took :
    (s : ClientSocket) (rest : List Message) (v : Inlet)
    → s.accepted_connection ≡ true
    → Speaking v
    → v.incoming ≡ sent_by (groups_of server_lossy) (counting_bytes (1024 * 8 * 200) 0) ++ rest
    → Took v
        (client_round_trip_with_drops inlet_net s v).1
        (sent_by (groups_of server_lossy) (counting_bytes (1024 * 8 * 200) 0))
        rest
unfolding client_round_trip_with_drops
client_round_trip_with_drops-Took s rest v connected speaking coming =
    let size : ℕ = 1024 * 8 * 200 in
    subst
      (λ ls.
        Took v (read_lossy inlet_net ls s (replicate size 0) v).1
          (sent_by (groups_of server_lossy) (counting_bytes size 0)) rest)
      (sym same_lossy)
      (read_lossy-Took server_lossy size (counting_bytes size 0) s (replicate size 0) rest v
        (lossy-Carries size server_lossy programs_agree.4) connected speaking
        (length-replicate {A = ℕ} size 0) coming)

-- Every packet of the server is read and acknowledged.
pub client_measure-Took :
    (s : ClientSocket) (v : Inlet)
    → s.accepted_connection ≡ true
    → Speaking v
    → v.incoming ≡ session_packets
    → let r = client_measure inlet_net s v in (r.0 ≡ 0) × Took v r.1 session_packets []
unfolding client_measure client_close session_packets
client_measure-Took s v connected speaking coming =
    let first = sent_by server_round_trips (counting_bytes (total_size server_packet_sizes) 0) in
    let second = sent_by (server_bandwidth ∷ []) (counting_bytes (1024 * 63) 0) in
    let third = sent_by (groups_of server_lossy) (counting_bytes (1024 * 8 * 200) 0) in
    let a = client_round_trip_times inlet_net s v in
    let b = client_calculate_bandwidth inlet_net a.0.0 a.1 in
    let c = client_round_trip_with_drops inlet_net b.0.0 b.1 in
    let (ready, same_first, took_first) =
      client_round_trip_times-Read s (second ++ third) v connected speaking coming in
    let speaking' = Took-Speaking v a.1 first (second ++ third) speaking took_first in
    let (ready', same_second, took_second) =
      client_calculate_bandwidth-Read a.0.0 third a.1 ready speaking' took_first.remaining in
    let took_third =
      client_round_trip_with_drops-Took b.0.0 [] b.1 ready'
        (Took-Speaking a.1 b.1 second third speaking' took_second)
        (took_second.remaining ∙ sym (append-nil third)) in
    (
      refl,
      Took-both v a.1 c.1 first (second ++ third) (second ++ third) [] took_first
          (Took-both a.1 b.1 c.1 second third third [] took_second took_third),
    )
