-- ===== src/Driver/Agreement.antt =====
-- The two programs agree on the packets, and stay inside their buffers.
use cs739_distributed_system.Base.{
  ℕ, zero, suc, ◌+◌, ◌*◌, ◌≤◌, ◌≡◌, refl, ◌∙◌, inl, inr, false, List, [], ◌∷◌, ◌++◌, arith, ltb,
  le→ltb, Bool-cases, length, take, drop, replicate, All, length-append, length-take, length-drop,
  All-mono, pos, is_neg,
}
use cs739_distributed_system.Udp.Server.{is_bad_percentage}
use cs739_distributed_system.Udp.Net.{Net, Received, failed, received, encode32, ack_word}
use cs739_distributed_system.Udp.Bytes.{length-overlay}
use cs739_distributed_system.Udp.Client.{
  ClientSocket, client_read_data, client_read_connected, client_store, client_acknowledge,
}
use cs739_distributed_system.Driver.Plan.{
  Lossy, Group, groups, lossy_groups, total_size, slice, store_slice,
}
use cs739_distributed_system.Driver.Server.{
  server_lossy, server_bandwidth, server_round_trips, counting_bytes,
}
use cs739_distributed_system.Driver.Client.{
  client_lossy, client_bandwidth, client_round_trips, read_times,
}

-- A group that lies inside a buffer of the size.
abbrev pub IsInside : ℕ → Group → Type 0
IsInside size g = g.skip_size + g.pkt_size ≤ size

-- The rounds of `calculate_round_trip_times` fill a buffer of the total size, for any packet sizes.
pub groups-IsInside :
    (count skip : ℕ) (sizes : List ℕ)
    → All (IsInside (skip + total_size sizes)) (groups count skip sizes)
unfolding groups total_size
groups-IsInside count skip [] = tt
groups-IsInside count skip (size ∷ rest) = (
  omega arith,
  All-mono _ _ (groups count (skip + size) rest) (λ g h. omega (arith, h))
      (groups-IsInside count (skip + size) rest),
)

-- The rounds under loss use one packet of the buffer for each step of the percentage.
pub lossy_groups-IsInside :
    (rounds count pkt_size percent skip : ℕ)
    → All
        (λ l. IsInside (skip + pkt_size * rounds) l.group)
        (lossy_groups rounds count pkt_size percent skip)
unfolding lossy_groups
lossy_groups-IsInside zero count pkt_size percent skip = tt
lossy_groups-IsInside (suc rounds) count pkt_size percent skip =
    elim (Bool-cases (ltb percent 95)) [
      | inl e ↦ rw e (
        omega arith,
        All-mono _ _ (lossy_groups rounds count pkt_size (percent + 5) (skip + pkt_size))
            (λ l h. omega (arith, h))
            (lossy_groups-IsInside rounds count pkt_size (percent + 5) (skip + pkt_size)),
      )
      | inr e ↦ rw e tt
    ]

-- The part of a buffer at a group inside it has the size of the packets.
pub length-slice :
    (g : Group) (buffer : List ℕ)
    → IsInside (length buffer) g
    → length (slice g buffer) ≡ g.pkt_size
unfolding slice
length-slice g buffer h =
    omega (arith, length-take g.pkt_size (drop g.skip_size buffer), length-drop g.skip_size buffer)

pub length-store_slice :
    (g : Group) (buffer bytes : List ℕ)
    → IsInside (length buffer) g
    → length bytes ≡ g.pkt_size
    → length (store_slice g buffer bytes) ≡ length buffer
unfolding store_slice
length-store_slice g buffer bytes h e = omega (
  arith,
  length-append (take g.skip_size buffer) (bytes ++ drop (g.skip_size + g.pkt_size) buffer),
  length-append bytes (drop (g.skip_size + g.pkt_size) buffer),
  length-take g.skip_size buffer,
  length-drop (g.skip_size + g.pkt_size) buffer,
)

-- Counting bytes fill the buffer.
pub length-counting_bytes : (n i : ℕ) → length (counting_bytes n i) ≡ n
unfolding counting_bytes
length-counting_bytes zero i = refl
length-counting_bytes (suc n) i = omega (arith, length-counting_bytes n (i + 1))

module _ {W : Type 0} (net : Net W) where
  length-client_store :
      (s : ClientSocket) (buff : List ℕ) (m : Received) (w : W)
      → length (client_store net s buff m w).0.2 ≡ length buff
  unfolding client_store client_acknowledge
  length-client_store s buff failed w = refl
  length-client_store s buff (received bytes from) w =
      elim (Bool-cases (is_neg (net.sendto s.sock_fd (encode32 ack_word) from w).0)) [
        | inl e ↦ rw e (length-overlay bytes buff)
        | inr e ↦ rw e (length-overlay bytes buff)
      ]

  length-client_read_data :
      (s : ClientSocket) (buff : List ℕ) (w : W)
      → length (client_read_data net s buff w).0.2 ≡ length buff
  unfolding client_read_data client_read_connected
  length-client_read_data s buff w = elim (Bool-cases s.accepted_connection) [
    | inl e ↦ simp e (length-client_store s buff _ _)
    | inr e ↦ simp e
  ]

  -- However often and whatever the client reads into its part of the buffer, the buffer keeps its
  -- size, so that the next part is there.
  read_times-length :
      (n : ℕ) (g : Group) (s : ClientSocket) (buffer : List ℕ) (w : W)
      → IsInside (length buffer) g
      → length (read_times net n g s buffer w).0.1 ≡ length buffer
  unfolding read_times
  read_times-length zero g s buffer w h = refl
  read_times-length (suc n) g s buffer w h =
      let r = client_read_data net s (slice g buffer) w in
      let kept : length (store_slice g buffer r.0.2) ≡ length buffer =
        length-store_slice g buffer r.0.2 h
          (length-client_read_data s (slice g buffer) w ∙ length-slice g buffer h) in
      read_times-length n g r.0.1 (store_slice g buffer r.0.2) r.1 (rw kept h) ∙ kept

-- Each group of `calculate_round_trip_times`, on a buffer of the total size, sends packets of
-- exactly its packet size, whatever the list of sizes is.
groups-slice :
    (count : ℕ) (sizes : List ℕ)
    → All
        (λ g. length (slice g (counting_bytes (total_size sizes) 0)) ≡ g.pkt_size)
        (groups count 0 sizes)
groups-slice count sizes =
    All-mono _ _ (groups count 0 sizes)
      (λ g h. length-slice g _ (omega (arith, h, length-counting_bytes (total_size sizes) 0)))
      (groups-IsInside count 0 sizes)

-- The sizes of the packets of some groups, in order.
abbrev packets : List Group → List ℕ
packets [] = []
packets (g ∷ rest) = replicate g.count g.pkt_size ++ packets rest

-- The client reads as many packets as the server writes, of the same sizes in the same order and
-- under the same percentages, each of which `SetDropPercentage` accepts; and in every phase the
-- packets lie inside the buffers of both programs.
pub programs_agree :
    (packets server_round_trips ≡ packets client_round_trips)
    × (server_bandwidth ≡ client_bandwidth)
    × (server_lossy ≡ client_lossy)
    × All (λ l. is_bad_percentage (pos l.drop_percent) ≡ false) server_lossy
    × All (λ l. IsInside (1024 * 8 * 200) l.group) server_lossy
unfolding is_bad_percentage server_round_trips client_round_trips server_lossy client_lossy
programs_agree = (
  refl,
  refl,
  refl,
  All-mono (λ (l : Lossy). l.drop_percent ≤ 99) _ server_lossy (λ l h. le→ltb 99 l.drop_percent h)
      (omega arith),
  omega arith,
)
