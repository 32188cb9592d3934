-- ===== src/Udp/Liveness.antt =====
-- When `WriteData` returns, and when it never does.
use cs739_distributed_system.Base.{
  ℕ, zero, suc, ◌≤◌, ◌<◌, ◌≡◌, refl, ◌⊎◌, inl, inr, true, false, Option, none, some, List, arith,
  Bool-cases, ℤ, pos, is_neg, Partial,
}
use cs739_distributed_system.Clock.{TimeVal}
use cs739_distributed_system.Udp.Net.{SockAddr, Net, is_ack, rcv_timeout}
use cs739_distributed_system.Udp.Drop.{drop_packet}
use cs739_distributed_system.Udp.Server.{
  ServerSocket, server_peer, fifty_milliseconds, fifty_thousand_seconds, set_timeout,
  server_after_loop, server_write_connected, server_write_data,
}
use cs739_distributed_system.Udp.Client.{
  ClientSocket, client_peer, client_after_loop, client_write_connected, client_write_data,
}
use cs739_distributed_system.Udp.Retry.{
  Peer, Round, returns, continues, Finish, acknowledged, await, send_and_await, round, conclude,
  write_loop,
}

-- A network over which every `sendto` succeeds and an acknowledgement comes in the end: `pending`
-- bounds the number of waits that bring none, and no other call makes it larger.
pub record Answers {W : Type 0} (net : Net W) (pending : W → ℕ) : Type 0 where
  pub sends :
      (fd : ℤ) (bytes : List ℕ) (addr : SockAddr) (w : W)
      → is_neg (net.sendto fd bytes addr w).0 ≡ false
  pub answers :
      (fd : ℤ) (size : ℕ) (w : W)
      → (is_ack (net.recvfrom fd size w).0 ≡ true)
        ⊎ (pending (net.recvfrom fd size w).1 < pending w)
  pub sendto_keeps :
      (fd : ℤ) (bytes : List ℕ) (addr : SockAddr) (w : W)
      → pending (net.sendto fd bytes addr w).1 ≤ pending w
  pub rand_keeps : (w : W) → pending (net.rand w).1 ≤ pending w
  pub clock_keeps : (w : W) → pending (net.clock_gettime w).1 ≤ pending w
  pub option_keeps :
      (fd : ℤ) (tv : TimeVal) (w : W) → pending (net.setsockopt fd (rcv_timeout tv) w).1 ≤ pending w
  pub cerr_keeps : (w : W) → pending (net.cerr ": Error in setting timeout" w).1 ≤ pending w

-- A network that never brings an acknowledgement.
pub record Silent {W : Type 0} (net : Net W) : Type 0 where
  pub sends :
      (fd : ℤ) (bytes : List ℕ) (addr : SockAddr) (w : W)
      → is_neg (net.sendto fd bytes addr w).0 ≡ false
  pub no_ack : (fd : ℤ) (size : ℕ) (w : W) → is_ack (net.recvfrom fd size w).0 ≡ false

module _ {W : Type 0} (net : Net W) (pending : W → ℕ) (net_answers : Answers net pending)
    (buff : List ℕ) where
  open net_answers use {sends, answers, sendto_keeps, rand_keeps, clock_keeps}

  -- One round brings the acknowledgement, or leaves fewer rounds to wait for.
  abbrev Progress : ℕ → Round → W → Type 0
  Progress bound (returns v) w = ⊥
  Progress bound (continues v true a) w = v ≡ pos 0
  Progress bound (continues v false a) w = (v ≡ pos 0) × (pending w < bound)

  await-Progress :
      (p : Peer) (w : W) (bound : ℕ)
      → pending w ≤ bound
      → let r = await net p (pos 0) w in Progress bound r.0 r.1
  unfolding await
  await-Progress p w bound h = ground (arith, answers p.fd 4 w)

  send_and_await-Progress :
      (p : Peer) (w : W) (bound : ℕ)
      → pending w ≤ bound
      → let r = send_and_await net p buff w in Progress bound r.0 r.1
  unfolding send_and_await
  send_and_await-Progress p w bound h =
      rw (sends p.fd buff p.addr w)
        (await-Progress p _ bound (omega (arith, sendto_keeps p.fd buff p.addr w)))

  drop_packet_keeps : (percent : ℤ) (w : W) → pending (drop_packet net percent w).1 ≤ pending w
  unfolding drop_packet
  drop_packet_keeps percent w = omega (arith, rand_keeps w, clock_keeps (net.rand w).1)

  round-Progress :
      (p : Peer) (w : W) → let r = round net p buff (pos 0) w in Progress (pending w) r.0 r.1
  unfolding round
  round-Progress p w =
      let d = drop_packet net p.percent_drop w in
      elim (Bool-cases d.0) [
        | inl e ↦ rw e (await-Progress p d.1 _ (drop_packet_keeps p.percent_drop w))
        | inr e ↦ rw e (send_and_await-Progress p d.1 _ (drop_packet_keeps p.percent_drop w))
      ]

  -- A `Partial` that returns because an acknowledgement came.
  abbrev Acknowledged : Option (Finish × W) → Type 0
  Acknowledged r = (a : SockAddr) × (w' : W) × (r ≡ some (acknowledged (pos 0) a, w'))

  conclude-Acknowledged :
      (p : Peer) (loop : SockAddr → ℤ → Partial W Finish) (bound : ℕ) (rd : Round) (w : W)
      → Progress bound rd w
      → ((a : SockAddr) (v : W) → pending v < bound → Acknowledged (loop a (pos 0) v))
      → Acknowledged (conclude net p loop rd w)
  unfolding conclude
  conclude-Acknowledged p loop bound (returns v) w h rest = absurd h
  conclude-Acknowledged p loop bound (continues v true a) w h rest = (a, w, rw h)
  conclude-Acknowledged p loop bound (continues v false a) w h rest = rw h.0 (rest a w h.1)

  -- The loop returns 0 within `pending w + 1` rounds.
  pub write_loop_returns :
      (rounds : ℕ) (p : Peer) (w : W)
      → pending w < rounds
      → Acknowledged (write_loop net rounds p buff (pos 0) w)
  unfolding write_loop
  write_loop_returns zero p w h = absurd (omega arith)
  write_loop_returns (suc rounds) p w h =
      let r = round net p buff (pos 0) w in
      conclude-Acknowledged p _ (pending w) r.0 r.1 (round-Progress p w)
        (λ a v lt. write_loop_returns rounds (record p { addr = a }) v (omega arith))

  open net_answers use {option_keeps, cerr_keeps}

  set_timeout_keeps :
      (fd : ℤ) (tv : TimeVal) (w : W) → pending (set_timeout net fd tv w).1 ≤ pending w
  unfolding set_timeout
  set_timeout_keeps fd tv w =
      ground (arith, option_keeps fd tv w, cerr_keeps (net.setsockopt fd (rcv_timeout tv) w).1)

  -- On a connected server whose network answers, `WriteData` returns, and returns 0, within one
  -- round more than the network leaves without an acknowledgement.
  pub server_write_data_returns :
      (rounds : ℕ) (s : ServerSocket) (w : W)
      → s.accepted_connection ≡ true
      → pending w < rounds
      → (s' : ServerSocket) × (w' : W) × (server_write_data net rounds s buff w
          ≡ some ((pos 0, s'), w'))
  unfolding server_write_data server_write_connected server_after_loop
  server_write_data_returns rounds s w accepted h =
      let (a, v, e) =
        write_loop_returns rounds (server_peer s) (set_timeout net s.sock_fd fifty_milliseconds w).1
          (omega (arith, set_timeout_keeps s.sock_fd fifty_milliseconds w)) in
      (
        record s { client_addr = a },
        (set_timeout net s.sock_fd fifty_thousand_seconds v).1,
        ground arith,
      )

  -- On a connected client whose network answers, `WriteData` returns, and returns 0, within one
  -- round more than the network leaves without an acknowledgement.
  pub client_write_data_returns :
      (rounds : ℕ) (s : ClientSocket) (w : W)
      → s.accepted_connection ≡ true
      → pending w < rounds
      → (s' : ClientSocket) × (w' : W) × (client_write_data net rounds s buff w
          ≡ some ((pos 0, s'), w'))
  unfolding client_write_data client_write_connected client_after_loop
  client_write_data_returns rounds s w accepted h =
      let (a, v, e) =
        write_loop_returns rounds (client_peer s) (set_timeout net s.sock_fd fifty_milliseconds w).1
          (omega (arith, set_timeout_keeps s.sock_fd fifty_milliseconds w)) in
      (
        record s { server_addr = a },
        (set_timeout net s.sock_fd fifty_thousand_seconds v).1,
        ground arith,
      )

module _ {W : Type 0} (net : Net W) (net_silent : Silent net) (buff : List ℕ) where
  open net_silent use {sends, no_ack}

  -- On a network that stays silent the loop goes on for any number of rounds.
  abbrev Goes : Round → Type 0
  Goes (returns v) = ⊥
  Goes (continues v b a) = b ≡ false

  round-Goes : (p : Peer) (ret : ℤ) (w : W) → Goes (round net p buff ret w).0
  unfolding round send_and_await await
  round-Goes p ret w =
      let d = drop_packet net p.percent_drop w in
      elim (Bool-cases d.0) [
        | inl e ↦ rw e (no_ack p.fd 4 d.1)
        | inr e ↦ rw (e, sends p.fd buff p.addr d.1) (no_ack p.fd 4 _)
      ]

  conclude-none :
      (p : Peer) (loop : SockAddr → ℤ → Partial W Finish) (rd : Round) (w : W)
      → Goes rd
      → ((a : SockAddr) (v : ℤ) → loop a v w ≡ none)
      → conclude net p loop rd w ≡ none
  unfolding conclude
  conclude-none p loop (returns v) w h rest = absurd h
  conclude-none p loop (continues v true a) w h rest = cc
  conclude-none p loop (continues v false a) w h rest = rest a v

  pub write_loop-none :
      (rounds : ℕ) (p : Peer) (ret : ℤ) (w : W) → write_loop net rounds p buff ret w ≡ none
  unfolding write_loop
  write_loop-none zero p ret w = refl
  write_loop-none (suc rounds) p ret w =
      conclude-none p _ _ _ (round-Goes p ret w)
        (λ a v. write_loop-none rounds (record p { addr = a }) v _)

  -- For connected objects on a system where every `sendto` succeeds and no acknowledgement ever comes,
  -- `WriteData` never returns: there is no limit on the retries.
  pub write_data-none :
      (rounds : ℕ) (s : ServerSocket) (c : ClientSocket) (w : W)
      → s.accepted_connection ≡ true
      → c.accepted_connection ≡ true
      → (server_write_data net rounds s buff w ≡ none)
        × (client_write_data net rounds c buff w ≡ none)
  unfolding server_write_data server_write_connected client_write_data client_write_connected
  write_data-none rounds s c w hs hc = (
    ground (
      arith,
      write_loop-none rounds (server_peer s) (pos 0)
          (set_timeout net s.sock_fd fifty_milliseconds w).1,
    ),
    ground (
      arith,
      write_loop-none rounds (client_peer c) (pos 0)
          (set_timeout net c.sock_fd fifty_milliseconds w).1,
    ),
  )
