-- ===== src/Driver/Budget/Writes.antt =====
-- Every `WriteData` of HW1/part2/Socket.h that returns has taken an acknowledgement of its own.
use cs739_distributed_system.Base.{
  ℕ, zero, suc, ◌+◌, ◌≤◌, ◌<◌, ◌≡◌, sym, subst, inl, inr, true, false, arith, Bool-cases, ℤ, pos,
  of_bool, Partial, Allows, Allows-after_of,
}
use cs739_distributed_system.Clock.{TimeVal}
use cs739_distributed_system.Udp.Net.{SockAddr, Net, is_ack, rcv_timeout}
use cs739_distributed_system.Udp.Drop.{drop_packet, random_number, get_current_time}
use cs739_distributed_system.Udp.Retry.{
  Peer, Round, returns, continues, Finish, send_failed, acknowledged, await, send_and_await, round,
  conclude, write_loop,
}
use cs739_distributed_system.Udp.Server.{
  ServerSocket, server_peer, fifty_milliseconds, fifty_thousand_seconds, set_timeout,
  server_after_loop, server_write_connected, server_write_data,
}
use cs739_distributed_system.Udp.Protocol.{Message}
use cs739_distributed_system.Driver.Budget.{Spends}

module _ {W : Type 0} (net : Net W) (budget : W → ℕ) (net_spends : Spends net budget) where
  open net_spends use {
    sends, spends, recvfrom_keeps, sendto_keeps, rand_keeps, clock_keeps, option_keeps, cerr_keeps,
    close_keeps,
  }

  -- After a round that began with at most this budget.
  abbrev Spent : ℕ → Round → W → Type 0
  Spent bound (returns v) w = ⊥
  Spent bound (continues v true a) w = budget w < bound
  Spent bound (continues v false a) w = budget w ≤ bound

  await-Spent :
      (p : Peer) (ret : ℤ) (bound : ℕ) (w : W)
      → budget w ≤ bound
      → let r = await net p ret w in Spent bound r.0 r.1
  unfolding await
  await-Spent p ret bound w h = elim (Bool-cases (is_ack (net.recvfrom p.fd 4 w).0)) [
    | inl e ↦ rw e (omega (arith, spends p.fd 4 w e))
    | inr e ↦ rw e (omega (arith, recvfrom_keeps p.fd 4 w))
  ]

  round-Spent :
      (p : Peer) (m : Message) (ret : ℤ) (bound : ℕ) (w : W)
      → budget w ≤ bound
      → let r = round net p m ret w in Spent bound r.0 r.1
  unfolding round send_and_await drop_packet random_number get_current_time
  round-Spent p m ret bound w h =
      let d = drop_packet net p.percent_drop w in
      let kept : budget d.1 ≤ bound = omega (arith, rand_keeps w, clock_keeps (net.rand w).1) in
      elim (Bool-cases d.0) [
        | inl e ↦ rw e (await-Spent p ret bound d.1 kept)
        | inr e ↦
            rw (e, sends p.fd m p.addr d.1)
              (await-Spent p (of_bool false) bound _
                (omega (arith, sendto_keeps p.fd m p.addr d.1)))
      ]

  conclude-Spent :
      (p : Peer) (again : SockAddr → ℤ → Partial W Finish) (bound : ℕ) (rd : Round) (w : W)
      → Spent bound rd w
      → ((a : SockAddr) (v : ℤ) (u : W)
          → budget u ≤ bound
          → Allows (λ f x. budget x < bound) (again a v u))
      → Allows (λ f x. budget x < bound) (conclude net p again rd w)
  unfolding conclude
  conclude-Spent p again bound (returns v) w h rest = absurd h
  conclude-Spent p again bound (continues v true a) w h rest = h
  conclude-Spent p again bound (continues v false a) w h rest = rest a v w h

  write_loop-Spent :
      (rounds : ℕ) (p : Peer) (m : Message) (ret : ℤ) (bound : ℕ) (w : W)
      → budget w ≤ bound
      → Allows (λ f x. budget x < bound) (write_loop net rounds p m ret w)
  unfolding write_loop
  write_loop-Spent zero p m ret bound w h = tt
  write_loop-Spent (suc rounds) p m ret bound w h =
      let r = round net p m ret w in
      conclude-Spent p _ bound r.0 r.1 (round-Spent p m ret bound w h)
        (λ a v u k. write_loop-Spent rounds (record p { addr = a }) m v bound u k)

  set_timeout-Spent :
      (fd : ℤ) (tv : TimeVal) (w : W) → budget (set_timeout net fd tv w).1 ≤ budget w
  unfolding set_timeout
  set_timeout-Spent fd tv w = ground (
    arith,
    option_keeps fd tv w,
    cerr_keeps ": Error in setting timeout" (net.setsockopt fd (rcv_timeout tv) w).1,
  )

  -- The object is connected, and at least so many acknowledgements have come.
  abbrev pub Took : ℕ → ℕ → ServerSocket → W → Type 0
  Took count bound s w = (s.accepted_connection ≡ true) × (count + budget w ≤ bound)

  server_after_loop-Took :
      (bound : ℕ) (s : ServerSocket) (f : Finish) (w : W)
      → s.accepted_connection ≡ true
      → budget w < bound
      → let r = server_after_loop net s f w in Took 1 bound r.0.1 r.1
  unfolding server_after_loop
  server_after_loop-Took bound s (send_failed ret a) w connected h = (connected, omega arith)
  server_after_loop-Took bound s (acknowledged ret a) w connected h =
      (connected, omega (arith, set_timeout-Spent s.sock_fd fifty_thousand_seconds w))

  server_write_connected-Took :
      (rounds bound : ℕ) (s : ServerSocket) (m : Message) (w : W)
      → s.accepted_connection ≡ true
      → budget w ≤ bound
      → Allows (λ r v. Took 1 bound r.1 v) (server_write_connected net rounds s m w)
  unfolding server_write_connected
  server_write_connected-Took rounds bound s m w connected h =
      Allows-after_of (λ r v. Took 1 bound r.1 v) (write_loop net rounds (server_peer s) m (pos 0))
        (server_after_loop net s) _
        (write_loop-Spent rounds (server_peer s) m (pos 0) bound _
          (omega (arith, set_timeout-Spent s.sock_fd fifty_milliseconds w)))
        (λ f v k. server_after_loop-Took bound s f v connected k)

  pub server_write_data-Took :
      (rounds bound : ℕ) (s : ServerSocket) (m : Message) (w : W)
      → s.accepted_connection ≡ true
      → budget w ≤ bound
      → Allows (λ r v. Took 1 bound r.1 v) (server_write_data net rounds s m w)
  unfolding server_write_data
  server_write_data-Took rounds bound s m w connected h =
      let same : server_write_data net rounds s m w ≡ server_write_connected net rounds s m w =
        simp connected in
      subst (Allows (λ r v. Took 1 bound r.1 v)) (sym same)
        (server_write_connected-Took rounds bound s m w connected h)
