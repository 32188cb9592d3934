-- ===== src/Udp/Unsent.antt =====
-- `Connect` of HW1/part2/Socket.h where nothing can be sent.
use cs739_distributed_system.Base.{
  ℕ, suc, ◌≡◌, refl, true, false, some, List, arith, ℤ, pos, is_neg,
}
use cs739_distributed_system.Udp.Net.{SockAddr, Net, encode32, handshake_word}
use cs739_distributed_system.Udp.Drop.{drop_packet}
use cs739_distributed_system.Udp.Retry.{
  Peer, returns, send_failed, send_and_await, round, conclude, write_loop,
}
use cs739_distributed_system.Udp.Server.{fifty_milliseconds, set_timeout}
use cs739_distributed_system.Udp.Client.{
  ClientSocket, client_peer, client_after_loop, client_write_connected, client_write_data,
  after_handshake, send_handshake, name_server, bind_client, connect,
}

module _ {W : Type 0} (net : Net W) where
  module _
      (unsent : (fd : ℤ) (bytes : List ℕ) (addr : SockAddr) (v : W)
        → is_neg (net.sendto fd bytes addr v).0 ≡ true) where
    -- A drop percentage of 0 drops nothing.
    not-dropped : (w : W) → (drop_packet net (pos 0) w).0 ≡ false
    unfolding drop_packet
    not-dropped w = ground arith

    round_unsent :
        (p : Peer) (buff : List ℕ) (ret : ℤ) (w : W)
        → p.percent_drop ≡ pos 0
        → (round net p buff ret w).0 ≡ returns (pos 1)
    unfolding round send_and_await
    round_unsent p buff ret w e =
        let d = drop_packet net p.percent_drop w in
        let kept : d.0 ≡ false = rw e (not-dropped w) in rw (kept, unsent p.fd buff p.addr d.1) refl

    write_loop_unsent :
        (rounds : ℕ) (p : Peer) (buff : List ℕ) (ret : ℤ) (w : W)
        → p.percent_drop ≡ pos 0
        → (w' : W) × (write_loop net (suc rounds) p buff ret w
            ≡ some (send_failed (pos 1) p.addr, w'))
    unfolding write_loop conclude
    write_loop_unsent rounds p buff ret w e =
        ((round net p buff ret w).1, rw (round_unsent p buff ret w e) refl)

    send_handshake_unsent :
        (rounds : ℕ) (s : ClientSocket) (ip : ℕ) (w : W)
        → s.percent_drop ≡ pos 0
        → (s' : ClientSocket) × (w' : W) × (send_handshake net (suc rounds) s ip w
            ≡ some ((pos 0, s'), w'))
          × (s'.accepted_connection ≡ true)
    unfolding send_handshake client_write_data client_write_connected client_after_loop
        after_handshake
    send_handshake_unsent rounds s ip w e =
        let t : ClientSocket = record s {
          server_addr = record s.server_addr { sin_addr = ip };
          accepted_connection = true;
        } in
        let (v, failing) =
          write_loop_unsent rounds (client_peer t) (encode32 handshake_word) (pos 0)
            (set_timeout net s.sock_fd fifty_milliseconds w).1 e in
        (t, v, ground arith, refl)

    -- If `socket` and `bind` succeed, no `sendto` does, and the drop percentage is 0, as it is by
    -- default, `Connect` to a numeric address still returns 0 and counts as connected, although no handshake was sent.
    pub connect_unsent :
        (rounds : ℕ) (s : ClientSocket) (w : W) (found : ℕ)
        → is_neg (net.socket 2 2 0 w).0 ≡ false
        → ((fd : ℤ) (addr : SockAddr) (v : W) → is_neg (net.bind fd addr v).0 ≡ false)
        → s.percent_drop ≡ pos 0
        → net.inet_aton s.server_ip ≡ some found
        → (s' : ClientSocket) × (w' : W) × (connect net (suc rounds) s w ≡ some ((pos 0, s'), w'))
          × (s'.accepted_connection ≡ true)
    unfolding connect bind_client name_server
    connect_unsent rounds s w found opened bound kept named =
        let r = net.socket 2 2 0 w in
        let any : SockAddr = record {
          sin_family = 2;
          sin_port = net.htons 0;
          sin_addr = net.htonl 0;
        } in
        rw (opened, bound r.0 any r.1, named, name_server)
          (send_handshake_unsent rounds _ found _ kept)
