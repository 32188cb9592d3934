-- ===== src/Udp/Accept.antt =====
-- `Accept` of HW1/part2/Socket.h: what it returns, and whether the object then counts as connected.
use cs739_distributed_system.Base.{
  ℕ, ◌≡◌, not, ◌&&◌, List, arith, ◌==◌, if◌then◌else◌, length, pos, minus_one, is_neg,
}
use cs739_distributed_system.Udp.Net.{
  SockAddr, Net, received, overlay, encode32, decode32, ack_word, handshake_word,
}
use cs739_distributed_system.Udp.Server.{
  ServerSocket, server_accept, server_read_data, server_read_connected, server_store,
  server_acknowledge,
}

module _ {W : Type 0} (net : Net W) where
  -- `Accept` after a datagram came: it returns 0 exactly if the word is the handshake, and the
  -- object is connected exactly if, besides, the acknowledgement could be sent. So `Accept` can
  -- return 0 on an object that is not connected.
  pub server_accept_lem :
      (handshake : List ℕ) (s : ServerSocket) (w w1 : W) (bytes : List ℕ) (from : SockAddr)
      → net.recvfrom s.sock_fd (length handshake) w ≡ (received bytes from, w1)
      → let r = (server_accept net handshake s w).0 in
        let is_handshake = decode32 (overlay bytes handshake) == handshake_word in
        let unsent = is_neg (net.sendto s.sock_fd (encode32 ack_word) from w1).0 in
        (r.0 ≡ (if is_handshake then pos 0 else minus_one))
        × (r.1.accepted_connection ≡ (is_handshake && not unsent))
        × (r.1.client_addr ≡ from)
  unfolding server_accept server_read_data server_read_connected server_store server_acknowledge
  server_accept_lem handshake s w w1 bytes from e = ground arith
