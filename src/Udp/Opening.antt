-- ===== src/Udp/Opening.antt =====
-- What every call of the system keeps, `Bind` and `Accept` keep.
use Prim.Native.String.{String}
use cs739_distributed_system.Base.{ℕ, inl, inr, true, List, ◌==◌, Bool-cases, length, ℤ, is_neg}
use cs739_distributed_system.Udp.Net.{
  SockAddr, Net, Received, af_inet, sock_dgram, failed, received, encode32, decode32, ack_word,
  handshake_word, reuse_addr_port,
}
use cs739_distributed_system.Udp.Server.{
  ServerSocket, is_zero, bind_address, set_reuse, server_bind, server_acknowledge, server_store,
  server_read_connected, server_read_data, server_accept,
}
use cs739_distributed_system.Udp.Keeps.{Keeps}

-- The calls of `Bind` and `Connect` that `WriteData` does not make.
pub record KeepsOpen {W : Type 0} (net : Net W) (P : W → Type 0) : Type 0 where
  pub socket_keeps :
      (domain kind protocol : ℕ) (w : W) → P w → P (net.socket domain kind protocol w).1
  pub bind_keeps : (fd : ℤ) (addr : SockAddr) (w : W) → P w → P (net.bind fd addr w).1
  pub lookup_keeps : (name : String) (w : W) → P w → P (net.gethostbyname name w).1

module _ {W : Type 0} (net : Net W) (P : W → Type 0) (keeps : Keeps net P)
    (keeps_open : KeepsOpen net P) where
  open keeps use {sendto_keeps, recvfrom_keeps, option_keeps, cerr_keeps}
  open keeps_open use {socket_keeps, bind_keeps}

  bind_address-keeps : (s : ServerSocket) (w : W) → P w → P (bind_address net s w).1
  unfolding bind_address
  bind_address-keeps s w h =
      let kept = bind_keeps s.sock_fd s.server_addr w h in
      elim (Bool-cases (is_neg (net.bind s.sock_fd s.server_addr w).0)) [
        | inl e ↦ rw e (cerr_keeps _ _ kept)
        | inr e ↦ rw e kept
      ]

  set_reuse-keeps : (s : ServerSocket) (w : W) → P w → P (set_reuse net s w).1
  unfolding set_reuse
  set_reuse-keeps s w h =
      let kept = option_keeps s.sock_fd (reuse_addr_port 0) w h in
      elim (Bool-cases (is_zero (net.setsockopt s.sock_fd (reuse_addr_port 0) w).0)) [
        | inl e ↦ rw e (bind_address-keeps _ _ kept)
        | inr e ↦ rw e (cerr_keeps _ _ kept)
      ]

  pub server_bind-keeps : (s : ServerSocket) (w : W) → P w → P (server_bind net s w).1
  unfolding server_bind
  server_bind-keeps s w h =
      let kept = socket_keeps af_inet sock_dgram 0 w h in
      elim (Bool-cases (is_neg (net.socket af_inet sock_dgram 0 w).0)) [
        | inl e ↦ rw e (cerr_keeps _ _ kept)
        | inr e ↦ rw e (set_reuse-keeps _ _ kept)
      ]

  server_acknowledge-keeps :
      (s : ServerSocket) (buff : List ℕ) (len : ℤ) (w : W)
      → P w
      → P (server_acknowledge net s buff len w).1
  unfolding server_acknowledge
  server_acknowledge-keeps s buff len w h =
      let kept = sendto_keeps s.sock_fd (encode32 ack_word) s.client_addr w h in
      elim (Bool-cases (is_neg (net.sendto s.sock_fd (encode32 ack_word) s.client_addr w).0)) [
        | inl e ↦ rw e (cerr_keeps _ _ kept)
        | inr e ↦ rw e kept
      ]

  server_store-keeps :
      (s : ServerSocket) (buff : List ℕ) (m : Received) (w : W)
      → P w
      → P (server_store net s buff m w).1
  unfolding server_store
  server_store-keeps s buff failed w h = cerr_keeps _ w h
  server_store-keeps s buff (received bytes from) w h = server_acknowledge-keeps _ _ _ w h

  pub server_read_data-keeps :
      (s : ServerSocket) (buff : List ℕ) (w : W) → P w → P (server_read_data net s buff w).1
  unfolding server_read_data server_read_connected
  server_read_data-keeps s buff w h = elim (Bool-cases s.accepted_connection) [
    | inl e ↦ simp e (server_store-keeps s buff _ _ (recvfrom_keeps s.sock_fd (length buff) w h))
    | inr e ↦ simp e (cerr_keeps _ w h)
  ]

  pub server_accept-keeps :
      (handshake : List ℕ) (s : ServerSocket) (w : W) → P w → P (server_accept net handshake s w).1
  unfolding server_accept
  server_accept-keeps handshake s w h =
      let connecting = record s { accepted_connection = true } in
      let r = server_read_data net connecting handshake w in
      let kept = server_read_data-keeps connecting handshake w h in
      elim (Bool-cases (is_neg r.0.0)) [
        | inl e ↦ elim (Bool-cases (decode32 r.0.2 == handshake_word)) [
          | inl f ↦ rw (e, f) (cerr_keeps _ _ kept)
          | inr f ↦ rw (e, f) (cerr_keeps _ _ (cerr_keeps _ _ kept))
        ]
        | inr e ↦ elim (Bool-cases (decode32 r.0.2 == handshake_word)) [
          | inl f ↦ rw (e, f) kept
          | inr f ↦ rw (e, f) (cerr_keeps _ _ kept)
        ]
      ]
