-- ===== src/Udp/Read.antt =====
-- `ReadData` of the two classes: what it does with the buffer and the calls it makes, and where
-- the two methods differ.
use cs739_distributed_system.Base.{
  inr, inl, ℕ, ◌≡◌, refl, List, ◌∷◌, true, false, length, ℤ, pos, is_neg, minus_one, Bool-cases,
}
use cs739_distributed_system.Udp.Net.{
  SockAddr, Net, Received, failed, received, overlay, encode32, ack_word,
}
use cs739_distributed_system.Udp.Traced.{Event, sent, got, traced}
use cs739_distributed_system.Udp.Server.{
  ServerSocket, server_read_data, server_read_connected, server_store, server_acknowledge,
}
use cs739_distributed_system.Udp.Client.{
  ClientSocket, client_read_data, client_read_connected, client_store, client_acknowledge,
}
use cs739_distributed_system.Udp.Bytes.{length-overlay}

-- The calls of one `ReadData` on a connected socket, the newest first, the buffer that it leaves,
-- and what it returns: it waits once, for a datagram of the buffer's size, and acknowledges a
-- datagram to its sender. `unsent n` is returned if the acknowledgement fails with `n`.
pub data Reads (fd : ℤ) (buff : List ℕ) (unsent : ℤ → ℤ) (log : List Event)
    : ℤ → List ℕ → List Event → Type 0 where
  timed_out : Reads fd buff unsent log minus_one buff (got fd (length buff) failed ∷ log)
  stored :
      (bytes : List ℕ) (from : SockAddr) (n : ℤ)
      → is_neg n ≡ false
      → Reads fd buff unsent log
          (pos (length bytes))
          (overlay bytes buff)
          (sent fd (encode32 ack_word) from n ∷ got fd (length buff) (received bytes from) ∷ log)
  unacknowledged :
      (bytes : List ℕ) (from : SockAddr) (n : ℤ)
      → is_neg n ≡ true
      → Reads fd buff unsent log
          (unsent n)
          (overlay bytes buff)
          (sent fd (encode32 ack_word) from n ∷ got fd (length buff) (received bytes from) ∷ log)

-- The buffer keeps its size.
pub Reads-length :
    {fd : ℤ} {buff buff' : List ℕ} {unsent : ℤ → ℤ} {log log' : List Event} {ret : ℤ}
    → Reads fd buff unsent log ret buff' log'
    → length buff' ≡ length buff
Reads-length timed_out = refl
Reads-length {buff = buff} (stored bytes from n h) = length-overlay bytes buff
Reads-length {buff = buff} (unacknowledged bytes from n h) = length-overlay bytes buff

module _ {W : Type 0} (net : Net W) (buff : List ℕ) (log : List Event) where
  server_acknowledge-Reads :
      (s : ServerSocket) (w : W) (bytes : List ℕ)
      → let r =
          server_acknowledge
            (traced net)
            s
            (overlay bytes buff)
            (pos (length bytes))
            (w, got s.sock_fd (length buff) (received bytes s.client_addr) ∷ log) in
        Reads s.sock_fd buff (λ n. n) log r.0.0 r.0.2 r.1.1
  unfolding server_acknowledge
  server_acknowledge-Reads s w bytes =
      let n = (net.sendto s.sock_fd (encode32 ack_word) s.client_addr w).0 in
      elim (Bool-cases (is_neg n)) [
        | inl e ↦ rw e (unacknowledged bytes s.client_addr n e)
        | inr e ↦ rw e (stored bytes s.client_addr n e)
      ]

  server_store-Reads :
      (s : ServerSocket) (w : W) (m : Received)
      → let r = server_store (traced net) s buff m (w, got s.sock_fd (length buff) m ∷ log) in
        Reads s.sock_fd buff (λ n. n) log r.0.0 r.0.2 r.1.1
  unfolding server_store
  server_store-Reads s w failed = timed_out
  server_store-Reads s w (received bytes from) =
      server_acknowledge-Reads (record s { client_addr = from }) w bytes

  server_read_connected-Reads :
      (s : ServerSocket) (w : W)
      → let r = server_read_connected (traced net) s buff (w, log) in
        Reads s.sock_fd buff (λ n. n) log r.0.0 r.0.2 r.1.1
  unfolding server_read_connected
  server_read_connected-Reads s w =
      let m = net.recvfrom s.sock_fd (length buff) w in server_store-Reads s m.1 m.0

  -- On a connected server `ReadData` makes the calls of `Reads`, whatever the system does, and leaves
  -- a buffer of the same size; if the acknowledgement fails it returns the error of `sendto`.
  pub server_read_data-Reads :
      (s : ServerSocket) (w : W)
      → s.accepted_connection ≡ true
      → let r = server_read_data (traced net) s buff (w, log) in
        Reads s.sock_fd buff (λ n. n) log r.0.0 r.0.2 r.1.1 × (length r.0.2 ≡ length buff)
  unfolding server_read_data
  server_read_data-Reads s w accepted =
      let reads = server_read_connected-Reads s w in simp accepted (reads, Reads-length reads)

module _ {W : Type 0} (net : Net W) (buff : List ℕ) (log : List Event) where
  client_acknowledge-Reads :
      (s : ClientSocket) (w : W) (bytes : List ℕ)
      → let r =
          client_acknowledge
            (traced net)
            s
            (overlay bytes buff)
            (pos (length bytes))
            (w, got s.sock_fd (length buff) (received bytes s.server_addr) ∷ log) in
        Reads s.sock_fd buff (λ _. pos 1) log r.0.0 r.0.2 r.1.1
  unfolding client_acknowledge
  client_acknowledge-Reads s w bytes =
      let n = (net.sendto s.sock_fd (encode32 ack_word) s.server_addr w).0 in
      elim (Bool-cases (is_neg n)) [
        | inl e ↦ rw e (unacknowledged bytes s.server_addr n e)
        | inr e ↦ rw e (stored bytes s.server_addr n e)
      ]

  client_store-Reads :
      (s : ClientSocket) (w : W) (m : Received)
      → let r = client_store (traced net) s buff m (w, got s.sock_fd (length buff) m ∷ log) in
        Reads s.sock_fd buff (λ _. pos 1) log r.0.0 r.0.2 r.1.1
  unfolding client_store
  client_store-Reads s w failed = timed_out
  client_store-Reads s w (received bytes from) =
      client_acknowledge-Reads (record s { server_addr = from }) w bytes

  client_read_connected-Reads :
      (s : ClientSocket) (w : W)
      → let r = client_read_connected (traced net) s buff (w, log) in
        Reads s.sock_fd buff (λ _. pos 1) log r.0.0 r.0.2 r.1.1
  unfolding client_read_connected
  client_read_connected-Reads s w =
      let m = net.recvfrom s.sock_fd (length buff) w in client_store-Reads s m.1 m.0

  -- On a connected client `ReadData` makes the calls of `Reads`, whatever the system does, and leaves
  -- a buffer of the same size; if the acknowledgement fails it returns 1.
  pub client_read_data-Reads :
      (s : ClientSocket) (w : W)
      → s.accepted_connection ≡ true
      → let r = client_read_data (traced net) s buff (w, log) in
        Reads s.sock_fd buff (λ _. pos 1) log r.0.0 r.0.2 r.1.1 × (length r.0.2 ≡ length buff)
  unfolding client_read_data
  client_read_data-Reads s w accepted =
      let reads = client_read_connected-Reads s w in simp accepted (reads, Reads-length reads)
