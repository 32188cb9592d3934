-- ===== src/Udp/Server.antt =====
-- The class `ServerSocket` of HW1/part2/Socket.h. A method takes the object and returns it with
-- the method's result. Messages on `cerr` are kept without their line numbers and values.
use cs739_distributed_system.Base.{
  ℕ, Bool, true, false, not, List, ltb, ◌==◌, if◌then◌else◌, length, ℤ, pos, negsuc, minus_one,
  is_neg, State, Partial, ◌>>=◌, ◌>>◌, pure, finish, after,
}
use cs739_distributed_system.Clock.{TimeVal}
use cs739_distributed_system.Udp.Net.{
  Received, SockAddr, zero_addr, af_inet, sock_dgram, inaddr_any, Net, failed, received,
  reuse_addr_port, rcv_timeout, recv_len, overlay, encode32, decode32, ack_word, handshake_word,
}
use cs739_distributed_system.Udp.Retry.{Peer, Finish, send_failed, acknowledged, write_loop}

pub record ServerSocket : Type 0 where
  pub sock_fd : ℤ
  pub port : ℕ
  pub server_addr : SockAddr
  pub client_addr : SockAddr
  pub accepted_connection : Bool
  pub percent_drop : ℤ

-- The constructor. It leaves `sock_fd_` and `server_addr_` as they are in memory.
unfoldable pub server_socket : ℤ → SockAddr → ℕ → ℤ → ServerSocket
server_socket memory_fd memory_addr port percent_drop = record {
  sock_fd = memory_fd;
  port = port;
  server_addr = memory_addr;
  client_addr = zero_addr;
  accepted_connection = false;
  percent_drop = percent_drop;
}

-- `percentage < 0 || percentage > 99`.
unfoldable pub is_bad_percentage : ℤ → Bool
is_bad_percentage (pos n) = ltb 99 n
is_bad_percentage (negsuc n) = true

-- How `Bind` ends: a value, `exit(status)`, or the end of the body with no value, which is what
-- happens if every call succeeds.
pub data Bound : Type 0 where
  returned : ℤ → Bound
  exited : ℕ → Bound
  no_value : Bound

abbrev pub fifty_milliseconds : TimeVal
fifty_milliseconds = record { tv_sec = 0; tv_usec = 50000 }

abbrev pub fifty_thousand_seconds : TimeVal
fifty_thousand_seconds = record { tv_sec = 50000; tv_usec = 0 }

-- The test of an `int` against 0.
abbrev pub is_zero : ℤ → Bool
is_zero (pos n) = n == 0
is_zero (negsuc n) = false

-- What the loop of `WriteData` uses of the object.
abbrev pub server_peer : ServerSocket → Peer
server_peer s = record { fd = s.sock_fd; addr = s.client_addr; percent_drop = s.percent_drop }

module _ {W : Type 0} (net : Net W) where
  unfoldable pub server_set_drop_percentage : ServerSocket → ℤ → State W ServerSocket
  unfolding is_bad_percentage
  server_set_drop_percentage s percentage =
      if is_bad_percentage percentage
      then (do net.cerr ": Invalid packet drop percentage"; pure s)
      else pure (record s { percent_drop = percentage })

  -- The rest of `Bind` from `memset(&server_addr_, ...)` on.
  unfoldable pub bind_address : ServerSocket → State W (Bound × ServerSocket)
  bind_address s = do
    err ← net.bind s.sock_fd s.server_addr
    if is_neg err
        then (do net.cerr ": Error binding to socket"; pure (returned err, s))
        else pure (no_value, s)

  -- The rest of `Bind` once the socket is open.
  unfoldable pub set_reuse : ServerSocket → State W (Bound × ServerSocket)
  unfolding bind_address
  set_reuse s = do
    failure ← net.setsockopt s.sock_fd (reuse_addr_port 0)
    if is_zero failure
        then bind_address (record s {
          server_addr = record {
            sin_family = af_inet;
            sin_port = net.htons s.port;
            sin_addr = net.htonl inaddr_any;
          };
        })
        else (do net.cerr " : setsockopt "; pure (exited 1, s))

  unfoldable pub server_bind : ServerSocket → State W (Bound × ServerSocket)
  unfolding set_reuse
  server_bind s = do
    fd ← net.socket af_inet sock_dgram 0
    if is_neg fd
        then (do
          net.cerr ": Unable to create socket. Error = "
          pure (returned fd, record s { sock_fd = fd }))
        else set_reuse (record s { sock_fd = fd })

  -- `setsockopt(sock_fd_, SOL_SOCKET, SO_RCVTIMEO, &tv, sizeof(tv))`, whose failure is only told.
  unfoldable pub set_timeout : ℤ → TimeVal → State W (Unit {0})
  set_timeout fd tv = do
    result ← net.setsockopt fd (rcv_timeout tv)
    if is_neg result then net.cerr ": Error in setting timeout" else pure tt

  -- `ReadData` after a datagram came: acknowledge it.
  unfoldable pub server_acknowledge :
      ServerSocket → List ℕ → ℤ → State W (ℤ × ServerSocket × List ℕ)
  server_acknowledge s buff len = do
    ret ← net.sendto s.sock_fd (encode32 ack_word) s.client_addr
    if is_neg ret
        then (do net.cerr ": Error in sending the ack"; pure (ret, s, buff))
        else pure (len, s, buff)

  -- `ReadData` after `recvfrom`.
  unfoldable pub server_store :
      ServerSocket → List ℕ → Received → State W (ℤ × ServerSocket × List ℕ)
  server_store s buff failed = do
    net.cerr " : Error in receiving data"
    pure (recv_len failed, s, buff)
  server_store s buff (received bytes from) =
      server_acknowledge (record s { client_addr = from }) (overlay bytes buff) (pos (length bytes))

  -- `ReadData` once the connection is known to be there.
  unfoldable pub server_read_connected : ServerSocket → List ℕ → State W (ℤ × ServerSocket × List ℕ)
  server_read_connected s buff = do m ← net.recvfrom s.sock_fd (length buff); server_store s buff m

  -- `ReadData(buff, size)`, where `size` is the length of the buffer. The buffer is returned.
  unfoldable pub server_read_data : ServerSocket → List ℕ → State W (ℤ × ServerSocket × List ℕ)
  server_read_data s buff =
      if not s.accepted_connection
      then (do
        net.cerr ": Unable to read since no connection is established."
        pure (minus_one, s, buff))
      else server_read_connected s buff

  -- `Accept`. The variable `handshake` has no initial value: its four bytes are an argument.
  unfoldable pub server_accept : List ℕ → ServerSocket → State W (ℤ × ServerSocket)
  server_accept handshake s = do
    (n, s', word) ← server_read_data (record s { accepted_connection = true }) handshake
    s'' ←
        (if is_neg n
          then (do
            net.cerr " : Unable to accept the connection"
            pure (record s' { accepted_connection = false }))
          else pure s')
    if decode32 word == handshake_word then pure (pos 0, s'') else (do
      net.cerr " : Handshake failed"
      pure (minus_one, record s'' { accepted_connection = false }))

  -- The end of `WriteData`. The early `return` leaves the short timeout in place.
  unfoldable pub server_after_loop : ServerSocket → Finish → State W (ℤ × ServerSocket)
  server_after_loop s (send_failed ret addr) = pure (ret, record s { client_addr = addr })
  server_after_loop s (acknowledged ret addr) = do
    set_timeout s.sock_fd fifty_thousand_seconds
    pure (ret, record s { client_addr = addr })

  -- `WriteData` once the connection is known to be there.
  unfoldable pub server_write_connected : ℕ → ServerSocket → List ℕ → Partial W (ℤ × ServerSocket)
  unfolding server_after_loop
  server_write_connected rounds s buff = do
    set_timeout s.sock_fd fifty_milliseconds
    after (write_loop net rounds (server_peer s) buff (pos 0)) (server_after_loop s)

  -- `WriteData(buff, size)` on the `size` bytes of `buff`, with at most so many rounds of its
  -- loop: `none` means that it has not returned.
  unfoldable pub server_write_data : ℕ → ServerSocket → List ℕ → Partial W (ℤ × ServerSocket)
  server_write_data rounds s buff =
      if not s.accepted_connection
      then finish (do
        net.cerr " : Unable to write since no connection is established."
        pure (minus_one, s))
      else server_write_connected rounds s buff

  -- `Close`, which the destructor calls.
  unfoldable pub server_close : ServerSocket → State W ServerSocket
  server_close s = do _ ← net.close s.sock_fd; pure s
