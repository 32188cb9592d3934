-- ===== src/Tcp/Server.antt =====
-- HW1/part1/client_server/SocketServer.c and HW1/part2/server.c. The two differ in the size of the
-- buffer. A `read_full` or `write_full` may be called so many times, with so many calls of the
-- system each, before the result is `none`. The texts that are printed are left out.
use cs739_distributed_system.Base.{
  ℕ, zero, suc, ◌-◌, ◌/◌, ◌%◌, ◌^◌, none, some, List, [], ◌∷◌, ◌++◌, ltb, ◌==◌, if◌then◌else◌,
  length, take, replicate, ℤ, pos, negsuc, is_neg, to_u32, State, Partial, ◌>>=◌, ◌>>◌, pure,
  finish, after, chain,
}
use cs739_distributed_system.Clock.{elapsed}
use cs739_distributed_system.Stats.{Stats, fresh, sample}
use cs739_distributed_system.PacketSize.{get_packet_size}
use cs739_distributed_system.Transfer.{write_full, read_full}
use cs739_distributed_system.Udp.Net.{af_inet, inaddr_any, overlay, encode32, decode32}
use cs739_distributed_system.Tcp.Net.{
  TcpNet, sock_stream, Outcome, exited, faulted, value, buff_size, num_trials, or_exit,
  set_cpu_core, chain_value,
}

-- `memset(_buffer, 'e', sizeof(uchar) * BUFF_SIZE)` on an array of the size.
unfoldable pub fill_buffer : ℕ → Outcome (List ℕ)
fill_buffer size =
    if ltb size buff_size
    then faulted
    else value (replicate buff_size b'e' ++ replicate (size - buff_size) 0)

-- What the program prints at its end.
pub record Latency : Type 0 where
  pub min : ℕ
  pub max : ℕ
  pub average : ℕ

module _ {W : Type 0} (net : TcpNet W) where
  -- The calls of `socket_create_and_accept` after `setsockopt`.
  unfoldable pub bind_and_accept : ℤ → ℕ → State W (Outcome (ℤ × ℤ))
  bind_and_accept sfd port = do
    err ←
        net.bind sfd (record {
          sin_family = af_inet;
          sin_port = port % 2 ^ 16;
          sin_addr = net.htonl inaddr_any;
        })
    or_exit net err "bind" (do
      err ← net.listen sfd 1
      or_exit net err "listen"
          (do err ← net.accept sfd; or_exit net err "accept" (pure (value (sfd, err)))))

  -- `socket_create_and_accept(port)`: the value is what it stores in `global_socketid`, and what it
  -- returns.
  unfoldable pub socket_create_and_accept : ℕ → State W (Outcome (ℤ × ℤ))
  socket_create_and_accept port = do
    sfd ← net.socket af_inet sock_stream 0
    or_exit net sfd "socket creation"
        (do err ← net.set_nodelay sfd 1; or_exit net err "setsockopt" (bind_and_accept sfd port))

  -- A `write_full` from the buffer, and a `read_full` into it: either leaves the buffer if it is
  -- handed more bytes than the buffer has.
  unfoldable pub write_from : ℕ → ℤ → ℕ → List ℕ → Partial W (Outcome ℤ)
  write_from calls fd size buffer w =
      if ltb (length buffer) size
      then some (faulted, w)
      else after (write_full net.stream calls fd (take size buffer)) (λ ret. pure (value ret)) w

  unfoldable pub read_into : ℕ → ℤ → ℕ → List ℕ → Partial W (Outcome (ℤ × List ℕ))
  read_into calls fd size buffer w =
      if ltb (length buffer) size
      then some (faulted, w)
      else after (read_full net.stream calls fd size) (λ r. pure (value (r.0, overlay r.1 buffer)))
          w

  -- `while ((ret = read_full(fd, _buffer, packet_size)) < 0) { ... }`: after at most so many calls
  -- of `read_full`, each of at most so many calls of `read`.
  unfoldable pub read_again : ℕ → ℕ → ℤ → ℕ → List ℕ → Partial W (Outcome (List ℕ))
  read_again zero calls fd packet_size buffer w = none
  read_again (suc tries) calls fd packet_size buffer w =
      chain_value (read_into calls fd packet_size buffer)
        (λ r v.
          let rest = read_again tries calls fd packet_size r.1 (net.perror "read pktsize" v).1 in
          if is_neg r.0 then rest else some (value r.1, v))
        w

  -- A round of the latency loop: the difference and the buffer.
  unfoldable pub trial : ℕ → ℕ → ℤ → ℕ → List ℕ → Partial W (Outcome (ℕ × List ℕ))
  trial tries calls fd packet_size buffer = do
    start ← net.clock_gettime
    chain_value (write_from calls fd packet_size buffer) (λ ret. do
      if is_neg ret then net.perror "write pktsize" else pure tt
      end ← net.clock_gettime
      chain_value (read_again tries calls fd packet_size buffer)
          (λ buffer'. finish (pure (value (elapsed start end, buffer')))))

  -- The latency loop.
  unfoldable pub trials : ℕ → ℕ → ℕ → ℤ → ℕ → List ℕ → Stats → Partial W (Outcome Stats)
  trials zero tries calls fd packet_size buffer s w = some (value s, w)
  trials (suc n) tries calls fd packet_size buffer s w =
      chain_value (trial tries calls fd packet_size buffer)
        (λ r. trials n tries calls fd packet_size r.1 (sample s r.0)) w

  -- The rest of `main` once the handshake is done.
  unfoldable pub measure_latency : ℕ → ℕ → ℤ × ℤ → ℕ → List ℕ → Partial W (Outcome Latency)
  measure_latency tries calls (listening, fd) packet_size buffer w =
      chain_value (trials num_trials tries calls fd packet_size buffer fresh)
        (λ s. finish (do
          _ ← net.close listening
          _ ← net.close fd
          pure (value (record { min = s.min; max = s.max; average = s.sum / num_trials }))))
        w

  -- The comparison of the two numbers, and what follows.
  unfoldable pub compare_sizes : ℕ → ℕ → ℤ × ℤ → ℕ → List ℕ → ℕ → Partial W (Outcome Latency)
  compare_sizes tries calls fds packet_size buffer response w =
      if packet_size == response
      then measure_latency tries calls fds packet_size buffer w
      else some (exited 1, (net.perror "Client didn't follow the protocol!" w).1)

  -- The second half of the handshake: the answer, after the size was written with this result.
  unfoldable pub read_response : ℕ → ℕ → ℤ × ℤ → ℕ → List ℕ → ℤ → Partial W (Outcome Latency)
  read_response tries calls fds packet_size buffer (negsuc k) =
      finish (do net.perror "write"; pure (exited 1))
  read_response tries calls fds packet_size buffer (pos n) =
      chain (read_full net.stream calls fds.1 4) (λ r.
        if is_neg r.0
        then finish (do net.perror "read"; pure (exited 1))
        else compare_sizes tries calls fds packet_size buffer (decode32 r.1))

  -- The handshake: send the packet size, and get it back.
  unfoldable pub serve_handshake : ℕ → ℕ → ℤ × ℤ → ℕ → List ℕ → Partial W (Outcome Latency)
  serve_handshake tries calls fds packet_size buffer =
      chain (write_full net.stream calls fds.1 (encode32 packet_size))
        (read_response tries calls fds packet_size buffer)

  -- The rest of `main` once the arguments are read.
  unfoldable pub serve : ℕ → ℕ → ℕ → ℕ → ℕ → Partial W (Outcome Latency)
  serve size tries calls port packet_size = elim (fill_buffer size) [
    | exited status ↦ finish (pure (exited status))
    | faulted ↦ finish (pure faulted)
    | value buffer ↦ do
      accepted ← socket_create_and_accept port
      elim accepted [
        | exited status ↦ finish (pure (exited status))
        | faulted ↦ finish (pure faulted)
        | value fds ↦ serve_handshake tries calls fds packet_size buffer
      ]
  ]

  -- `main`, with a buffer of the size. An empty packet size is read before its first byte.
  unfoldable pub latency_main : ℕ → ℕ → ℕ → List (List ℕ) → Partial W (Outcome Latency)
  latency_main size tries calls (program ∷ port ∷ packet_size ∷ []) = do
    _ ← set_cpu_core net 0 2
    elim (get_packet_size net.atoi packet_size) [
      | none ↦ finish (pure faulted)
      | some (n, text) ↦ serve size tries calls (to_u32 (net.atoi port)) (to_u32 n)
    ]
  latency_main size tries calls _ = do
    net.perror "Usage: ServerSocket port packet_size"
    finish (pure (exited 0))

  -- `main` of HW1/part1/client_server/SocketServer.c: the buffer is the one of Generic.h.
  unfoldable pub part1_server_main : ℕ → ℕ → List (List ℕ) → Partial W (Outcome Latency)
  part1_server_main = latency_main buff_size

  -- `main` of HW1/part2/server.c: a local array of 10000 bytes.
  unfoldable pub part2_server_main : ℕ → ℕ → List (List ℕ) → Partial W (Outcome Latency)
  part2_server_main = latency_main 10000
