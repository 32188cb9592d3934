-- ===== src/Tcp/Client.antt =====
-- HW1/part1/client_server/SocketClient.c and HW1/part2/client.c, which have one text but for the
-- header that they include. The texts that are printed are left out.
use cs739_distributed_system.Base.{
  ℕ, zero, suc, ◌+◌, ◌%◌, ◌^◌, none, some, List, [], ◌∷◌, ltb, if◌then◌else◌, take, replicate, ℤ,
  minus_one, is_neg, to_u32, State, Partial, ◌>>=◌, ◌>>◌, pure, finish, after, chain,
}
use cs739_distributed_system.Transfer.{write_full, read_full}
use cs739_distributed_system.Udp.Net.{af_inet, overlay, encode32, decode32}
use cs739_distributed_system.Tcp.Net.{
  TcpNet, sock_stream, Outcome, exited, faulted, value, buff_size, num_trials, set_cpu_core,
}

module _ {W : Type 0} (net : TcpNet W) where
  -- `socket_create_and_connect` once the host is known.
  unfoldable pub connect_to : ℤ → ℕ → ℕ → State W (Outcome ℤ)
  connect_to fd port host = do
    ret ←
        net.connect fd (record { sin_family = af_inet; sin_port = port % 2 ^ 16; sin_addr = host })
    if is_neg ret then (do net.perror "gethostbyname"; pure (value ret)) else pure (value fd)

  -- `socket_create_and_connect` once the socket is open.
  unfoldable pub find_server : ℤ → ℕ → ℕ → State W (Outcome ℤ)
  find_server fd port server_addr = do
    server_ptr ← net.gethostbyaddr server_addr
    elim server_ptr [
      | none ↦ do net.perror "gethostbyname"; pure (value minus_one)
      | some host ↦ connect_to fd port host
    ]

  -- `socket_create_and_connect(port)`.
  unfoldable pub socket_create_and_connect : ℕ → State W (Outcome ℤ)
  socket_create_and_connect port = elim (net.inet_aton "128.105.37.197") [
    | none ↦ do net.perror "Invalid address"; pure (exited 1)
    | some server_addr ↦ do
      fd ← net.socket af_inet sock_stream 0
      if is_neg fd
          then (do net.perror "connect"; pure (value fd))
          else find_server fd port server_addr
  ]

  -- A message for a call that failed, which the program counts nowhere: the number of messages.
  unfoldable pub told : ℤ → ℕ → State W ℕ
  told ret errors =
      if is_neg ret then (do net.perror "read pktsize"; pure (errors + 1)) else pure errors

  -- A round of the latency loop on a packet that lies inside the buffer: the buffer and the number
  -- of messages.
  unfoldable pub echo : ℕ → ℤ → ℕ → List ℕ → ℕ → Partial W (List ℕ × ℕ)
  echo calls fd packet_size buffer errors = chain (read_full net.stream calls fd packet_size) (λ r.
      do
        errors ← told r.0 errors
        chain (write_full net.stream calls fd (take packet_size (overlay r.1 buffer)))
            (λ ret. do errors ← told ret errors; finish (pure (overlay r.1 buffer, errors))))

  -- The latency loop.
  unfoldable pub echo_trials : ℕ → ℕ → ℤ → ℕ → List ℕ → ℕ → Partial W (List ℕ × ℕ)
  echo_trials zero calls fd packet_size buffer errors w = some ((buffer, errors), w)
  echo_trials (suc n) calls fd packet_size buffer errors w =
      chain (echo calls fd packet_size buffer errors)
        (λ r. echo_trials n calls fd packet_size r.0 r.1) w

  -- The rest of `main` once the packet size is known: a larger packet would be stored behind the
  -- end of the buffer.
  unfoldable pub echo_packets : ℕ → ℤ → ℕ → Partial W (Outcome ℕ)
  echo_packets calls fd packet_size w =
      if ltb buff_size packet_size
      then some (faulted, w)
      else after (echo_trials num_trials calls fd packet_size (replicate buff_size b'e') 0)
          (λ r. do _ ← net.close fd; pure (value r.1)) w

  -- The handshake, whose results are ignored: `packet_size` is 0 before it.
  unfoldable pub answer_handshake : ℕ → ℤ → Partial W (Outcome ℕ)
  answer_handshake calls fd = chain (read_full net.stream calls fd 4) (λ r.
      let packet = overlay r.1 (encode32 0) in
      chain (write_full net.stream calls fd packet) (λ _. echo_packets calls fd (decode32 packet)))

  -- `main`: the number of messages about failed calls.
  unfoldable pub echo_main : ℕ → List (List ℕ) → Partial W (Outcome ℕ)
  echo_main calls (program ∷ port ∷ []) = do
    pid ← net.getpid
    _ ← set_cpu_core net pid 3
    connected ← socket_create_and_connect (to_u32 (net.atoi port))
    elim connected [
      | exited status ↦ finish (pure (exited status))
      | faulted ↦ finish (pure faulted)
      | value fd ↦
          if is_neg fd
          then finish (do net.perror "socket_create_and_connect"; pure (exited 1))
          else answer_handshake calls fd
    ]
  echo_main calls _ = do net.perror "Usage: ServerSocket port"; finish (pure (exited 0))
