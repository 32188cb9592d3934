-- ===== src/Tcp/NoFault.antt =====
-- The server of HW1/part1/client_server/SocketServer.c stays inside its buffer, unless the packet
-- is larger than the buffer.
use Prim.Native.String.{String}
use cs739_distributed_system.Base.{
  ℕ, zero, suc, ◌-◌, ◌%◌, ◌^◌, ◌≤◌, ◌≡◌, refl, sym, ap, subst, ◌∙◌, ◌≢◌, inl, inr, Option, some,
  List, [], ◌∷◌, ◌++◌, arith, ◌==◌, if◌then◌else◌, le→ltb, Bool-cases, length, take, replicate,
  length-append, length-replicate, ℤ, pos, negsuc, is_neg, to_u32, State, Partial, ◌>>=◌, ◌>>◌,
  pure, finish, Allows, Allows-chain, Allows-after, Allows-chain_of, Allows-mono,
}
use cs739_distributed_system.Transfer.{write_full, read_full}
use cs739_distributed_system.Udp.Net.{overlay, encode32, decode32, af_inet, inaddr_any}
use cs739_distributed_system.Stats.{Stats, sample, fresh}
use cs739_distributed_system.Udp.Bytes.{length-overlay}
use cs739_distributed_system.PacketSize.{get_packet_size}
use cs739_distributed_system.Tcp.Net.{
  TcpNet, sock_stream, Outcome, exited, faulted, value, buff_size, set_cpu_core, or_exit,
  num_trials, then_value, chain_value,
}
use cs739_distributed_system.Tcp.Server.{
  Latency, fill_buffer, bind_and_accept, socket_create_and_accept, write_from, read_into,
  read_again, trial, trials, measure_latency, compare_sizes, read_response, serve_handshake, serve,
  latency_main, part1_server_main,
}
use cs739_distributed_system.Tcp.Session.{pattern_bytes, length-pattern_bytes}

-- A buffer of at least `BUFF_SIZE` bytes is filled.
pub fill_buffer-value :
    (size : ℕ)
    → buff_size ≤ size
    → fill_buffer size ≡ value (pattern_bytes buff_size ++ replicate (size - buff_size) 0)
unfolding fill_buffer
fill_buffer-value size h =
    let filled : List ℕ = pattern_bytes buff_size ++ replicate (size - buff_size) 0 in
    ap (λ b. if b then faulted else value filled) (le→ltb size buff_size h)

length-filled :
    (filled size : ℕ)
    → filled ≤ size
    → length (pattern_bytes filled ++ replicate (size - filled) 0) ≡ size
length-filled filled size h = omega (
  arith,
  length-append (pattern_bytes filled) (replicate (size - filled) 0),
  length-pattern_bytes filled,
  length-replicate {A = ℕ} (size - filled) 0,
)

module _ {W : Type 0} (net : TcpNet W) where
  abbrev pub StaysInside : Option (Outcome Latency × W) → Type 0
  StaysInside r = Allows (λ out w. out ≢ faulted) r

  -- A value is as `P` says, and the buffer was not left.
  abbrev Inside : {A : Type 0} → (A → Type 0) → Outcome A → W → Type 0
  Inside P (exited status) w = Unit
  Inside P faulted w = ⊥
  Inside P (value a) w = P a

  then_value-Inside :
      {A B : Type 0} (P : A → Type 0) (Q : B → Type 0) (next : A → Partial W (Outcome B))
      (out : Outcome A) (w : W)
      → Inside P out w
      → ((a : A) (v : W) → P a → Allows (Inside Q) (next a v))
      → Allows (Inside Q) (then_value next out w)
  unfolding then_value
  then_value-Inside P Q next (exited status) w h rest = tt
  then_value-Inside P Q next faulted w h rest = absurd h
  then_value-Inside P Q next (value a) w h rest = rest a w h

  chain_value-Inside :
      {A B : Type 0} (P : A → Type 0) (Q : B → Type 0) (m : Partial W (Outcome A))
      (next : A → Partial W (Outcome B)) (w : W)
      → Allows (Inside P) (m w)
      → ((a : A) (v : W) → P a → Allows (Inside Q) (next a v))
      → Allows (Inside Q) (chain_value m next w)
  unfolding chain_value
  chain_value-Inside P Q m next w h rest =
      Allows-chain_of (Inside Q) m (then_value next) w h
        (λ out v k. then_value-Inside P Q next out v k rest)

  -- A packet that is not larger than the buffer is read and written inside it, and the buffer keeps
  -- its size.
  module _ (packet_size size : ℕ) (fits : packet_size ≤ size) where
    abbrev Sized : List ℕ → Type 0
    Sized buffer = length buffer ≡ size

    write_from-Inside :
        (calls : ℕ) (fd : ℤ) (buffer : List ℕ) (w : W)
        → Sized buffer
        → Allows (Inside (λ _. Unit)) (write_from net calls fd packet_size buffer w)
    unfolding write_from
    write_from-Inside calls fd buffer w h =
        rw (le→ltb (length buffer) packet_size (omega (arith, fits, h))) (
          Allows-after (Inside {A = ℤ} (λ _. Unit))
            (write_full net.stream calls fd (take packet_size buffer)) (λ ret. pure (value ret)) w
            (λ ret v. tt))

    read_into-Inside :
        (calls : ℕ) (fd : ℤ) (buffer : List ℕ) (w : W)
        → Sized buffer
        → Allows
            (Inside {A = ℤ × List ℕ} (λ r. Sized r.1))
            (read_into net calls fd packet_size buffer w)
    unfolding read_into
    read_into-Inside calls fd buffer w h =
        rw (le→ltb (length buffer) packet_size (omega (arith, fits, h))) (
          Allows-after (Inside {A = ℤ × List ℕ} (λ r. Sized r.1))
            (read_full net.stream calls fd packet_size)
            (λ r. pure (value (r.0, overlay r.1 buffer))) w (λ r v. length-overlay r.1 buffer ∙ h))

    read_again-Inside :
        (tries calls : ℕ) (fd : ℤ) (buffer : List ℕ) (w : W)
        → Sized buffer
        → Allows (Inside Sized) (read_again net tries calls fd packet_size buffer w)
    unfolding read_again
    read_again-Inside zero calls fd buffer w h = tt
    read_again-Inside (suc tries) calls fd buffer w h =
        chain_value-Inside (λ r. Sized r.1) Sized (read_into net calls fd packet_size buffer) _ w
          (read_into-Inside calls fd buffer w h)
          (λ r v k. elim (Bool-cases (is_neg r.0)) [
            | inl e ↦ rw e (read_again-Inside tries calls fd r.1 _ k)
            | inr e ↦ rw e k
          ])

    trial-Inside :
        (tries calls : ℕ) (fd : ℤ) (buffer : List ℕ) (w : W)
        → Sized buffer
        → Allows
            (Inside {A = ℕ × List ℕ} (λ r. Sized r.1))
            (trial net tries calls fd packet_size buffer w)
    unfolding trial
    trial-Inside tries calls fd buffer w h =
        chain_value-Inside (λ _. Unit) (λ r. Sized r.1) (write_from net calls fd packet_size buffer)
          _ _ (write_from-Inside calls fd buffer _ h)
          (λ ret v k.
            chain_value-Inside Sized (λ r. Sized r.1)
              (read_again net tries calls fd packet_size buffer) _ _
              (read_again-Inside tries calls fd buffer _ h) (λ buffer' u l. l))

    trials-Inside :
        (n tries calls : ℕ) (fd : ℤ) (buffer : List ℕ) (s : Stats) (w : W)
        → Sized buffer
        → Allows (Inside (λ _. Unit)) (trials net n tries calls fd packet_size buffer s w)
    unfolding trials
    trials-Inside zero tries calls fd buffer s w h = tt
    trials-Inside (suc n) tries calls fd buffer s w h =
        chain_value-Inside (λ r. Sized r.1) (λ _. Unit)
          (trial net tries calls fd packet_size buffer) _ w (trial-Inside tries calls fd buffer w h)
          (λ r v k. trials-Inside n tries calls fd r.1 (sample s r.0) v k)

  Inside-fine :
      {A : Type 0} (P : A → Type 0) (out : Outcome A) (w : W) → Inside P out w → out ≢ faulted
  Inside-fine P (exited status) w h same = cc
  Inside-fine P faulted w h same = h
  Inside-fine P (value a) w h same = cc

  measure_latency-StaysInside :
      (tries calls : ℕ) (fds : ℤ × ℤ) (packet_size : ℕ) (buffer : List ℕ) (w : W)
      → packet_size ≤ length buffer
      → StaysInside (measure_latency net tries calls fds packet_size buffer w)
  unfolding measure_latency
  measure_latency-StaysInside tries calls fds packet_size buffer w h =
      Allows-mono (λ out v. out ≢ faulted)
        (measure_latency net tries calls fds packet_size buffer w) (Inside-fine (λ _. Unit))
        (chain_value-Inside (λ _. Unit) (λ _. Unit)
          (trials net num_trials tries calls fds.1 packet_size buffer fresh) _ w
          (trials-Inside packet_size (length buffer) h num_trials tries calls fds.1 buffer fresh w
            refl)
          (λ s v k. tt))

  compare_sizes-StaysInside :
      (tries calls : ℕ) (fds : ℤ × ℤ) (packet_size : ℕ) (buffer : List ℕ) (response : ℕ) (w : W)
      → packet_size ≤ length buffer
      → StaysInside (compare_sizes net tries calls fds packet_size buffer response w)
  unfolding compare_sizes
  compare_sizes-StaysInside tries calls fds packet_size buffer response w h =
      elim (Bool-cases (packet_size == response)) [
        | inl e ↦ rw e (measure_latency-StaysInside tries calls fds packet_size buffer w h)
        | inr e ↦ rw e (λ same. cc)
      ]

  -- What follows the answer of the client.
  abbrev answered : ℕ → ℕ → ℤ × ℤ → ℕ → List ℕ → ℤ × List ℕ → Partial W (Outcome Latency)
  answered tries calls fds packet_size buffer r =
      if is_neg r.0
      then finish (do net.perror "read"; pure (exited 1))
      else compare_sizes net tries calls fds packet_size buffer (decode32 r.1)

  answered-StaysInside :
      (tries calls : ℕ) (fds : ℤ × ℤ) (packet_size : ℕ) (buffer : List ℕ) (r : ℤ × List ℕ) (w : W)
      → packet_size ≤ length buffer
      → StaysInside (answered tries calls fds packet_size buffer r w)
  answered-StaysInside tries calls fds packet_size buffer r w h = elim (Bool-cases (is_neg r.0)) [
    | inl e ↦ rw e (λ same. cc)
    | inr e ↦ rw e (compare_sizes-StaysInside tries calls fds packet_size buffer (decode32 r.1) w h)
  ]

  read_response-StaysInside :
      (tries calls : ℕ) (fds : ℤ × ℤ) (packet_size : ℕ) (buffer : List ℕ) (ret : ℤ) (w : W)
      → packet_size ≤ length buffer
      → StaysInside (read_response net tries calls fds packet_size buffer ret w)
  unfolding read_response
  read_response-StaysInside tries calls fds packet_size buffer (negsuc k) w h = λ same. cc
  read_response-StaysInside tries calls fds packet_size buffer (pos n) w h =
      Allows-chain (λ out w. out ≢ faulted) (read_full net.stream calls fds.1 4)
        (answered tries calls fds packet_size buffer) w
        (λ r v. answered-StaysInside tries calls fds packet_size buffer r v h)

  pub serve_handshake-StaysInside :
      (tries calls : ℕ) (fds : ℤ × ℤ) (packet_size : ℕ) (buffer : List ℕ) (w : W)
      → packet_size ≤ length buffer
      → StaysInside (serve_handshake net tries calls fds packet_size buffer w)
  unfolding serve_handshake
  serve_handshake-StaysInside tries calls fds packet_size buffer w h =
      Allows-chain (λ out w. out ≢ faulted)
        (write_full net.stream calls fds.1 (encode32 packet_size))
        (read_response net tries calls fds packet_size buffer) w
        (λ r v. read_response-StaysInside tries calls fds packet_size buffer r v h)

  -- The part of `serve` that follows the connection.
  abbrev pub connected : ℕ → ℕ → ℕ → List ℕ → Outcome (ℤ × ℤ) → Partial W (Outcome Latency)
  connected tries calls packet_size buffer (exited status) = finish (pure (exited status))
  connected tries calls packet_size buffer faulted = finish (pure faulted)
  connected tries calls packet_size buffer (value fds) =
      serve_handshake net tries calls fds packet_size buffer

  connected-StaysInside :
      (tries calls : ℕ) (packet_size : ℕ) (buffer : List ℕ) (accepted : Outcome (ℤ × ℤ)) (w : W)
      → packet_size ≤ length buffer
      → accepted ≢ faulted
      → StaysInside (connected tries calls packet_size buffer accepted w)
  connected-StaysInside tries calls packet_size buffer (exited status) w h fine = λ same. cc
  connected-StaysInside tries calls packet_size buffer faulted w h fine = absurd (fine refl)
  connected-StaysInside tries calls packet_size buffer (value fds) w h fine =
      serve_handshake-StaysInside tries calls fds packet_size buffer w h

  -- Code that never leaves the buffer.
  abbrev Fine : State W (Outcome (ℤ × ℤ)) → Type 0
  Fine m = (w : W) → (m w).0 ≢ faulted

  or_exit-Fine :
      (err : ℤ) (message : String) (next : State W (Outcome (ℤ × ℤ)))
      → Fine next
      → Fine (or_exit net err message next)
  or_exit-Fine err message next h w = elim (Bool-cases (is_neg err)) [
    | inl e ↦ rw e (λ same. cc)
    | inr e ↦ rw e (h w)
  ]

  accepted_pair-Fine : (sfd err : ℤ) → Fine (pure (value (sfd, err)))
  accepted_pair-Fine sfd err w same = cc

  bind_and_accept-Fine : (sfd : ℤ) (port : ℕ) → Fine (bind_and_accept net sfd port)
  unfolding bind_and_accept
  bind_and_accept-Fine sfd port w =
      let b =
        net.bind sfd
          (record {
            sin_family = af_inet;
            sin_port = port % 2 ^ 16;
            sin_addr = net.htonl inaddr_any;
          })
          w in
      or_exit-Fine b.0 "bind"
        (do
          err ← net.listen sfd 1
          or_exit net err "listen"
              (do err ← net.accept sfd; or_exit net err "accept" (pure (value (sfd, err)))))
        (λ v.
          or_exit-Fine _ "listen"
            (do err ← net.accept sfd; or_exit net err "accept" (pure (value (sfd, err))))
            (λ u.
              or_exit-Fine _ "accept" (pure (value (sfd, (net.accept sfd u).0)))
                (accepted_pair-Fine sfd _) (net.accept sfd u).1)
            (net.listen sfd 1 v).1)
        b.1

  socket_create_and_accept-Fine : (port : ℕ) → Fine (socket_create_and_accept net port)
  unfolding socket_create_and_accept
  socket_create_and_accept-Fine port w =
      let s = net.socket af_inet sock_stream 0 w in
      or_exit-Fine s.0 "socket creation"
        (do
          err ← net.set_nodelay s.0 1
          or_exit net err "setsockopt" (bind_and_accept net s.0 port))
        (λ v.
          or_exit-Fine (net.set_nodelay s.0 1 v).0 "setsockopt" (bind_and_accept net s.0 port)
            (bind_and_accept-Fine s.0 port) (net.set_nodelay s.0 1 v).1)
        s.1

  -- The rest of `main` with a buffer that is filled.
  pub serve_filled :
      (size tries calls port packet_size : ℕ) (buffer : List ℕ) (w : W)
      → fill_buffer size ≡ value buffer
      → serve net size tries calls port packet_size w
        ≡ connected tries calls packet_size buffer
            (socket_create_and_accept net port w).0
            (socket_create_and_accept net port w).1
  unfolding serve
  serve_filled size tries calls port packet_size buffer w filled = rw (filled, serve) refl

  -- With a buffer of at least `BUFF_SIZE` bytes, and a packet that is not larger than the buffer, what
  -- follows the arguments never leaves the buffer.
  pub serve-StaysInside :
      (size tries calls port packet_size : ℕ) (w : W)
      → buff_size ≤ size
      → packet_size ≤ size
      → StaysInside (serve net size tries calls port packet_size w)
  serve-StaysInside size tries calls port packet_size w large fits =
      let buffer = pattern_bytes buff_size ++ replicate (size - buff_size) 0 in
      rw (serve_filled size tries calls port packet_size buffer w (fill_buffer-value size large)) (
        connected-StaysInside tries calls packet_size buffer _ _
          (subst (λ n. packet_size ≤ n) (sym (length-filled buff_size size large)) fits)
          (socket_create_and_accept-Fine port w))

  -- When the packet size that `main` reads is at most `BUFF_SIZE`, the server of part1 never leaves its
  -- buffer, however the network behaves.
  pub part1_server_main-StaysInside :
      (tries calls : ℕ) (program port packet_size rest : List ℕ) (n : ℤ) (w w' : W)
      (out : Outcome Latency)
      → get_packet_size net.atoi packet_size ≡ some (n, rest)
      → to_u32 n ≤ buff_size
      → part1_server_main net tries calls (program ∷ port ∷ packet_size ∷ []) w ≡ some (out, w')
      → out ≢ faulted
  unfolding part1_server_main latency_main
  part1_server_main-StaysInside tries calls program port packet_size rest n w w' out size fits ran =
      let served =
        serve net buff_size tries calls (to_u32 (net.atoi port)) (to_u32 n)
          (set_cpu_core net 0 2 w).1 in
      let same : served ≡ some (out, w') = rw size at ran in
      subst (λ r. StaysInside r) same
        (serve-StaysInside buff_size tries calls (to_u32 (net.atoi port)) (to_u32 n) _ (omega arith)
          fits)
