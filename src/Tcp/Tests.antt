-- ===== src/Tcp/Tests.antt =====
-- Runs of the programs over TCP, on a connection that moves all that it is given.
use cs739_distributed_system.Base.{
  ℕ, zero, suc, ◌*◌, ◌<◌, ◌≡◌, refl, sym, ap, ◌≢◌, some, List, [], ◌∷◌, ◌++◌, arith, length, take,
  drop, take-append-drop, length-take, take_all, pos,
}
use cs739_distributed_system.Transfer.{
  Stream, failed, chunk, after_write, after_read, write_rest, read_rest, write_full, read_full,
}
use cs739_distributed_system.Transfer.Laws.{StreamLaws}
use cs739_distributed_system.Udp.Net.{overlay, encode32}
use cs739_distributed_system.Tcp.Net.{
  TcpNet, Outcome, exited, set_cpu_core, faulted, value, buff_size,
}
use cs739_distributed_system.Tcp.Server.{
  part2_server_main, part1_server_main, Latency, fill_buffer, serve_handshake, read_response,
  latency_main, bind_and_accept, socket_create_and_accept, serve,
}
use cs739_distributed_system.Tcp.Client.{told, echo, echo_trials, answer_handshake}
use cs739_distributed_system.Tcp.Faults.{part2_server_main-faulted}
use cs739_distributed_system.Transfer.Duplex.{DuplexLaws}
use cs739_distributed_system.Transfer.Flow.{Flowing}
use cs739_distributed_system.Tcp.Session.{Aside}
use cs739_distributed_system.Tcp.Meeting.{Working, session, serve-session}
use cs739_distributed_system.Tcp.NoFault.{part1_server_main-StaysInside}
use cs739_distributed_system.PacketSize.{split_last, by_suffix, get_packet_size}
use cs739_distributed_system.Tcp.Echo.{Echoed}
use cs739_distributed_system.Tcp.EchoLoop.{echo_trials-Echoed}

abbrev Pipe : Type 0
Pipe = List ℕ × List ℕ

abbrev pipe : Stream Pipe
pipe = record {
  write = λ fd bytes w. (pos (length bytes), (w.0 ++ bytes, w.1));
  read = λ fd size w. (chunk (take size w.1), (w.0, drop size w.1));
}

abbrev host_on : Stream Pipe → TcpNet Pipe
host_on stream = record {
  socket = λ domain kind protocol w. (pos 3, w);
  set_nodelay = λ fd option w. (pos 0, w);
  bind = λ fd addr w. (pos 0, w);
  listen = λ fd backlog w. (pos 0, w);
  accept = λ fd w. (pos 4, w);
  connect = λ fd addr w. (pos 0, w);
  close = λ fd w. (pos 0, w);
  stream = stream;
  clock_gettime = λ w. (record { tv_sec = 1; tv_nsec = 1 }, w);
  getpid = λ w. (100, w);
  sched_setaffinity = λ pid cpus w. (pos 0, w);
  gethostbyaddr = λ address w. (some address, w);
  inet_aton = λ text. some 1;
  htonl = λ n. n;
  atoi = λ text. pos 7000;
  perror = λ message w. (tt, w);
}

abbrev host : TcpNet Pipe
host = host_on pipe

-- A peer that is gone once the packet size was sent.
abbrev broken : Stream Pipe
broken = record {
  write = λ fd bytes w. (pos (length bytes), (w.0 ++ bytes, w.1));
  read = λ fd size w. (failed, w);
}

pipe-StreamLaws : StreamLaws pipe (λ w. w.0) (λ w. w.1)
pipe-StreamLaws = record {
  write_some = λ fd bytes w n e.
      let same : length bytes ≡ n = cc in
      (omega arith, ap (◌++◌ w.0) (sym (take_all n bytes (omega arith))));
  write_none = λ fd bytes w k e. cc;
  read_some = λ fd size w bytes e.
      let same : take size w.1 ≡ bytes = cc in
      rw (← same) (omega (arith, length-take size w.1), sym (take-append-drop size w.1));
  read_none = λ fd size w e. cc;
}

pipe-DuplexLaws : DuplexLaws pipe (λ w. w.0) (λ w. w.1)
pipe-DuplexLaws = record { write_keeps = λ fd bytes w. refl; read_keeps = λ fd size w. refl }

two_echoes :
    echo_trials host 2 2 (pos 4) 2 (0 ∷ 0 ∷ 0 ∷ []) 0 ([], 1 ∷ 2 ∷ 3 ∷ 4 ∷ 5 ∷ [])
    ≡ some ((3 ∷ 4 ∷ 0 ∷ [], 0), (1 ∷ 2 ∷ 3 ∷ 4 ∷ [], 5 ∷ []))
unfolding echo_trials echo told write_full write_rest after_write read_full read_rest after_read
    overlay
two_echoes = refl

echo_trials-Echoed_example :
    Echoed
      (λ (w : Pipe). w.0)
      (λ (w : Pipe). w.1)
      (2 * 2)
      ([], 1 ∷ 2 ∷ 3 ∷ 4 ∷ 5 ∷ [])
      (1 ∷ 2 ∷ 3 ∷ 4 ∷ [], 5 ∷ [])
echo_trials-Echoed_example =
    echo_trials-Echoed host (λ w. w.0) (λ w. w.1) pipe-StreamLaws pipe-DuplexLaws (pos 4) 2 2 2 0
      (0 ∷ 0 ∷ 0 ∷ []) ([], 1 ∷ 2 ∷ 3 ∷ 4 ∷ 5 ∷ [])
      ((3 ∷ 4 ∷ 0 ∷ [], 0), (1 ∷ 2 ∷ 3 ∷ 4 ∷ [], 5 ∷ [])) (omega arith) two_echoes refl

part2_server_main-faulted_example :
    (w' : Pipe) × (part2_server_main host 1 1
        ((b's' ∷ []) ∷ (b'8' ∷ []) ∷ (b'4' ∷ b'k' ∷ []) ∷ [])
        ([], [])
      ≡ some (faulted, w'))
part2_server_main-faulted_example =
    part2_server_main-faulted host 1 1 (b's' ∷ []) (b'8' ∷ []) (b'4' ∷ b'k' ∷ []) ([], [])

pipe-Flowing : Flowing pipe (λ w. w.1)
pipe-Flowing = record {
  write_works = λ fd bytes w. (length bytes, refl);
  write_moves = λ fd bytes w h same. absurd (let e : length bytes ≡ 0 = cc in omega arith);
  read_moves = λ fd size w. first size w.1;
}
  where
    first :
        (size : ℕ) (l : List ℕ)
        → 0 < size
        → 0 < length l
        → (b : ℕ) × (bs : List ℕ) × (chunk (take size l) ≡ chunk (b ∷ bs))
    first zero l h k = absurd (omega arith)
    first (suc size) [] h k = absurd (omega arith)
    first (suc size) (b ∷ bs) h k = (b, take size bs, refl)

host-Aside : Aside host (λ w. w.0) (λ w. w.1)
host-Aside = record {
  clock_output = λ w. refl;
  clock_input = λ w. refl;
  close_output = λ fd w. refl;
  close_input = λ fd w. refl;
}

host-Working : Working host (λ w. w.0) (λ w. w.1)
host-Working = record {
  laws = pipe-StreamLaws;
  duplex = pipe-DuplexLaws;
  flowing = pipe-Flowing;
  aside = host-Aside;
}

host_accepts : (w : Pipe) → socket_create_and_accept host 7000 w ≡ (value (pos 3, pos 4), w)
unfolding socket_create_and_accept bind_and_accept
host_accepts w = refl

serve-session_example :
    (l : Latency) × (u : Pipe) × (u' : Pipe) × (serve host buff_size 1 5 7000 1 ([], session 1)
      ≡ some (value l, u))
    × (answer_handshake host 5 (pos 3) ([], session 1) ≡ some (value 0, u'))
    × (u.0 ≡ session 1)
    × (u'.0 ≡ session 1)
    × (u.1 ≡ [])
    × (u'.1 ≡ [])
serve-session_example =
    serve-session host (λ w. w.0) (λ w. w.1) host-Working host (λ w. w.0) (λ w. w.1) host-Working 0
      5 7000 1 (pos 3, pos 4) (pos 3) ([], session 1) ([], session 1) ([], session 1) (omega arith)
      (omega arith) (omega arith) (omega arith) (host_accepts ([], session 1)) refl refl refl refl

server_alone :
    part1_server_main (host_on broken) 1 5 ((b's' ∷ []) ∷ (b'8' ∷ []) ∷ (b'7' ∷ []) ∷ []) ([], [])
    ≡ some (exited 1, (encode32 7000, []))
unfolding part1_server_main latency_main get_packet_size split_last by_suffix serve fill_buffer
    socket_create_and_accept bind_and_accept serve_handshake read_response write_full write_rest
    after_write read_full read_rest after_read set_cpu_core encode32
server_alone = refl

part1_server_main-StaysInside_example : ◌≢◌ {A = Outcome Latency} (exited 1) faulted
part1_server_main-StaysInside_example =
    part1_server_main-StaysInside (host_on broken) 1 5 (b's' ∷ []) (b'8' ∷ []) (b'7' ∷ [])
      (b'7' ∷ []) (pos 7000) ([], []) (encode32 7000, []) (exited 1)
      (unfold get_packet_size split_last by_suffix in refl) (omega arith) server_alone
