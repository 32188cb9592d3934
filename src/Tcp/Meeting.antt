-- ===== src/Tcp/Meeting.antt =====
-- The server and the client of HW1/part1/client_server, each at its end of a connection.
use cs739_distributed_system.Base.{
  ℕ, suc, ◌-◌, ◌*◌, ◌^◌, ◌≤◌, ◌<◌, ◌≡◌, sym, ap, ◌∙◌, some, List, [], ◌++◌, append-nil, arith,
  replicate, ℤ,
}
use cs739_distributed_system.Transfer.Laws.{StreamLaws}
use cs739_distributed_system.Transfer.Duplex.{DuplexLaws}
use cs739_distributed_system.Transfer.Flow.{Flowing}
use cs739_distributed_system.Udp.Net.{encode32}
use cs739_distributed_system.Tcp.Net.{TcpNet, value, num_trials, buff_size}
use cs739_distributed_system.Tcp.Server.{
  Latency, fill_buffer, socket_create_and_accept, serve_handshake, serve,
}
use cs739_distributed_system.Tcp.Client.{answer_handshake}
use cs739_distributed_system.Tcp.Session.{pattern_bytes, Aside}
use cs739_distributed_system.Tcp.ServerSession.{serve_handshake_works}
use cs739_distributed_system.Tcp.ClientSession.{answer_handshake_works}
use cs739_distributed_system.Tcp.NoFault.{fill_buffer-value, serve_filled, connected}

-- A connection that works: its two streams, of which no call fails, and what leaves them alone.
pub record Working {W : Type 0} (net : TcpNet W) (output input : W → List ℕ) : Type 0 where
  pub laws : StreamLaws net.stream output input
  pub duplex : DuplexLaws net.stream output input
  pub flowing : Flowing net.stream input
  pub aside : Aside net output input

-- The bytes of a measurement, which are the same in the two directions: the packet size, and the
-- packets.
abbrev pub session : ℕ → List ℕ
session size = encode32 size ++ pattern_bytes (num_trials * size)

-- The buffer of Generic.h is filled with the pattern to its end.
fill_buffer_whole : fill_buffer buff_size ≡ value (pattern_bytes buff_size)
fill_buffer_whole =
    let full : buff_size ≤ buff_size = omega arith in
    let nothing : buff_size - buff_size ≡ 0 = omega arith in
    fill_buffer-value buff_size full
    ∙ ap (λ n. value (pattern_bytes buff_size ++ replicate n 0)) nothing
    ∙ ap value (append-nil (pattern_bytes buff_size))

module _ {W V : Type 0} (server : TcpNet W) (output input : W → List ℕ)
    (server_works : Working server output input) (client : TcpNet V) (output' input' : V → List ℕ)
    (client_works : Working client output' input') where
  serve_accepted :
      (tries calls port size : ℕ) (fds : ℤ × ℤ) (w w' : W)
      → socket_create_and_accept server port w ≡ (value fds, w')
      → serve server buff_size tries calls port size w
        ≡ serve_handshake server tries calls fds size (pattern_bytes buff_size) w'
  serve_accepted tries calls port size fds w w' h =
      serve_filled server buff_size tries calls port size (pattern_bytes buff_size) w
        fill_buffer_whole
      ∙ ap (λ r. connected server tries calls size (pattern_bytes buff_size) r.0 r.1) h

  -- Take a server that has accepted a connection and a client that is connected, each on a
  -- connection that works and has sent nothing, whose input is the packet size and 2000 packets of
  -- that size, all of the byte 'e' with which the programs fill their buffers, the size between one
  -- byte and the size of the buffer. Then the server ends with a result and
  -- the client without a message, each has sent what the other one receives, and both have read
  -- their input to its end.
  pub serve-session :
      (tries calls port size : ℕ) (fds : ℤ × ℤ) (fd : ℤ) (w w' : W) (v : V)
      → 0 < size
      → size ≤ buff_size
      → size < calls
      → 4 < calls
      → socket_create_and_accept server port w ≡ (value fds, w')
      → output w' ≡ []
      → input w' ≡ session size
      → output' v ≡ []
      → input' v ≡ session size
      → (l : Latency) × (u : W) × (u' : V) × (serve server buff_size (suc tries) calls port size w
          ≡ some (value l, u))
        × (answer_handshake client calls fd v ≡ some (value 0, u'))
        × (output u ≡ input' v)
        × (output' u' ≡ input w')
        × (input u ≡ [])
        × (input' u' ≡ [])
  serve-session tries calls port size fds fd w w' v positive fits enough wide accepted out coming
        out' coming' =
      let small : size < 2 ^ 31 = omega arith in
      let whole = append-nil (pattern_bytes (num_trials * size)) in
      let (l, u, e, o, i) =
        serve_handshake_works server output input server_works.laws server_works.duplex
          server_works.flowing server_works.aside calls size positive enough small wide tries fds
          buff_size [] w' fits (coming ∙ ap (λ l. encode32 size ++ l) (sym whole)) in
      let (u', f, o', i') =
        answer_handshake_works client output' input' client_works.laws client_works.duplex
          client_works.flowing client_works.aside fd calls size positive enough small [] v fits wide
          (coming' ∙ ap (λ l. encode32 size ++ l) (sym whole)) in
      (
        l,
        u,
        u',
        serve_accepted (suc tries) calls port size fds w w' accepted ∙ e,
        f,
        o ∙ ap (λ x. x ++ session size) out ∙ sym coming',
        o' ∙ ap (λ x. x ++ session size) out' ∙ sym coming,
        i,
        i',
      )
