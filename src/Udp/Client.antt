-- ===== src/Udp/Client.antt =====
-- The class `ClientSocket` of HW1/part2/Socket.h. The constructor's uninitialised fields and the
-- messages are treated as in `ServerSocket`.
use Prim.Native.String.{String}
use mathlib.Core.Option
use cs739_distributed_system.Base.{
  ℕ, List, [], ◌∷◌, Option, none, some, Bool, true, false, not, if◌then◌else◌, length, ℤ, pos,
  minus_one, is_neg, of_bool, State, Partial, ◌>>=◌, ◌>>◌, pure, finish, after,
}
use cs739_distributed_system.Udp.Net.{
  Received, SockAddr, af_inet, sock_dgram, inaddr_any, Net, failed, received, recv_len, overlay,
  encode32, ack_word, handshake_word,
}
use cs739_distributed_system.Udp.Retry.{Peer, Finish, send_failed, acknowledged, write_loop}
use cs739_distributed_system.Udp.Server.{
  is_bad_percentage, is_zero, fifty_milliseconds, fifty_thousand_seconds, set_timeout,
}

pub record ClientSocket : Type 0 where
  pub sock_fd : ℤ
  pub server_port : ℕ
  pub server_addr : SockAddr
  pub client_addr : SockAddr
  pub server_ip : String
  pub accepted_connection : Bool
  pub percent_drop : ℤ

-- The constructor. It leaves `sock_fd_` and the two addresses as they are in memory.
unfoldable pub client_socket : ℤ → SockAddr → SockAddr → ℕ → String → ℤ → ClientSocket
client_socket memory_fd memory_server memory_client port server_ip percent_drop = record {
  sock_fd = memory_fd;
  server_port = port;
  server_addr = memory_server;
  client_addr = memory_client;
  server_ip = server_ip;
  accepted_connection = false;
  percent_drop = percent_drop;
}

-- What the loop of `WriteData` uses of the object.
abbrev pub client_peer : ClientSocket → Peer
client_peer s = record { fd = s.sock_fd; addr = s.server_addr; percent_drop = s.percent_drop }

module _ {W : Type 0} (net : Net W) where
  -- The result, and the text in `ip` if it was written.
  unfoldable pub hostname_to_ip : String → State W (ℤ × Option String)
  hostname_to_ip hostname = do
    he ← net.gethostbyname hostname
    elim he [
      | none ↦ do net.cerr "gethostbyname"; pure (pos 1, none)
      | some [] ↦ pure (pos 1, none)
      | some (first ∷ rest) ↦ pure (pos 0, some (net.inet_ntoa first))
    ]

  unfoldable pub client_set_drop_percentage : ClientSocket → ℤ → State W ClientSocket
  client_set_drop_percentage s percentage =
      if is_bad_percentage percentage
      then (do net.cerr ": Invalid packet drop percentage"; pure s)
      else pure (record s { percent_drop = percentage })

  unfoldable pub client_acknowledge :
      ClientSocket → List ℕ → ℤ → State W (ℤ × ClientSocket × List ℕ)
  client_acknowledge s buff len = do
    sent ← net.sendto s.sock_fd (encode32 ack_word) s.server_addr
    if is_neg sent
        then (do net.cerr ": Error in send the ack"; pure (of_bool (is_neg sent), s, buff))
        else pure (len, s, buff)

  -- `ReadData` after `recvfrom`.
  unfoldable pub client_store :
      ClientSocket → List ℕ → Received → State W (ℤ × ClientSocket × List ℕ)
  client_store s buff failed = do
    net.cerr " : Error in receiving data"
    pure (recv_len failed, s, buff)
  client_store s buff (received bytes from) =
      client_acknowledge (record s { server_addr = from }) (overlay bytes buff) (pos (length bytes))

  -- `ReadData` once the connection is known to be there.
  unfoldable pub client_read_connected : ClientSocket → List ℕ → State W (ℤ × ClientSocket × List ℕ)
  client_read_connected s buff = do m ← net.recvfrom s.sock_fd (length buff); client_store s buff m

  -- `ReadData(buff, size)`. A failed acknowledgement returns the value of the comparison.
  unfoldable pub client_read_data : ClientSocket → List ℕ → State W (ℤ × ClientSocket × List ℕ)
  client_read_data s buff =
      if not s.accepted_connection
      then (do
        net.cerr " : Unable to read since no connection is established."
        pure (minus_one, s, buff))
      else client_read_connected s buff

  unfoldable pub client_after_loop : ClientSocket → Finish → State W (ℤ × ClientSocket)
  client_after_loop s (send_failed ret addr) = pure (ret, record s { server_addr = addr })
  client_after_loop s (acknowledged ret addr) = do
    set_timeout net s.sock_fd fifty_thousand_seconds
    pure (ret, record s { server_addr = addr })

  -- `WriteData` once the connection is known to be there.
  unfoldable pub client_write_connected : ℕ → ClientSocket → List ℕ → Partial W (ℤ × ClientSocket)
  unfolding client_after_loop
  client_write_connected rounds s buff = do
    set_timeout net s.sock_fd fifty_milliseconds
    after (write_loop net rounds (client_peer s) buff (pos 0)) (client_after_loop s)

  -- `WriteData(buff, size)`, with at most so many rounds of its loop.
  unfoldable pub client_write_data : ℕ → ClientSocket → List ℕ → Partial W (ℤ × ClientSocket)
  client_write_data rounds s buff =
      if not s.accepted_connection
      then finish (do
        net.cerr " : Unable to write since no connection is established."
        pure (minus_one, s))
      else client_write_connected rounds s buff

  -- The end of `Connect`: `if (ret = WriteData(...) < 0)` stores the comparison in `ret`.
  unfoldable pub after_handshake : ℤ × ClientSocket → State W (ℤ × ClientSocket)
  after_handshake (written, s) =
      if is_neg written
      then (do
        net.cerr ": Write failed"
        pure (of_bool (is_neg written), record s { accepted_connection = false }))
      else pure (pos 0, s)

  unfoldable pub send_handshake : ℕ → ClientSocket → ℕ → Partial W (ℤ × ClientSocket)
  send_handshake rounds s ip =
      after
        (client_write_data rounds
          (record s {
            server_addr = record s.server_addr { sin_addr = ip };
            accepted_connection = true;
          })
          (encode32 handshake_word))
        after_handshake

  -- `Connect` after the second `inet_aton`.
  unfoldable pub retry_address : ℕ → ClientSocket → Option ℕ → Partial W (ℤ × ClientSocket)
  retry_address rounds s none = finish (do net.cerr ": inet_aton failed!"; pure (minus_one, s))
  retry_address rounds s (some found) = send_handshake rounds s found

  -- `Connect` where `server_ip_` is no address: look the name up, and read what is in `ip`, which
  -- is empty if the look-up failed.
  unfoldable pub resolve : ℕ → ClientSocket → Partial W (ℤ × ClientSocket)
  resolve rounds s = do
    (code, ip) ← hostname_to_ip s.server_ip
    if is_zero code then pure tt else net.cerr ": hostname to ip failed"
    retry_address rounds s (net.inet_aton (Option.get_or ip ""))

  unfoldable pub name_server : ℕ → ClientSocket → Partial W (ℤ × ClientSocket)
  name_server rounds s = elim (net.inet_aton s.server_ip) [
    | none ↦ resolve rounds s
    | some found ↦ send_handshake rounds s found
  ]

  unfoldable pub bind_client : ℕ → ClientSocket → Partial W (ℤ × ClientSocket)
  bind_client rounds s = do
    ret ← net.bind s.sock_fd s.client_addr
    if is_neg ret
        then finish (do net.cerr ": Client socket bind error"; pure (minus_one, s))
        else name_server rounds (record s {
          server_addr = record {
            sin_family = af_inet;
            sin_port = net.htons s.server_port;
            sin_addr = 0;
          };
        })

  -- `Connect`, with at most so many rounds of the loop that sends the handshake.
  unfoldable pub connect : ℕ → ClientSocket → Partial W (ℤ × ClientSocket)
  connect rounds s = do
    fd ← net.socket af_inet sock_dgram 0
    if is_neg fd
        then finish (do
          net.cerr ": Unable to create socket. Error = "
          pure (fd, record s { sock_fd = fd }))
        else bind_client rounds (record s {
          sock_fd = fd;
          client_addr = record {
            sin_family = af_inet;
            sin_port = net.htons 0;
            sin_addr = net.htonl inaddr_any;
          };
        })

  -- `Close`, which the destructor calls.
  unfoldable pub client_close : ClientSocket → State W ClientSocket
  client_close s = do _ ← net.close s.sock_fd; pure s
