-- ===== src/Udp/Tests.antt =====
-- Runs of the two classes of HW1/part2/Socket.h on small networks.
use cs739_distributed_system.Base.{
  ℕ, ◌≡◌, refl, true, false, not, ◌&&◌, none, some, List, [], ◌∷◌, arith, ◌==◌, if◌then◌else◌,
  length, pos, minus_one,
}
use cs739_distributed_system.Udp.Net.{
  Net, Received, failed, received, rcv_timeout, overlay, encode32, decode32, ack_word,
  handshake_word, ack_of, is_ack,
}
use cs739_distributed_system.Udp.Script.{peer, Script, scripted, server, client}
use cs739_distributed_system.Udp.Traced.{Event, sent, got, set_option, traced}
use cs739_distributed_system.Udp.Drop.{is_dropped, get_current_time, random_number, drop_packet}
use cs739_distributed_system.Udp.Retry.{await, send_and_await, round, conclude, write_loop}
use cs739_distributed_system.Udp.Server.{
  fifty_milliseconds, fifty_thousand_seconds, set_timeout, server_after_loop,
  server_write_connected, server_write_data, server_read_data, server_accept, is_bad_percentage,
}
use cs739_distributed_system.Udp.Client.{
  ClientSocket, client_after_loop, client_write_connected, client_write_data, client_read_data,
  connect,
}
use cs739_distributed_system.Udp.WriteTrace.{Writes, server_write_data-Writes}
use cs739_distributed_system.Udp.Read.{Reads, server_read_data-Reads, client_read_data-Reads}
use cs739_distributed_system.Udp.Liveness.{Silent, write_data-none}
use cs739_distributed_system.Udp.Percent.{is_dropped_always}
use cs739_distributed_system.Udp.Accept.{server_accept_lem}
use cs739_distributed_system.Udp.Handshake.{Consistent, connect-Consistent}
use cs739_distributed_system.Udp.Unsent.{connect_unsent}

abbrev packet : List ℕ
packet = 1 ∷ 2 ∷ 3 ∷ []

-- A time-out, a second transmission, and the acknowledgement.
abbrev retried : List Event
retried =
    set_option (pos 3) (rcv_timeout fifty_thousand_seconds) (pos 0)
    ∷ got (pos 3) 4 (received (encode32 ack_word) peer)
    ∷ sent (pos 3) packet peer (pos 3)
    ∷ got (pos 3) 4 failed
    ∷ sent (pos 3) packet peer (pos 3)
    ∷ set_option (pos 3) (rcv_timeout fifty_milliseconds) (pos 0)
    ∷ []

server-retried :
    server_write_data (traced (scripted (pos 3))) 2 server packet (failed ∷ [], [])
    ≡ some ((pos 0, server), ([], retried))
unfolding server_write_data server_write_connected set_timeout write_loop round drop_packet
    random_number get_current_time is_dropped await send_and_await conclude server_after_loop is_ack
    ack_of overlay decode32 encode32
server-retried = refl

client-retried :
    client_write_data (traced (scripted (pos 3))) 2 client packet (failed ∷ [], [])
    ≡ some ((pos 0, client), ([], retried))
unfolding client_write_data client_write_connected set_timeout write_loop round drop_packet
    random_number get_current_time is_dropped await send_and_await conclude client_after_loop is_ack
    ack_of overlay decode32 encode32
client-retried = refl

server_write_data-Writes_example : Writes (pos 3) packet peer [] (pos 0) retried
server_write_data-Writes_example =
    server_write_data-Writes (scripted (pos 3)) 2 server server packet (failed ∷ []) [] [] retried
      (pos 0) refl server-retried

-- A network that brings nothing.
abbrev deaf : Net Script
deaf = record (scripted (pos 3)) { recvfrom = λ fd size w. (failed, w) }

deaf-Silent : Silent deaf
unfolding is_ack ack_of
deaf-Silent = record { sends = λ fd bytes addr w. refl; no_ack = λ fd size w. refl }

write_data-none_example :
    (server_write_data deaf 1000 server packet [] ≡ none)
    × (client_write_data deaf 1000 client packet [] ≡ none)
write_data-none_example = write_data-none deaf deaf-Silent packet 1000 server client [] refl refl

-- A datagram of two bytes, for a buffer of three.
abbrev short : Received
short = received (8 ∷ 9 ∷ []) peer

server_read_data-Reads_example :
    let r = server_read_data (traced (scripted (pos 3))) server packet (short ∷ [], []) in
    Reads (pos 3) packet (λ n. n) [] r.0.0 r.0.2 r.1.1 × (length r.0.2 ≡ 3)
server_read_data-Reads_example =
    server_read_data-Reads (scripted (pos 3)) packet [] server (short ∷ []) refl

client_read_data-Reads_example :
    let r = client_read_data (traced (scripted minus_one)) client packet (short ∷ [], []) in
    Reads (pos 3) packet (λ _. pos 1) [] r.0.0 r.0.2 r.1.1 × (length r.0.2 ≡ 3)
client_read_data-Reads_example =
    client_read_data-Reads (scripted minus_one) packet [] client (short ∷ []) refl

is_dropped_always_example : is_dropped 99 minus_one ≡ true
unfolding is_bad_percentage
is_dropped_always_example = is_dropped_always minus_one 99 refl (omega arith)

abbrev unconnected : ClientSocket
unconnected = record client { accepted_connection = false }

connect-Consistent_example :
    Consistent (scripted (pos 3)) (connect (scripted (pos 3)) 2 unconnected (failed ∷ []))
connect-Consistent_example = connect-Consistent (scripted (pos 3)) 2 unconnected (failed ∷ []) refl

connect_unsent_example :
    (s' : ClientSocket) × (w' : Script) × (connect (scripted minus_one) 1 unconnected []
      ≡ some ((pos 0, s'), w'))
    × (s'.accepted_connection ≡ true)
connect_unsent_example =
    connect_unsent (scripted minus_one) (λ fd bytes addr v. refl) 0 unconnected [] 1 refl
      (λ fd addr v. refl) refl refl

-- The handshake comes, and cannot be acknowledged.
server_accept_lem_example :
    let r =
      (server_accept
        (scripted minus_one)
        (0 ∷ 0 ∷ 0 ∷ 0 ∷ [])
        server
        (received (encode32 handshake_word) peer ∷ [])).0 in
    let is_handshake =
      decode32 (overlay (encode32 handshake_word) (0 ∷ 0 ∷ 0 ∷ 0 ∷ [])) == handshake_word in
    (r.0 ≡ (if is_handshake then pos 0 else minus_one))
    × (r.1.accepted_connection ≡ (is_handshake && not true))
    × (r.1.client_addr ≡ peer)
server_accept_lem_example =
    server_accept_lem (scripted minus_one) (0 ∷ 0 ∷ 0 ∷ 0 ∷ []) server
      (received (encode32 handshake_word) peer ∷ []) [] (encode32 handshake_word) peer refl
