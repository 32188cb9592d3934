-- ===== src/Driver/Session/Accepts.antt =====
-- `Bind` and `Accept` of HW1/part2/Socket.h when the client's handshake is on the way.
use cs739_distributed_system.Base.{
  ℕ, ◌≡◌, refl, sym, ◌∙◌, true, List, [], ◌∷◌, ◌++◌, arith, length, pos,
}
use cs739_distributed_system.Udp.Net.{
  af_inet, inaddr_any, encode32, decode32, ack_word, handshake_word,
}
use cs739_distributed_system.Udp.Bytes.{overlay-full, decode32-encode32}
use cs739_distributed_system.Udp.Server.{
  ServerSocket, no_value, bind_address, set_reuse, server_bind, server_acknowledge, server_store,
  server_read_connected, server_read_data, server_accept,
}
use cs739_distributed_system.Udp.Joint.{reader_addr}
use cs739_distributed_system.Driver.Session.{calls, reads, Outlet, outlet_net}

-- The object after `Bind`.
abbrev pub bound : ServerSocket → ServerSocket
bound s = record s {
  sock_fd = pos 3;
  server_addr = record { sin_family = af_inet; sin_port = s.port; sin_addr = inaddr_any };
}

pub server_bind-bound :
    (s : ServerSocket) (w : Outlet) → server_bind outlet_net s w ≡ ((no_value, bound s), w)
unfolding server_bind set_reuse bind_address
server_bind-bound s w = refl

-- The state after the handshake was read and acknowledged.
abbrev pub welcomed : Outlet → Outlet
welcomed w = record w { sent = w.sent ++ encode32 ack_word ∷ []; caller = reads 0 }

handshake_read :
    (s : ServerSocket) (memory : List ℕ) (w : Outlet)
    → s.accepted_connection ≡ true
    → length memory ≡ 4
    → w.caller ≡ calls (encode32 handshake_word)
    → server_read_data outlet_net s memory w
      ≡ ((pos 4, record s { client_addr = reader_addr }, encode32 handshake_word), welcomed w)
unfolding server_read_data server_read_connected server_store server_acknowledge
handshake_read s memory w connected four calling =
    let whole : length (encode32 handshake_word) ≡ 4 = unfold encode32 in refl in
    simp
      (connected, calling, overlay-full (encode32 handshake_word) memory (whole ∙ sym four), whole)

-- `Accept` returns 0, and the object is connected to the client.
pub server_accept-welcomed :
    (s : ServerSocket) (memory : List ℕ) (w : Outlet)
    → length memory ≡ 4
    → w.caller ≡ calls (encode32 handshake_word)
    → server_accept outlet_net memory s w
      ≡ ((pos 0, record s { client_addr = reader_addr; accepted_connection = true }), welcomed w)
unfolding server_accept
server_accept-welcomed s memory w four calling =
    let word : decode32 (encode32 handshake_word) ≡ handshake_word =
      decode32-encode32 handshake_word (omega arith) in
    rw (handshake_read (record s { accepted_connection = true }) memory w refl four calling, word)
      refl
