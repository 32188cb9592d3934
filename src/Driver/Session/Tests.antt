-- ===== src/Driver/Session/Tests.antt =====
-- The two programs, where the server drops a packet and the client its first handshake.
use Prim.Native.String.{String}
use cs739_distributed_system.Base.{
  ◌*◌, ◌≤◌, ◌≡◌, refl, some, List, [], ◌∷◌, arith, length, replicate, ℤ, pos,
}
use cs739_distributed_system.Udp.Net.{encode32, ack_word, handshake_word}
use cs739_distributed_system.Udp.Joint.{reader_addr}
use cs739_distributed_system.Driver.Server.{Average, Bandwidth, server_main}
use cs739_distributed_system.Driver.Client.{client_main}
use cs739_distributed_system.Driver.Session.{
  calls, Outlet, one_nanosecond, outlet_net, Inlet, inlet_net,
}
use cs739_distributed_system.Driver.Plan.{total_size}
use cs739_distributed_system.Driver.Server.{
  counting_bytes, server_packet_sizes, server_round_trip_times, server_calculate_bandwidth,
}
use cs739_distributed_system.Driver.Client.{client_round_trip_times, client_calculate_bandwidth}
use cs739_distributed_system.Udp.Server.{ServerSocket}
use cs739_distributed_system.Udp.Script.{server, client}
use cs739_distributed_system.Driver.Session.{reads}
use cs739_distributed_system.Driver.Session.Sends.{session_packets}
use cs739_distributed_system.Driver.Session.Writes.{Willing}
use cs739_distributed_system.Driver.Session.Whole.{buffers_copied}
use cs739_distributed_system.Driver.Session.Meet.{mains_meet}

-- The first random number is 3 on both sides; 3 times one nanosecond is below the percentage.
abbrev outlet : Outlet
outlet = record {
  sent = [];
  caller = calls (encode32 handshake_word);
  numbers = 3 ∷ [];
  readings = one_nanosecond ∷ [];
}

abbrev inlet : Inlet
inlet = record {
  incoming = [];
  handed = [];
  sent = [];
  numbers = 3 ∷ [];
  readings = one_nanosecond ∷ [];
}

abbrev five : String → ℤ
five text = pos 5

mains_meet_example :
    (figures : List Average × Bandwidth × List Average) × (w' : Outlet) × (server_main outlet_net 3
        five
        (pos 0)
        reader_addr
        (0 ∷ 0 ∷ 0 ∷ 0 ∷ [])
        ("SocketServer" ∷ "5000" ∷ "5" ∷ [])
        outlet
      ≡ some ((0, some figures), w'))
    × (w'.sent ≡ encode32 ack_word ∷ session_packets)
    × (length w'.sent ≡ 9101)
    × (v' : Inlet) × (client_main inlet_net 3 five
          (pos 0)
          reader_addr
          reader_addr
          ("SocketClient" ∷ "5000" ∷ "10.0.0.1" ∷ "5" ∷ [])
          (record inlet { incoming = w'.sent })
        ≡ some (0, v'))
    × (v'.incoming ≡ [])
    × (v'.handed ≡ w'.sent)
    × (v'.sent ≡ encode32 handshake_word ∷ replicate 9100 (encode32 ack_word))
mains_meet_example =
    mains_meet five 3 (pos 0) (pos 0) reader_addr reader_addr reader_addr (0 ∷ 0 ∷ 0 ∷ 0 ∷ [])
      "SocketServer" "5000" "5" [] "SocketClient" "5000" "10.0.0.1" "5" [] 5 5 outlet inlet
      (omega arith) (omega arith) refl refl refl refl refl (omega arith) refl refl (omega arith)

abbrev dropping_server : ServerSocket
dropping_server = record server { percent_drop = pos 5 }

abbrev answered : Outlet
answered = record outlet { caller = reads 0 }

abbrev speaking : Inlet
speaking = record inlet { sent = encode32 handshake_word ∷ [] }

dropping_server-Willing : Willing 5 dropping_server
dropping_server-Willing = record { connected = refl; dropping = refl }

few : 5 ≤ 99
few = omega arith

buffers_copied_example :
    (a : List Average × ServerSocket) × (w1 : Outlet) × (b : Bandwidth × ServerSocket)
    × (w2 : Outlet) × (server_round_trip_times outlet_net 3 dropping_server answered ≡ some (a, w1))
    × (server_calculate_bandwidth outlet_net 3 a.1 w1 ≡ some (b, w2))
    × (let c = client_round_trip_times inlet_net client (record speaking { incoming = w2.sent }) in
        let d = client_calculate_bandwidth inlet_net c.0.0 c.1 in
        (c.0.1 ≡ counting_bytes (total_size server_packet_sizes) 0)
        × (d.0.1 ≡ counting_bytes (1024 * 63) 0)
        × (d.1.incoming ≡ []))
buffers_copied_example =
    buffers_copied 5 few 3 dropping_server client answered speaking dropping_server-Willing refl
      refl (omega arith) refl (_, [], refl)
