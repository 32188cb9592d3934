-- ===== src/Udp/Joint/Tests.antt =====
-- A message whose first acknowledgement is lost, and which therefore arrives twice.
use cs739_distributed_system.Base.{
  ℕ, ◌<◌, ◌≡◌, refl, true, false, some, [], ◌∷◌, ◌++◌, arith, replicate, pos,
}
use cs739_distributed_system.Udp.Net.{zero_addr, overlay, encode32, decode32, ack_of, is_ack}
use cs739_distributed_system.Udp.Drop.{drop_packet, random_number, get_current_time, is_dropped}
use cs739_distributed_system.Udp.Retry.{await, send_and_await, round, conclude, write_loop}
use cs739_distributed_system.Udp.Server.{
  ServerSocket, set_timeout, server_after_loop, server_write_connected, server_write_data,
}
use cs739_distributed_system.Udp.Client.{
  ClientSocket, client_read_data, client_read_connected, client_store, client_acknowledge,
}
use cs739_distributed_system.Udp.Protocol.{Message}
use cs739_distributed_system.Udp.Joint.Arrives.{Held, good, server_write_data-arrives}
use cs739_distributed_system.Udp.Joint.{
  Joint, Wait, deliver, drop_data, drop_ack, take_at, read_once, act, acts, answer, joint_recvfrom,
  joint_sendto, joint_net, writer_addr, reader_addr,
}
use cs739_distributed_system.Udp.Joint.Wiring.{IsWired}
use cs739_distributed_system.Udp.Joint.Delivers.{server_write_data-delivers}

abbrev packet : Message
packet = 1 ∷ 2 ∷ 3 ∷ []

abbrev writer : ServerSocket
writer = record {
  sock_fd = pos 3;
  port = 7000;
  server_addr = zero_addr;
  client_addr = reader_addr;
  accepted_connection = true;
  percent_drop = pos 0;
}

abbrev reader : ClientSocket
reader = record {
  sock_fd = pos 3;
  server_port = 7000;
  server_addr = writer_addr;
  client_addr = zero_addr;
  server_ip = "10.0.0.1";
  accepted_connection = true;
  percent_drop = pos 0;
}

abbrev before : Joint
before = record {
  data_in_flight = [];
  acks_in_flight = [];
  reader = reader;
  buffer = 0 ∷ 0 ∷ 0 ∷ [];
  delivered = [];
  waits =
      record { choices = deliver 0 ∷ drop_ack ∷ []; timely = true }
      ∷ record { choices = deliver 0 ∷ []; timely = true }
      ∷ [];
  sends = [];
  numbers = [];
  readings = [];
}

abbrev behind : Joint
behind = record before { buffer = packet; delivered = packet ∷ packet ∷ []; waits = [] }

sent_twice : server_write_data joint_net 2 writer packet before ≡ some ((pos 0, writer), behind)
unfolding server_write_data server_write_connected set_timeout write_loop round drop_packet
    random_number get_current_time is_dropped await send_and_await conclude server_after_loop is_ack
    ack_of overlay decode32 encode32 take_at read_once act acts answer joint_recvfrom joint_sendto
    client_read_data client_read_connected client_store client_acknowledge
sent_twice = refl

before-IsWired : IsWired 3 before
before-IsWired = record { connected = refl; buffered = refl; sized = tt; genuine = tt }

server_write_data-delivers_example :
    (copies : ℕ) × (0 < copies) × (packet ∷ packet ∷ [] ≡ replicate copies packet ++ [])
server_write_data-delivers_example =
    server_write_data-delivers 2 writer writer packet before behind refl before-IsWired refl refl
      sent_twice

-- A wait in which the datagram is lost and an old one is asked for, and then a good one.
abbrev lossy : Wait
lossy = record { choices = drop_data 0 ∷ deliver 3 ∷ []; timely = false }

abbrev late_start : Joint
late_start = record before { waits = lossy ∷ good ∷ [] }

late_start-Held : Held 3 (lossy ∷ good ∷ []) late_start
late_start-Held = record {
  connected = refl;
  buffered = refl;
  sized = tt;
  sending = refl;
  planned = refl;
}

server_write_data-arrives_example :
    (s' : ServerSocket) × (j' : Joint) × (server_write_data joint_net 2 writer packet late_start
      ≡ some ((pos 0, s'), j'))
    × (copies : ℕ) × (0 < copies)
    × (j'.delivered ≡ replicate copies packet ++ [])
server_write_data-arrives_example =
    server_write_data-arrives (lossy ∷ []) [] 2 writer packet late_start refl refl late_start-Held
      (refl, tt) (omega arith) refl refl
