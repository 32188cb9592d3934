-- ===== src/Udp/Stuck/Tests.antt =====
-- Two loops that wait for each other.
use cs739_distributed_system.Base.{◌≡◌, refl, some, List, [], ◌∷◌, pos}
use cs739_distributed_system.Udp.Net.{is_ack, encode32, handshake_word}
use cs739_distributed_system.Udp.Server.{server_peer, server_accept}
use cs739_distributed_system.Udp.Client.{client_peer}
use cs739_distributed_system.Udp.Protocol.{Message}
use cs739_distributed_system.Udp.Joint.{reader_addr}
use cs739_distributed_system.Udp.Script.{server, client}
use cs739_distributed_system.Udp.Stuck.{Loop, goes_on, at_head, listening}
use cs739_distributed_system.Udp.Stuck.Wire.{
  Luck, wire_net, Pair, Event, server_moves, client_moves, lose_outgoing, happens, NoAck, IsRunning,
}
use cs739_distributed_system.Udp.Stuck.Greeting.{calling, greeting_lost}

-- Nothing is dropped, and the first datagram comes.
abbrev luck : Luck
luck = record { number = 99; reading = record { tv_sec = 0; tv_nsec = 1 }; place = some 0 }

-- The first bytes that the server sends.
abbrev packet : Message
packet = 0 ∷ 1 ∷ 2 ∷ 3 ∷ []

abbrev waiting_client : Loop
waiting_client = listening (client_peer client) (goes_on (pos 0))

abbrev events : List Event
events = client_moves luck ∷ server_moves luck ∷ server_moves luck ∷ client_moves luck ∷ []

packet-NoAck : NoAck packet
unfolding is_ack
packet-NoAck = refl

greeting_lost_example :
    let r = server_accept (wire_net reader_addr luck) (0 ∷ 0 ∷ 0 ∷ 0 ∷ []) server calling in
    let start : Pair = record {
      server = at_head (server_peer r.0.1) (pos 0);
      client = waiting_client;
      wire = r.1;
    } in
    let s' = happens packet (encode32 handshake_word) (lose_outgoing 0 ∷ events) start in
    (r.0.0 ≡ pos 0) × IsRunning s'.server × IsRunning s'.client
greeting_lost_example =
    greeting_lost luck server (0 ∷ 0 ∷ 0 ∷ 0 ∷ []) waiting_client packet events refl refl tt
      packet-NoAck
