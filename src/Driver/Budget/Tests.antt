-- ===== src/Driver/Budget/Tests.antt =====
-- A server that gets one acknowledgement too few, and a client that gets everything.
use cs739_distributed_system.Base.{
  ℕ, zero, suc, ◌≤◌, ◌<◌, ◌≡◌, refl, ap, ◌∙◌, true, none, List, [], ◌∷◌, arith, length,
  length-append, length-replicate, pos,
}
use cs739_distributed_system.Udp.Net.{
  Net, Received, failed, received, is_ack, encode32, ack_word, handshake_word,
}
use cs739_distributed_system.Udp.Joint.{reader_addr}
use cs739_distributed_system.Udp.Script.{server, client}
use cs739_distributed_system.Driver.Server.{server_measure}
use cs739_distributed_system.Driver.Client.{client_measure}
use cs739_distributed_system.Driver.Session.{Inlet, inlet_recvfrom, inlet_net}
use cs739_distributed_system.Driver.Session.Sends.{session_packets}
use cs739_distributed_system.Driver.Session.Measures.{client_measure-Took}
use cs739_distributed_system.Driver.Session.Meet.{acks_for-session}
use cs739_distributed_system.Driver.Budget.{Spends, Counts}
use cs739_distributed_system.Driver.Budget.Client.{lost_ack_hangs}

abbrev quota_recvfrom : ℕ → Received × ℕ
quota_recvfrom zero = (failed, 0)
quota_recvfrom (suc n) = (received (encode32 ack_word) reader_addr, n)

-- So many acknowledgements come, one for each `recvfrom`, and then none.
abbrev quota_net : Net ℕ
quota_net = record {
  socket = λ domain kind protocol w. (pos 3, w);
  setsockopt = λ fd option w. (pos 0, w);
  bind = λ fd addr w. (pos 0, w);
  sendto = λ fd bytes addr w. (pos (length bytes), w);
  recvfrom = λ fd size w. quota_recvfrom w;
  close = λ fd w. (pos 0, w);
  rand = λ w. (99, w);
  clock_gettime = λ w. (record { tv_sec = 0; tv_nsec = 1 }, w);
  gethostbyname = λ name w. (none, w);
  inet_aton = λ text. none;
  inet_ntoa = λ address. "";
  htons = λ n. n;
  htonl = λ n. n;
  cerr = λ message w. (tt, w);
}

quota_spends : (w : ℕ) → is_ack (quota_recvfrom w).0 ≡ true → (quota_recvfrom w).1 < w
unfolding is_ack
quota_spends zero e = absurd (cc)
quota_spends (suc n) e = omega arith

quota_keeps : (w : ℕ) → (quota_recvfrom w).1 ≤ w
quota_keeps zero = omega arith
quota_keeps (suc n) = omega arith

quota_net-Spends : Spends quota_net (λ w. w)
quota_net-Spends = record {
  sends = λ fd bytes addr w. refl;
  spends = λ fd size w. quota_spends w;
  recvfrom_keeps = λ fd size w. quota_keeps w;
  sendto_keeps = λ fd bytes addr w. omega arith;
  rand_keeps = λ w. omega arith;
  clock_keeps = λ w. omega arith;
  option_keeps = λ fd tv w. omega arith;
  cerr_keeps = λ text w. omega arith;
  close_keeps = λ fd w. omega arith;
}

-- How much the client has sent.
abbrev sent_count : Inlet → ℕ
sent_count v = length v.sent

recvfrom_same :
    (size : ℕ) (sent coming : List (List ℕ)) (v : Inlet)
    → sent_count (inlet_recvfrom size sent coming v).1 ≤ sent_count v
recvfrom_same size [] coming v = omega arith
recvfrom_same size (s ∷ ss) [] v = omega arith
recvfrom_same size (s ∷ ss) (m ∷ ms) v = omega arith

inlet_net-Counts : Counts inlet_net sent_count
inlet_net-Counts = record {
  sendto_counts = λ fd bytes addr v. omega (arith, length-append v.sent (bytes ∷ []));
  recvfrom_keeps = λ fd size v. recvfrom_same size v.sent v.incoming v;
  cerr_keeps = λ text v. omega arith;
  close_keeps = λ fd v. omega arith;
}

abbrev inlet : Inlet
inlet = record {
  incoming = session_packets;
  handed = [];
  sent = encode32 handshake_word ∷ [];
  numbers = [];
  readings = [];
}

sent_all : sent_count (client_measure inlet_net client inlet).1 ≡ 9101
sent_all =
    let took = client_measure-Took client inlet refl (_, [], refl) refl in
    ap length took.1.answered_them
    ∙ ap (λ acks. suc (length acks)) acks_for-session
    ∙ ap suc (length-replicate 9100 (encode32 ack_word))

lost_ack_hangs_example : server_measure quota_net 5 server 9099 ≡ none
lost_ack_hangs_example =
    lost_ack_hangs quota_net inlet_net (λ w. w) sent_count 5 server 9099 client inlet
      quota_net-Spends inlet_net-Counts refl (omega (arith, sent_all))
