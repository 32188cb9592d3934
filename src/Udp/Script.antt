-- ===== src/Udp/Script.antt =====
-- A small network and two connected objects, on which the classes of HW1/part2/Socket.h are run.
use cs739_distributed_system.Base.{
  ℕ, ◌<◌, ◌≡◌, refl, ◌⊎◌, inl, inr, true, none, some, List, [], ◌∷◌, arith, length, ℤ, pos,
}
use cs739_distributed_system.Udp.Net.{
  SockAddr, zero_addr, Net, Received, received, encode32, ack_word, is_ack,
}
use cs739_distributed_system.Udp.Bytes.{is_ack-encode32}
use cs739_distributed_system.Udp.Server.{ServerSocket}
use cs739_distributed_system.Udp.Client.{ClientSocket}
use cs739_distributed_system.Udp.Liveness.{Answers}
use cs739_distributed_system.Udp.Opening.{KeepsOpen}
use cs739_distributed_system.Udp.Keeps.{Keeps}

abbrev pub peer : SockAddr
peer = record { sin_family = 2; sin_port = 7000; sin_addr = 1 }

-- What `recvfrom` returns, in order, and then acknowledgements only.
abbrev pub Script : Type 0
Script = List Received

abbrev pub pop : Script → Received × Script
pop [] = (received (encode32 ack_word) peer, [])
pop (m ∷ ms) = (m, ms)

-- A system on which every call but `recvfrom` succeeds, and `sendto` returns the value.
abbrev pub scripted : ℤ → Net Script
scripted outcome = record {
  socket = λ domain kind protocol w. (pos 3, w);
  setsockopt = λ fd option w. (pos 0, w);
  bind = λ fd addr w. (pos 0, w);
  sendto = λ fd bytes addr w. (outcome, w);
  recvfrom = λ fd size w. pop w;
  close = λ fd w. (pos 0, w);
  rand = λ w. (7, w);
  clock_gettime = λ w. (record { tv_sec = 1; tv_nsec = 1 }, w);
  gethostbyname = λ name w. (none, w);
  inet_aton = λ text. some 1;
  inet_ntoa = λ address. "";
  htons = λ n. n;
  htonl = λ n. n;
  cerr = λ message w. (tt, w);
}

abbrev pub server : ServerSocket
server = record {
  sock_fd = pos 3;
  port = 7000;
  server_addr = zero_addr;
  client_addr = peer;
  accepted_connection = true;
  percent_drop = pos 0;
}

abbrev pub client : ClientSocket
client = record {
  sock_fd = pos 3;
  server_port = 7000;
  server_addr = peer;
  client_addr = zero_addr;
  server_ip = "10.0.0.1";
  accepted_connection = true;
  percent_drop = pos 0;
}

pop-answers : (w : Script) → (is_ack (pop w).0 ≡ true) ⊎ (length (pop w).1 < length w)
pop-answers [] = inl (is_ack-encode32 peer)
pop-answers (m ∷ ms) = inr (omega arith)

pub scripted-Answers : Answers (scripted (pos 3)) (λ w. length w)
scripted-Answers = record {
  sends = λ fd bytes addr w. refl;
  answers = λ fd size w. pop-answers w;
  sendto_keeps = λ fd bytes addr w. omega arith;
  rand_keeps = λ w. omega arith;
  clock_keeps = λ w. omega arith;
  option_keeps = λ fd tv w. omega arith;
  cerr_keeps = λ w. omega arith;
}

pop-shorter : (n : ℕ) (w : Script) → length w < n → length (pop w).1 < n
pop-shorter n [] h = h
pop-shorter n (m ∷ ms) h = omega arith

-- The answers that are waiting become no more.
pub scripted-Keeps : (n : ℕ) → Keeps (scripted (pos 3)) (λ w. length w < n)
scripted-Keeps n = record {
  sendto_keeps = λ fd bytes addr w h. h;
  recvfrom_keeps = λ fd size w h. pop-shorter n w h;
  option_keeps = λ fd option w h. h;
  rand_keeps = λ w h. h;
  clock_keeps = λ w h. h;
  cerr_keeps = λ message w h. h;
}

pub scripted-KeepsOpen : (n : ℕ) → KeepsOpen (scripted (pos 3)) (λ w. length w < n)
scripted-KeepsOpen n = record {
  socket_keeps = λ domain kind protocol w h. h;
  bind_keeps = λ fd addr w h. h;
  lookup_keeps = λ name w h. h;
}
