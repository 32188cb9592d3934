-- ===== src/Driver/Tests.antt =====
-- The loops of the two programs.
use cs739_distributed_system.Base.{
  ◌+◌, ◌≡◌, refl, none, some, [], ◌∷◌, arith, length, pos, minus_one, Yields,
}
use cs739_distributed_system.Driver.Random.{count_drops, count_drops_all}
use cs739_distributed_system.Udp.Server.{is_bad_percentage}
use cs739_distributed_system.Udp.Net.{Net, failed, zero_addr}
use cs739_distributed_system.Udp.Script.{
  Script, scripted, scripted-Answers, scripted-Keeps, scripted-KeepsOpen,
}
use cs739_distributed_system.Driver.Client.{client_main}
use cs739_distributed_system.Driver.ClientEnds.{client_main_ends}
use cs739_distributed_system.Driver.ServerEnds.{Ended, server_main-Ended}
use cs739_distributed_system.Driver.Server.{server_main}

-- A system on which every call fails.
abbrev broken : Net (Unit {0})
broken = record {
  socket = λ domain kind protocol w. (minus_one, tt);
  setsockopt = λ fd option w. (minus_one, tt);
  bind = λ fd addr w. (minus_one, tt);
  sendto = λ fd bytes addr w. (minus_one, tt);
  recvfrom = λ fd size w. (failed, tt);
  close = λ fd w. (minus_one, tt);
  rand = λ w. (0, tt);
  clock_gettime = λ w. (record { tv_sec = 0; tv_nsec = 0 }, tt);
  gethostbyname = λ name w. (none, tt);
  inet_aton = λ text. none;
  inet_ntoa = λ address. "";
  htons = λ n. n;
  htonl = λ n. n;
  cerr = λ message w. (tt, tt);
}

count_drops_all_example : (count_drops broken 100 minus_one 0 tt).0 ≡ 0 + 100
unfolding is_bad_percentage
count_drops_all_example = count_drops_all broken 100 0 minus_one tt refl (omega arith)

server_main-Ended_example : Yields Ended (
    server_main
      (scripted (pos 3))
      3
      (λ text. pos 7000)
      (pos 9)
      zero_addr
      (0 ∷ 0 ∷ 0 ∷ 0 ∷ [])
      ("SocketServer" ∷ "7000" ∷ "5" ∷ [])
      (failed ∷ failed ∷ []))
server_main-Ended_example =
    server_main-Ended (scripted (pos 3)) (λ w. length w) 3 scripted-Answers (scripted-Keeps 3)
      (scripted-KeepsOpen 3) (λ text. pos 7000) (pos 9) zero_addr (0 ∷ 0 ∷ 0 ∷ 0 ∷ [])
      "SocketServer" "7000" "5" [] (failed ∷ failed ∷ []) (omega arith)

client_main_ends_example :
    (w' : Script) × (client_main
        (scripted (pos 3))
        3
        (λ text. pos 7000)
        (pos 9)
        zero_addr
        zero_addr
        ("SocketClient" ∷ "7000" ∷ "10.0.0.1" ∷ "5" ∷ [])
        (failed ∷ failed ∷ [])
      ≡ some (0, w'))
client_main_ends_example =
    client_main_ends (scripted (pos 3)) (λ w. length w) 3 scripted-Answers (scripted-Keeps 3)
      (scripted-KeepsOpen 3) (λ text. pos 7000) (pos 9) zero_addr zero_addr "SocketClient" "7000"
      "10.0.0.1" "5" [] (failed ∷ failed ∷ []) (omega arith)
