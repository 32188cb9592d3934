-- ===== src/Driver/ServerEnds.antt =====
-- HW1/part2/SocketServer.cpp ends.
use Prim.Native.String.{String}
use cs739_distributed_system.Base.{
  ℕ, ◌<◌, ◌≡◌, refl, inl, inr, Option, none, some, List, ◌∷◌, Bool-cases, ℤ, is_neg, pure, after,
  Yields, Yields-after,
}
use cs739_distributed_system.Udp.Net.{SockAddr, Net, af_inet, sock_dgram, reuse_addr_port}
use cs739_distributed_system.Udp.Server.{
  ServerSocket, Bound, returned, exited, no_value, is_zero, bind_address, set_reuse, server_bind,
  server_accept,
}
use cs739_distributed_system.Udp.Liveness.{Answers}
use cs739_distributed_system.Udp.Keeps.{Keeps}
use cs739_distributed_system.Udp.Opening.{KeepsOpen, server_bind-keeps, server_accept-keeps}
use cs739_distributed_system.Driver.Server.{
  Average, Bandwidth, server_measure, serve_bound, server_serve, server_main,
}
use cs739_distributed_system.Driver.Ends.{Reported, server_measure-Reported}

-- What `main` printed, if it did.
abbrev pub Printed : Type 0
Printed = List Average × Bandwidth × List Average

-- The program ends with status 0 and all its lines, or with status 1 and none.
pub data Ended {W : Type 0} : ℕ × Option Printed → W → Type 0 where
  reported : {figures : Printed} {w : W} → Reported figures w → Ended (0, some figures) w
  gave_up : {w : W} → Ended (1, none) w

-- `Bind` calls `exit` with the status 1 only.
abbrev ExitsWithOne : Bound → Type 0
ExitsWithOne (returned err) = Unit
ExitsWithOne (exited status) = status ≡ 1
ExitsWithOne no_value = Unit

module _ {W : Type 0} (net : Net W) where
  bind_address-ExitsWithOne : (s : ServerSocket) (w : W) → ExitsWithOne (bind_address net s w).0.0
  unfolding bind_address
  bind_address-ExitsWithOne s w =
      elim (Bool-cases (is_neg (net.bind s.sock_fd s.server_addr w).0)) [
        | inl e ↦ rw e tt
        | inr e ↦ rw e tt
      ]

  set_reuse-ExitsWithOne : (s : ServerSocket) (w : W) → ExitsWithOne (set_reuse net s w).0.0
  unfolding set_reuse
  set_reuse-ExitsWithOne s w =
      elim (Bool-cases (is_zero (net.setsockopt s.sock_fd (reuse_addr_port 0) w).0)) [
        | inl e ↦ rw e (bind_address-ExitsWithOne _ _)
        | inr e ↦ rw e refl
      ]

  server_bind-ExitsWithOne : (s : ServerSocket) (w : W) → ExitsWithOne (server_bind net s w).0.0
  unfolding server_bind
  server_bind-ExitsWithOne s w = elim (Bool-cases (is_neg (net.socket af_inet sock_dgram 0 w).0)) [
    | inl e ↦ rw e tt
    | inr e ↦ rw e (set_reuse-ExitsWithOne _ _)
  ]

module _ {W : Type 0} (net : Net W) (pending : W → ℕ) (rounds : ℕ)
    (net_answers : Answers net pending) (net_keeps : Keeps net (λ w. pending w < rounds))
    (net_opens : KeepsOpen net (λ w. pending w < rounds)) where
  accepted-Ended :
      (handshake : List ℕ) (s : ServerSocket) (w : W)
      → pending w < rounds
      → let accepted = server_accept net handshake s w in
        Yields Ended (
          after
            (server_measure net rounds accepted.0.1)
            (λ printed. pure (0, some printed))
            accepted.1)
  accepted-Ended handshake s w h =
      let accepted = server_accept net handshake s w in
      Yields-after Ended (server_measure net rounds accepted.0.1)
        (λ printed. pure (0, some printed)) accepted.1
        (server_measure-Reported net pending rounds net_answers net_keeps accepted.0.1 accepted.1
          (server_accept-keeps net (λ v. pending v < rounds) net_keeps net_opens handshake s w h))
        (λ figures v k. reported k)

  serve_bound-Ended :
      (handshake : List ℕ) (b : Bound) (s : ServerSocket) (w : W)
      → ExitsWithOne b
      → pending w < rounds
      → Yields Ended (serve_bound net rounds handshake b s w)
  unfolding serve_bound
  serve_bound-Ended handshake (exited status) s w one h = rw one gave_up
  serve_bound-Ended handshake (returned err) s w one h = accepted-Ended handshake s w h
  serve_bound-Ended handshake no_value s w one h = accepted-Ended handshake s w h

  server_serve-Ended :
      (handshake : List ℕ) (s : ServerSocket) (w : W)
      → pending w < rounds
      → Yields Ended (server_serve net rounds handshake s w)
  unfolding server_serve
  server_serve-Ended handshake s w h =
      let b = server_bind net s w in
      serve_bound-Ended handshake b.0.0 b.0.1 b.1 (server_bind-ExitsWithOne net s w)
        (server_bind-keeps net (λ v. pending v < rounds) net_keeps net_opens s w h)

  -- On a network that answers in the end, and called with its two arguments, the program ends,
  -- whatever its memory holds and whether or not `Bind` and `Accept` succeed: with status 0 and
  -- seven lines of round trips, the bandwidth of 63 KB times 2000 and eighteen lines with losses, or
  -- with status 1 and no line.
  pub server_main-Ended :
      (atoi : String → ℤ) (memory_fd : ℤ) (memory_addr : SockAddr) (handshake : List ℕ)
      (program port drop_percentage : String) (rest : List String) (w : W)
      → pending w < rounds
      → Yields Ended (
          server_main net rounds atoi memory_fd memory_addr handshake
            (program ∷ port ∷ drop_percentage ∷ rest)
            w)
  unfolding server_main
  server_main-Ended atoi memory_fd memory_addr handshake program port drop_percentage rest w h =
      server_serve-Ended handshake _ w h
