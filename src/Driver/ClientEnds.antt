-- ===== src/Driver/ClientEnds.antt =====
-- HW1/part2/SocketClient.cpp ends.
use Prim.Native.String.{String}
use cs739_distributed_system.Base.{
  ℕ, ◌<◌, ◌≡◌, refl, ◌∙◌, inl, inr, true, Option, none, some, List, [], ◌∷◌, Bool-cases,
  Option-cases, ℤ, pos, is_neg, to_u32, State, ◌>>◌, pure, Yields, Yields-after, Yields-some,
  after_of_some,
}
use cs739_distributed_system.Udp.Net.{SockAddr, Net, af_inet, sock_dgram, encode32, handshake_word}
use cs739_distributed_system.Udp.Server.{is_zero}
use cs739_distributed_system.Udp.Client.{
  ClientSocket, client_socket, client_write_data, hostname_to_ip, after_handshake, send_handshake,
  retry_address, resolve, name_server, bind_client, connect,
}
use cs739_distributed_system.Udp.Liveness.{Answers, client_write_data_returns}
use cs739_distributed_system.Udp.Keeps.{Keeps}
use cs739_distributed_system.Udp.Opening.{KeepsOpen}
use cs739_distributed_system.Driver.Client.{client_measure, client_main}

module _ {W : Type 0} (net : Net W) (pending : W → ℕ) (rounds : ℕ)
    (net_answers : Answers net pending) (net_keeps : Keeps net (λ w. pending w < rounds))
    (net_opens : KeepsOpen net (λ w. pending w < rounds)) where
  open net_keeps use {cerr_keeps}
  open net_opens use {socket_keeps, bind_keeps, lookup_keeps}

  -- Code that returns.
  abbrev Returns : {A : Type 0} → Option (A × W) → Type 0
  Returns r = Yields (λ a v. Unit) r

  send_handshake-Returns :
      (s : ClientSocket) (ip : ℕ) (w : W)
      → pending w < rounds
      → Returns (send_handshake net rounds s ip w)
  unfolding send_handshake
  send_handshake-Returns s ip w h =
      let connecting = record s {
        server_addr = record s.server_addr { sin_addr = ip };
        accepted_connection = true;
      } in
      let (s', w', e) =
        client_write_data_returns net pending net_answers (encode32 handshake_word) rounds
          connecting w refl h in
      Yields-after {P = λ a v. Unit {0}} (λ a v. Unit)
        (client_write_data net rounds connecting (encode32 handshake_word)) (after_handshake net) w
        (rw e tt) (λ a v k. tt)

  retry_address-Returns :
      (s : ClientSocket) (found : Option ℕ) (w : W)
      → pending w < rounds
      → Returns (retry_address net rounds s found w)
  unfolding retry_address
  retry_address-Returns s none w h = tt
  retry_address-Returns s (some found) w h = send_handshake-Returns s found w h

  hostname_to_ip-keeps :
      (hostname : String) (w : W)
      → pending w < rounds
      → pending (hostname_to_ip net hostname w).1 < rounds
  unfolding hostname_to_ip
  hostname_to_ip-keeps hostname w h =
      split (net.gethostbyname hostname w).0 (net.gethostbyname hostname w).1
        (lookup_keeps hostname w h)
    where
      split :
          (he : Option (List ℕ)) (v : W)
          → pending v < rounds
          → pending
              ((elim he as (λ _. State W (ℤ × Option String)) [
                | none ↦ do net.cerr "gethostbyname"; pure (pos 1, none)
                | some [] ↦ pure (pos 1, none)
                | some (first ∷ rest) ↦ pure (pos 0, some (net.inet_ntoa first))
              ])
                v).1
            < rounds
      split none v k = cerr_keeps _ v k
      split (some []) v k = k
      split (some (first ∷ rest)) v k = k

  resolve-Returns :
      (s : ClientSocket) (w : W) → pending w < rounds → Returns (resolve net rounds s w)
  unfolding resolve
  resolve-Returns s w h =
      let r = hostname_to_ip net s.server_ip w in
      let kept = hostname_to_ip-keeps s.server_ip w h in
      elim (Bool-cases (is_zero r.0.0)) [
        | inl e ↦ rw e (retry_address-Returns s _ _ kept)
        | inr e ↦ rw e (retry_address-Returns s _ _ (cerr_keeps _ _ kept))
      ]

  name_server-Returns :
      (s : ClientSocket) (w : W) → pending w < rounds → Returns (name_server net rounds s w)
  unfolding name_server
  name_server-Returns s w h = elim (Option-cases (net.inet_aton s.server_ip)) [
    | inl e ↦ rw (e, name_server) (resolve-Returns s w h)
    | inr (found, e) ↦ rw (e, name_server) (send_handshake-Returns s found w h)
  ]

  bind_client-Returns :
      (s : ClientSocket) (w : W) → pending w < rounds → Returns (bind_client net rounds s w)
  unfolding bind_client
  bind_client-Returns s w h = elim (Bool-cases (is_neg (net.bind s.sock_fd s.client_addr w).0)) [
    | inl e ↦ rw e tt
    | inr e ↦ rw e (name_server-Returns _ _ (bind_keeps s.sock_fd s.client_addr w h))
  ]

  connect-Returns :
      (s : ClientSocket) (w : W) → pending w < rounds → Returns (connect net rounds s w)
  unfolding connect
  connect-Returns s w h = elim (Bool-cases (is_neg (net.socket af_inet sock_dgram 0 w).0)) [
    | inl e ↦ rw e tt
    | inr e ↦ rw e (bind_client-Returns _ _ (socket_keeps af_inet sock_dgram 0 w h))
  ]

  -- On a network that answers the handshake in the end, and called with its three arguments, the
  -- program ends with status 0, whatever its memory holds and whether or not it is connected.
  pub client_main_ends :
      (atoi : String → ℤ) (memory_fd : ℤ) (memory_server memory_client : SockAddr)
      (program port server_ip drop_percentage : String) (rest : List String) (w : W)
      → pending w < rounds
      → (w' : W) × (client_main net rounds atoi memory_fd memory_server memory_client
            (program ∷ port ∷ server_ip ∷ drop_percentage ∷ rest)
            w
          ≡ some (0, w'))
  unfolding client_main
  client_main_ends atoi memory_fd memory_server memory_client program port server_ip drop_percentage
        rest w h =
      let s =
        client_socket memory_fd memory_server memory_client (to_u32 (atoi port)) server_ip
          (atoi drop_percentage) in
      let (r, v, e, done) =
        Yields-some (λ a v. Unit) (connect net rounds s w) (connect-Returns s w h) in
      (
        (client_measure net r.1 v).1,
        after_of_some (connect net rounds s) (λ r. client_measure net r.1) w v r e
            ∙ unfold client_measure in refl,
      )
