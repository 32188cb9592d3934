-- ===== src/Udp/Handshake.antt =====
-- `Connect` of HW1/part2/Socket.h: what it returns, and whether the object then counts as connected.
use cs739_distributed_system.Base.{
  ℕ, zero, suc, ◌≡◌, refl, ◌⊎◌, inl, inr, true, false, Option, none, some, List, Bool-cases,
  Option-cases, ℤ, pos, is_neg, State, Partial,
}
use cs739_distributed_system.Udp.Net.{SockAddr, Net, encode32, handshake_word}
use cs739_distributed_system.Udp.Drop.{drop_packet}
use cs739_distributed_system.Udp.Retry.{
  Peer, Round, returns, continues, Finish, send_failed, acknowledged, await, send_and_await, round,
  conclude, write_loop,
}
use cs739_distributed_system.Udp.Client.{
  ClientSocket, client_peer, client_after_loop, client_write_connected, client_write_data,
  after_handshake, send_handshake, retry_address, resolve, name_server, bind_client, connect,
}

module _ {W : Type 0} (net : Net W) where
  -- The value that a finished loop hands to `WriteData` is never negative.
  abbrev LoopOk : Option (Finish × W) → Type 0
  LoopOk none = Unit
  LoopOk (some (send_failed v a, w)) = is_neg v ≡ false
  LoopOk (some (acknowledged v a, w)) = is_neg v ≡ false

  abbrev RoundOk : Round → Type 0
  RoundOk (returns v) = is_neg v ≡ false
  RoundOk (continues v b a) = is_neg v ≡ false

  round-RoundOk :
      (p : Peer) (buff : List ℕ) (ret : ℤ) (w : W)
      → is_neg ret ≡ false
      → RoundOk (round net p buff ret w).0
  unfolding round send_and_await await
  round-RoundOk p buff ret w h =
      let d = drop_packet net p.percent_drop w in
      elim (Bool-cases d.0) [
        | inl e ↦ rw e h
        | inr e ↦ elim (Bool-cases (is_neg (net.sendto p.fd buff p.addr d.1).0)) [
          | inl f ↦ rw (e, f) refl
          | inr f ↦ rw (e, f) refl
        ]
      ]

  conclude-LoopOk :
      (p : Peer) (loop : SockAddr → ℤ → Partial W Finish) (rd : Round) (w : W)
      → RoundOk rd
      → ((a : SockAddr) (v : ℤ) → is_neg v ≡ false → LoopOk (loop a v w))
      → LoopOk (conclude net p loop rd w)
  unfolding conclude
  conclude-LoopOk p loop (returns v) w h rest = h
  conclude-LoopOk p loop (continues v true a) w h rest = h
  conclude-LoopOk p loop (continues v false a) w h rest = rest a v h

  write_loop-LoopOk :
      (rounds : ℕ) (p : Peer) (buff : List ℕ) (ret : ℤ) (w : W)
      → is_neg ret ≡ false
      → LoopOk (write_loop net rounds p buff ret w)
  unfolding write_loop
  write_loop-LoopOk zero p buff ret w h = tt
  write_loop-LoopOk (suc rounds) p buff ret w h =
      conclude-LoopOk p _ _ _ (round-RoundOk p buff ret w h)
        (λ a v k. write_loop-LoopOk rounds (record p { addr = a }) buff v _ k)

  -- A step that follows a `Partial` keeps what holds of every result.
  after_holds :
      {A B : Type 0} (P : Option (A × W) → Type 0) (Q : Option (B × W) → Type 0) (f : A → State W B)
      → Q none
      → ((a : A) (w : W) → P (some (a, w)) → Q (some (f a w)))
      → (r : Option (A × W)) → P r
      → Q (elim r as (λ _. Option (B × W)) [ none ↦ none | some (a, v) ↦ some (f a v) ])
  after_holds P Q f base step none h = base
  after_holds P Q f base step (some (a, w)) h = step a w h

  -- `WriteData` of a connected client never returns a negative number, and stays connected.
  abbrev WriteOk : Option ((ℤ × ClientSocket) × W) → Type 0
  WriteOk none = Unit
  WriteOk (some ((ret, s), w)) = (is_neg ret ≡ false) × (s.accepted_connection ≡ true)

  client_after_loop-WriteOk :
      (s : ClientSocket) (f : Finish) (w : W)
      → s.accepted_connection ≡ true
      → LoopOk (some (f, w))
      → WriteOk (some (client_after_loop net s f w))
  unfolding client_after_loop
  client_after_loop-WriteOk s (send_failed v a) w c h = (h, c)
  client_after_loop-WriteOk s (acknowledged v a) w c h = (h, c)

  client_write_data-WriteOk :
      (rounds : ℕ) (s : ClientSocket) (buff : List ℕ) (w : W)
      → s.accepted_connection ≡ true
      → WriteOk (client_write_data net rounds s buff w)
  unfolding client_write_data
  client_write_data-WriteOk rounds s buff w c = simp c (connected w)
    where
      connected : (w : W) → WriteOk (client_write_connected net rounds s buff w)
      connected w =
          unfold client_write_connected in
          after_holds LoopOk WriteOk (client_after_loop net s) tt
            (λ f v h. client_after_loop-WriteOk s f v c h) _
            (write_loop-LoopOk rounds (client_peer s) buff (pos 0) _ refl)

  -- Either an error and no connection, or 0 and a connection.
  abbrev pub Consistent : Option ((ℤ × ClientSocket) × W) → Type 0
  Consistent none = Unit
  Consistent (some ((ret, s), w)) =
      ((is_neg ret ≡ true) × (s.accepted_connection ≡ false))
      ⊎ ((ret ≡ pos 0) × (s.accepted_connection ≡ true))

  after_handshake-Consistent :
      (r : ℤ × ClientSocket) (w : W)
      → WriteOk (some (r, w))
      → Consistent (some (after_handshake net r w))
  unfolding after_handshake
  after_handshake-Consistent (ret, s) w (h, c) = rw h (inr (refl, c))

  send_handshake-Consistent :
      (rounds : ℕ) (s : ClientSocket) (ip : ℕ) (w : W)
      → Consistent (send_handshake net rounds s ip w)
  unfolding send_handshake
  send_handshake-Consistent rounds s ip w =
      after_holds WriteOk Consistent (after_handshake net) tt after_handshake-Consistent _
        (client_write_data-WriteOk rounds _ (encode32 handshake_word) w refl)

  retry_address-Consistent :
      (rounds : ℕ) (s : ClientSocket) (found : Option ℕ) (w : W)
      → s.accepted_connection ≡ false
      → Consistent (retry_address net rounds s found w)
  unfolding retry_address
  retry_address-Consistent rounds s none w c = inl (refl, c)
  retry_address-Consistent rounds s (some found) w c = send_handshake-Consistent rounds s found w

  resolve-Consistent :
      (rounds : ℕ) (s : ClientSocket) (w : W)
      → s.accepted_connection ≡ false
      → Consistent (resolve net rounds s w)
  unfolding resolve
  resolve-Consistent rounds s w c = retry_address-Consistent rounds s _ _ c

  name_server-Consistent :
      (rounds : ℕ) (s : ClientSocket) (w : W)
      → s.accepted_connection ≡ false
      → Consistent (name_server net rounds s w)
  unfolding name_server
  name_server-Consistent rounds s w c = elim (Option-cases (net.inet_aton s.server_ip)) [
    | inl e ↦ rw (e, name_server) (resolve-Consistent rounds s w c)
    | inr (found, e) ↦ rw (e, name_server) (send_handshake-Consistent rounds s found w)
  ]

  bind_client-Consistent :
      (rounds : ℕ) (s : ClientSocket) (w : W)
      → s.accepted_connection ≡ false
      → Consistent (bind_client net rounds s w)
  unfolding bind_client
  bind_client-Consistent rounds s w c =
      let r = net.bind s.sock_fd s.client_addr w in
      elim (Bool-cases (is_neg r.0)) [
        | inl e ↦ rw e (inl (refl, c))
        | inr e ↦ rw e (name_server-Consistent rounds _ r.1 c)
      ]

  -- Whatever the system does, a `Connect` that returns has either failed with a negative number
  -- and left the object unconnected, or returned 0 and left it connected.
  pub connect-Consistent :
      (rounds : ℕ) (s : ClientSocket) (w : W)
      → s.accepted_connection ≡ false
      → Consistent (connect net rounds s w)
  unfolding connect
  connect-Consistent rounds s w c =
      let r = net.socket 2 2 0 w in
      elim (Bool-cases (is_neg r.0)) [
        | inl e ↦ rw e (inl (e, c))
        | inr e ↦ rw e (bind_client-Consistent rounds _ r.1 c)
      ]
