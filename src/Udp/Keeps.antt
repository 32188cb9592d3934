-- ===== src/Udp/Keeps.antt =====
-- What every call of the system keeps, `WriteData` keeps.
use Prim.Native.String.{String}
use cs739_distributed_system.Base.{
  ℕ, zero, suc, ◌≡◌, refl, subst, ◌∙◌, inl, inr, true, false, some, List, arith, Bool-cases, ℤ, pos,
  is_neg, of_bool, Partial, after-eq-some, some-injective,
}
use cs739_distributed_system.Clock.{TimeVal}
use cs739_distributed_system.Udp.Net.{SockAddr, SockOpt, Net}
use cs739_distributed_system.Udp.Drop.{drop_packet, random_number, get_current_time}
use cs739_distributed_system.Udp.Retry.{
  Peer, Round, returns, continues, Finish, send_failed, acknowledged, await, send_and_await, round,
  conclude, write_loop,
}
use cs739_distributed_system.Udp.Server.{
  is_bad_percentage, ServerSocket, server_peer, fifty_milliseconds, set_timeout,
  server_set_drop_percentage, server_after_loop, server_write_connected, server_write_data,
}

pub record Keeps {W : Type 0} (net : Net W) (P : W → Type 0) : Type 0 where
  pub sendto_keeps :
      (fd : ℤ) (bytes : List ℕ) (addr : SockAddr) (w : W) → P w → P (net.sendto fd bytes addr w).1
  pub recvfrom_keeps : (fd : ℤ) (size : ℕ) (w : W) → P w → P (net.recvfrom fd size w).1
  pub option_keeps : (fd : ℤ) (option : SockOpt) (w : W) → P w → P (net.setsockopt fd option w).1
  pub rand_keeps : (w : W) → P w → P (net.rand w).1
  pub clock_keeps : (w : W) → P w → P (net.clock_gettime w).1
  pub cerr_keeps : (message : String) (w : W) → P w → P (net.cerr message w).1

module _ {W : Type 0} (net : Net W) (P : W → Type 0) (keeps : Keeps net P) where
  open keeps use {sendto_keeps, recvfrom_keeps, option_keeps, rand_keeps, clock_keeps, cerr_keeps}

  drop_packet-keeps : (percent : ℤ) (w : W) → P w → P (drop_packet net percent w).1
  unfolding drop_packet random_number get_current_time
  drop_packet-keeps percent w h = clock_keeps (net.rand w).1 (rand_keeps w h)

  await-keeps : (p : Peer) (ret : ℤ) (w : W) → P w → P (await net p ret w).1
  unfolding await
  await-keeps p ret w h = recvfrom_keeps p.fd 4 w h

  send_and_await-keeps :
      (p : Peer) (buff : List ℕ) (w : W) → P w → P (send_and_await net p buff w).1
  unfolding send_and_await
  send_and_await-keeps p buff w h =
      let c = net.sendto p.fd buff p.addr w in
      let kept = sendto_keeps p.fd buff p.addr w h in
      elim (Bool-cases (is_neg c.0)) [
        | inl e ↦ rw e (cerr_keeps _ c.1 kept)
        | inr e ↦ rw e (await-keeps p (of_bool false) c.1 kept)
      ]

  round-keeps : (p : Peer) (buff : List ℕ) (ret : ℤ) (w : W) → P w → P (round net p buff ret w).1
  unfolding round
  round-keeps p buff ret w h =
      let d = drop_packet net p.percent_drop w in
      let kept = drop_packet-keeps p.percent_drop w h in
      elim (Bool-cases d.0) [
        | inl e ↦ rw e (await-keeps p ret d.1 kept)
        | inr e ↦ rw e (send_and_await-keeps p buff d.1 kept)
      ]

  conclude-keeps :
      (p : Peer) (loop : SockAddr → ℤ → Partial W Finish) (rd : Round) (w : W) (r : Finish × W)
      → P w
      → ((a : SockAddr) (v : ℤ) → loop a v w ≡ some r → P r.1)
      → conclude net p loop rd w ≡ some r
      → P r.1
  unfolding conclude
  conclude-keeps p loop (returns v) w r h more e = subst (λ o. P o.1) (some-injective _ _ e) h
  conclude-keeps p loop (continues v true a) w r h more e =
      subst (λ o. P o.1) (some-injective _ _ e) h
  conclude-keeps p loop (continues v false a) w r h more e = more a v e

  write_loop-keeps :
      (rounds : ℕ) (p : Peer) (buff : List ℕ) (ret : ℤ) (w : W) (r : Finish × W)
      → P w
      → write_loop net rounds p buff ret w ≡ some r
      → P r.1
  unfolding write_loop
  write_loop-keeps zero p buff ret w r h e = cc
  write_loop-keeps (suc rounds) p buff ret w r h e =
      let c = round net p buff ret w in
      let kept = round-keeps p buff ret w h in
      conclude-keeps p _ c.0 c.1 r kept
        (λ a v e'. write_loop-keeps rounds (record p { addr = a }) buff v c.1 r kept e') e

  set_timeout-keeps : (fd : ℤ) (tv : TimeVal) (w : W) → P w → P (set_timeout net fd tv w).1
  unfolding set_timeout
  set_timeout-keeps fd tv w h =
      let c = net.setsockopt fd (SockOpt.rcv_timeout tv) w in
      let kept = option_keeps fd (SockOpt.rcv_timeout tv) w h in
      elim (Bool-cases (is_neg c.0)) [ inl e ↦ rw e (cerr_keeps _ c.1 kept) | inr e ↦ rw e kept ]

  server_after_loop-keeps :
      (s : ServerSocket) (f : Finish) (w : W)
      → P w
      → let r = server_after_loop net s f w in
        (r.0.1.accepted_connection ≡ s.accepted_connection) × P r.1
  unfolding server_after_loop
  server_after_loop-keeps s (send_failed v a) w h = (refl, h)
  server_after_loop-keeps s (acknowledged v a) w h = (refl, set_timeout-keeps s.sock_fd _ w h)

  server_write_connected-keeps :
      (rounds : ℕ) (s : ServerSocket) (buff : List ℕ) (w : W) (ret : ℤ) (s' : ServerSocket) (w' : W)
      → P w
      → server_write_connected net rounds s buff w ≡ some ((ret, s'), w')
      → (s'.accepted_connection ≡ s.accepted_connection) × P w'
  unfolding server_write_connected
  server_write_connected-keeps rounds s buff w ret s' w' h e =
      let kept = set_timeout-keeps s.sock_fd fifty_milliseconds w h in
      let (f, v, loop, rest) =
        after-eq-some (write_loop net rounds (server_peer s) buff (pos 0)) (server_after_loop net s)
          (set_timeout net s.sock_fd fifty_milliseconds w).1 (ret, s') w' e in
      subst (λ r. (r.0.1.accepted_connection ≡ s.accepted_connection) × P r.1) rest
        (server_after_loop-keeps s f v
          (write_loop-keeps rounds (server_peer s) buff (pos 0) _ (f, v) kept loop))

  -- A `WriteData` of a connected server that returned.
  pub server_write_data-keeps :
      (rounds : ℕ) (s : ServerSocket) (buff : List ℕ) (w : W) (ret : ℤ) (s' : ServerSocket) (w' : W)
      → s.accepted_connection ≡ true
      → P w
      → server_write_data net rounds s buff w ≡ some ((ret, s'), w')
      → (s'.accepted_connection ≡ true) × P w'
  unfolding server_write_data
  server_write_data-keeps rounds s buff w ret s' w' accepted h e =
      let r = server_write_connected-keeps rounds s buff w ret s' w' h (ground arith) in
      (r.0 ∙ accepted, r.1)

  pub server_set_drop_percentage-keeps :
      (s : ServerSocket) (percentage : ℤ) (w : W)
      → P w
      → let r = server_set_drop_percentage net s percentage w in
        (r.0.accepted_connection ≡ s.accepted_connection) × P r.1
  unfolding server_set_drop_percentage
  server_set_drop_percentage-keeps s percentage w h =
      elim (Bool-cases (is_bad_percentage percentage)) [
        | inl e ↦ rw e (refl, cerr_keeps _ w h)
        | inr e ↦ rw e (refl, h)
      ]
