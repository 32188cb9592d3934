-- ===== src/Udp/WriteTrace.antt =====
-- `WriteData` of both classes: which calls it makes, and what it can return.
use cs739_distributed_system.Base.{
  ℕ, ◌≡◌, inl, inr, true, some, List, ◌∷◌, arith, Bool-cases, ℤ, pos, is_neg, after-eq-some,
}
use cs739_distributed_system.Clock.{TimeVal}
use cs739_distributed_system.Udp.Net.{SockAddr, Net, rcv_timeout}
use cs739_distributed_system.Udp.Traced.{Event, set_option, traced}
use cs739_distributed_system.Udp.Retry.{Finish, send_failed, acknowledged, write_loop}
use cs739_distributed_system.Udp.RetryTrace.{start, Ends, write_loop-Ends}
use cs739_distributed_system.Udp.Server.{
  ServerSocket, fifty_milliseconds, fifty_thousand_seconds, set_timeout, server_peer,
  server_after_loop, server_write_connected, server_write_data,
}
use cs739_distributed_system.Udp.Client.{
  ClientSocket, client_peer, client_after_loop, client_write_connected, client_write_data,
}

-- The calls of a `WriteData` that returned, from the log before to the log after, with the value
-- returned: the short timeout is set, the loop runs, and the long timeout is set if it ended by an
-- acknowledgement.
pub data Writes (fd : ℤ) (buff : List ℕ) (addr : SockAddr) (log : List Event)
    : ℤ → List Event → Type 0 where
  delivered :
      {a : SockAddr} {ret : ℤ} {mid : List Event} (n m : ℤ)
      → Ends fd buff addr
          (set_option fd (rcv_timeout fifty_milliseconds) n ∷ log)
          (acknowledged ret a)
          mid
      → Writes fd buff addr log ret (set_option fd (rcv_timeout fifty_thousand_seconds) m ∷ mid)
  abandoned :
      {a : SockAddr} {ret : ℤ} {mid : List Event} (n : ℤ)
      → Ends fd buff addr
          (set_option fd (rcv_timeout fifty_milliseconds) n ∷ log)
          (send_failed ret a)
          mid
      → Writes fd buff addr log ret mid

-- What follows the loop, for each way in which it ends.
abbrev After : ℤ → Finish → List Event → ℤ → List Event → Type 0
After fd (send_failed v a) mid ret log' = (v ≡ ret) × (log' ≡ mid)
After fd (acknowledged v a) mid ret log' =
    (v ≡ ret) × (m : ℤ) × (log' ≡ set_option fd (rcv_timeout fifty_thousand_seconds) m ∷ mid)

module _ {W : Type 0} (net : Net W) where
  -- Setting a timeout logs one call.
  set_timeout-log :
      (fd : ℤ) (tv : TimeVal) (w : W) (log : List Event)
      → (v : W) × (n : ℤ) × (set_timeout (traced net) fd tv (w, log)
          ≡ (tt, (v, set_option fd (rcv_timeout tv) n ∷ log)))
  unfolding set_timeout
  set_timeout-log fd tv w log =
      let r = net.setsockopt fd (rcv_timeout tv) w in
      elim (Bool-cases (is_neg r.0)) [
        | inl e ↦ ((net.cerr ": Error in setting timeout" r.1).1, r.0, rw e)
        | inr e ↦ (r.1, r.0, rw e)
      ]

  -- The calls of the loop, then those that follow it.
  Ends-Writes :
      (fd : ℤ) (buff : List ℕ) (addr : SockAddr) (log mid log' : List Event) (n ret : ℤ)
      → (f : Finish)
      → Ends fd buff addr (set_option fd (rcv_timeout fifty_milliseconds) n ∷ log) f mid
      → After fd f mid ret log'
      → Writes fd buff addr log ret log'
  Ends-Writes fd buff addr log mid log' n ret (send_failed v a) e (k, l) =
      rw (← k, l) (abandoned n e)
  Ends-Writes fd buff addr log mid log' n ret (acknowledged v a) e (k, m, l) =
      rw (← k, l) (delivered n m e)

  server_after_loop-After :
      (s s' : ServerSocket) (f : Finish) (w w' : W) (mid log' : List Event) (ret : ℤ)
      → server_after_loop (traced net) s f (w, mid) ≡ ((ret, s'), (w', log'))
      → After s.sock_fd f mid ret log'
  unfolding server_after_loop
  server_after_loop-After s s' (send_failed v a) w w' mid log' ret h = (cc, cc)
  server_after_loop-After s s' (acknowledged v a) w w' mid log' ret h =
      let (u, n, e) = set_timeout-log s.sock_fd fifty_thousand_seconds w mid in
      let h' = rw e at h in (cc, n, cc)

  server_write_connected-Writes :
      (rounds : ℕ) (s s' : ServerSocket) (buff : List ℕ) (w w' : W) (log log' : List Event)
      (ret : ℤ)
      → server_write_connected (traced net) rounds s buff (w, log) ≡ some ((ret, s'), (w', log'))
      → Writes s.sock_fd buff s.client_addr log ret log'
  unfolding server_write_connected
  server_write_connected-Writes rounds s s' buff w w' log log' ret h =
      let (u, n, e) = set_timeout-log s.sock_fd fifty_milliseconds w log in
      let (f, (v, mid), loop, rest) =
        after-eq-some (write_loop (traced net) rounds (server_peer s) buff (pos 0))
          (server_after_loop (traced net) s) _ _ _ (rw e at h) in
      Ends-Writes s.sock_fd buff _ log mid log' n ret f
        (write_loop-Ends net buff rounds (server_peer s) _ _ u _ f v mid start loop)
        (server_after_loop-After s s' f v w' mid log' ret rest)

  -- A `WriteData` of a connected server that returned has made the calls of `Writes` and no others,
  -- whatever the system does, and returned what `Writes` says.
  pub server_write_data-Writes :
      (rounds : ℕ) (s s' : ServerSocket) (buff : List ℕ) (w w' : W) (log log' : List Event)
      (ret : ℤ)
      → s.accepted_connection ≡ true
      → server_write_data (traced net) rounds s buff (w, log) ≡ some ((ret, s'), (w', log'))
      → Writes s.sock_fd buff s.client_addr log ret log'
  unfolding server_write_data
  server_write_data-Writes rounds s s' buff w w' log log' ret accepted h =
      server_write_connected-Writes rounds s s' buff w w' log log' ret (ground arith)

  client_after_loop-After :
      (s s' : ClientSocket) (f : Finish) (w w' : W) (mid log' : List Event) (ret : ℤ)
      → client_after_loop (traced net) s f (w, mid) ≡ ((ret, s'), (w', log'))
      → After s.sock_fd f mid ret log'
  unfolding client_after_loop
  client_after_loop-After s s' (send_failed v a) w w' mid log' ret h = (cc, cc)
  client_after_loop-After s s' (acknowledged v a) w w' mid log' ret h =
      let (u, n, e) = set_timeout-log s.sock_fd fifty_thousand_seconds w mid in
      let h' = rw e at h in (cc, n, cc)

  client_write_connected-Writes :
      (rounds : ℕ) (s s' : ClientSocket) (buff : List ℕ) (w w' : W) (log log' : List Event)
      (ret : ℤ)
      → client_write_connected (traced net) rounds s buff (w, log) ≡ some ((ret, s'), (w', log'))
      → Writes s.sock_fd buff s.server_addr log ret log'
  unfolding client_write_connected
  client_write_connected-Writes rounds s s' buff w w' log log' ret h =
      let (u, n, e) = set_timeout-log s.sock_fd fifty_milliseconds w log in
      let (f, (v, mid), loop, rest) =
        after-eq-some (write_loop (traced net) rounds (client_peer s) buff (pos 0))
          (client_after_loop (traced net) s) _ _ _ (rw e at h) in
      Ends-Writes s.sock_fd buff _ log mid log' n ret f
        (write_loop-Ends net buff rounds (client_peer s) _ _ u _ f v mid start loop)
        (client_after_loop-After s s' f v w' mid log' ret rest)

  -- A `WriteData` of a connected client that returned has made the calls of `Writes` and no others,
  -- to the server's address, whatever the system does, and returned what `Writes` says.
  client_write_data-Writes :
      (rounds : ℕ) (s s' : ClientSocket) (buff : List ℕ) (w w' : W) (log log' : List Event)
      (ret : ℤ)
      → s.accepted_connection ≡ true
      → client_write_data (traced net) rounds s buff (w, log) ≡ some ((ret, s'), (w', log'))
      → Writes s.sock_fd buff s.server_addr log ret log'
  unfolding client_write_data
  client_write_data-Writes rounds s s' buff w w' log log' ret accepted h =
      client_write_connected-Writes rounds s s' buff w w' log log' ret (ground arith)
