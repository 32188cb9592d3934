-- ===== src/Udp/Retry.antt =====
-- The `do ... while (!ack_recvd)` loop of the two `WriteData` methods of HW1/part2/Socket.h. The
-- methods differ in one thing: the server sends to `client_addr_` and the client to
-- `server_addr_`, and `recvfrom` overwrites the same variable. `Peer` holds what the loop uses.
use cs739_distributed_system.Base.{
  ℕ, zero, suc, List, none, some, Bool, true, false, if◌then◌else◌, ℤ, is_neg, of_bool, State,
  Partial, ◌>>=◌, ◌>>◌, pure,
}
use cs739_distributed_system.Udp.Net.{SockAddr, Net, sender_of, is_ack}
use cs739_distributed_system.Udp.Drop.{drop_packet}

pub record Peer : Type 0 where
  pub fd : ℤ
  pub addr : SockAddr
  pub percent_drop : ℤ

-- How one round of the loop ends: `return ret`, or with new values of `ret`, `ack_recvd` and the
-- address.
pub data Round : Type 0 where
  returns : ℤ → Round
  continues : ℤ → Bool → SockAddr → Round

-- How the loop ends: by `return ret` in its body, or by its test; with the address variable.
pub data Finish : Type 0 where
  send_failed : ℤ → SockAddr → Finish
  acknowledged : ℤ → SockAddr → Finish

module _ {W : Type 0} (net : Net W) where
  -- The second half of the body: wait for a datagram and compare it with the acknowledgement.
  unfoldable pub await : Peer → ℤ → State W Round
  await p ret = do
    reply ← net.recvfrom p.fd 4
    pure (continues ret (is_ack reply) (sender_of reply p.addr))

  -- `if (ret = sendto(...) < 0)` stores the comparison in `ret`, not the result of `sendto`.
  unfoldable pub send_and_await : Peer → List ℕ → State W Round
  unfolding await
  send_and_await p buff = do
    sent ← net.sendto p.fd buff p.addr
    if is_neg sent
        then (do net.cerr ": Error in send the packet"; pure (returns (of_bool true)))
        else await p (of_bool (is_neg sent))

  -- One round: send unless the packet is to be dropped, then wait.
  unfoldable pub round : Peer → List ℕ → ℤ → State W Round
  round p buff ret = do
    dropped ← drop_packet net p.percent_drop
    if dropped then await p ret else send_and_await p buff

  -- What follows a round: leave the method, leave the loop, or go round again with a new address
  -- and a new `ret`.
  unfoldable pub conclude : Peer → (SockAddr → ℤ → Partial W Finish) → Round → Partial W Finish
  conclude p again (returns v) w = some (send_failed v p.addr, w)
  conclude p again (continues v true a) w = some (acknowledged v a, w)
  conclude p again (continues v false a) w = again a v w

  -- The loop, for at most so many rounds: `none` means that it is still running.
  unfoldable pub write_loop : ℕ → Peer → List ℕ → ℤ → Partial W Finish
  unfolding conclude
  write_loop zero p buff ret w = none
  write_loop (suc rounds) p buff ret w =
      let r = round p buff ret w in
      conclude p (λ a v. write_loop rounds (record p { addr = a }) buff v) r.0 r.1
