-- ===== src/Udp/RetryTrace.antt =====
-- The retransmission loop refines a grammar of socket calls.
use cs739_distributed_system.Base.{
  ℕ, zero, suc, ◌≡◌, refl, inl, inr, List, ◌∷◌, some, Bool, true, false, ℤ, pos, is_neg, Partial,
  Bool-cases,
}
use cs739_distributed_system.Udp.Net.{SockAddr, Net, Received, sender_of, is_ack}
use cs739_distributed_system.Udp.Traced.{Event, sent, got, Logged, traced}
use cs739_distributed_system.Udp.Drop.{drop_packet}
use cs739_distributed_system.Udp.Retry.{
  Peer, Round, returns, continues, Finish, send_failed, acknowledged, await, send_and_await, round,
  conclude, write_loop,
}

-- The calls before a wait: none, if the packet is dropped, or one `sendto` of the whole buffer to
-- the current address that did not fail.
pub data Tried (fd : ℤ) (buff : List ℕ) (addr : SockAddr) (log : List Event)
    : List Event → Type 0 where
  dropped : Tried fd buff addr log log
  transmitted : (n : ℤ) → is_neg n ≡ false → Tried fd buff addr log (sent fd buff addr n ∷ log)

-- Rounds that ended without an acknowledgement: the address and the log before and after.
pub data Waits (fd : ℤ) (buff : List ℕ) (addr : SockAddr) (log : List Event)
    : SockAddr → List Event → Type 0 where
  start : Waits fd buff addr log addr log
  again :
      {a : SockAddr} {before after : List Event} (reply : Received)
      → Waits fd buff addr log a before
      → Tried fd buff a before after
      → is_ack reply ≡ false
      → Waits fd buff addr log (sender_of reply a) (got fd 4 reply ∷ after)

-- A loop that ended: by an acknowledgement, or by a `sendto` that failed. The value is what the
-- method returns.
pub data Ends (fd : ℤ) (buff : List ℕ) (addr : SockAddr) (log : List Event)
    : Finish → List Event → Type 0 where
  by_ack :
      {a : SockAddr} {before after : List Event} (reply : Received)
      → Waits fd buff addr log a before
      → Tried fd buff a before after
      → is_ack reply ≡ true
      → Ends fd buff addr log (acknowledged (pos 0) (sender_of reply a)) (got fd 4 reply ∷ after)
  by_failure :
      {a : SockAddr} {before : List Event} (n : ℤ)
      → Waits fd buff addr log a before
      → is_neg n ≡ true
      → Ends fd buff addr log (send_failed (pos 1) a) (sent fd buff a n ∷ before)

-- One round: the grammar's reading of how it ended.
data Rounded (fd : ℤ) (buff : List ℕ) (addr : SockAddr) (log : List Event)
    : Round → List Event → Type 0 where
  failing :
      (n : ℤ)
      → is_neg n ≡ true
      → Rounded fd buff addr log (returns (pos 1)) (sent fd buff addr n ∷ log)
  waited :
      {after : List Event} (reply : Received) (b : Bool)
      → Tried fd buff addr log after
      → is_ack reply ≡ b
      → Rounded fd buff addr log
          (continues (pos 0) b (sender_of reply addr))
          (got fd 4 reply ∷ after)

module _ {W : Type 0} (net : Net W) (buff : List ℕ) where
  send_and_await-Rounded :
      (p : Peer) (w : W) (log : List Event)
      → let r = send_and_await (traced net) p buff (w, log) in
        Rounded p.fd buff p.addr log r.0 r.1.1
  unfolding send_and_await
  send_and_await-Rounded p w log =
      let n = (net.sendto p.fd buff p.addr w).0 in
      elim (Bool-cases (is_neg n)) [
        | inl e ↦ rw e (failing n e)
        | inr e ↦ rw e (waited _ _ (transmitted n e) refl)
      ]

  round-Rounded :
      (p : Peer) (w : W) (log : List Event)
      → let r = round (traced net) p buff (pos 0) (w, log) in Rounded p.fd buff p.addr log r.0 r.1.1
  unfolding round drop_packet await
  round-Rounded p w log =
      let d = drop_packet (traced net) p.percent_drop (w, log) in
      elim (Bool-cases d.0) [
        | inl e ↦ rw e (waited _ _ dropped refl)
        | inr e ↦ rw e (send_and_await-Rounded p d.1.0 log)
      ]

  -- What a round that the grammar reads leads to, if the rest of the loop does what it says.
  conclude-Ends :
      {a0 : SockAddr} {log0 log log' : List Event} {rd : Round} (p : Peer)
      (loop : SockAddr → ℤ → Partial (Logged W) Finish) (w : W)
      → ((a : SockAddr) (v : W) (l l' : List Event) (f : Finish) (v' : W)
          → Waits p.fd buff a0 log0 a l
          → loop a (pos 0) (v, l) ≡ some (f, (v', l'))
          → Ends p.fd buff a0 log0 f l')
      → Waits p.fd buff a0 log0 p.addr log
      → Rounded p.fd buff p.addr log rd log'
      → (f : Finish) (v' : W) (l' : List Event)
      → conclude (traced net) p loop rd (w, log') ≡ some (f, (v', l'))
      → Ends p.fd buff a0 log0 f l'
  unfolding conclude
  conclude-Ends p loop w rest waits (failing n e) f v' l' h =
      let ef : send_failed (pos 1) p.addr ≡ f = cc in
      let el : sent p.fd buff p.addr n ∷ _ ≡ l' = cc in rw (← ef, ← el) (by_failure n waits e)
  conclude-Ends p loop w rest waits (waited {after = after} reply true t e) f v' l' h =
      let ef : acknowledged (pos 0) (sender_of reply p.addr) ≡ f = cc in
      let el : got p.fd 4 reply ∷ after ≡ l' = cc in rw (← ef, ← el) (by_ack reply waits t e)
  conclude-Ends p loop w rest waits (waited reply false t e) f v' l' h =
      rest (sender_of reply p.addr) w _ l' f v' (again reply waits t e) h

  -- Whatever the system does, a loop that ends has made the calls of the grammar and no others,
  -- and returns what the grammar says.
  pub write_loop-Ends :
      (rounds : ℕ) (p : Peer) (a0 : SockAddr) (log0 : List Event) (w : W) (log : List Event)
      (f : Finish) (w' : W) (log' : List Event)
      → Waits p.fd buff a0 log0 p.addr log
      → write_loop (traced net) rounds p buff (pos 0) (w, log) ≡ some (f, (w', log'))
      → Ends p.fd buff a0 log0 f log'
  unfolding write_loop
  write_loop-Ends zero p a0 log0 w log f w' log' waits h = cc
  write_loop-Ends (suc rounds) p a0 log0 w log f w' log' waits h =
      conclude-Ends p _ _
        (λ a v l l' g v' ws e.
          write_loop-Ends rounds (record p { addr = a }) a0 log0 v l g v' l' ws e)
        waits (round-Rounded p w log) f w' log' h
