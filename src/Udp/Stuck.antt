-- ===== src/Udp/Stuck.antt =====
-- Two programs that are both in the loop of `WriteData` of HW1/part2/Socket.h and wait for each
-- other's acknowledgement: a server that sends a packet and a client that sends its handshake. Every
-- system call of either is a step, and a datagram may be late, overtaken or lost.
pub mod Wire
pub mod Lost
pub mod Greeting
mod Tests
use cs739_distributed_system.Base.{
  ℕ, zero, suc, ◌+◌, ◌-◌, ◌*◌, ◌/◌, ◌%◌, ◌^◌, ◌≤◌, ◌<◌, min, max, ◌≡◌, refl, sym, ap, subst, ◌∙◌,
  ◌≢◌, ◌↔◌, ◌⊎◌, inl, inr, Bool, true, false, not, ◌&&◌, ◌||◌, Option, none, some, List, [], ◌∷◌,
  ◌++◌, map, append_assoc, append-nil, arith, dec_lt, ℕ_discrete, ltb, leb, ◌==◌, if◌then◌else◌,
  ltb→lt, lt→ltb, le→ltb, Bool-cases, Option-cases, length, take, drop, replicate, All,
  length-append, take-append-drop, length-take, length-drop, length-replicate, take_all, take-add,
  All-mono, ℤ, pos, negsuc, minus_one, is_neg, of_bool, to_u32, IsInt, to_u32-lt, State, Partial,
  ◌>>=◌, ◌>>◌, pure, finish, after, after-eq-some, Yields, Yields-chain, Yields-after, Yields-mono,
  Yields-some, Allows, Allows-chain, Allows-after, Allows-chain_of, Allows-after_of, Allows-mono,
  Allows-nothing, chain-eq-some, chain_of_some, after_of_some, some-injective, chain,
}
use cs739_distributed_system.Clock.{TimeSpec}
use cs739_distributed_system.Udp.Net.{SockAddr, Net, Received, failed, received}
use cs739_distributed_system.Udp.Drop.{drop_packet}
use cs739_distributed_system.Udp.Retry.{
  Peer, Round, returns, continues, Finish, send_failed, acknowledged, await, send_and_await, round,
  conclude, write_loop,
}
use cs739_distributed_system.Udp.Protocol.{Message}
use cs739_distributed_system.Udp.Joint.{take_at, reader_addr, writer_addr}

-- What the first half of a round did: `return ret`, or go on with `ret` to the `recvfrom`.
pub data Sent : Type 0 where
  halted : ℤ → Sent
  goes_on : ℤ → Sent

-- Where a program stands in the loop: at its head, before the `recvfrom`, or behind it.
pub data Loop : Type 0 where
  at_head : Peer → ℤ → Loop
  listening : Peer → Sent → Loop
  over : Finish → Loop

-- After a round.
unfoldable pub settle : Peer → Round → Loop
settle p (returns v) = over (send_failed v p.addr)
settle p (continues v true a) = over (acknowledged v a)
settle p (continues v false a) = at_head (record p { addr = a }) v

module _ {W : Type 0} (net : Net W) where
  unfoldable pub first_half : Peer → Message → ℤ → State W Sent
  first_half p buff ret = do
    dropped ← drop_packet net p.percent_drop
    if dropped then pure (goes_on ret) else (do
      sent ← net.sendto p.fd buff p.addr
      if is_neg sent
          then (do net.cerr ": Error in send the packet"; pure (halted (of_bool true)))
          else pure (goes_on (of_bool (is_neg sent))))

  unfoldable pub second_half : Peer → Sent → State W Round
  second_half p (halted v) = pure (returns v)
  second_half p (goes_on ret) = await net p ret

  -- One step of the loop.
  unfoldable pub advance : Message → Loop → State W Loop
  advance m (at_head p ret) w = let r = first_half p m ret w in (listening p r.0, r.1)
  advance m (listening p s) w = let r = second_half p s w in (settle p r.0, r.1)
  advance m (over f) w = (over f, w)

  -- The two halves are a round of the code.
  round-halves :
      (p : Peer) (m : Message) (ret : ℤ) (w : W)
      → let h = first_half p m ret w in round net p m ret w ≡ second_half p h.0 h.1
  unfolding round send_and_await first_half second_half
  round-halves p m ret w =
      let d = drop_packet net p.percent_drop w in
      elim (Bool-cases d.0) [
        | inl e ↦ rw e refl
        | inr e ↦ elim (Bool-cases (is_neg (net.sendto p.fd m p.addr d.1).0)) [
          | inl f ↦ rw (e, f) refl
          | inr f ↦ rw (e, f) refl
        ]
      ]

  -- Two steps for every round.
  unfoldable pub turns : ℕ → Message → Loop → State W Loop
  turns zero m l w = (l, w)
  turns (suc rounds) m l w =
      let a = advance m l w in let b = advance m a.0 a.1 in turns rounds m b.0 b.1

  -- What has come out of the loop, if it is behind its end.
  abbrev outcome : Loop → W → Option (Finish × W)
  outcome (at_head p ret) w = none
  outcome (listening p s) w = none
  outcome (over f) w = some (f, w)

  turns-over :
      (rounds : ℕ) (m : Message) (f : Finish) (w : W) → turns rounds m (over f) w ≡ (over f, w)
  unfolding turns advance
  turns-over zero m f w = refl
  turns-over (suc rounds) m f w = turns-over rounds m f w

  abbrev after_turns : ℕ → Message → Loop → W → Option (Finish × W)
  after_turns rounds m l w = let b = turns rounds m l w in outcome b.0 b.1

  conclude-settle :
      (rounds : ℕ) (p : Peer) (m : Message) (rd : Round) (w : W)
      → ((q : Peer) (ret : ℤ) (v : W)
          → write_loop net rounds q m ret v ≡ after_turns rounds m (at_head q ret) v)
      → conclude net p (λ a v. write_loop net rounds (record p { addr = a }) m v) rd w
        ≡ after_turns rounds m (settle p rd) w
  unfolding conclude settle
  conclude-settle rounds p m (returns v) w same =
      rw (turns-over rounds m (send_failed v p.addr) w) refl
  conclude-settle rounds p m (continues v true a) w same =
      rw (turns-over rounds m (acknowledged v a) w) refl
  conclude-settle rounds p m (continues v false a) w same = same (record p { addr = a }) v w

  -- The loop of the code with so many rounds is that many times two steps.
  write_loop-turns :
      (rounds : ℕ) (p : Peer) (m : Message) (ret : ℤ) (w : W)
      → write_loop net rounds p m ret w ≡ after_turns rounds m (at_head p ret) w
  unfolding write_loop turns advance
  write_loop-turns zero p m ret w = refl
  write_loop-turns (suc rounds) p m ret w =
      let h = first_half p m ret w in
      let s = second_half p h.0 h.1 in
      rw (round-halves p m ret w)
        (conclude-settle rounds p m s.0 s.1 (λ q ret' v. write_loop-turns rounds q m ret' v))
