-- ===== src/Udp/Joint/Rounds.antt =====
-- The loop of `WriteData` over the common network follows the protocol.
use cs739_distributed_system.Base.{
  ℕ, zero, suc, ◌≡◌, refl, subst, ◌⊎◌, inl, inr, Bool, true, false, some, List, [], ◌∷◌, Bool-cases,
  length, ℤ, pos, Partial, some-injective,
}
use cs739_distributed_system.Udp.Net.{SockAddr, Received, ack_of, is_ack}
use cs739_distributed_system.Udp.Bytes.{is_ack-encode32}
use cs739_distributed_system.Udp.Drop.{drop_packet, random_number, get_current_time}
use cs739_distributed_system.Udp.Retry.{
  Peer, Round, returns, continues, Finish, send_failed, acknowledged, await, send_and_await, round,
  conclude, write_loop,
}
use cs739_distributed_system.Udp.Protocol.{
  Message, Writer, idle, turn, waiting, System, Step, transmit, skip, time_out, take_ack,
}
use cs739_distributed_system.Udp.Protocol.Delivery.{During, going}
use cs739_distributed_system.Udp.Joint.{
  Joint, head_or, tail, answer, joint_recvfrom, joint_sendto, joint_net, reader_addr,
}
use cs739_distributed_system.Udp.Joint.Wiring.{IsWired, view}
use cs739_distributed_system.Udp.Joint.Refines.{Under, acts-Under}

module _ (m : Message) (s : System) (written : List Message) where
  abbrev Here : Writer → Joint → Type 0
  Here w j = Under m s written (length m) w j

  -- The acknowledgement was taken, and `WriteData` returns.
  pub record Ended (j : Joint) : Type 0 where
    pub last : System
    pub during : During m s last
    pub ends : Step last (view idle (m ∷ written) j)
    pub wired : IsWired (length m) j

  abbrev Replied : Received × Joint → Type 0
  Replied r = ((is_ack r.0 ≡ false) × Here (turn m) r.1) ⊎ ((is_ack r.0 ≡ true) × Ended r.1)

  timed_out : (j : Joint) → Here (waiting m) j → Here (turn m) j
  timed_out j u = record { during = going u.during (time_out m refl) (λ e. cc); wired = u.wired }

  answer-Replied :
      (timely : Bool) (acks : List Message) (j : Joint)
      → j.acks_in_flight ≡ acks
      → Here (waiting m) j
      → Replied (answer timely acks j)
  unfolding answer is_ack ack_of
  answer-Replied false acks j e u = inl (refl, timed_out j u)
  answer-Replied true [] j e u = inl (refl, timed_out j u)
  answer-Replied true (a ∷ acks) j e u =
      let v = subst (λ l. Here (waiting m) (record j { acks_in_flight = l })) e u in
      let w = v.wired in
      inr (
        rw w.genuine.0 (is_ack-encode32 reader_addr),
        record {
          last = view (waiting m) written (record j { acks_in_flight = a ∷ acks });
          during = v.during;
          ends = take_ack m (length acks) refl refl;
          wired = record {
            connected = w.connected;
            buffered = w.buffered;
            sized = w.sized;
            genuine = w.genuine.1;
          };
        },
      )

  joint_recvfrom-Replied : (j : Joint) → Here (waiting m) j → Replied (joint_recvfrom j)
  unfolding joint_recvfrom
  joint_recvfrom-Replied j u =
      let wait = head_or (record { choices = []; timely = false }) j.waits in
      let j1 : Joint = record j { waits = tail j.waits } in
      let w = u.wired in
      let u1 : Here (waiting m) j1 = record {
        during = u.during;
        wired = record {
          connected = w.connected;
          buffered = w.buffered;
          sized = w.sized;
          genuine = w.genuine;
        };
      } in
      answer-Replied wait.timely _ _ refl (acts-Under m s written (length m) wait.choices j1 u1)

  -- How a round ends.
  abbrev Rounded : Round → Joint → Type 0
  Rounded (returns v) j = v ≡ pos 1
  Rounded (continues v true a) j = (v ≡ pos 0) × Ended j
  Rounded (continues v false a) j = (v ≡ pos 0) × Here (turn m) j

  await-Rounded :
      (p : Peer) (j : Joint)
      → Here (waiting m) j
      → let r = await joint_net p (pos 0) j in Rounded r.0 r.1
  unfolding await
  await-Rounded p j u = elim (joint_recvfrom-Replied j u) [
    | inl (e, v) ↦ rw e (refl, v)
    | inr (e, v) ↦ rw e (refl, v)
  ]

  sendto-Rounded :
      (up : Bool) (p : Peer) (j : Joint)
      → head_or true j.sends ≡ up
      → Here (turn m) j
      → let r = send_and_await joint_net p m j in Rounded r.0 r.1
  unfolding send_and_await joint_sendto
  sendto-Rounded false p j e u = rw e refl
  sendto-Rounded true p j e u =
      let w = u.wired in
      let j1 : Joint = record j { data_in_flight = m ∷ j.data_in_flight; sends = tail j.sends } in
      let u1 : Here (waiting m) j1 = record {
        during = going u.during (transmit m refl) (λ e. cc);
        wired = record {
          connected = w.connected;
          buffered = w.buffered;
          sized = (refl, w.sized);
          genuine = w.genuine;
        };
      } in
      rw e (await-Rounded p j1 u1)

  drop_packet-Here :
      (percent : ℤ) (j : Joint)
      → Here (turn m) j
      → Here (turn m) (drop_packet joint_net percent j).1
  unfolding drop_packet random_number get_current_time
  drop_packet-Here percent j u =
      let w = u.wired in
      record {
        during = u.during;
        wired = record {
          connected = w.connected;
          buffered = w.buffered;
          sized = w.sized;
          genuine = w.genuine;
        };
      }

  skipped : (j : Joint) → Here (turn m) j → Here (waiting m) j
  skipped j u = record { during = going u.during (skip m refl) (λ e. cc); wired = u.wired }

  round-Rounded :
      (p : Peer) (j : Joint)
      → Here (turn m) j
      → let r = round joint_net p m (pos 0) j in Rounded r.0 r.1
  unfolding round
  round-Rounded p j u =
      let d = drop_packet joint_net p.percent_drop j in
      let v = drop_packet-Here p.percent_drop j u in
      elim (Bool-cases d.0) [
        | inl e ↦ rw e (await-Rounded p d.1 (skipped d.1 v))
        | inr e ↦ rw e (sendto-Rounded (head_or true d.1.sends) p d.1 refl v)
      ]

  -- How the loop ends.
  abbrev pub Finished : Finish → Joint → Type 0
  Finished (send_failed v a) j = v ≡ pos 1
  Finished (acknowledged v a) j = (v ≡ pos 0) × Ended j

  conclude-Finished :
      (p : Peer) (loop : SockAddr → ℤ → Partial Joint Finish) (rd : Round) (j j' : Joint)
      (f : Finish)
      → Rounded rd j
      → ((a : SockAddr) → Here (turn m) j → loop a (pos 0) j ≡ some (f, j') → Finished f j')
      → conclude joint_net p loop rd j ≡ some (f, j')
      → Finished f j'
  unfolding conclude
  conclude-Finished p loop (returns v) j j' f r more h =
      subst (λ o. Finished o.0 o.1) (some-injective _ _ h) r
  conclude-Finished p loop (continues v true a) j j' f r more h =
      subst (λ o. Finished o.0 o.1) (some-injective _ _ h) r
  conclude-Finished p loop (continues v false a) j j' f r more h = more a r.1 (rw r.0 at h)

  pub write_loop-Finished :
      (rounds : ℕ) (p : Peer) (j j' : Joint) (f : Finish)
      → Here (turn m) j
      → write_loop joint_net rounds p m (pos 0) j ≡ some (f, j')
      → Finished f j'
  unfolding write_loop
  write_loop-Finished zero p j j' f u h = cc
  write_loop-Finished (suc rounds) p j j' f u h =
      let r = round joint_net p m (pos 0) j in
      conclude-Finished p _ r.0 r.1 j' f (round-Rounded p j u)
        (λ a v e. write_loop-Finished rounds (record p { addr = a }) r.1 j' f v e) h
