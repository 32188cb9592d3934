-- ===== src/Udp/Joint/Arrives.antt =====
-- A `WriteData` whose datagram gets through returns.
use cs739_distributed_system.Base.{
  ℕ, zero, suc, ◌<◌, ◌≡◌, refl, sym, ap, ◌∙◌, inl, inr, true, false, some, List, [], ◌∷◌, ◌++◌,
  arith, le→ltb, Option-cases, length, replicate, All, pos, after, after_of_some,
}
use cs739_distributed_system.Udp.Net.{sender_of, SockAddr, failed, is_ack}
use cs739_distributed_system.Udp.Bytes.{is_ack-encode32}
use cs739_distributed_system.Udp.Drop.{is_dropped, drop_packet, random_number, get_current_time}
use cs739_distributed_system.Udp.Retry.{
  Peer, acknowledged, continues, await, send_and_await, round, conclude, write_loop,
}
use cs739_distributed_system.Udp.Protocol.{Message}
use cs739_distributed_system.Udp.Protocol.Delivery.{Picks-All}
use cs739_distributed_system.Udp.Joint.{
  Choice, deliver, deliver_only, drop_data, drop_ack, Wait, Joint, take_at, act, acts, answer,
  joint_recvfrom, joint_sendto, joint_net, reader_addr,
}
use cs739_distributed_system.Udp.Server.{
  ServerSocket, server_peer, set_timeout, server_after_loop, server_write_connected,
  server_write_data,
}
use cs739_distributed_system.Udp.Joint.Delivers.{server_write_data-delivers}
use cs739_distributed_system.Udp.Joint.Wiring.{IsWired, read_once-up, read_once-down, take_at-Picks}

-- The reader is connected, all messages have its buffer's size, every `sendto` of the writer
-- succeeds, and these waits are to come.
pub record Held (size : ℕ) (ws : List Wait) (j : Joint) : Type 0 where
  pub connected : j.reader.accepted_connection ≡ true
  pub buffered : length j.buffer ≡ size
  pub sized : All (λ m. length m ≡ size) j.data_in_flight
  pub sending : j.sends ≡ []
  pub planned : j.waits ≡ ws

act-Held :
    (size : ℕ) (ws : List Wait) (c : Choice) (j : Joint) → Held size ws j → Held size ws (act c j)
unfolding act
act-Held size ws (deliver k) j h = elim (Option-cases (take_at k j.data_in_flight)) [
  | inl e ↦ rw (e, act) h
  | inr ((m, rest), e) ↦
      let all =
        Picks-All (λ m. length m ≡ size) (take_at-Picks k j.data_in_flight m rest e) h.sized in
      rw
        (
          e,
          act,
          read_once-up m (record j { data_in_flight = rest }) h.connected (all.0 ∙ sym h.buffered),
        )
        (record {
          connected = h.connected;
          buffered = all.0;
          sized = all.1;
          sending = h.sending;
          planned = h.planned;
        })
]
act-Held size ws (deliver_only k) j h = elim (Option-cases (take_at k j.data_in_flight)) [
  | inl e ↦ rw (e, act) h
  | inr ((m, rest), e) ↦
      let all =
        Picks-All (λ m. length m ≡ size) (take_at-Picks k j.data_in_flight m rest e) h.sized in
      rw
        (
          e,
          act,
          read_once-down m (record j { data_in_flight = rest }) h.connected
              (all.0 ∙ sym h.buffered),
        )
        (record {
          connected = h.connected;
          buffered = all.0;
          sized = all.1;
          sending = h.sending;
          planned = h.planned;
        })
]
act-Held size ws (drop_data k) j h = elim (Option-cases (take_at k j.data_in_flight)) [
  | inl e ↦ rw (e, act) h
  | inr ((m, rest), e) ↦
      let all =
        Picks-All (λ m. length m ≡ size) (take_at-Picks k j.data_in_flight m rest e) h.sized in
      rw (e, act)
        (record {
          connected = h.connected;
          buffered = h.buffered;
          sized = all.1;
          sending = h.sending;
          planned = h.planned;
        })
]
act-Held size ws drop_ack j h = record {
  connected = h.connected;
  buffered = h.buffered;
  sized = h.sized;
  sending = h.sending;
  planned = h.planned;
}

acts-Held :
    (size : ℕ) (ws : List Wait) (cs : List Choice) (j : Joint)
    → Held size ws j
    → Held size ws (acts cs j)
unfolding acts
acts-Held size ws [] j h = h
acts-Held size ws (c ∷ cs) j h = acts-Held size ws cs (act c j) (act-Held size ws c j h)

-- A wait that ends in time, in which the newest datagram gets through.
abbrev pub good : Wait
good = record { choices = deliver 0 ∷ []; timely = true }

late_recvfrom :
    (size : ℕ) (wait : Wait) (ws : List Wait) (j : Joint)
    → wait.timely ≡ false
    → Held size (wait ∷ ws) j
    → (v : Joint) × (joint_recvfrom j ≡ (failed, v)) × Held size ws v
unfolding joint_recvfrom answer
late_recvfrom size wait ws j e h =
    let planned = record j { waits = ws } in
    (
      acts wait.choices planned,
      rw (h.planned, e) refl,
      acts-Held size ws wait.choices planned (record {
        connected = h.connected;
        buffered = h.buffered;
        sized = h.sized;
        sending = h.sending;
        planned = refl;
      }),
    )

-- The state once the writer has sent.
abbrev sent_state : Message → Joint → Joint
sent_state m d = record d { data_in_flight = m ∷ d.data_in_flight; sends = [] }

good_recvfrom :
    (size : ℕ) (m : Message) (ws : List Wait) (j : Joint)
    → length m ≡ size
    → Held size (good ∷ ws) j
    → is_ack (joint_recvfrom (sent_state m j)).0 ≡ true
unfolding joint_recvfrom answer acts act take_at
good_recvfrom size m ws j e h =
    rw
      (
        h.planned,
        read_once-up m (record j { waits = ws; sends = [] }) h.connected (e ∙ sym h.buffered),
      )
      (is_ack-encode32 reader_addr)

drop_packet-Held :
    (size : ℕ) (ws : List Wait) (j : Joint)
    → Held size ws j
    → let d = drop_packet joint_net (pos 0) j in (d.0 ≡ false) × Held size ws d.1
unfolding drop_packet random_number get_current_time is_dropped
drop_packet-Held size ws j h = (
  le→ltb _ _ (omega arith),
  record {
    connected = h.connected;
    buffered = h.buffered;
    sized = h.sized;
    sending = h.sending;
    planned = h.planned;
  },
)

send_and_await-sent :
    (size : ℕ) (ws : List Wait) (p : Peer) (m : Message) (d : Joint)
    → Held size ws d
    → send_and_await joint_net p m d ≡ await joint_net p (pos 0) (sent_state m d)
unfolding send_and_await joint_sendto
send_and_await-sent size ws p m d h = rw h.sending refl

module _ (size : ℕ) (ws : List Wait) (m : Message) (fits : length m ≡ size) where
  sent_state-Held : (d : Joint) → Held size ws d → Held size ws (sent_state m d)
  sent_state-Held d h = record {
    connected = h.connected;
    buffered = h.buffered;
    sized = (fits, h.sized);
    sending = refl;
    planned = h.planned;
  }

  -- A round that is not dropped: it sends, and waits.
  round-sent :
      (p : Peer) (j : Joint)
      → p.percent_drop ≡ pos 0
      → Held size ws j
      → round joint_net p m (pos 0) j
        ≡ await joint_net p (pos 0) (sent_state m (drop_packet joint_net (pos 0) j).1)
  unfolding round send_and_await await
  round-sent p j e h =
      let d = drop_packet-Held size ws j h in rw (e, d.0) (send_and_await-sent size ws p m _ d.1)

await-late :
    (size : ℕ) (wait : Wait) (ws : List Wait) (p : Peer) (j : Joint)
    → wait.timely ≡ false
    → Held size (wait ∷ ws) j
    → (v : Joint) × (await joint_net p (pos 0) j ≡ (continues (pos 0) false p.addr, v))
      × Held size ws v
unfolding await is_ack
await-late size wait ws p j e h =
    let (v, got, held) = late_recvfrom size wait ws j e h in
    (v, ap (λ r. (continues (pos 0) (is_ack r.0) (sender_of r.0 p.addr), r.1)) got, held)

await-good :
    (size : ℕ) (m : Message) (ws : List Wait) (p : Peer) (j : Joint)
    → length m ≡ size
    → Held size (good ∷ ws) j
    → (a : SockAddr) × (v : Joint) × (await joint_net p (pos 0) (sent_state m j)
        ≡ (continues (pos 0) true a, v))
unfolding await
await-good size m ws p j e h =
    let r = joint_recvfrom (sent_state m j) in
    (
      sender_of r.0 p.addr,
      r.1,
      ap (λ b. (continues (pos 0) b (sender_of r.0 p.addr), r.1)) (good_recvfrom size m ws j e h),
    )

write_loop_arrives :
    (late : List Wait) (rounds : ℕ) (size : ℕ) (m : Message) (rest : List Wait) (p : Peer)
    (j : Joint)
    → length m ≡ size
    → p.percent_drop ≡ pos 0
    → All (λ w. w.timely ≡ false) late
    → length late < rounds
    → Held size (late ++ good ∷ rest) j
    → (a : SockAddr) × (v : Joint) × (write_loop joint_net rounds p m (pos 0) j
        ≡ some (acknowledged (pos 0) a, v))
unfolding write_loop conclude
write_loop_arrives late zero size m rest p j fits e slow enough h = absurd (omega arith)
write_loop_arrives [] (suc rounds) size m rest p j fits e slow enough h =
    let d = drop_packet-Held size (good ∷ rest) j h in
    let (a, v, got) = await-good size m rest p _ fits d.1 in
    (
      a,
      v,
      ap
          (λ r.
            conclude joint_net p
              (λ a' v'. write_loop joint_net rounds (record p { addr = a' }) m v') r.0 r.1)
          (round-sent size (good ∷ rest) m fits p j e h ∙ got),
    )
write_loop_arrives (wait ∷ late) (suc rounds) size m rest p j fits e slow enough h =
    let d = drop_packet-Held size (wait ∷ (late ++ good ∷ rest)) j h in
    let (u, got, held) =
      await-late size wait (late ++ good ∷ rest) p _ slow.0
        (sent_state-Held size (wait ∷ (late ++ good ∷ rest)) m fits _ d.1) in
    let (a, v, again) =
      write_loop_arrives late rounds size m rest p u fits e slow.1 (omega arith) held in
    (
      a,
      v,
      ap
            (λ r.
              conclude joint_net p
                (λ a' v'. write_loop joint_net rounds (record p { addr = a' }) m v') r.0 r.1)
            (round-sent size (wait ∷ (late ++ good ∷ rest)) m fits p j e h ∙ got)
          ∙ again,
    )

server_write_data_connected :
    (rounds : ℕ) (server : ServerSocket) (m : Message) (j : Joint)
    → server.accepted_connection ≡ true
    → server_write_data joint_net rounds server m j
      ≡ after
          (write_loop joint_net rounds (server_peer server) m (pos 0))
          (server_after_loop joint_net server)
          j
unfolding server_write_data server_write_connected set_timeout
server_write_data_connected rounds server m j accepted = simp accepted

long_timeout :
    (server : ServerSocket) (a : SockAddr) (v : Joint)
    → some (server_after_loop joint_net server (acknowledged (pos 0) a) v)
      ≡ some ((pos 0, record server { client_addr = a }), v)
unfolding server_after_loop set_timeout
long_timeout server a v = refl

-- Take a connected server that simulates no loss, with nothing in flight, and a connected client
-- with a buffer of the message's size. When the writer's calls of `sendto` succeed, and of its waits
-- fewer than the rounds end without an answer, whatever the network and the reader do in them, until
-- one in which the newest datagram is read and its acknowledgement comes back in time, then
-- `WriteData` returns 0, and the client has stored the whole message, once or more often, and nothing
-- else.
pub server_write_data-arrives :
    (late rest : List Wait) (rounds : ℕ) (server : ServerSocket) (m : Message) (j : Joint)
    → server.accepted_connection ≡ true
    → server.percent_drop ≡ pos 0
    → Held (length m) (late ++ good ∷ rest) j
    → All (λ w. w.timely ≡ false) late
    → length late < rounds
    → j.data_in_flight ≡ []
    → j.acks_in_flight ≡ []
    → (s' : ServerSocket) × (j' : Joint) × (server_write_data joint_net rounds server m j
        ≡ some ((pos 0, s'), j'))
      × (copies : ℕ) × (0 < copies)
      × (j'.delivered ≡ replicate copies m ++ j.delivered)
server_write_data-arrives late rest rounds server m j accepted reliable held slow enough no_data
      no_acks =
    let (s', j', e) = write_returns (
      write_loop_arrives late rounds (length m) m rest (server_peer server) j refl reliable slow
        enough held) in
    let (copies, some_copy, arrived) =
      server_write_data-delivers rounds server s' m j j' accepted wired no_data no_acks e in
    (s', j', e, copies, some_copy, arrived)
  where
    wired : IsWired (length m) j
    wired = record {
      connected = held.connected;
      buffered = held.buffered;
      sized = held.sized;
      genuine = rw no_acks tt;
    }

    write_returns :
        (a : SockAddr) × (v : Joint) × (write_loop joint_net rounds (server_peer server) m (pos 0) j
            ≡ some (acknowledged (pos 0) a, v))
        → (s' : ServerSocket) × (j' : Joint) × (server_write_data joint_net rounds server m j
            ≡ some ((pos 0, s'), j'))
    write_returns (a, v, e) = (
      record server { client_addr = a },
      v,
      server_write_data_connected rounds server m j accepted
          ∙ after_of_some (write_loop joint_net rounds (server_peer server) m (pos 0))
              (server_after_loop joint_net server) j v (acknowledged (pos 0) a) e
          ∙ long_timeout server a v,
    )
