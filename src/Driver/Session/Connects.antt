-- ===== src/Driver/Session/Connects.antt =====
-- `Connect` of HW1/part2/Socket.h when the server accepts: the handshake goes out until a random
-- number lets it, and nothing comes back before.
use cs739_distributed_system.Base.{
  ℕ, zero, suc, ◌+◌, ◌≤◌, ◌<◌, ◌≡◌, refl, ap, inl, inr, true, false, List, [], ◌∷◌, ◌++◌, arith,
  Bool-cases, length, ℤ, pos, Yields, Yields-after,
}
use cs739_distributed_system.Udp.Net.{
  is_ack, af_inet, inaddr_any, encode32, ack_word, handshake_word,
}
use cs739_distributed_system.Udp.Drop.{drop_packet, random_number, get_current_time}
use cs739_distributed_system.Udp.Retry.{
  Peer, Finish, acknowledged, continues, await, send_and_await, round, conclude, write_loop,
}
use cs739_distributed_system.Udp.Server.{set_timeout}
use cs739_distributed_system.Udp.Client.{
  ClientSocket, client_peer, client_after_loop, client_write_connected, client_write_data,
  after_handshake, send_handshake, name_server, bind_client, connect,
}
use cs739_distributed_system.Udp.Protocol.{Message}
use cs739_distributed_system.Udp.Joint.{tail, writer_addr}
use cs739_distributed_system.Driver.Session.{length, ℕ, List, Inlet, inlet_net}
use cs739_distributed_system.Driver.Session.Writes.{dropped-shorter}

-- How many random numbers and times are still given.
abbrev pub awaited : Inlet → ℕ
awaited v = length v.numbers + length v.readings

-- The client has sent this one message, and has read its acknowledgement alone.
pub record Greeted (v : Inlet) (m : Message) (rest : List Message) : Type 0 where
  pub spoken : v.sent ≡ m ∷ []
  pub heard_it : v.handed ≡ encode32 ack_word ∷ []
  pub coming : v.incoming ≡ rest

-- The client has not spoken, and the acknowledgement is the first that is going to come.
pub record Silent (v : Inlet) (rest : List Message) : Type 0 where
  pub unsaid : v.sent ≡ []
  pub unheard : v.handed ≡ []
  pub reply : v.incoming ≡ encode32 ack_word ∷ rest

abbrev thrown : Inlet → Inlet
thrown v = record v { numbers = tail v.numbers; readings = tail v.readings }

abbrev replied : Message → List Message → Inlet → Inlet
replied m rest v = record v {
  incoming = rest;
  handed = v.handed ++ encode32 ack_word ∷ [];
  sent = v.sent ++ m ∷ [];
}

abbrev Spoke : Message → List Message → Finish → Inlet → Type 0
Spoke m rest f v = (f ≡ acknowledged (pos 0) writer_addr) × Greeted v m rest

module _ (percent : ℕ) (few : percent ≤ 99) where
  drop_packet-thrown :
      (v : Inlet)
      → (drop_packet inlet_net (pos percent) v).0 ≡ true
      → awaited (thrown v) < awaited v
  unfolding drop_packet random_number get_current_time
  drop_packet-thrown v e = dropped-shorter percent v.numbers v.readings few e

  round-thrown :
      (p : Peer) (m : Message) (rest : List Message) (v : Inlet)
      → p.percent_drop ≡ pos percent
      → Silent v rest
      → (drop_packet inlet_net (pos percent) v).0 ≡ true
      → round inlet_net p m (pos 0) v ≡ (continues (pos 0) false p.addr, thrown v)
  unfolding round await drop_packet random_number get_current_time is_ack
  round-thrown p m rest v e quiet dropped = simp (e, dropped, quiet.unsaid, quiet.reply)

  round-replied :
      (p : Peer) (m : Message) (rest : List Message) (v : Inlet)
      → p.percent_drop ≡ pos percent
      → Silent v rest
      → (drop_packet inlet_net (pos percent) v).0 ≡ false
      → round inlet_net p m (pos 0) v
        ≡ (continues (pos 0) true writer_addr, replied m rest (thrown v))
  unfolding round await send_and_await drop_packet random_number get_current_time is_ack encode32
  round-replied p m rest v e quiet kept = simp (e, kept, quiet.unsaid, quiet.reply)

  write_loop-Spoke :
      (rounds : ℕ) (p : Peer) (m : Message) (rest : List Message) (v : Inlet)
      → p.percent_drop ≡ pos percent
      → Silent v rest
      → awaited v < rounds
      → Yields (Spoke m rest) (write_loop inlet_net rounds p m (pos 0) v)
  unfolding write_loop conclude
  write_loop-Spoke zero p m rest v e quiet enough = absurd (omega arith)
  write_loop-Spoke (suc rounds) p m rest v e quiet enough =
      elim (Bool-cases (drop_packet inlet_net (pos percent) v).0) [
        | inl dropped ↦ rw (round-thrown p m rest v e quiet dropped) (
            write_loop-Spoke rounds p m rest (thrown v) e
              (record { unsaid = quiet.unsaid; unheard = quiet.unheard; reply = quiet.reply })
              (omega (arith, drop_packet-thrown v dropped)))
        | inr kept ↦ rw (round-replied p m rest v e quiet kept) (
          refl,
          record {
            spoken = ap (λ l. l ++ m ∷ []) quiet.unsaid;
            heard_it = ap (λ l. l ++ encode32 ack_word ∷ []) quiet.unheard;
            coming = refl;
          },
        )
      ]

  -- `Connect` returned 0, and the client is connected.
  abbrev pub Connected : List Message → ℤ × ClientSocket → Inlet → Type 0
  Connected rest r v =
      (r.0 ≡ pos 0) × (r.1.accepted_connection ≡ true) × Greeted v (encode32 handshake_word) rest

  abbrev Answered : ClientSocket → Message → List Message → ℤ × ClientSocket → Inlet → Type 0
  Answered s m rest r v = (r ≡ (pos 0, record s { server_addr = writer_addr })) × Greeted v m rest

  client_write_connected-Answered :
      (rounds : ℕ) (s : ClientSocket) (m : Message) (rest : List Message) (v : Inlet)
      → s.percent_drop ≡ pos percent
      → Silent v rest
      → awaited v < rounds
      → Yields (Answered s m rest) (client_write_connected inlet_net rounds s m v)
  unfolding client_write_connected client_after_loop set_timeout
  client_write_connected-Answered rounds s m rest v e quiet enough =
      Yields-after (Answered s m rest) (write_loop inlet_net rounds (client_peer s) m (pos 0))
        (client_after_loop inlet_net s) v
        (write_loop-Spoke rounds (client_peer s) m rest v e quiet enough)
        (λ f u d. rw d.0 (refl, d.1))

  send_handshake-Connected :
      (rounds ip : ℕ) (s : ClientSocket) (rest : List Message) (v : Inlet)
      → s.percent_drop ≡ pos percent
      → Silent v rest
      → awaited v < rounds
      → Yields (Connected rest) (send_handshake inlet_net rounds s ip v)
  unfolding send_handshake client_write_data after_handshake
  send_handshake-Connected rounds ip s rest v e quiet enough =
      let s' = record s {
        server_addr = record s.server_addr { sin_addr = ip };
        accepted_connection = true;
      } in
      Yields-after (Connected rest)
        (client_write_data inlet_net rounds s' (encode32 handshake_word))
        (after_handshake inlet_net) v
        (client_write_connected-Answered rounds s' (encode32 handshake_word) rest v e quiet enough)
        (λ r u d. rw d.0 (refl, refl, d.1))

  -- `Connect` returns 0.
  pub connect-Connected :
      (rounds : ℕ) (s : ClientSocket) (rest : List Message) (v : Inlet)
      → s.percent_drop ≡ pos percent
      → Silent v rest
      → awaited v < rounds
      → Yields (Connected rest) (connect inlet_net rounds s v)
  unfolding connect bind_client name_server
  connect-Connected rounds s rest v e quiet enough =
      send_handshake-Connected rounds 1
        (record s {
          sock_fd = pos 3;
          client_addr = record { sin_family = af_inet; sin_port = 0; sin_addr = inaddr_any };
          server_addr = record { sin_family = af_inet; sin_port = s.server_port; sin_addr = 0 };
        })
        rest v e quiet enough
