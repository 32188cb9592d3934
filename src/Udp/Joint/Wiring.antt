-- ===== src/Udp/Joint/Wiring.antt =====
-- What holds of the two programs' common state at any time, and what one choice of the network or
-- of the reader does to it.
use cs739_distributed_system.Base.{
  ℕ, zero, suc, ◌≡◌, subst, inl, inr, true, false, some, List, [], ◌∷◌, arith, Option-cases, length,
  All, some-injective,
}
use cs739_distributed_system.Udp.Net.{encode32, ack_word}
use cs739_distributed_system.Udp.Bytes.{overlay-full}
use cs739_distributed_system.Udp.Client.{
  ClientSocket, client_read_data, client_read_connected, client_store, client_acknowledge,
}
use cs739_distributed_system.Udp.Protocol.{Message, Writer, System, Picks, here, there}
use cs739_distributed_system.Udp.Joint.{Joint, take_at, read_once, writer_addr}

-- All messages have the size of the reader's buffer, and an acknowledgement in flight is one.
pub record IsWired (size : ℕ) (j : Joint) : Type 0 where
  pub connected : j.reader.accepted_connection ≡ true
  pub buffered : length j.buffer ≡ size
  pub sized : All (λ m. length m ≡ size) j.data_in_flight
  pub genuine : All (λ a. a ≡ encode32 ack_word) j.acks_in_flight

-- The state of the protocol that the state of the programs stands for.
abbrev pub view : Writer → List Message → Joint → System
view w written j = record {
  writer = w;
  data_in_flight = j.data_in_flight;
  acks_in_flight = length j.acks_in_flight;
  written = written;
  delivered = j.delivered;
}

pub take_at-Picks :
    (k : ℕ) (xs : List Message) (m : Message) (rest : List Message)
    → take_at k xs ≡ some (m, rest)
    → Picks m xs rest
unfolding take_at
take_at-Picks k [] m rest h = cc
take_at-Picks zero (x ∷ xs) m rest h =
    let e : (x, xs) ≡ (m, rest) = some-injective _ _ h in subst (λ p. Picks p.0 (x ∷ xs) p.1) e here
take_at-Picks (suc k) (x ∷ xs) m rest h = elim (Option-cases (take_at k xs)) [
  | inl e ↦ absurd (ground (arith, e))
  | inr ((y, ys), e) ↦
      let same : (y, x ∷ ys) ≡ (m, rest) = some-injective _ _ (rw (e, take_at) at h) in
      subst (λ p. Picks p.0 (x ∷ xs) p.1) same (there (take_at-Picks k xs y ys e))
]

-- The reader's object after a datagram of the writer.
abbrev heard : Joint → ClientSocket
heard j = record j.reader { server_addr = writer_addr }

-- `ReadData` stores the whole message and acknowledges it.
pub read_once-up :
    (m : Message) (j : Joint)
    → j.reader.accepted_connection ≡ true
    → length m ≡ length j.buffer
    → read_once true m j ≡ record j {
      reader = heard j;
      buffer = m;
      delivered = m ∷ j.delivered;
      acks_in_flight = encode32 ack_word ∷ j.acks_in_flight;
    }
unfolding read_once client_read_data client_read_connected client_store client_acknowledge
read_once-up m j c h = simp (c, overlay-full m j.buffer h)

pub read_once-down :
    (m : Message) (j : Joint)
    → j.reader.accepted_connection ≡ true
    → length m ≡ length j.buffer
    → read_once false m j ≡ record j { reader = heard j; buffer = m; delivered = m ∷ j.delivered }
unfolding read_once client_read_data client_read_connected client_store client_acknowledge
read_once-down m j c h = simp (c, overlay-full m j.buffer h)
