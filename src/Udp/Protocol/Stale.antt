-- ===== src/Udp/Protocol/Stale.antt =====
-- A late acknowledgement is taken for that of the next message.
use cs739_distributed_system.Base.{◌≡◌, refl, ◌∷◌}
use cs739_distributed_system.Udp.Protocol.{
  Message, System, idle, here, call, transmit, time_out, take_ack, read, lose_data, Run, stay, next,
}

-- From any state between two writes, and for any two messages, the programs can come to a state
-- in which both writes have returned, and the reader has got the first message twice and the
-- second one not at all: it was lost, and the second acknowledgement of the first message ended
-- its write.
pub second_message_lost :
    (s : System) (m1 m2 : Message)
    → s.writer ≡ idle
    → (t : System) × Run s t
      × (t.writer ≡ idle)
      × (t.written ≡ m2 ∷ m1 ∷ s.written)
      × (t.delivered ≡ m1 ∷ m1 ∷ s.delivered)
      × (t.data_in_flight ≡ s.data_in_flight)
second_message_lost s m1 m2 e = (
  _,
  next
      (next
        (next
          (next
            (next
              (next
                (next
                  (next (next (next (next stay (call m1 e)) (transmit m1 refl)) (read m1 _ here))
                    (time_out m1 refl))
                  (transmit m1 refl))
                (read m1 _ here))
              (take_ack m1 _ refl refl))
            (call m2 refl))
          (transmit m2 refl))
        (lose_data m2 _ here))
      (take_ack m2 _ refl refl),
  refl,
  refl,
  refl,
  refl,
)
