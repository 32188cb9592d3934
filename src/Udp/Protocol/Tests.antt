-- ===== src/Udp/Protocol/Tests.antt =====
-- Runs of the two programs.
use cs739_distributed_system.Base.{◌≡◌, refl, ◌⊎◌, [], ◌∷◌}
use cs739_distributed_system.Udp.Protocol.{
  Message, idle, waiting, System, here, transmit, take_ack, read, Run, initial,
}
use cs739_distributed_system.Udp.Protocol.Delivery.{
  During, begun, going, IsQuiet, Delivered, Abandoned, quiet_write_delivers,
}
use cs739_distributed_system.Udp.Protocol.Stale.{second_message_lost}

abbrev hello : Message
hello = 72 ∷ 73 ∷ []

-- `hello` was written and read.
abbrev greeted : System
greeted = record {
  writer = idle;
  data_in_flight = [];
  acks_in_flight = 0;
  written = hello ∷ [];
  delivered = hello ∷ [];
}

-- The same before the acknowledgement is taken.
abbrev greeting : System
greeting = record {
  writer = waiting hello;
  data_in_flight = [];
  acks_in_flight = 1;
  written = [];
  delivered = hello ∷ [];
}

greeting-During : During hello initial greeting
greeting-During =
    going (going (begun refl) (transmit hello refl) (λ e. cc)) (read hello _ here) (λ e. cc)

initial-IsQuiet : IsQuiet initial
initial-IsQuiet = record { no_data = refl; no_acks = refl }

quiet_write_delivers_example : Delivered hello initial greeted ⊎ Abandoned hello initial greeted
quiet_write_delivers_example =
    quiet_write_delivers initial-IsQuiet greeting-During (take_ack hello _ refl refl) refl

second_message_lost_example :
    (t : System) × Run initial t
    × (t.writer ≡ idle)
    × (t.written ≡ (2 ∷ []) ∷ hello ∷ [])
    × (t.delivered ≡ hello ∷ hello ∷ [])
    × (t.data_in_flight ≡ [])
second_message_lost_example = second_message_lost initial hello (2 ∷ []) refl
