-- ===== src/Udp/Joint/Delivers.antt =====
-- `WriteData` and `ReadData` together.
use cs739_distributed_system.Base.{
  ℕ, ◌<◌, ◌≡◌, refl, ap, subst, inl, inr, true, some, List, [], ◌++◌, arith, length, replicate, pos,
  after-eq-some,
}
use cs739_distributed_system.Udp.Server.{
  ServerSocket, server_peer, set_timeout, server_after_loop, server_write_connected,
  server_write_data,
}
use cs739_distributed_system.Udp.Retry.{Finish, send_failed, acknowledged, write_loop}
use cs739_distributed_system.Udp.Protocol.{Message, idle, System}
use cs739_distributed_system.Udp.Protocol.Delivery.{begun, quiet_write_delivers}
use cs739_distributed_system.Udp.Joint.{Joint, joint_net}
use cs739_distributed_system.Udp.Joint.Wiring.{IsWired, view}
use cs739_distributed_system.Udp.Joint.Rounds.{Ended, Finished, write_loop-Finished}

module _ (m : Message) (s : System) (written : List Message) where
  after_loop-Ended :
      (server : ServerSocket) (f : Finish) (j : Joint) (s' : ServerSocket) (j' : Joint)
      → Finished m s written f j
      → server_after_loop joint_net server f j ≡ ((pos 0, s'), j')
      → Ended m s written j'
  unfolding server_after_loop set_timeout
  after_loop-Ended server (send_failed v a) j s' j' fin h =
      absurd (ground (arith, fin, ap (λ r. r.0.0) h))
  after_loop-Ended server (acknowledged v a) j s' j' fin h =
      subst (λ r. Ended m s written r) (ap (λ r. r.1) h) fin.1

module _ (m : Message) (written : List Message) where
  server_write_connected-Ended :
      (rounds : ℕ) (server s' : ServerSocket) (j j' : Joint)
      → IsWired (length m) j
      → server_write_connected joint_net rounds server m j ≡ some ((pos 0, s'), j')
      → Ended m (view idle written j) written j'
  unfolding server_write_connected set_timeout
  server_write_connected-Ended rounds server s' j j' wired h =
      let (f, v, loop, rest) =
        after-eq-some (write_loop joint_net rounds (server_peer server) m (pos 0))
          (server_after_loop joint_net server) j (pos 0, s') j' h in
      after_loop-Ended m (view idle written j) written server f v s' j'
        (write_loop-Finished m (view idle written j) written rounds (server_peer server) j v f
          (record { during = begun refl; wired = wired }) loop)
        rest

  -- A `WriteData` that returns 0 ends with a step of the protocol.
  pub server_write_data-Ended :
      (rounds : ℕ) (server s' : ServerSocket) (j j' : Joint)
      → server.accepted_connection ≡ true
      → IsWired (length m) j
      → server_write_data joint_net rounds server m j ≡ some ((pos 0, s'), j')
      → Ended m (view idle written j) written j'
  unfolding server_write_data
  server_write_data-Ended rounds server s' j j' accepted wired h =
      server_write_connected-Ended rounds server s' j j' wired (ground arith)

-- Take a server and a client that are connected, where the client's buffer has the size of the
-- message. If nothing is in flight when the server calls `WriteData`, and the call returns 0, then
-- the client's calls of `ReadData` have stored the whole message, once or more often, and nothing
-- else, whatever was lost, delayed or reordered in between and whichever of the sends failed or were
-- dropped.
pub server_write_data-delivers :
    (rounds : ℕ) (server s' : ServerSocket) (m : Message) (j j' : Joint)
    → server.accepted_connection ≡ true
    → IsWired (length m) j
    → j.data_in_flight ≡ []
    → j.acks_in_flight ≡ []
    → server_write_data joint_net rounds server m j ≡ some ((pos 0, s'), j')
    → (copies : ℕ) × (0 < copies) × (j'.delivered ≡ replicate copies m ++ j.delivered)
server_write_data-delivers rounds server s' m j j' accepted wired no_data no_acks h =
    let e = server_write_data-Ended m [] rounds server s' j j' accepted wired h in
    elim (quiet_write_delivers (record { no_data = no_data; no_acks = ap length no_acks }) e.during
      e.ends refl) [
        | inl d ↦ (d.copies, d.some_copy, d.arrived)
        | inr d ↦ absurd (ground (arith, d.unwritten))
      ]
