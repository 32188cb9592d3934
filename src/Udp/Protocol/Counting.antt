-- ===== src/Udp/Protocol/Counting.antt =====
-- Acknowledgements are counted: no write ends without a delivery of its own.
use cs739_distributed_system.Base.{◌+◌, ◌≤◌, length}
use cs739_distributed_system.Udp.Protocol.{System}

abbrev IsCounted : System → Type 0
IsCounted s = length s.written + s.acks_in_flight ≤ length s.delivered
