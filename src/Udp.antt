-- ===== src/Udp.antt =====
-- HW1/part2/Socket.h: datagram sockets with acknowledgements and simulated loss.
pub mod Net
pub mod Drop
pub mod Traced
pub mod Retry
pub mod RetryTrace
pub mod Server
pub mod Client
pub mod WriteTrace
pub mod Bytes
pub mod Liveness
pub mod Percent
pub mod Read
pub mod Accept
pub mod Handshake
pub mod Unsent
pub mod Keeps
pub mod Opening
pub mod Protocol
pub mod Joint
pub mod Stuck
pub mod Script
mod Tests
