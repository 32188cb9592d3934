-- ===== src/Tcp.antt =====
-- HW1/part1/client_server/SocketServer.c and HW1/part1/client_server/SocketClient.c, and their
-- copies HW1/part2/server.c and HW1/part2/client.c: a server that measures how long it takes to
-- write a packet, and a client that echoes.
pub mod Net
pub mod Server
pub mod Client
pub mod Faults
pub mod Echo
pub mod EchoLoop
pub mod Session
pub mod ServerSession
pub mod ClientSession
pub mod NoFault
pub mod Meeting
mod Tests
