-- ===== src/Driver.antt =====
-- HW1/part2/SocketServer.cpp and HW1/part2/SocketClient.cpp: the two programs that measure the
-- round trip, the bandwidth, and the round trip under loss over a pair of sockets.
pub mod Plan
pub mod Server
pub mod Client
pub mod Agreement
pub mod Ends
pub mod ServerEnds
pub mod ClientEnds
pub mod Session
pub mod Budget
pub mod Random
mod Tests
