-- ===== src/Lib.antt =====
-- A model of the programs of HW1: what they do with sockets, clocks and buffers.
--
-- The programs and their files:
--   HW1/part2/Socket.h has the classes ServerSocket and ClientSocket, which send datagrams and wait
--     for an acknowledgement, with a simulated loss. Udp and its children model them. Udp/Net holds
--     the calls of the system as a record over a world W, which is a parameter; Udp/Drop the
--     simulated loss (RandomNumber, DropPacket); Udp/Retry the loop of the two WriteData methods;
--     Udp/Server and Udp/Client the methods, each under its name in small letters with the prefix
--     server_ or client_ (connect and hostname_to_ip exist once). Udp/Traced logs the calls of any
--     system; what the methods do with the calls is in Udp/WriteTrace, Udp/Read, Udp/Accept,
--     Udp/Handshake and Udp/Unsent. Udp/Protocol is a writing server and a reading client as a step
--     relation, at the grain of one system call; Udp/Joint runs the two methods themselves at the ends
--     of one network, whose losses, delays and orders are a list of choices, and relates them to it;
--     Udp/Joint/Arrives says when the message gets through.
--     Udp/Keeps and Udp/Opening say what the methods of the server leave alone. Udp/Stuck takes the
--     loop of WriteData apart into two steps and runs two of them against each other.
--   HW1/part2/SocketServer.cpp and HW1/part2/SocketClient.cpp measure with these classes: Driver,
--     with the shared loop headers in Driver/Plan and the programs in Driver/Server and
--     Driver/Client; Driver/Ends, Driver/ServerEnds and Driver/ClientEnds are about their
--     end. Driver/Session is about both over a network that loses nothing: its ends as systems,
--     what the server sends (Session/Accepts, Session/Writes, Session/Sends), what the client reads
--     (Session/Connects, Session/Receives, Session/Copies, Session/Measures), and both together
--     (Session/Whole for the contents of the buffers, Session/Meet for the two programs).
--     Driver/Budget counts acknowledgements on any systems: the ones that the server takes
--     (Budget/Writes, Budget/Server) and the ones that the client sends (Budget/Client).
--   HW1/part1/Generic.h and HW1/part2/Generic.h have write_full and read_full, modelled in Transfer,
--     and get_packet_size, modelled in PacketSize; Socket.h has the latter too.
--     Transfer/Flow and Transfer/Duplex are about connections on which no call fails. The headers
--     also have set_cpu_core, which is in Tcp/Net, and get_cpu_core: Cpu.
--   HW1/part1/client_server/SocketServer.c and SocketClient.c beside it measure the latency of TCP
--     with them: Tcp, with the system in Tcp/Net and the programs in Tcp/Server and Tcp/Client.
--     HW1/part2/server.c and HW1/part2/client.c are copies; the server has another buffer. Tcp/Session,
--     Tcp/ServerSession, Tcp/ClientSession and Tcp/Meeting are about the two programs on connections
--     that work, Tcp/NoFault and Tcp/Faults about the buffer.
--   HW1/part1/part1.cpp measures caches, memory, a mutex, Snappy and a file: Bench, with the
--     machine and the shape of a measuring loop in Bench/Loop, the cache measurements in Bench/Cache
--     and the others in Bench/Timed.
--   HW1/timers/timer_precision.cpp measures the clocks: Timers. HW1/part2/random.cpp counts the
--     simulated losses: Driver/Random. HW1/part1/utils has a test of Snappy and a program that makes
--     a file: Utils.
--   Clock and Stats hold what these programs share: clock readings as uint64, and the running
--     minimum, maximum and sum.
--
-- Conventions: a call or a method is a function of the world that returns its result and the next
-- world (State); code with a loop that may not end returns none when its rounds are used up
-- (Partial). Wrap-around of machine integers is written out. What the source leaves uninitialised is
-- an argument. Messages on the standard error are kept as calls without line numbers and values;
-- what is printed on the standard output is returned, a quotient of floating-point numbers by its
-- parts.
--
-- Bounds: the rounds of WriteData are an argument of everything that calls it; Udp/Liveness shows
-- how many suffice on a network that answers. The calls of write_full and read_full are an argument
-- too; Transfer/Progress shows that one more than the bytes is enough. Timers/Moving shows how many
-- tests the waiting loops of the timers need on clocks that move. The fuel of the loops over
-- memory and caches is the bound of the loop, and Bench/Counts and Bench/CacheSafe show that it is
-- enough.
--
-- Not modelled: snappy, a copy of another project, whose calls are parameters; shrdmem_perror
-- and faster_memcpy of the headers, which no program uses. clock_name of part1.cpp and of
-- part1/Generic.h, which no program calls, has the text of the one in timer_precision.cpp
-- (Timers), and get_current_time of part1.cpp, which it does not call, computes what the macro
-- of Socket.h does (Udp/Drop).
pub mod Base
pub mod Clock
pub mod Cpu
pub mod Utils
pub mod Stats
pub mod Udp
pub mod Transfer
pub mod PacketSize
pub mod Driver
pub mod Bench
pub mod Timers
pub mod Tcp
