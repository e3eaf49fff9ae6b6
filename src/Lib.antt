-- ===== src/Lib.antt =====
-- jm_bus: a publish/subscribe message bus over TCP. Clients send framed messages; the server
-- keeps, per topic, the sockets that subscribed to it, and sends each published message on.
--
-- The parts. The main thread polls the sockets of a client list. What a socket sends is read whole,
-- cut into messages and handed as an event to a job of the thread pool. The job's thread subscribes
-- the client (its own list of topics and the topic map), publishes (one send per subscribed
-- socket), or removes the client.
--
-- The files, each with its children below it:
--   Common       shared names, lists, commands (Common/Commands) and what they end in
--                (Common/Outcomes)
--   Cstd         the array template of the library cstd, as an interface with its laws
--   Bytes        common/helpers/bytes.c
--   Strings      common/helpers/strings.c, strncmp and memchr
--   Arrays       common/helpers/array.c
--   Messages     common/handlers/messages.c and common/types/message.h
--   Network      the calls that set up a socket, and the addresses of common/helpers/socket.c
--   Sockets      the calls that use a socket, and the rest of common/helpers/socket.c
--   HashMap      common/structures/hash_map.c
--   ThreadPool   common/structures/thread_pool.c and .h; ThreadPool/HandShake: its calls on a job's
--                mutex and condition, with those of process_messages
--   Clients      common/handlers/client_list.c and common/types/client.h
--   ServerInfo   common/handlers/server.c and common/types/server.h
--   Server       common/handlers/server_states.c and common/types/state.h; Server/Agreement: the tie
--                between the clients' own topics and the topic map
--   Connections  common/handlers/connections.c; Connections/Polling: process_poll_events
--   Client       common/handlers/client.c
--   Programs     server/main.c, client/pub/main.c and client/sub/main.c
--   System       the running server: main thread and pool as a step relation over the functions above.
--                A property that the functions of Connections keep (Connections/Laws) and the other
--                turns keep (System/Keeping) holds in every state that is reached
--   Traffic      what is sent through the functions above, on the record: from client_publish to the
--                subscribers, and from the running server to its clients
--   Time         common/helpers/time.c
--   Tests        the theorems at concrete inputs
-- A definition has the name of the C function it stands for; a loop, a branch or the code behind a
-- search is a helper in front of it.
--
-- Conventions. `W` is the world: what the operating system, the allocator and the threads library
-- decide. They are parameters (`ArrayLib`, `Sockets`, `Network`, `Threads`, `Clock`) with their
-- documented behaviour as laws. `Log` is what was sent, bytes by socket in their order: `Logged`
-- platforms take and record every send, and a `Silent` allocator records nothing. `gone` stands
-- for what is read of an array of messages that could not be made or was freed already. A command
-- `Cmd W A` returns a value and a new world, or ends in a fault (undefined behaviour), in `exit`,
-- or out of fuel. `ArrayLib` allows every allocation to fail; `Plenty` says that none does.
-- `X_array_get` within the bounds reads the items. An array's `offset` says how far its pointer
-- stands behind the start of its allocation. `size_t` is taken at 64 bits and `int` at 32; counts
-- of items that memory bounds (lengths of lists, loop indices) are natural numbers without a
-- wrap-around. A string is its bytes without the terminator. Blocks of single strings and entries
-- are freed without a trace, and log output is left out.
--
-- Bounds and fuel. `recv_rounds` is 2^19: each further round has read a full buffer of 8192 bytes
-- (BUFSIZ of glibc), and the loop ends at 2^32. The parse loop has a round for each byte and one more,
-- and takes a byte at least in each. `read_byte_array` has a round for each cell and one more, and an
-- array that is not full keeps its capacity. The loop of `process_poll_events` has two rounds for each
-- descriptor and a last test: a round can add one descriptor, which has no event yet.
--
-- Interleavings. In System a turn is a visited descriptor, a removed client, a handled message or the
-- end of a job, and no other turn overlaps it. The code holds no lock over a whole handled message or
-- a whole removal, so runs in which these overlap are not covered: there a thread can work on a
-- client's metadata, or on the array of a topic's subscribers, while another removes the client.
-- ThreadPool/HandShake looks at one job, divides the calls on it, and has no spurious wake-ups. Each
-- turn of its main thread takes the value that the compare-and-swap expects, which the scan carries
-- over from the jobs before; for the first job of a pool it is always false (`First`).
--
-- Calls that block. A call of the system is a function of the world and so returns. `recv` need not: a
-- blocking socket from which no more comes keeps it waiting, also behind a read of exactly BUFSIZ
-- bytes. What is said of the end of a loop counts the calls of `recv`. The wait of
-- `thread_pool_start_job` for its new thread is `start_up`, which may end out of fuel.
--
-- Not modelled: pointers into an array that a later insertion moves; the branches behind
-- `pthread_mutex_init(...) < 0` (the call returns 0 or a positive error number); logging and
-- printing. The main loop of the server, which nothing ends, takes a number of rounds.
pub mod Common
pub mod Cstd
pub mod Bytes
pub mod Arrays
pub mod HashMap
pub mod Strings
pub mod Messages
pub mod Sockets
pub mod Traffic
pub mod Time
pub mod Network
pub mod ServerInfo
pub mod Client
pub mod Clients
pub mod Server
pub mod Programs
pub mod Connections
pub mod ThreadPool
pub mod System
mod Tests
