-- ===== src/Lib.antt =====
-- chiTCP: the daemon that runs TCP sockets for its clients, and the library below it
--
-- An application asks the daemon chitcpd for sockets through requests that the handlers of
-- src/chitcpd/handlers.c answer. The sockets stand in a table (src/chitcpd/serverinfo.c) that the
-- handlers share with the threads: one thread for each active socket runs TCP (src/chitcpd/tcp_thread.c,
-- src/chitcpd/tcp.c), a network thread receives segments from other daemons, and a delivery thread hands
-- on the segments that a simulated latency holds back (src/chitcpd/connection.c). Between an application
-- and its TCP thread stand two circular buffers (src/libchitcp/buffer.c). Every critical section is one
-- step of the model, and a wait on a condition variable ends a function: what the thread does when it
-- wakes up is a function of its own. Interleavings are sequences of such steps.
--
-- Files and the code they model (paths from the root of the repository):
--   Base            numbers, lists and words that the rest shares
--   Types           include/chitcp/types.h: return codes, TCP states, socket types
--   Buffer          src/libchitcp/buffer.c and include/chitcp/buffer.h. `write_loop` is the loop of
--                   circular_buffer_write from a wake-up to the next wait, `read_resume` that of
--                   __circular_buffer_read. Children: Valid (the invariant and the bytes held), Put,
--                   Write, Writes (writes), Read, Reads (reads and peeks), Blocking (a blocked write
--                   against reads and a close of other threads), Tests
--   Addr            src/libchitcp/addr.c: comparisons and setters of socket addresses. An address is its
--                   family, its IP address as one number and its port, in network byte order on a
--                   little-endian host. Laws: what they decide
--   Server          src/chitcpd/serverinfo.h, src/chitcpd/tcp.h: the records of the daemon. A pointer to
--                   a table entry is its index
--   Segments        src/libchitcp/segment.c, include/chitcp/segment.h and chitcpd_tcp_segment_create of
--                   src/chitcpd/serverinfo.c: a segment is its bytes, its header's fields stand in it
--                   in network byte order. Children: Laws, Tests
--   Sockets         src/chitcpd/serverinfo.c: chitcpd_allocate_socket, chitcpd_acquire_socket,
--                   chitcpd_release_socket, chitcpd_lookup_socket, chitcpd_find_ephemeral_port, and
--                   chitcpd_free_socket_entry as four steps (free_begin, free_wait, free_port,
--                   free_clear). Children: Lookup (the best match), Slots (free slots and ports), Refs (references under any
--                   interleaving), Tests
--   Delivery        src/chitcpd/connection.c: chitcpd_recv_tcp_segment (recv_tcp_segment), withheld
--                   segments, the delivery queue and the inner loop of its thread (deliver_due). The
--                   answer of the debug monitor and the clock are arguments. Children: Tally, Recv (what
--                   becomes of each segment), Order (due times and order), Running (the daemon's state), Tests
--   Packets         src/chitcpd/connection.c: chitcpd_send_tcp_segment, and the thread that reads the
--                   packets of a connection (chitcpd_connection_thread_func), a round of its loop at a
--                   time. Children: Sending, Receiving (what a round does with a packet), Arrival (what
--                   one daemon sends the other delivers), Tests
--   Messages        src/chitcpd-protobuf/protobuf-wrapper.c: messages that follow their length on a
--                   socket of the host. Children: RoundTrip, Tests
--   Utils           src/libchitcp/utils.c: cksum, chitcp_socket_send and chitcp_socket_recv. Children:
--                   Checksum, Loops, Tests
--   Breakpoint      src/chitcpd/breakpoint.c: debug monitors as steps of threads under a lock, with
--                   their references and waiters. Children: Life (the steps of one monitor), Shrink,
--                   Keep, Fresh (what a step leaves alone), Answers, Safety (no monitor is used after
--                   its end), Tests
--   Lifecycle       src/chitcpd/server.c: the tables at the start, the states from chitcpd_server_init to
--                   chitcpd_server_free, connections from other daemons (arrive) and the first message of
--                   a client (greet). Children: Laws, Network (how the threads start, and the network
--                   thread's loop), Clients (the server thread's loop), Tests
--   Pcap            src/chitcpd/connection.c: the log of segments (chitcpd_pcap_packet), with the file's
--                   header of src/chitcpd/server.c. Children: Laws, Tests
--   Client          src/libchitcp/socket_api.c and src/libchitcp/daemon_api.c: the connection of each
--                   thread of a client (get_socket), a request and its answer (call, conclude), and the
--                   functions chisocket_*. Children: Laws, Daemon (the client against the daemon's
--                   handlers), Exchange (a request over the bytes of the connection), Tests
--   Debugger        src/libchitcp/debug_api.c: the requests here; Events, `debug_thread`, a turn for each
--                   event; Handshake, the threads of active sockets under their lock, as steps; Requests,
--                   against the daemon's handlers; Tests
--   Tester          src/libchitcp/tester_peer.c: a peer of the tester, a turn for each of its events.
--                   Children: Closing, Mailbox (how the events reach it, as steps), Tests
--   Connections     src/chitcpd/connection.c: chitcpd_get_connection, chitcpd_add_connection and the
--                   search for an entry, less the real sockets; Laws, Tests
--   Handlers        src/chitcpd/handlers.c: SOCKET here, BIND and LISTEN in Bind, ACCEPT in Accept,
--                   CONNECT in Connect, CLOSE in Close, SEND and RECV in Transfer, GET_SOCKET_STATE,
--                   WAIT_FOR_STATE and GET_SOCKET_BUFFER_CONTENTS in Wait, the dispatch and the end of a
--                   client in Leave, each with its Laws; Entries (one entry written); Openings, Tests
--   Signals         src/chitcpd/serverinfo.c: chitcpd_update_tcp_state, chitcpd_timeout; Laws, Tests
--   TcpThread       src/chitcpd/tcp_thread.c: the event loop (take_event, Step), and of src/chitcpd/tcp.c
--                   the dispatch and the queue of segments. Children: Wakeup, Events, Tests
--
-- Machine integers: the fields of a buffer and the sequence numbers are `uint32_t` and wrap around (add32,
-- sub32); the capacities and lengths in the theorems are below 2 ^ 31, as the `int` results need. Where a
-- `size_t` may not fit the `int` that keeps it, the model narrows it: the counts and lengths of messages
-- (reads_zero, reads_error, outgoing), of a packet (left_of) and of RECV (int32). Table indices, reference
-- counts and times are natural numbers. The latency, a `double` of seconds in C, is a number of
-- nanoseconds; a latency below one nanosecond counts as none.
--
-- Fuel and loops: `write_loop` of the buffer has fuel, and `write` gives it three rounds. The first round
-- fills the buffer or finishes, and the last two tests need one more each; that three are enough is part of
-- the theorems on writes, which never end out of fuel. The loops that send a packet or a buffer take as
-- many rounds as there are bytes, since each round sends one at least, and the loop that receives a buffer
-- as many as it has bytes; their theorems show that this is enough. The fold of the checksum goes on as
-- long as the sum has more than sixteen bits, by recursion on Acc.
--
-- The host: send and recv are arguments, functions on a state of the world. What the theorems need of them
-- is a hypothesis: that a send takes all it is given or some of it, that a receive brings the bytes sent.
-- Packing and unpacking messages, the answer of a debugging client, clocks and whether a thread can be
-- created are arguments too.
--
-- Not modelled: the protocol in src/chitcpd/tcp.c and the timers in src/libchitcp/multitimer.c are
-- placeholders that students of the course fill in. The waits of src/libchitcp/tester.c for a state of a
-- peer are left out. Logs, printing, real sockets, the options and signals of src/chitcpd/main.c and the
-- release of memory only do input and output. `assert`s are left out, but for those on an answer of the
-- daemon to a client. What the calls of the host do to `errno` is left out. include/chitcp/utlist.h is
-- another project's.
pub mod Base
pub mod Types
pub mod Buffer
pub mod Addr
pub mod Server
pub mod Segments
pub mod Sockets
pub mod Delivery
pub mod Packets
pub mod Messages
pub mod Utils
pub mod Handlers
pub mod TcpThread
pub mod Signals
pub mod Connections
pub mod Breakpoint
pub mod Lifecycle
pub mod Pcap
pub mod Client
pub mod Debugger
pub mod Tester
