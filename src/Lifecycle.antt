-- ===== src/Lifecycle.antt =====
-- chitcpd/server.c: the daemon from its start to its end, the connections that other daemons open to it,
-- and the first messages of its clients. What the host answers is an argument.
pub mod Laws
pub mod Network
pub mod Clients
mod Tests
use chitcp.Base.{
  ℕ, zero, suc, Bool, true, false, Option, none, some, if◌then◌else◌, replicate, ◌==◌, ℤ, [],
}
use chitcp.Types.{Retcode, ok, esocket, einval, einit, ethread}
use chitcp.Addr.{Addr, cleared, addr_is_loopback}
use chitcp.Server.{
  Server, Connection, free_entry, DaemonState, ready, starting, running, stopping, stopped,
}
use chitcp.Connections.{get_connection, add_connection}
use chitcp.Breakpoint.{Debug, init_debug_connection}
use chitcp.Handlers.{Errno}

-- `DEFAULT_MAX_SOCKETS` and so on
abbrev pub max_sockets : ℕ
max_sockets = 1024

abbrev pub max_ports : ℕ
max_ports = 65536

abbrev pub max_connections : ℕ
max_connections = 1024

abbrev pub default_ephemeral_start : ℕ
default_ephemeral_start = 49152

abbrev pub no_connection : Connection
no_connection = record { available = true; peer_addr = cleared }

-- The tables of the given sizes, which `calloc` clears.
unfoldable pub initial : ℕ → ℕ → ℕ → ℕ → Server
initial n_sockets n_ports n_connections start = record {
  state = ready;
  sockets = replicate n_sockets free_entry;
  num_tcp_threads = 0;
  ports = replicate n_ports none;
  ephemeral_port_start = start;
  connections = replicate n_connections no_connection;
  delivery_queue = [];
  latency_ns = 0;
}

-- `chitcpd_server_init`, when memory and the log file are there
unfoldable pub server_init : Server
unfolding initial
server_init = initial max_sockets max_ports max_connections default_ephemeral_start

pub start_network : Server → Retcode → Retcode × Server
start_network begun ok = (ok, record begun { state = running })
start_network begun c = (c, begun)

pub start_unix : Server → Retcode → Retcode → Retcode × Server
unfolding start_network
start_unix begun ok net = start_network begun net
start_unix begun c net = (c, begun)

-- `chitcpd_server_start`, with what starting the server thread and the network thread return. The call
-- that creates the delivery thread is taken for a success, whatever it returns but a negative number,
-- which it never does.
pub server_start : Server → Retcode → Retcode → Retcode × Server
unfolding start_unix
server_start si unix net = start_unix (record si { state = starting }) unix net

-- `chitcpd_server_stop`: whether the host shuts the network socket and the server socket down, and how
-- many TCP threads are left when they have all ended or the time is over.
pub server_stop : Server → Bool → Bool → ℕ → Retcode × Server
server_stop si net unix left =
    let begun = record si { state = stopping } in
    if net
    then if unix
      then (ok, record begun { num_tcp_threads = left; state = stopped })
      else (esocket, begun)
    else (esocket, begun)

-- `chitcpd_server_wait`: it ends in this state.
pub wait_ends : Server → Bool
wait_ends si = elim si.state [
  | ready ↦ false
  | starting ↦ false
  | running ↦ false
  | stopping ↦ false
  | stopped ↦ true
]

-- `chitcpd_server_free`: whether it gives the tables back.
pub frees_tables : Server → Bool
frees_tables si = si.num_tcp_threads == 0

-- What the network thread does with a connection: it goes on, with a thread for the entry; or it ends,
-- after it has closed the server's socket or without.
pub data Arrival : Type 0 where
  serves : ℕ → Server → Arrival
  closes_server : Server → Arrival
  quits : Server → Arrival

pub with_entry : Bool → Option ℕ × Server → Arrival
with_entry created (none, si) = quits si
with_entry created (some i, si) = if created then serves i si else quits si

-- The step after the search of the connection table, with its answer: a handler that connects may have
-- written the table in between, without a lock.
pub arrive_at : Server → Bool → ℕ → Addr → Option ℕ → Arrival
unfolding with_entry
arrive_at si created port a none = with_entry created (add_connection si port a)
arrive_at si created port a (some i) =
    if addr_is_loopback a then if created then serves i si else quits si else closes_server si

-- The body of the loop of `chitcpd_server_network_thread_func`, with the daemons' port, and whether the
-- host can create the connection's thread: the search and the step after it, when no other thread's step
-- comes between.
pub arrive : Server → Bool → ℕ → Addr → Arrival
unfolding arrive_at
arrive si created port a = arrive_at si created port a (get_connection si a)

-- The first message of a client: its code, and the type of the connection with the socket and the events
-- that it wants to debug.
pub data Conntype : Type 0 where
  command : Conntype
  debug : ℤ → ℕ → Conntype
  unknown : Conntype

-- The client is sent off; or it is answered with a code and an error, and has a handler, a monitor, or
-- nothing more; or its handler's thread cannot be created, and after the answer the server's thread ends.
pub data Greeting : Type 0 where
  shuts : Greeting
  handles monitors : Greeting
  refuses : Retcode → Option Errno → Greeting
  gives_up : Retcode → Greeting

unfoldable pub debug_answer : Option Errno × Debug → Greeting × Debug
debug_answer (none, d) = (monitors, d)
debug_answer (some e, d) = (refuses einit (some e), d)

-- `chitcpd_server_thread_func` on that message, and whether the host can create a handler's thread.
unfoldable pub greet : Server → Debug → Bool → ℕ → Conntype → Greeting × Debug
unfolding debug_answer
greet si d created code type =
    if code == 0
    then elim type [
      | command ↦ if created then (handles, d) else (gives_up ethread, d)
      | debug fd flags ↦ debug_answer (init_debug_connection si d fd flags)
      | unknown ↦ (refuses einval none, d)
    ]
    else (shuts, d)
