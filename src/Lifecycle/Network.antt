-- ===== src/Lifecycle/Network.antt =====
-- The sockets and threads of chitcpd/server.c that others connect to: how they start, and the loop of the
-- network thread. What the host's calls answer is an argument.
pub mod Laws
use chitcp.Base.{
  ℕ, zero, suc, ◌+◌, Bool, true, false, List, [], ◌∷◌, Option, none, some, if◌then◌else◌, ◌&&◌,
}
use chitcp.Types.{Retcode, ok, esocket}
use chitcp.Addr.{Addr}
use chitcp.Server.{Server, Connection, DaemonState, ready, starting, running, stopping, stopped}
use chitcp.Lifecycle.{Arrival, serves, closes_server, quits, arrive, server_start}

-- A listening socket with its thread; a socket that was closed again; or none.
pub data Starting : Type 0 where
  listens closes : ℕ → Starting
  fails : Starting

-- `chitcpd_server_start_thread`: the new socket, and whether it can be bound and listened on. The call that
-- creates the thread is taken for a success, whatever it returns but a negative number.
unfoldable pub start_thread : Option ℕ → Bool → Bool → Starting
start_thread none bound listening = fails
start_thread (some fd) bound listening = if bound && listening then listens fd else closes fd

-- `chitcpd_server_start_network_thread`, which also makes the address reusable.
unfoldable pub start_network_thread : Option ℕ → Bool → Bool → Bool → Starting
start_network_thread none reusable bound listening = fails
start_network_thread (some fd) reusable bound listening =
    if reusable && bound && listening then listens fd else closes fd

pub code_of : Starting → Retcode
code_of (listens fd) = ok
code_of (closes fd) = esocket
code_of fails = esocket

-- `chitcpd_server_start`, with how both threads start; the second is not tried when the first fails.
unfoldable pub start_both : Server → Starting → Starting → Retcode × Server
unfolding code_of
start_both si unix net = server_start si (code_of unix) (code_of net)

-- What `accept` returns: an error, with the state of the daemon at that time; or a connection from an
-- address, with whether its thread can be created.
pub data Knock : Type 0 where
  error : DaemonState → Knock
  from : Addr → Bool → Knock

-- The network thread goes on; it has shut down the connections of some entries and ended; or it has
-- ended otherwise, after it closed the server's socket or without.
pub data Ending : Type 0 where
  goes_on : Server → Ending
  shuts : List ℕ → Server → Ending
  closed_server quit : Server → Ending

-- The loop over the connection table at the end
pub in_use : List Connection → ℕ → List ℕ
in_use [] i = []
in_use (c ∷ cs) i = let rest = in_use cs (i + 1) in if c.available then rest else i ∷ rest

abbrev pub is_stopping : DaemonState → Bool
is_stopping s = elim s [
  | ready ↦ false
  | starting ↦ false
  | running ↦ false
  | stopping ↦ true
  | stopped ↦ false
]

pub after_arrival : (Server → Ending) → Arrival → Ending
after_arrival rest (serves i si) = rest si
after_arrival rest (closes_server si) = closed_server si
after_arrival rest (quits si) = quit si

-- `chitcpd_server_network_thread_func`, on what `accept` returns, with the daemons' port
pub network_thread : ℕ → List Knock → Server → Ending
unfolding after_arrival in_use
network_thread port [] si = goes_on si
network_thread port (error s ∷ ks) si =
    let rest = network_thread port ks si in
    if is_stopping s then shuts (in_use si.connections 0) si else rest
network_thread port (from a created ∷ ks) si =
    after_arrival (network_thread port ks) (arrive si created port a)
