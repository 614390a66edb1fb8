-- ===== src/Handlers/Connect.antt =====
-- The handler for `chisocket_connect`: its checks, the port, the socket's entry, and the wait for the
-- handshake. The daemons' port and whether the host can create the socket's thread are arguments.
pub mod Laws
use chitcp.Base.{
  ℕ, Bool, true, false, not, ◌&&◌, ◌||◌, List, [], ◌∷◌, Option, none, some, if◌then◌else◌, length,
  set, get_elem?, ℤ, leb,
}
use chitcp.Types.{closed, syn_sent, active}
use chitcp.Addr.{Addr, cleared, addr_is_loopback, set_addr_port, ntohs}
use chitcp.Server.{Server, Entry, ActiveState, no_flags}
use chitcp.Sockets.{acquire, release, change, find_ephemeral_port}
use chitcp.Connections.{get_connection, create_connection}
use chitcp.TcpThread.{start_thread}
use chitcp.Handlers.{
  Outcome, failed, done, waits, out_of_bounds, ebadf, ealready, econnaborted, is_state, raise,
}

-- The wait for the handshake, at each wake-up; a wait that times out is a wake-up too.
pub connect_resume : Server → ℕ → Outcome
connect_resume si i = elim (get_elem? si.sockets i) [
  | none ↦ out_of_bounds
  | some e ↦
      let opening = is_state e.tcp_state closed || is_state e.tcp_state syn_sent in
      if opening && not e.freeing
      then waits 0 si
      else if e.freeing
      then failed econnaborted (release si i)
      else done 0 (release si i)
]

-- The daemon that the peer's address belongs to: a connection in the table, or a new one.
unfoldable pub peer_connection : Server → ℕ → Addr → Option ℕ × Server
unfolding create_connection
peer_connection si daemon_port a = elim (get_connection si a) [
  | none ↦ create_connection si daemon_port a
  | some c ↦ (some c, si)
]

-- The local address: any address of the peer's family, or the loopback address, with the port.
unfoldable pub local_address : Addr → ℕ → Addr
local_address a port =
    let base = if addr_is_loopback a then a else cleared in
    set_addr_port (record base { family = a.family }) (ntohs port)

unfoldable pub connecting : Option ℕ → Addr → ℕ → Entry → Entry
unfolding local_address
connecting connection a port e =
    let tcp = record e.active.tcp_data { pending_segments = [] } in
    let state : ActiveState = record e.active {
      tcp_data = tcp;
      flags = no_flags;
      realtcpconn = connection;
    } in
    record e {
      actpas_type = active;
      active = state;
      local_addr = local_address a port;
      remote_addr = a;
    }

-- The socket's entry and its port, its thread, and the event. `port == -1` is never true, since the
-- port comes as a `uint16_t`.
unfoldable pub connect_start : Option ℕ × Server → Bool → ℕ → Addr → Outcome
unfolding connecting connect_resume
connect_start (c, si) created i a =
    let port = find_ephemeral_port si in
    let si1 = change si i (connecting c a port) in
    let si2 = record si1 { ports = set si1.ports port (some i) } in
    let si3 = (start_thread si2 created).1 in
    if leb (length si.ports) port
    then out_of_bounds
    else connect_resume (change si3 i (raise (λ f. record f { app_connect = true }))) i

pub connect_found : Option ℕ × Server → Bool → ℕ → Addr → Outcome
unfolding peer_connection connect_start
connect_found (none, si) created daemon_port a = failed ebadf si
connect_found (some i, si) created daemon_port a = elim (get_elem? si.sockets i) [
  | none ↦ out_of_bounds
  | some e ↦
      if not (is_state e.tcp_state closed)
      then failed ealready (release si i)
      else connect_start (peer_connection si daemon_port a) created i a
]

pub connect : Server → Bool → ℕ → ℤ → Addr → Outcome
unfolding connect_found
connect si created daemon_port fd a = connect_found (acquire si fd) created daemon_port a
