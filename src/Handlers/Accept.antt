-- ===== src/Handlers/Accept.antt =====
-- The handler for `chisocket_accept`: its checks, the wait for a pending connection, the new socket, and
-- the wait for the handshake.
pub mod Laws
use chitcp.Base.{
  ℕ, Bool, true, false, not, ◌&&◌, ◌||◌, List, [], ◌∷◌, ◌++◌, Option, none, some, if◌then◌else◌,
  get_elem?, ℤ,
}
use chitcp.Types.{listen, syn_rcvd, active, passive}
use chitcp.Addr.{Addr}
use chitcp.Server.{Server, Entry, ActiveState, Pending, no_flags}
use chitcp.Sockets.{acquire, release, allocate, change, put_entry}
use chitcp.Connections.{get_connection}
use chitcp.TcpThread.{start_thread}
use chitcp.Handlers.{Errno, ebadf, einval, enomem, econnaborted, is_state, is_type, raise}

-- An error; asleep until a connection is pending, or until the new socket is open, with references to
-- the sockets named; or the new socket and its peer's address.
pub data Accepting : Type 0 where
  failed : Errno → Server → Accepting
  waits_pending : ℕ → Server → Accepting
  waits_open : ℕ → ℕ → Server → Accepting
  accepted : ℕ → Addr → Server → Accepting
  out_of_bounds : Accepting

-- The wait for the handshake, at each wake-up.
unfoldable pub accept_open : Server → ℕ → ℕ → Entry → Accepting
accept_open si i j e =
    let opening = is_state e.tcp_state listen || is_state e.tcp_state syn_rcvd in
    if opening && not e.freeing
    then waits_open i j si
    else if e.freeing
    then failed econnaborted (release (release si j) i)
    else accepted j e.remote_addr (release (release si j) i)

pub accept_resume : Server → ℕ → ℕ → Accepting
unfolding accept_open
accept_resume si i j = elim (get_elem? si.sockets j) [
  | none ↦ out_of_bounds
  | some e ↦ accept_open si i j e
]

-- The state of the new socket, a child of the passive one.
unfoldable pub spawned_state : Option ℕ → ℕ → ActiveState → ActiveState
spawned_state connection i a =
    let tcp = record a.tcp_data { pending_segments = [] } in
    record a { tcp_data = tcp; parent_socket = some i; flags = no_flags; realtcpconn = connection }

-- The entry of the new socket, up to the debug breakpoint.
unfoldable pub spawned : Option ℕ → ℕ → Entry → Pending → Entry → Entry
unfolding spawned_state
spawned connection i parent p e = record e {
  domain = parent.domain;
  type = parent.type;
  protocol = parent.protocol;
  actpas_type = active;
  active = spawned_state connection i e.active;
  local_addr = p.local_addr;
  remote_addr = p.remote_addr;
}

unfoldable pub accept_prepare : Server → ℕ → ℕ → Entry → Pending → Server
unfolding spawned
accept_prepare si i j parent p = change si j (spawned (get_connection si p.remote_addr) i parent p)

-- The entry after it: the first segment is the last of those that wait.
unfoldable pub queued : Pending → Entry → Entry
queued p e = record e {
  tcp_state = listen;
  active = record e.active {
    tcp_data = record e.active.tcp_data {
      pending_segments = e.active.tcp_data.pending_segments ++ p.initial_segment ∷ [];
    };
  };
}

-- The socket's thread starts, and the segment's event is set.
unfoldable pub accept_queue : Server → Bool → ℕ → ℕ → Pending → Accepting
unfolding queued accept_resume
accept_queue si created i j p =
    let si1 = change si j (queued p) in
    let si2 = (start_thread si1 created).1 in
    accept_resume (change si2 j (raise (λ f. record f { net_recv = true }))) i j

-- With a reference to the new socket, when no other thread's step comes during the debug breakpoint, which
-- is between the two and may block.
unfoldable pub accept_start : Option ℕ × Server → Bool → ℕ → Entry → Pending → Accepting
unfolding accept_prepare accept_queue
accept_start (none, si) created i parent p = out_of_bounds
accept_start (some j, si) created i parent p =
    accept_queue (accept_prepare si i j parent p) created i j p

-- The new socket, if the table has room.
unfoldable pub accept_spawn : Option ℕ × Server → Bool → ℕ → Entry → Pending → Accepting
unfolding accept_start
accept_spawn (none, si) created i parent p = failed enomem (release si i)
accept_spawn (some j, si) created i parent p =
    accept_start (acquire si (ℤ.pos j)) created i parent p

-- The wait for a pending connection, at each wake-up, in a thread.
unfoldable pub accept_take : Server → ℕ → Bool → ℕ → Entry → List Pending → Accepting
unfolding accept_spawn
accept_take si thread created i e [] =
    if e.freeing then failed ebadf (release si i) else waits_pending i si
accept_take si thread created i e (p ∷ ps) =
    let taken =
      put_entry si i (record e { passive = record e.passive { pending_connections = ps } }) in
    if e.freeing
    then failed ebadf (release si i)
    else accept_spawn (allocate taken thread) created i e p

pub accept_wake : Server → ℕ → Bool → ℕ → Accepting
unfolding accept_take
accept_wake si thread created i = elim (get_elem? si.sockets i) [
  | none ↦ out_of_bounds
  | some e ↦ accept_take si thread created i e e.passive.pending_connections
]

pub accept_found : Option ℕ × Server → ℕ → Bool → Accepting
unfolding accept_wake
accept_found (none, si) thread created = failed ebadf si
accept_found (some i, si) thread created = elim (get_elem? si.sockets i) [
  | none ↦ out_of_bounds
  | some e ↦
      if not (is_type e.actpas_type passive)
      then failed einval (release si i)
      else if not (is_state e.tcp_state listen)
      then failed einval (release si i)
      else accept_wake si thread created i
]

-- The handler, in a thread, and whether the host can create the socket's thread.
pub accept : Server → ℕ → Bool → ℤ → Accepting
unfolding accept_found
accept si thread created fd = accept_found (acquire si fd) thread created
