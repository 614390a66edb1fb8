-- ===== src/Handlers/Leave.antt =====
-- The thread of a client in chitcpd/handlers.c: which handler a request gets, and what becomes of the
-- client's sockets when it has disconnected.
pub mod Laws
use chitcp.Base.{
  ℕ, zero, suc, Bool, true, false, List, [], ◌∷◌, Option, none, some, if◌then◌else◌, ◌==◌, leb,
  get_elem?, ℤ,
}
use chitcp.Types.{closed, SocketType, active, passive, uninitialized}
use chitcp.Server.{Server, Entry}
use chitcp.Sockets.{acquire, release, free_begin}
use chitcp.Delivery.{Response, Time}
use chitcp.Signals.{update_tcp_state}

-- The handlers of the dispatch table.
pub data Request : Type 0 where
  socket bind listen accept connect send recv close : Request
  get_socket_state get_socket_buffer_contents wait_for_state : Request

-- A call of a handler, of a null pointer, or of what lies past the end of the table.
pub data Call : Type 0 where
  handles : Request → Call
  null_call past_end : Call

-- `handlers[req->code]`
pub call_of : ℕ → Call
call_of code =
    if code == 1
    then handles socket
    else if code == 2
    then handles bind
    else if code == 3
    then handles listen
    else if code == 4
    then handles accept
    else if code == 5
    then handles connect
    else if code == 6
    then handles send
    else if code == 7
    then handles recv
    else if code == 8
    then handles close
    else if code == 9
    then handles get_socket_state
    else if code == 10
    then handles get_socket_buffer_contents
    else if code == 14
    then handles wait_for_state
    else if leb code 13
    then null_call
    else past_end

-- What the thread does with a socket: nothing, as it is being freed or another's; leave it as it is;
-- wait until the socket's thread ends; or free it, which waits for the last reference.
pub data Leaving : Type 0 where
  skips : Server → Leaving
  leaves : Server → Leaving
  joins : ℕ → Server → Leaving
  frees : ℕ → Server → Leaving

-- A socket of the client, which holds a reference to it.
unfoldable pub leave_own : Server → ℕ → Response → Time → Entry → Leaving
leave_own si i resp now e = elim e.actpas_type [
  | active ↦ joins i (release (update_tcp_state si i closed resp now) i)
  | passive ↦ frees i (free_begin (release si i) i)
  | uninitialized ↦ leaves (release si i)
]

unfoldable pub leave_found : Option ℕ × Server → ℕ → Response → Time → Leaving
unfolding leave_own
leave_found (none, si) thread resp now = skips si
leave_found (some i, si) thread resp now = elim (get_elem? si.sockets i) [
  | none ↦ skips si
  | some e ↦ if e.creator_thread == thread then leave_own si i resp now e else skips (release si i)
]

-- The body of the loop over the table, at socket `i`, in a client's thread, with the answer of the debug
-- monitor to the change of state.
pub leave : Server → ℕ → ℕ → Response → Time → Leaving
unfolding leave_found
leave si thread i resp now = leave_found (acquire si (ℤ.pos i)) thread resp now
