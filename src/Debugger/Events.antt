-- ===== src/Debugger/Events.antt =====
-- libchitcp/debug_api.c: `debug_thread`, which asks the client's handler for the response to each event. A
-- thread for an active socket is on `active_list`; what such a thread answers is a function here, and
-- its handshake with `debug_thread` is in Debugger/Handshake.
pub mod Laws
use chitcp.Base.{
  ℕ, zero, suc, Bool, true, false, not, List, [], ◌∷◌, ◌++◌, Option, none, some, if◌then◌else◌,
  ◌&&◌, ◌||◌, ◌==◌, ℤ, pos, negsuc,
}

-- `ChitcpdDebugEventArgs`
pub record Event : Type 0 where
  pub sockfd : ℤ
  pub event_flag : ℕ
  pub new_sockfd : ℤ
  pub is_active : Bool

-- `DBG_EVT_PENDING_CONNECTION`, `DBG_RESP_STOP` and `DBG_RESP_ACCEPT_MONITOR`
abbrev pub pending_connection : ℕ
pending_connection = 8

abbrev pub resp_stop : ℕ
resp_stop = 1

abbrev pub resp_accept_monitor : ℕ
resp_accept_monitor = 2

-- The client's handler, over a state of its own: its response to a socket, an event and a new socket. It
-- is called for an active socket if the socket's state can be had from the daemon.
pub record Handler (H : Type 0) : Type 0 where
  pub handle : H → ℤ → ℕ → ℤ → ℕ × H
  pub has_state : H → ℤ → Bool × H

-- `debug_thread` between two events: the sockets of its threads, the response that was last set, and the
-- handler's state.
pub record Watcher (H : Type 0) : Type 0 where
  pub active_list : List ℤ
  pub passive : Bool
  pub first_event : Bool
  pub ret : ℕ
  pub handler_state : H

abbrev pub no_fd : ℤ
no_fd = negsuc 0

-- Equal socket numbers
abbrev pub same_fd : ℤ → ℤ → Bool
same_fd (pos a) (pos b) = a == b
same_fd (pos a) (negsuc b) = false
same_fd (negsuc a) (pos b) = false
same_fd (negsuc a) (negsuc b) = a == b

-- `DL_SEARCH_SCALAR`, and `DL_DELETE` of what it finds
abbrev pub listed : ℤ → List ℤ → Bool
listed fd [] = false
listed fd (x ∷ xs) = same_fd x fd || listed fd xs

unfoldable pub delete : ℤ → List ℤ → List ℤ
delete fd [] = []
delete fd (x ∷ xs) = if same_fd x fd then xs else x ∷ delete fd xs

-- The response of an active socket's thread to an event that is not DBG_EVT_KILL.
pub answered : {H : Type 0} → Handler H → ℤ → ℕ → Bool × H → ℕ × H
answered a sockfd flag (known, x) = if known then a.handle x sockfd flag no_fd else (resp_stop, x)

unfoldable pub active_answer : {H : Type 0} → Handler H → H → ℤ → ℕ → ℕ × H
unfolding answered
active_answer a x sockfd flag = answered a sockfd flag (a.has_state x sockfd)

-- A part of the loop's body goes on to the next, or breaks out of the loop.
pub data Turn (H : Type 0) : Type 0 where
  goes_on breaks : Watcher H → Turn H

-- A new thread, if there is memory. The call that creates the thread is taken for a success.
unfoldable pub start_thread : {H : Type 0} → Bool → Event → Watcher H → Turn H
start_thread memory e s =
    if memory
    then goes_on (record s {
      active_list = s.active_list ++ (if s.passive then e.new_sockfd else e.sockfd) ∷ [];
    })
    else breaks s

-- The first response to a pending connection
unfoldable pub offered : {H : Type 0} → Bool → Event → Watcher H → ℕ × H → Turn H
unfolding start_thread
offered memory e s (r, x) =
    let s' = record s { passive = true; ret = r; handler_state = x } in
    if r == resp_stop
    then breaks s'
    else if r == resp_accept_monitor
    then start_thread memory e s'
    else goes_on s'

-- Whether the event may want a new thread, and what it then does.
unfoldable pub may_start : {H : Type 0} → Event → Watcher H → Bool
may_start e s =
    (not e.is_active && e.event_flag == pending_connection) || (e.is_active && s.first_event)

unfoldable pub starts : {H : Type 0} → Handler H → Bool → Event → Watcher H → Turn H
unfolding start_thread offered may_start
starts a memory e s =
    let s' = record s { first_event = false } in
    if may_start e s
    then if e.event_flag == pending_connection
      then offered memory e s' (a.handle s.handler_state e.sockfd e.event_flag e.new_sockfd)
      else start_thread memory e s'
    else goes_on s

-- The response that is sent, of a passive socket and of an active one.
unfoldable pub passive_told : {H : Type 0} → Watcher H → ℕ × H → Turn H
passive_told s (r, x) =
    let s' = record s { ret = r; handler_state = x } in
    if r == resp_stop then breaks s' else goes_on s'

unfoldable pub active_told : {H : Type 0} → ℤ → Watcher H → ℕ × H → Turn H
active_told sockfd s (r, x) =
    let s' = record s { ret = r; handler_state = x } in
    let fewer = record s' { active_list = delete sockfd s.active_list } in
    if r == resp_stop then if s.passive then goes_on fewer else breaks fewer else goes_on s'

unfoldable pub responds : {H : Type 0} → Handler H → Event → Watcher H → Turn H
unfolding passive_told active_told active_answer
responds a e s =
    if not e.is_active
    then passive_told s (a.handle s.handler_state e.sockfd e.event_flag no_fd)
    else if listed e.sockfd s.active_list
    then active_told e.sockfd s (active_answer a s.handler_state e.sockfd e.event_flag)
    else goes_on s

pub then_responds : {H : Type 0} → Handler H → Event → Turn H → Turn H
unfolding responds
then_responds a e (goes_on s) = responds a e s
then_responds a e (breaks s) = breaks s

-- The body of the loop, up to the response's way to the daemon, which is the `ret` of `goes_on`.
unfoldable pub turn : {H : Type 0} → Handler H → Bool → Event → Watcher H → Turn H
unfolding starts then_responds
turn a memory e s = then_responds a e (starts a memory e s)

-- `debug_thread` on the events that arrive until the connection fails: the responses that it sends, and
-- how it ends. An event comes with whether there is memory for a thread, and whether the response can be
-- sent.
pub next : {H : Type 0} → Bool → (Watcher H → List ℕ × Watcher H) → Turn H → List ℕ × Watcher H
next sent rest (breaks s) = ([], s)
next sent rest (goes_on s) = let more = rest s in if sent then (s.ret ∷ more.0, more.1) else ([], s)

unfoldable pub run :
    {H : Type 0} → Handler H → List (Event × Bool × Bool) → Watcher H → List ℕ × Watcher H
unfolding next
run a [] s = ([], s)
run a ((e, memory, sent) ∷ es) s = next sent (run a es) (turn a memory e s)

-- The state at the start of `debug_thread`
abbrev pub initial : {H : Type 0} → H → Watcher H
initial x = record {
  active_list = [];
  passive = false;
  first_event = true;
  ret = 0;
  handler_state = x;
}
