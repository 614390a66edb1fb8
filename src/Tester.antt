-- ===== src/Tester.antt =====
-- libchitcp/tester_peer.c: a peer of the tester, a thread that works on one socket of the client's library
-- and takes its events from another thread.
pub mod Closing
pub mod Mailbox
mod Tests
use chitcp.Base.{
  ℕ, zero, suc, Bool, true, false, List, [], ◌∷◌, Option, none, some, if◌then◌else◌, ◌==◌, ℤ, pos,
  negsuc, replicate, ◌++◌,
}
use chitcp.Client.{
  Host, Thread, Result, returns, aborts, Accepted, chisocket_socket, chisocket_bind,
  chisocket_listen, chisocket_accept, chisocket_connect, chisocket_close,
}
use chitcp.Debugger.{Debugging, watches, fails, chitcpd_debug}

-- The events but for `TEST_EVENT_NONE`
pub data TestEvent : Type 0 where
  init listen accept connect run close exit : TestEvent

pub data PeerState : Type 0 where
  uninitialized initialized : PeerState
  server_listening server_ready server_closing server_closed : PeerState
  client_connecting client_ready client_closing client_closed : PeerState
  running_function : PeerState

-- A peer. `debug_event_flags` is `none` without a debug handler, `event` is `none` for
-- `TEST_EVENT_NONE`, and `done` is the loop's variable. `thread` is what the client's library keeps for the
-- peer's thread.
pub record Peer (W : Type 0) : Type 0 where
  pub sockfd : ℤ
  pub passive_sockfd : ℤ
  pub func : Option (ℤ → Thread W → Thread W)
  pub debug_event_flags : Option ℕ
  pub event : Option TestEvent
  pub state : PeerState
  pub done : Bool
  pub thread : Thread W

-- The host; whether a debugging thread has memory and starts; and what `chitcp_addr_construct` gives for
-- port 7 of this computer.
pub record Setting (W : Type 0) : Type 0 where
  pub host : Host W
  pub memory : Bool
  pub thread_error : Option ℤ
  pub server_addr : Option (List ℕ)

-- The peer goes on, or the program ends.
pub data Ran (W : Type 0) : Type 0 where
  goes : Peer W → Ran W
  exits : Thread W → Ran W

pub is_failure : ℤ → Bool
is_failure (pos n) = false
is_failure (negsuc n) = n == 0

-- A call that failed: the socket is closed and the program ends. Otherwise `rest` follows.
pub unless_failed :
    {W : Type 0} → Setting W → Peer W → (ℤ → Peer W → Ran W) → Result × Thread W → Ran W
unless_failed s p rest (returns n, t) =
    if is_failure n
    then exits (chisocket_close s.host t p.sockfd).1
    else rest n (record p { thread = t })
unless_failed s p rest (aborts, t) = exits t

pub watched : {W : Type 0} → Setting W → Peer W → Debugging × Thread W → Ran W
watched s p (watches fd, t) = goes (record p { thread = t })
watched s p (fails fd, t) = exits (chisocket_close s.host t p.sockfd).1
watched s p (Debugging.aborts, t) = exits t

pub watch : {W : Type 0} → Setting W → Peer W → Option ℕ → Ran W
unfolding watched
watch s p none = goes p
watch s p (some flags) =
    watched s p (chitcpd_debug s.host s.memory s.thread_error p.thread p.sockfd flags)

pub opened : {W : Type 0} → Setting W → Peer W → Result × Thread W → Ran W
unfolding watch is_failure
opened s p (returns n, t) =
    if is_failure n
    then exits t
    else watch s (record p { sockfd = n; passive_sockfd = negsuc 0; thread = t })
        p.debug_event_flags
opened s p (aborts, t) = exits t

-- `chitcp_tester_peer_init`: PF_INET, SOCK_STREAM and IPPROTO_TCP
pub peer_init : {W : Type 0} → Setting W → Peer W → Ran W
unfolding opened
peer_init s p = opened s p (chisocket_socket s.host p.thread (pos 2) (pos 1) (pos 6))

-- The address of port 7 of every interface, where numbers are little-endian
abbrev pub echo_addr : List ℕ
echo_addr = 2 ∷ 0 ∷ 0 ∷ 7 ∷ replicate 12 0

-- `chitcp_tester_peer_listen`
pub peer_listen : {W : Type 0} → Setting W → Peer W → Ran W
unfolding unless_failed
peer_listen s p =
    unless_failed s p
      (λ n q. unless_failed s q (λ m r. goes r) (chisocket_listen s.host q.thread q.sockfd (pos 5)))
      (chisocket_bind s.host p.thread p.sockfd echo_addr)

-- `chitcp_tester_peer_accept`
pub peer_accept : {W : Type 0} → Setting W → Peer W → Ran W
unfolding unless_failed
peer_accept s p =
    let (a, t) = chisocket_accept s.host p.thread p.sockfd 16 in
    unless_failed s p (λ n q. goes (record q { passive_sockfd = q.sockfd; sockfd = n }))
      (a.result, t)

-- `chitcp_tester_peer_connect`
pub peer_connect : {W : Type 0} → Setting W → Peer W → Ran W
unfolding unless_failed
peer_connect s p = elim s.server_addr [
  | none ↦ exits p.thread
  | some addr ↦ unless_failed s p (λ n q. goes q) (chisocket_connect s.host p.thread p.sockfd addr)
]

-- A socket is closed, or the program ends.
pub once_closed : {W : Type 0} → Peer W → (Peer W → Ran W) → Result × Thread W → Ran W
unfolding is_failure
once_closed p rest (returns n, t) = if is_failure n then exits t else rest (record p { thread = t })
once_closed p rest (aborts, t) = exits t

pub close_passive : {W : Type 0} → Setting W → Peer W → Ran W
unfolding once_closed
close_passive s p =
    if is_failure p.passive_sockfd
    then goes p
    else once_closed p goes (chisocket_close s.host p.thread p.passive_sockfd)

-- `chitcp_tester_peer_close`
pub peer_close : {W : Type 0} → Setting W → Peer W → Ran W
unfolding once_closed close_passive
peer_close s p = once_closed p (close_passive s) (chisocket_close s.host p.thread p.sockfd)

-- `chitcp_tester_peer_update_state`
pub update_state : {W : Type 0} → PeerState → Peer W → Peer W
update_state state p = record p { state = state }

pub reaches : {W : Type 0} → PeerState → Ran W → Ran W
unfolding update_state
reaches state (goes p) = goes (update_state state p)
reaches state (exits t) = exits t

-- The state while a peer closes its sockets, and after it
pub closing_state : PeerState → PeerState
closing_state state = elim state [
  | server_ready ↦ server_closing
  | client_ready ↦ client_closing
  | other ↦ other
]

pub closed_state : PeerState → PeerState
closed_state state = elim state [
  | server_ready ↦ server_closed
  | client_ready ↦ client_closed
  | other ↦ other
]

pub run_func : {W : Type 0} → Peer W → Peer W
run_func p = elim p.func [ none ↦ p | some f ↦ record p { thread = f p.sockfd p.thread } ]

-- The `switch` over the event
pub on_event : {W : Type 0} → Setting W → Peer W → TestEvent → Ran W
unfolding reaches update_state run_func
on_event s p e = elim e [
  | init ↦ reaches initialized (peer_init s p)
  | listen ↦ reaches server_listening (peer_listen s p)
  | accept ↦ reaches server_ready (peer_accept s p)
  | connect ↦ reaches client_ready (peer_connect s p)
  | run ↦ goes (update_state p.state (run_func (update_state running_function p)))
  | close ↦ reaches (closed_state p.state) (peer_close s (update_state (closing_state p.state) p))
  | exit ↦ goes (record p { done = true })
]

pub cleared : {W : Type 0} → Ran W → Ran W
cleared (goes p) = goes (record p { event = none })
cleared (exits t) = exits t

-- One turn of the loop in `chitcp_tester_peer_thread_func`, after the wait for an event
pub turn : {W : Type 0} → Setting W → Peer W → TestEvent → Ran W
unfolding cleared
turn s p e = cleared (on_event s p e)
