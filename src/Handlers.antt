-- ===== src/Handlers.antt =====
-- chitcpd/handlers.c: the requests of applications. A handler is one step up to the point where it
-- sleeps on a condition variable; a `_resume` function is what it does each time it wakes up.
pub mod Accept
pub mod Bind
pub mod Close
pub mod Connect
pub mod Entries
pub mod Leave
pub mod Transfer
pub mod Wait
mod Openings
pub mod Tests
use chitcp.Base.{
  ℕ, Bool, true, false, not, ◌&&◌, Option, none, some, List, [], ltb, if◌then◌else◌, get_elem?, ℤ,
  set, length, leb, ◌==◌,
}
use chitcp.Types.{TcpState, SocketType}
use chitcp.Server.{Server, Entry, Flags}
use chitcp.Sockets.{allocate, change, in_table}

-- The `error_code`s of the responses.
pub data Errno : Type 0 where
  ebadf einval enomem enotconn eopnotsupp ealready eagain econnaborted : Errno

-- The response: -1 and an error, or `ret`; or no response yet.
pub data Outcome : Type 0 where
  failed : Errno → Server → Outcome
  done : ℕ → Server → Outcome
  -- `ret`, with the bytes of `buf`
  gave : ℕ → List ℕ → Server → Outcome
  -- asleep on a condition variable; `send` has written so many bytes
  waits : ℕ → Server → Outcome
  -- reads past the end of a table
  out_of_bounds : Outcome
  out_of_fuel : Outcome

-- The numbers of the states and of the socket types.
abbrev pub state_code : TcpState → ℕ
state_code s = elim s [
  | TcpState.closed ↦ 0
  | TcpState.listen ↦ 1
  | TcpState.syn_rcvd ↦ 2
  | TcpState.syn_sent ↦ 3
  | TcpState.established ↦ 4
  | TcpState.fin_wait_1 ↦ 5
  | TcpState.fin_wait_2 ↦ 6
  | TcpState.close_wait ↦ 7
  | TcpState.closing ↦ 8
  | TcpState.time_wait ↦ 9
  | TcpState.last_ack ↦ 10
]

abbrev pub is_state : TcpState → TcpState → Bool
is_state s t = state_code s == state_code t

abbrev pub type_code : SocketType → ℕ
type_code t = elim t [
  | SocketType.active ↦ 1
  | SocketType.passive ↦ 2
  | SocketType.uninitialized ↦ 3
]

abbrev pub is_type : SocketType → SocketType → Bool
is_type s t = type_code s == type_code t

-- The first check of most handlers, `sockfd < 0 || sockfd >= size || available`.
unfoldable pub usable : Server → ℤ → Option (ℕ × Entry)
usable si fd = elim (in_table si fd) [
  | none ↦ none
  | some i ↦ elim (get_elem? si.sockets i) [
    | none ↦ none
    | some e ↦ if e.available then none else some (i, e)
  ]
]

-- Set an event flag of an active socket.
abbrev pub raise : (Flags → Flags) → Entry → Entry
raise f e = record e { active = record e.active { flags = f e.active.flags } }

-- Handler for `chisocket_socket`, in a thread.
pub socket : Server → ℕ → ℤ → ℤ → ℤ → Outcome
socket si thread domain type protocol =
    let (slot, si') = allocate si thread in
    elim slot [
      | none ↦ failed enomem si'
      | some i ↦
          done i
            (change si' i (λ e. record e { domain = domain; type = type; protocol = protocol }))
    ]
