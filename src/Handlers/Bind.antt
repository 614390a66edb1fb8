-- ===== src/Handlers/Bind.antt =====
-- The handlers for `chisocket_bind` and `chisocket_listen`.

pub mod Laws
use chitcp.Base.{
  ℕ, Bool, true, false, not, Option, none, some, [], ltb, if◌then◌else◌, get_elem?, ℤ, set, length,
  ◌==◌, leb,
}
use chitcp.Types.{closed, listen, passive}
use chitcp.Addr.{Addr, ntohs, get_addr_port, set_addr_port, addr_set_any}
use chitcp.Server.{Server, Entry}
use chitcp.Sockets.{put_entry}
use chitcp.Handlers.{Errno, Outcome, failed, done, out_of_bounds, ebadf, einval, usable, is_state}

-- `chitcp_ntohs(chitcp_get_addr_port(addr))`
abbrev pub host_port : Addr → ℕ
host_port a = ntohs (get_addr_port a)

-- The addresses of a bound socket: the remote address is any address of the family, with port 0.
unfoldable pub bound : Addr → Entry → Entry
bound a e =
    let wild : Addr = record e.remote_addr { family = a.family } in
    record e { local_addr = a; remote_addr = set_addr_port (addr_set_any wild) 0 }

pub take_port : Server → ℕ → Entry → Addr → Server
unfolding bound
take_port si i e a =
    let si' = put_entry si i (bound a e) in
    record si' { ports = set si.ports (host_port a) (some i) }

-- What the checks of `bind` say: an error, an address past the end of the port table, or the socket that
-- goes on.
pub data Check : Type 0 where
  refuses : Errno → Check
  past_end : Check
  takes : ℕ → Check

-- The port's place in the table decides. (`port < 0` is never true of a `uint16_t`.)
pub check_port : Server → ℕ → Addr → Check
check_port si i a = elim (get_elem? si.ports (host_port a)) [
  | none ↦ past_end
  | some owner ↦ elim owner [ none ↦ takes i | some j ↦ refuses einval ]
]

pub check_entry : Server → ℕ → Entry → Addr → Check
unfolding check_port
check_entry si i e a =
    if not (is_state e.tcp_state closed)
    then refuses ebadf
    else if ltb (length si.ports) (host_port a)
    then refuses einval
    else check_port si i a

-- `bind` up to its last check. No lock is held from here to the writes, so that other threads' steps may
-- come between.
unfoldable pub bind_check : Server → ℤ → Addr → Check
unfolding check_entry
bind_check si fd a = elim (usable si fd) [
  | none ↦ refuses ebadf
  | some x ↦ check_entry si x.0 x.1 a
]

-- The writes of `bind`
unfoldable pub bind_finish : Server → ℕ → Addr → Server
unfolding take_port
bind_finish si i a = elim (get_elem? si.sockets i) [ none ↦ si | some e ↦ take_port si i e a ]

-- `bind`, when no other thread's step comes between
unfoldable pub bind : Server → ℤ → Addr → Outcome
unfolding bind_check bind_finish
bind si fd a = elim (bind_check si fd a) [
  | refuses c ↦ failed c si
  | past_end ↦ out_of_bounds
  | takes i ↦ done 0 (bind_finish si i a)
]

unfoldable pub listening : ℤ → Entry → Entry
listening backlog e = record e {
  actpas_type = passive;
  tcp_state = listen;
  passive = record { backlog = backlog; pending_connections = [] };
}

pub start_listen : Server → ℤ → ℤ → Outcome
unfolding listening
start_listen si fd backlog = elim (usable si fd) [
  | none ↦ failed ebadf si
  | some x ↦
      if not (is_state x.1.tcp_state closed)
      then failed ebadf si
      else done 0 (put_entry si x.0 (listening backlog x.1))
]
