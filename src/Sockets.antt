-- ===== src/Sockets.antt =====
-- chitcpd/serverinfo.c: the socket table. Each function runs under the table's lock and is one step;
-- `chitcpd_free_socket_entry`, which lets go of the lock, is four.
pub mod Lookup
pub mod Refs
pub mod Slots
pub mod Restore
pub mod Tests
use chitcp.Base.{
  ℕ, zero, suc, ◌+◌, ◌-◌, ◌%◌, ◌^◌, Bool, true, false, not, ◌&&◌, ◌||◌, List, [], ◌∷◌, Option, none,
  some, ltb, leb, ◌==◌, if◌then◌else◌, get_elem?, set, length, ℤ, pos, negsuc,
}
use chitcp.Types.{TcpState, closed, SocketType, active, passive, uninitialized, Retcode, esocket}
use chitcp.Addr.{Addr, same_family, addr_is_any, addr_cmp, addr_port_cmp, get_addr_port, ntohs}
use chitcp.Server.{Server, Entry, Flags, free_entry}

-- Write an entry back.
abbrev pub put_entry : Server → ℕ → Entry → Server
put_entry si i e = record si { sockets = set si.sockets i e }

abbrev pub change : Server → ℕ → (Entry → Entry) → Server
change si i f = elim (get_elem? si.sockets i) [ none ↦ si | some e ↦ put_entry si i (f e) ]

pub first_available : List Entry → ℕ → Option ℕ
first_available [] i = none
first_available (e ∷ es) i =
    let rest = first_available es (i + 1) in if e.available then some i else rest

abbrev pub allocated : ℕ → Entry → Entry
allocated thread e = record e {
  available = false;
  creator_thread = thread;
  actpas_type = uninitialized;
  tcp_state = closed;
  withheld_segments = [];
}

-- `chitcpd_allocate_socket` in a thread: `none` is `CHITCP_ESOCKET`.
unfoldable pub allocate : Server → ℕ → Option ℕ × Server
unfolding first_available
allocate si thread = elim (first_available si.sockets 0) [
  | none ↦ (none, si)
  | some i ↦ (some i, change si i (allocated thread))
]

-- The index that a descriptor stands for, if it is in the table.
abbrev pub in_table : Server → ℤ → Option ℕ
in_table si (pos i) = if leb (length si.sockets) i then none else some i
in_table si (negsuc n) = none

pub acquire_entry : Server → ℕ → Entry → Option ℕ × Server
acquire_entry si i e =
    if not e.available && not e.freeing
    then (some i, put_entry si i (record e { refcount = e.refcount + 1 }))
    else (none, si)

-- `chitcpd_acquire_socket`
unfoldable pub acquire : Server → ℤ → Option ℕ × Server
unfolding acquire_entry
acquire si fd = elim (in_table si fd) [
  | none ↦ (none, si)
  | some i ↦ elim (get_elem? si.sockets i) [ none ↦ (none, si) | some e ↦ acquire_entry si i e ]
]

-- `chitcpd_release_socket`; its `assert` says that the count is not zero.
unfoldable pub release : Server → ℕ → Server
release si i = change si i (λ e. record e { refcount = e.refcount - 1 })

-- The steps of `chitcpd_free_socket_entry`: no thread can find the socket any more ...
pub free_begin : Server → ℕ → Server
free_begin si i = change si i (λ e. record e { freeing = true })

-- ... its thread waits until this says that the last reference is gone ...
unfoldable pub free_wait : Server → ℕ → Bool
free_wait si i = elim (get_elem? si.sockets i) [ none ↦ true | some e ↦ e.refcount == 0 ]

-- `si->port_table[port] = NULL`
abbrev pub clear_port : Server → ℕ → Server
clear_port si port = record si { ports = set si.ports port none }

-- ... it clears the port of the local address, without a lock; the test `>= 0` on a `uint16_t` is always
-- true ...
unfoldable pub free_port : Server → ℕ → Server
free_port si i = elim (get_elem? si.sockets i) [
  | none ↦ si
  | some e ↦ clear_port si (ntohs (get_addr_port e.local_addr))
]

-- ... and, with the table's lock again, the entry.
unfoldable pub free_clear : Server → ℕ → Server
free_clear si i = change si i (λ e. free_entry)

-- The loop of `chitcpd_find_ephemeral_port` over the ports from number `i` on.
pub first_free : List (Option ℕ) → ℕ → ℕ → Option ℕ
first_free [] start i = none
first_free (p ∷ ps) start i =
    let rest = first_free ps start (i + 1) in
    if leb start i then elim p [ none ↦ some i | some owner ↦ rest ] else rest

-- `uint16_t port = -1`: with no port free the result is 65535.
pub find_ephemeral_port : Server → ℕ
unfolding first_free
find_ephemeral_port si = elim (first_free si.ports si.ephemeral_port_start 0) [
  | none ↦ 65535
  | some i ↦ i % 2 ^ 16
]

-- The parts of `chitcpd_lookup_socket`: how many wildcards a match of the local address takes.
unfoldable pub local_wildcards : Addr → Entry → Option ℕ
local_wildcards a e =
    if addr_is_any e.local_addr
    then some (if addr_is_any a then 0 else 1)
    else if addr_is_any a
    then some 1
    else if addr_cmp a e.local_addr == 0
    then some 0
    else none

-- The same for the remote address, with the ports.
unfoldable pub remote_wildcards : Addr → Entry → Option ℕ
remote_wildcards a e =
    if addr_is_any e.remote_addr
    then some (if addr_is_any a then 0 else 1)
    else if addr_is_any a
    then some 1
    else if addr_cmp a e.remote_addr == 0 && addr_port_cmp a e.remote_addr == 0
    then some 0
    else none

-- The body of the loop up to the comparison with the best match: `none` is `continue`.
unfoldable pub wildcards : Addr → Addr → Bool → Entry → Option ℕ
unfolding local_wildcards remote_wildcards
wildcards l r exact e =
    if e.available || e.freeing
    then none
    else if not (same_family l.family e.local_addr.family)
    then none
    else if not (same_family r.family e.remote_addr.family)
    then none
    else if not (addr_port_cmp l e.local_addr == 0)
    then none
    else elim (local_wildcards l e) [
      | none ↦ none
      | some m ↦ elim (remote_wildcards r e) [
        | none ↦ none
        | some n ↦ if ltb 0 (m + n) && exact then none else some (m + n)
      ]
    ]

-- The loop, at entry `i`, with the best match so far and its number of wildcards.
pub lookup_from : Addr → Addr → Bool → List Entry → ℕ → Option ℕ → ℕ → Option ℕ
lookup_from l r exact [] i best max = best
lookup_from l r exact (e ∷ es) i best max =
    let skip = lookup_from l r exact es (i + 1) best max in
    elim (wildcards l r exact e) [
      | none ↦ skip
      | some n ↦
          let better = lookup_from l r exact es (i + 1) (some i) n in
          if ltb n max then if n == 0 then some i else better else skip
    ]

-- `chitcpd_lookup_socket`
unfoldable pub lookup : Server → Addr → Addr → Bool → Option ℕ × Server
unfolding lookup_from
lookup si l r exact = elim (lookup_from l r exact si.sockets 0 none 3) [
  | none ↦ (none, si)
  | some i ↦ (some i, change si i (λ e. record e { refcount = e.refcount + 1 }))
]
