-- ===== src/Connections.antt =====
-- chitcpd/connection.c: the table of connections to other daemons. The real sockets of an entry are
-- left out.
pub mod Laws
mod Tests
use chitcp.Base.{
  ℕ, ◌+◌, Bool, true, false, not, ◌&&◌, List, [], ◌∷◌, Option, none, some, ◌==◌, if◌then◌else◌, set,
}
use chitcp.Addr.{Addr, addr_cmp, set_addr_port, ntohs}
use chitcp.Server.{Server, Connection}

pub matches : Addr → Connection → Bool
matches a c = not c.available && addr_cmp a c.peer_addr == 0

pub find : Addr → List Connection → ℕ → Option ℕ
unfolding matches
find a [] i = none
find a (c ∷ cs) i = let rest = find a cs (i + 1) in if matches a c then some i else rest

-- `chitcpd_get_connection`
pub get_connection : Server → Addr → Option ℕ
unfolding find
get_connection si a = find a si.connections 0

pub first_entry : List Connection → ℕ → Option ℕ
first_entry [] i = none
first_entry (c ∷ cs) i = let rest = first_entry cs (i + 1) in if c.available then some i else rest

-- `chitcpd_get_available_connection_entry`
pub get_available_entry : Server → Option ℕ
unfolding first_entry
get_available_entry si = first_entry si.connections 0

-- The entry of a peer: its address, with the daemons' port, which is the argument.
pub peer_entry : ℕ → Addr → Connection
peer_entry port a = record { available = false; peer_addr = set_addr_port a (ntohs port) }

-- `chitcpd_add_connection`
pub add_connection : Server → ℕ → Addr → Option ℕ × Server
unfolding get_available_entry peer_entry
add_connection si port a = elim (get_available_entry si) [
  | none ↦ (none, si)
  | some i ↦ (some i, record si { connections = set si.connections i (peer_entry port a) })
]

-- `chitcpd_create_connection`, less the opening of its real socket and its thread. It fills its entry
-- as `chitcpd_add_connection` does.
unfoldable pub create_connection : Server → ℕ → Addr → Option ℕ × Server
unfolding get_available_entry peer_entry
create_connection si port a = elim (get_available_entry si) [
  | none ↦ (none, si)
  | some i ↦ (some i, record si { connections = set si.connections i (peer_entry port a) })
]
