-- ===== src/Sockets/Tests.antt =====
-- The socket table at concrete inputs: a listener, a connection that it accepted, and a free entry.
use chitcp.Base.{ℕ, ◌+◌, ◌≡◌, refl, ◌⊎◌, true, false, [], ◌∷◌, none, some, arith}
use chitcp.Types.{active, passive, listen, established}
use chitcp.Addr.{Addr, addr_is_any, af_inet, ntohs, get_addr_port, addr_port_cmp, addr_cmp}
use chitcp.Addr.Laws.{IsAddr}
use chitcp.Server.{Entry, Server, free_entry, running}
use chitcp.Sockets.{allocate, lookup, change, find_ephemeral_port, wildcards}
use chitcp.Sockets.Lookup.{Matches, Best, lookup_lem}
use chitcp.Sockets.Refs.{World}

-- Port 4 in network byte order is 1024.
abbrev pub any_addr : Addr
any_addr = record { family = af_inet; ip = 0; port = 1024 }

abbrev pub wild_addr : Addr
wild_addr = record { family = af_inet; ip = 0; port = 0 }

abbrev pub local_addr : Addr
local_addr = record { family = af_inet; ip = 5; port = 1024 }

abbrev pub peer_addr : Addr
peer_addr = record { family = af_inet; ip = 7; port = 2048 }

abbrev pub listener : Entry
listener = record free_entry {
  available = false;
  local_addr = any_addr;
  remote_addr = wild_addr;
  tcp_state = listen;
  actpas_type = passive;
}

abbrev pub accepted : Entry
accepted = record free_entry {
  available = false;
  local_addr = local_addr;
  remote_addr = peer_addr;
  tcp_state = established;
  actpas_type = active;
}

abbrev pub server : Server
server = record {
  state = running;
  sockets = listener ∷ accepted ∷ free_entry ∷ [];
  num_tcp_threads = 1;
  ports = none ∷ none ∷ none ∷ none ∷ some 0 ∷ some 2 ∷ none ∷ none ∷ [];
  ephemeral_port_start = 4;
  connections = [];
  delivery_queue = [];
  latency_ns = 0;
}

local_addr-IsAddr : IsAddr local_addr
local_addr-IsAddr = ground arith

peer_addr-IsAddr : IsAddr peer_addr
peer_addr-IsAddr = ground arith

lookup_accepted : (lookup server local_addr peer_addr false).0 ≡ some 1
unfolding lookup wildcards addr_cmp addr_port_cmp addr_is_any
lookup_accepted = refl

lookup_lem_example :
    ((lookup server local_addr peer_addr false ≡ (none, server))
      × ((k n : ℕ) → ¬ Matches local_addr peer_addr false server.sockets k n))
    ⊎ ((k : ℕ) × (n : ℕ) × (lookup server local_addr peer_addr false
          ≡ (some k, change server k (λ e. record e { refcount = e.refcount + 1 })))
        × Best local_addr peer_addr false server.sockets k n)
lookup_lem_example = lookup_lem server local_addr peer_addr false

accepted_exact : wildcards local_addr peer_addr true accepted ≡ some 0
unfolding wildcards addr_cmp addr_port_cmp addr_is_any
accepted_exact = refl

not_any : (addr_is_any local_addr ≡ false) × (addr_is_any peer_addr ≡ false)
unfolding addr_is_any
not_any = (refl, refl)

allocate_free : (allocate server 9).0 ≡ some 2
unfolding allocate
allocate_free = refl

ephemeral_port : find_ephemeral_port server ≡ 6
unfolding find_ephemeral_port
ephemeral_port = refl

local_port : ntohs (get_addr_port local_addr) ≡ 4
unfolding ntohs get_addr_port
local_port = refl

abbrev world : World
world = record { si = server; held = []; past = [] }

-- A thread looks the accepted socket up; until it releases it, the socket is not freed.
abbrev looked_up : World
looked_up = record {
  si = change server 1 (λ e. record e { refcount = e.refcount + 1 });
  held = 1 ∷ [];
  past = [];
}
