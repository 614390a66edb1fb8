-- ===== src/Handlers/Tests.antt =====
-- The handlers at concrete inputs.
use chitcp.Base.{
  Bool, ℕ, ◌+◌, ◌<◌, ◌≡◌, refl, ◌⊎◌, inl, inr, false, [], ◌∷◌, ◌++◌, some, none, arith, get_elem?,
  length, pos, replicate,
}
use chitcp.Types.{listen, established, close_wait, passive, uninitialized}
use chitcp.Addr.{Addr, af_inet, ntohs, get_addr_port}
use chitcp.Addr.Laws.{IsAddr}
use chitcp.Buffer.{Buffer}
use chitcp.Buffer.Valid.{IsValid, contents}
use chitcp.Server.{Entry, Server, free_entry}
use chitcp.Sockets.{acquire, free_begin, put_entry}
use chitcp.Sockets.Tests.{server, listener, accepted}
use chitcp.Handlers.{done, Errno, ebadf, einval, usable}
use chitcp.Handlers.Bind.{bind, take_port, host_port, bind_check, bind_finish, refuses, takes}
use chitcp.Handlers.Bind.Laws.{bind-refuses, bind-race}
use chitcp.Handlers.Close.{Begun, freeing, locking, close_begin}
use chitcp.Handlers.Close.Laws.{Refused, close_begin_lem}
use chitcp.Handlers.Transfer.{send, with_send, with_recv}
use chitcp.Handlers.Transfer.Laws.{Told, send-appends}

-- A new socket, and a connection with five bytes free to send and three to receive.
abbrev pub fresh : Entry
fresh = record free_entry { available = false }

abbrev pub send_buffer : Buffer
send_buffer = record {
  bytes = replicate 8 0;
  seq_initial = 0;
  seq_start = 0;
  seq_end = 3;
  start = 0;
  end = 3;
  count = 3;
  closed = false;
  maxsize = 8;
}

abbrev pub connected : Entry
connected = with_recv send_buffer (with_send send_buffer accepted)

abbrev pub daemon : Server
daemon = record server { sockets = listener ∷ connected ∷ fresh ∷ [] }

abbrev port_6 : Addr
port_6 = record { family = af_inet; ip = 0; port = 1536 }

abbrev local_6 : Addr
local_6 = record port_6 { ip = 5 }

pub send_buffer-IsValid : IsValid send_buffer
send_buffer-IsValid = ground arith

host_port_6 : host_port port_6 ≡ 6
unfolding ntohs get_addr_port
host_port_6 = refl

port_6_in : host_port port_6 < length daemon.ports
port_6_in = omega (arith, host_port_6)

-- Two sockets that are not bound yet
abbrev unbound : Server
unbound = record server { sockets = fresh ∷ fresh ∷ [] }

checked : bind_check unbound (pos 0) port_6 ≡ takes 0
unfolding bind_check usable ntohs get_addr_port
checked = refl

checked_local : bind_check unbound (pos 1) local_6 ≡ takes 1
unfolding bind_check usable ntohs get_addr_port
checked_local = refl

binds : bind daemon (pos 2) port_6 ≡ done 0 (take_port daemon 2 fresh port_6)
unfolding bind bind_check bind_finish usable ntohs get_addr_port
binds = refl

same_port : host_port local_6 ≡ host_port port_6
unfolding get_addr_port
same_port = refl

finished-size : length (bind_finish unbound 0 port_6).ports ≡ 8
unfolding bind_finish ntohs get_addr_port
finished-size = refl

bind-refuses_example :
    (bind_check (bind_finish unbound 0 port_6) (pos 1) local_6 ≡ refuses ebadf)
    ⊎ (bind_check (bind_finish unbound 0 port_6) (pos 1) local_6 ≡ refuses einval)
bind-refuses_example =
    bind-refuses unbound (bind_finish unbound 0 port_6) (pos 1) port_6 local_6 0 fresh port_6_in
      refl same_port refl finished-size

bind-race_example :
    let after = bind_finish (bind_finish unbound 0 port_6) 1 local_6 in
    (x : Entry) × (y : Entry) × (get_elem? after.sockets 0 ≡ some x)
    × (get_elem? after.sockets 1 ≡ some y)
    × (x.local_addr ≡ port_6)
    × (y.local_addr ≡ local_6)
    × (get_elem? after.ports (host_port port_6) ≡ some (some 1))
bind-race_example =
    bind-race unbound (pos 0) (pos 1) port_6 local_6 0 1 port_6_in same_port checked checked_local
      (λ q. cc)

port_6-IsAddr : IsAddr port_6
port_6-IsAddr = ground arith

local_6-IsAddr : IsAddr local_6
local_6-IsAddr = ground arith

close_begin_lem_example :
    ((c : Errno) × (close_begin daemon (pos 1) ≡ Begun.failed c daemon)
      × ((acquire daemon (pos 1) ≡ (none, daemon))
          ⊎ ((i : ℕ) × (e : Entry) × (get_elem? daemon.sockets i ≡ some e)
              × Refused e.tcp_state e)))
    ⊎ ((i : ℕ) × (e : Entry) × (get_elem? daemon.sockets i ≡ some e)
        × (e.tcp_state ≡ listen)
        × (e.actpas_type ≡ passive)
        × (close_begin daemon (pos 1) ≡ freeing i (free_begin daemon i)))
    ⊎ ((i : ℕ) × (e : Entry) × (get_elem? daemon.sockets i ≡ some e)
        × ((e.tcp_state ≡ established)
            ⊎ (e.tcp_state ≡ close_wait)
            ⊎ ((e.tcp_state ≡ listen) × (e.actpas_type ≡ uninitialized)))
        × (close_begin daemon (pos 1)
            ≡ locking i (put_entry daemon i (record e { refcount = e.refcount + 1 }))))
close_begin_lem_example = close_begin_lem daemon (pos 1)

pub usable-connected : usable daemon (pos 1) ≡ some (1, connected)
unfolding usable
usable-connected = refl

usable-listener : usable daemon (pos 0) ≡ some (0, listener)
unfolding usable
usable-listener = refl

send-appends_example :
    (b : Buffer) × (told : Bool) × (send daemon (pos 1) (7 ∷ 8 ∷ [])
      ≡ done 2 (
          put_entry daemon 1 (record connected {
            active = record connected.active {
              tcp_data = record connected.active.tcp_data { send = b };
              flags = record connected.active.flags { app_send = told };
            };
          })))
    × Told connected told
    × IsValid b
    × (contents b ≡ contents send_buffer ++ 7 ∷ 8 ∷ [])
send-appends_example =
    send-appends daemon (pos 1) (7 ∷ 8 ∷ []) 1 connected usable-connected (inr (inr (inl refl)))
      send_buffer-IsValid refl (omega arith) (omega arith) (omega arith)
