-- ===== src/Handlers/Openings.antt =====
-- Accepting, connecting and leaving at concrete inputs.
use chitcp.Base.{
  ℕ, ◌≤◌, ◌≡◌, ◌≢◌, refl, ◌⊎◌, true, false, [], ◌∷◌, some, none, arith, get_elem?, set, zero, suc,
  ℤ,
}
use chitcp.Server.{Entry, Server, Pending, free_entry}
use chitcp.Sockets.{acquire, allocate, release, put_entry}
use chitcp.Sockets.Tests.{server, listener, accepted, local_addr, peer_addr}
use chitcp.Delivery.{none_resp}
use chitcp.Handlers.{waits, enomem}
use chitcp.Handlers.Tests.{fresh, daemon}
use chitcp.Handlers.Accept.{accept_take, waits_open, Accepting}
use chitcp.Handlers.Accept.Laws.{IsChild, accept_take_lem}
use chitcp.Handlers.Connect.{connect_start}
use chitcp.Handlers.Connect.Laws.{IsConnecting, connect_start_lem}
use chitcp.Handlers.Leave.{leave, skips}
use chitcp.Handlers.Leave.Laws.{Left, leave_lem}

abbrev pending : Pending
pending = record { initial_segment = 1 ∷ 2 ∷ []; local_addr = local_addr; remote_addr = peer_addr }

abbrev busy : Entry
busy = record listener { passive = record listener.passive { pending_connections = pending ∷ [] } }

-- A listener with a pending connection, a connection, and a free slot.
abbrev hall : Server
hall = record server { sockets = busy ∷ accepted ∷ free_entry ∷ [] }

hall_sound :
    (j : ℕ) (x : Entry) → get_elem? hall.sockets j ≡ some x → x.available ≡ true → x.freeing ≡ false
hall_sound zero x g a = ground arith
hall_sound (suc zero) x g a = ground arith
hall_sound (suc (suc zero)) x g a = ground arith
hall_sound (suc (suc (suc j))) x g a = cc (g)

accept_take_lem_example :
    let e' : Entry = record busy { passive = record busy.passive { pending_connections = [] } } in
    let taken = put_entry hall 0 e' in
    let o = accept_take hall 7 true 0 busy (pending ∷ []) in
    ((o ≡ Accepting.failed enomem (release taken 0)) × (allocate taken 7 ≡ (none, taken)))
    ⊎ ((j : ℕ) × (x : Entry) × (c : Entry) × (s' : Server) × (o ≡ waits_open 0 j s')
        × (get_elem? hall.sockets j ≡ some x)
        × (x.available ≡ true)
        × (get_elem? s'.sockets 0 ≡ some e')
        × (get_elem? s'.sockets j ≡ some c)
        × IsChild 0 busy pending c
        × ((k : ℕ) → k ≢ 0 → k ≢ j → get_elem? s'.sockets k ≡ get_elem? hall.sockets k))
accept_take_lem_example = accept_take_lem hall 7 true 0 busy pending [] refl refl refl hall_sound

connect_start_lem_example :
    (p : ℕ) × (c : Entry) × (s' : Server) × (connect_start (none, daemon) true 2 peer_addr
      ≡ waits 0 s')
    × (daemon.ephemeral_port_start ≤ p)
    × (get_elem? daemon.ports p ≡ some none)
    × (s'.ports ≡ set daemon.ports p (some 2))
    × (get_elem? s'.sockets 2 ≡ some c)
    × IsConnecting peer_addr p fresh c
    × ((k : ℕ) → 2 ≢ k → get_elem? s'.sockets k ≡ get_elem? daemon.sockets k)
connect_start_lem_example =
    connect_start_lem none daemon true 2 peer_addr fresh refl refl refl (cc) (omega arith) 6
      (omega arith) refl

leave_lem_example :
    ((acquire daemon (ℤ.pos 2) ≡ (none, daemon))
      × (leave daemon 0 2 none_resp (record { sec = 1; nsec = 0 }) ≡ skips daemon))
    ⊎ ((e : Entry) × (get_elem? daemon.sockets 2 ≡ some e)
        × (e.available ≡ false)
        × (e.freeing ≡ false)
        × Left daemon 0 2 none_resp
            (record { sec = 1; nsec = 0 })
            e
            (leave daemon 0 2 none_resp (record { sec = 1; nsec = 0 })))
leave_lem_example = leave_lem daemon 0 2 none_resp (record { sec = 1; nsec = 0 })
