-- ===== src/Delivery/Tests.antt =====
-- Segments at concrete inputs.
use chitcp.Base.{◌≡◌, refl, ◌++◌, List, [], ◌∷◌, arith, drop}
use chitcp.Addr.{addr_is_any, addr_cmp, addr_port_cmp, set_addr_port}
use chitcp.Addr.Laws.{IsAddr}
use chitcp.Server.{Segment, Delivery, Server, source_port, dest_port}
use chitcp.Sockets.{lookup, wildcards, release}
use chitcp.Sockets.Tests.{server, local_addr, peer_addr}
use chitcp.Delivery.{
  Time, duplicate, recv_tcp_segment, local_of, remote_of, delivery_of, receive, has_segments,
  deliver_due,
}
use chitcp.Delivery.Tally.{tally}
use chitcp.Delivery.Recv.{Received, recv_tcp_segment-Received}
use chitcp.Delivery.Order.{receive-no_overtaking}

-- From port 8 to port 4.
abbrev syn : Segment
syn = 0 ∷ 8 ∷ 0 ∷ 4 ∷ []

abbrev now : Time
now = record { sec = 10; nsec = 999999999 }

abbrev later : Time
later = record { sec = 11; nsec = 0 }

recv_tcp_segment-Received_example :
    Received
      (λ s. 1)
      server
      (recv_tcp_segment server now duplicate syn local_addr peer_addr)
      duplicate
      syn
      (local_of syn local_addr)
      (remote_of syn peer_addr)
recv_tcp_segment-Received_example =
    recv_tcp_segment-Received (λ s. 1) server now duplicate syn local_addr peer_addr

duplicated : tally (λ s. 1) (recv_tcp_segment server now duplicate syn local_addr peer_addr).1 ≡ 2
unfolding recv_tcp_segment lookup wildcards addr_cmp addr_port_cmp addr_is_any set_addr_port
    source_port dest_port release has_segments
duplicated = refl

abbrev slow : Server
slow = record server { latency_ns = 1 }

abbrev queued : Delivery
queued = record {
  tcp_segment = syn;
  time_sec = 11;
  time_nsec = 0;
  local_addr = local_addr;
  remote_addr = peer_addr;
}

abbrev waiting : List Delivery
waiting = queued ∷ record queued { time_sec = 12 } ∷ []

one_due : (deliver_due (λ k. later) 0 server waiting).delivery_queue ≡ drop 1 waiting
unfolding deliver_due
one_due = refl

local_addr-IsAddr : IsAddr local_addr
local_addr-IsAddr = ground arith

peer_addr-IsAddr : IsAddr peer_addr
peer_addr-IsAddr = ground arith

receive-no_overtaking_example :
    receive (record server { delivery_queue = waiting }) 1 now syn local_addr peer_addr
    ≡ record server {
      delivery_queue =
          waiting
          ++ delivery_of (record server { delivery_queue = waiting }) now syn local_addr peer_addr
            ∷ [];
    }
receive-no_overtaking_example =
    receive-no_overtaking (record server { delivery_queue = waiting }) 1 now syn local_addr
      peer_addr 0 queued local_addr-IsAddr peer_addr-IsAddr refl refl refl
