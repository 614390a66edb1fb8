-- ===== src/Delivery.antt =====
-- chitcpd/connection.c: what becomes of a segment that arrives: withheld, queued for later, or handed to
-- a socket. The answer of the debug monitor and the readings of the clock are arguments.
pub mod Tally
pub mod Recv
pub mod Running
pub mod Order
mod Tests
use chitcp.Base.{
  ℕ, zero, suc, ◌+◌, ◌-◌, ◌*◌, ◌/◌, ◌%◌, ◌^◌, Bool, true, false, ◌&&◌, ◌||◌, List, [], ◌∷◌, ◌++◌,
  Option, none, some, ltb, leb, ◌==◌, if◌then◌else◌, get_elem?,
}
use chitcp.Types.{Retcode, ok, esocket, active, passive, uninitialized}
use chitcp.Addr.{Addr, set_addr_port, addr_cmp, addr_port_cmp}
use chitcp.Server.{
  Segment, source_port, dest_port, Entry, Pending, Withheld, Delivery, Server, starting, stopping,
}
use chitcp.Sockets.{change, lookup, release}

-- `enum chitcpd_debug_response`
pub data Response : Type 0 where
  none_resp stop accept_monitor drop duplicate withhold draw_withheld : Response

-- A reading of `CLOCK_REALTIME`.
pub record Time : Type 0 where
  pub sec : ℕ
  pub nsec : ℕ

abbrev pub second : ℕ
second = 1000000000

-- An active socket queues the segment and notes the event; a passive one queues a pending connection.
pub deliver_to : Segment → Addr → Addr → Entry → Entry
deliver_to s l r e = elim e.actpas_type [
  | active ↦
      let a = e.active in
      let tcp = record a.tcp_data { pending_segments = a.tcp_data.pending_segments ++ s ∷ [] } in
      let flags = record a.flags { net_recv = true } in
      record e { active = record a { tcp_data = tcp; flags = flags } }
  | passive ↦
      let p = e.passive in
      let new : Pending = record { initial_segment = s; local_addr = l; remote_addr = r } in
      record e { passive = record p { pending_connections = p.pending_connections ++ new ∷ [] } }
  | uninitialized ↦ e
]

-- `chitcpd_deliver_segment`, less its log.
pub deliver : Server → ℕ → Segment → Addr → Addr → Server
unfolding deliver_to
deliver si i s l r = change si i (deliver_to s l r)

-- A socket was found, or not: then the segment is freed.
pub deliver_found : Option ℕ × Server → Segment → Addr → Addr → Server
unfolding deliver
deliver_found (none, si) s l r = si
deliver_found (some i, si) s l r = release (deliver si i s l r) i

-- `chitcpd_lookup_and_deliver_segment`
pub lookup_and_deliver : Server → Segment → Addr → Addr → Server
unfolding deliver_found
lookup_and_deliver si s l r = deliver_found (lookup si l r false) s l r

-- The time of delivery: the clock's and the latency.
pub delivery_time : Time → ℕ → Time
delivery_time now latency_ns =
    let sec = now.sec + latency_ns / second in
    let nsec = now.nsec + latency_ns % second in
    if leb second nsec
    then record { sec = sec + 1; nsec = nsec - second }
    else record { sec = sec; nsec = nsec }

pub delivery_of : Server → Time → Segment → Addr → Addr → Delivery
delivery_of si now s l r =
    let t = delivery_time now si.latency_ns in
    record {
      tcp_segment = s;
      time_sec = t.sec;
      time_nsec = t.nsec;
      local_addr = l;
      remote_addr = r;
    }

-- `chitcpd_queue_segment_delivery`
unfoldable pub queue : Server → Time → Segment → Addr → Addr → Server
queue si now s l r = record si {
  delivery_queue = si.delivery_queue ++ delivery_of si now s l r ∷ [];
}

pub same_connection : Addr → Addr → Delivery → Bool
same_connection l r d =
    addr_cmp d.local_addr l == 0
    && addr_port_cmp d.local_addr l == 0
    && addr_cmp d.remote_addr r == 0
    && addr_port_cmp d.remote_addr r == 0

-- `chitcpd_delivery_queue_has_segments`
pub has_segments : List Delivery → Addr → Addr → Bool
unfolding same_connection
has_segments [] l r = false
has_segments (d ∷ ds) l r = same_connection l r d || has_segments ds l r

-- Take the first withheld segment off a socket's list.
pub draw : Server → ℕ → Option Withheld × Server
draw si i = elim (get_elem? si.sockets i) [
  | none ↦ (none, si)
  | some e ↦ elim e.withheld_segments [
    | [] ↦ (none, si)
    | w ∷ ws ↦ (some w, change si i (λ x. record x { withheld_segments = ws }))
  ]
]

unfoldable pub queue_drawn : Option Withheld × Server → Time → Server
unfolding queue
queue_drawn (none, si) now = si
queue_drawn (some w, si) now = queue si now w.segment w.local_addr w.remote_addr

-- `chitcpd_draw_withheld_segment`
unfoldable pub draw_withheld_segment : Server → ℕ → Time → Server
unfolding draw queue_drawn
draw_withheld_segment si i now = queue_drawn (draw si i) now

-- The parts of `chitcpd_recv_tcp_segment`. A copy goes to the socket's withheld list:
pub withhold_segment : Server → ℕ → Segment → Addr → Addr → Bool → Server
withhold_segment si i s l r copied =
    let w : Withheld = record {
      segment = s;
      duplicate = copied;
      local_addr = l;
      remote_addr = r;
    } in
    change si i (λ e. record e { withheld_segments = e.withheld_segments ++ w ∷ [] })

-- the segment itself is delivered now or later:
pub receive : Server → ℕ → Time → Segment → Addr → Addr → Server
unfolding queue deliver
receive si i now s l r =
    if ltb 0 si.latency_ns || has_segments si.delivery_queue l r
    then queue si now s l r
    else deliver si i s l r

-- and so is the segment that was drawn, if any.
pub receive_drawn : Server → Time → Option Withheld → Server
unfolding queue lookup_and_deliver
receive_drawn si now none = si
receive_drawn si now (some w) =
    if ltb 0 si.latency_ns
    then queue si now w.segment w.local_addr w.remote_addr
    else lookup_and_deliver si w.segment w.local_addr w.remote_addr

-- What happens at the monitor's answer, before the reference is released.
pub respond : Server → ℕ → Time → Response → Segment → Addr → Addr → Server
unfolding withhold_segment receive receive_drawn draw
respond si i now none_resp s l r = receive si i now s l r
respond si i now stop s l r = si
respond si i now accept_monitor s l r = si
respond si i now drop s l r = si
respond si i now duplicate s l r = receive (withhold_segment si i s l r true) i now s l r
respond si i now withhold s l r = withhold_segment si i s l r false
respond si i now draw_withheld s l r =
    let d = draw si i in receive_drawn (receive d.1 i now s l r) now d.0

-- The socket that was found, which holds a reference now.
pub recv_at : Server → ℕ → Time → Response → Segment → Addr → Addr → Entry → Retcode × Server
unfolding respond
recv_at si i now resp s l r e = elim e.actpas_type [
  | uninitialized ↦ (esocket, release si i)
  | active ↦ (ok, release (respond si i now resp s l r) i)
  | passive ↦ (ok, release (respond si i now resp s l r) i)
]

pub recv_found : Option ℕ × Server → Time → Response → Segment → Addr → Addr → Retcode × Server
unfolding recv_at
recv_found (none, si) now resp s l r = (esocket, si)
recv_found (some i, si) now resp s l r = elim (get_elem? si.sockets i) [
  | none ↦ (esocket, si)
  | some e ↦ recv_at si i now resp s l r e
]

-- The addresses of a segment: the daemons', with the ports of the header.
abbrev pub local_of : Segment → Addr → Addr
local_of s local_real = set_addr_port local_real (dest_port s)

abbrev pub remote_of : Segment → Addr → Addr
remote_of s peer_real = set_addr_port peer_real (source_port s)

-- `chitcpd_recv_tcp_segment`
pub recv_tcp_segment : Server → Time → Response → Segment → Addr → Addr → Retcode × Server
unfolding recv_found
recv_tcp_segment si now resp s local_real peer_real =
    let l = local_of s local_real in
    let r = remote_of s peer_real in recv_found (lookup si l r false) now resp s l r

-- The test of the delivery thread: is it time to deliver?
pub is_due : Time → Delivery → Bool
is_due now d = ltb d.time_sec now.sec || now.sec == d.time_sec && leb d.time_nsec now.nsec

-- The inner loop of `chitcpd_segment_delivery_thread_func`, on the queue and a clock with a reading for
-- each round. The thread holds the queue's lock, so nobody else changes the queue.
pub deliver_due : (ℕ → Time) → ℕ → Server → List Delivery → Server
unfolding lookup_and_deliver is_due
deliver_due clock k si [] = record si { delivery_queue = [] }
deliver_due clock k si (d ∷ ds) =
    let rest =
      deliver_due clock (k + 1) (lookup_and_deliver si d.tcp_segment d.local_addr d.remote_addr)
        ds in
    if is_due (clock k) d then rest else record si { delivery_queue = d ∷ ds }
