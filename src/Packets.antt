-- ===== src/Packets.antt =====
-- chitcpd/connection.c: segments on their way between two daemons, in packets on a TCP connection of
-- the hosts. `send` and `recv` of the host are arguments, over a state of the world that is theirs.
pub mod Sending
pub mod Receiving
pub mod Arrival
pub mod Tests
use chitcp.Base.{
  ℕ, zero, suc, ◌+◌, ◌-◌, ◌^◌, ◌%◌, List, Bool, true, false, Option, none, some, ltb, leb, ◌==◌,
  if◌then◌else◌, length, get_or, set, take, drop, replicate, copy_at, [], ◌∷◌,
}
use chitcp.Addr.{Addr, ntohs}
use chitcp.Server.{Segment, Server, DaemonState, ready, starting, running, stopping, stopped}
use chitcp.Types.{Retcode}
use chitcp.Delivery.{
  Time, Response, none_resp, stop, accept_monitor, duplicate, withhold, draw_withheld,
  recv_tcp_segment,
}
use chitcp.Segments.{get16, put16}

-- `sizeof(chitcphdr_t)` and `CHITCP_PROTO_TCP`
abbrev pub packet_header_size : ℕ
packet_header_size = 16

abbrev pub proto_tcp : ℕ
proto_tcp = 1

-- The packet of a segment: 16 bits of its length, the protocol, cleared bytes, then the segment.
unfoldable pub full_packet : Segment → List ℕ
full_packet s =
    let header =
      put16 (replicate (packet_header_size + length s) 0) 0 (ntohs (length s % 2 ^ 16)) in
    copy_at (set header 2 proto_tcp) packet_header_size s

-- What `send` and `recv` answer: a count (and the bytes), or -1.
pub data Sent : Type 0 where
  took : ℕ → Sent
  send_error : Sent

pub data Received : Type 0 where
  got : List ℕ → Received
  recv_error : Received

pub data SendOutcome : Type 0 where
  returned : ℕ → SendOutcome
  gave_up : SendOutcome
  -- the `assert` on the count ends the daemon
  aborted : SendOutcome
  out_of_fuel : SendOutcome

-- A length as `int nleft` keeps it; with a negative one the loop has no round, as with 0.
unfoldable pub left_of : ℕ → ℕ
left_of n = let k = n % 2 ^ 32 in if ltb k (2 ^ 31) then k else 0

-- The loop of `chitcpd_send_tcp_segment` on the bytes that are left, of which there are below 2 ^ 31: the
-- host takes no more than it is given, so its count fits `int nbytes`.
unfoldable pub send_loop :
    {W : Type 0} → (W → List ℕ → Sent × W) → ℕ → W → List ℕ → ℕ → SendOutcome × W
send_loop send fuel w [] written = (returned written, w)
send_loop send zero w (b ∷ bs) written = (out_of_fuel, w)
send_loop send (suc fuel) w (b ∷ bs) written =
    let (r, w') = send w (b ∷ bs) in
    elim r [
      | send_error ↦ (gave_up, w')
      | took zero ↦ (gave_up, w')
      | took (suc n) ↦ send_loop send fuel w' (drop n bs) (written + suc n)
    ]

-- The end of `chitcpd_send_tcp_segment`: the `assert`, and the length of the segment, without the packet's
-- header
unfoldable pub conclude : {W : Type 0} → Segment → SendOutcome × W → SendOutcome × W
conclude s (returned n, w) =
    (if n == packet_header_size + length s then returned (length s) else aborted, w)
conclude s (gave_up, w) = (gave_up, w)
conclude s (aborted, w) = (aborted, w)
conclude s (out_of_fuel, w) = (out_of_fuel, w)

-- `chitcpd_send_tcp_segment`, with the answer of the debug monitor. Each round of the loop sends a byte
-- at least, so there are as many rounds as bytes at most.
pub send_all : {W : Type 0} → (W → List ℕ → Sent × W) → W → Segment → SendOutcome × W
unfolding send_loop full_packet conclude left_of
send_all send w s =
    let packet = full_packet s in
    conclude s (send_loop send (length packet) w (take (left_of (length packet)) packet) 0)

pub send_tcp_segment :
    {W : Type 0} → (W → List ℕ → Sent × W) → Response → W → Segment → SendOutcome × W
unfolding send_all
send_tcp_segment send r w s = elim r [
  | Response.drop ↦ (returned (length s), w)
  | none_resp ↦ send_all send w s
  | stop ↦ send_all send w s
  | accept_monitor ↦ send_all send w s
  | duplicate ↦ send_all send w s
  | withhold ↦ send_all send w s
  | draw_withheld ↦ send_all send w s
]

-- The thread of a connection: its variables `chitcp_header` and `buf`, and the world.
pub record Receiver (W : Type 0) : Type 0 where
  pub header : List ℕ
  pub buf : List ℕ
  pub world : W

-- `sizeof(buf)`
abbrev pub buf_size : ℕ
buf_size = 1000

pub data Verdict : Type 0 where
  -- the next round of the loop
  goes_on : Verdict
  -- the socket is closed, and the thread ends
  finished exits : Verdict
  -- writes or reads past the end of `buf`
  overruns : Verdict

abbrev pub is_stopping : DaemonState → Bool
is_stopping ready = false
is_stopping starting = false
is_stopping running = false
is_stopping stopping = true
is_stopping stopped = false

abbrev pub is_zero : ℕ → Bool
is_zero zero = true
is_zero (suc n) = false

-- The parts of a round of `chitcpd_connection_thread_func`: the segment that `recv` brought,
unfoldable pub with_payload :
    {W : Type 0}
    → Server
    → Time
    → Response
    → Addr
    → Addr
    → ℕ
    → Receiver W
    → Received
    → Verdict × Server × Receiver W
with_payload si now resp l r len rx recv_error = (exits, si, rx)
with_payload si now resp l r len rx (got bs) =
    if is_zero (length bs)
    then (finished, si, rx)
    else if ltb buf_size len
    then (overruns, si, rx)
    else let buf = copy_at rx.buf 0 bs in
      (goes_on, (recv_tcp_segment si now resp (take len buf) l r).1, record rx { buf = buf })

-- the header that stands in `chitcp_header` and says how long the segment is,
unfoldable pub with_header :
    {W : Type 0}
    → (W → ℕ → Received × W)
    → Server
    → Time
    → Response
    → Addr
    → Addr
    → Receiver W
    → Verdict × Server × Receiver W
unfolding with_payload
with_header recv si now resp l r rx =
    let len = ntohs (get16 rx.header 0) in
    let b = recv rx.world len in
    if is_stopping si.state
    then (goes_on, si, rx)
    else if get_or rx.header 2 0 == proto_tcp
    then with_payload si now resp l r len (record rx { world = b.1 }) b.0
    else (finished, si, rx)

-- and the header that `recv` brought.
unfoldable pub with_bytes :
    {W : Type 0}
    → (W → ℕ → Received × W)
    → Server
    → Time
    → Response
    → Addr
    → Addr
    → Receiver W
    → Received
    → Verdict × Server × Receiver W
unfolding with_header
with_bytes recv si now resp l r rx recv_error = (exits, si, rx)
with_bytes recv si now resp l r rx (got bs) =
    if is_zero (length bs)
    then (finished, si, rx)
    else with_header recv si now resp l r (record rx { header = copy_at rx.header 0 bs })

-- A round of `chitcpd_connection_thread_func`
pub round :
    {W : Type 0}
    → (W → ℕ → Received × W)
    → Server
    → Time
    → Response
    → Addr
    → Addr
    → Receiver W
    → Verdict × Server × Receiver W
unfolding with_bytes
round recv si now resp l r rx =
    let (b, w') = recv rx.world packet_header_size in
    with_bytes recv si now resp l r (record rx { world = w' }) b

-- `while (!done)`, with the rest of the loop
pub next :
    {W : Type 0}
    → (Server → Receiver W → Verdict × Server × Receiver W)
    → Verdict × Server × Receiver W
    → Verdict × Server × Receiver W
next go (goes_on, si, rx) = go si rx
next go (finished, si, rx) = (finished, si, rx)
next go (exits, si, rx) = (exits, si, rx)
next go (overruns, si, rx) = (overruns, si, rx)

-- The thread, for so many rounds at most, with the clock and the monitor's answer of each.
pub rounds :
    {W : Type 0}
    → (W → ℕ → Received × W)
    → (ℕ → Time)
    → (ℕ → Response)
    → Addr
    → Addr
    → ℕ
    → ℕ
    → Server
    → Receiver W
    → Verdict × Server × Receiver W
unfolding round next
rounds recv clock resps l r k zero si rx = (goes_on, si, rx)
rounds recv clock resps l r k (suc n) si rx =
    next (rounds recv clock resps l r (k + 1) n) (round recv si (clock k) (resps k) l r rx)
