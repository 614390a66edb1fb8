-- ===== src/Handlers/Transfer.antt =====
-- The handlers for `chisocket_send` and `chisocket_recv`.

pub mod Laws
use chitcp.Base.{
  ℕ, Bool, true, false, not, ◌&&◌, ◌||◌, List, [], Option, none, some, ltb, leb, if◌then◌else◌,
  get_elem?, ℤ, ◌==◌, length,
}
use chitcp.Types.{
  TcpState, closed, listen, syn_rcvd, syn_sent, established, fin_wait_1, fin_wait_2, close_wait,
  closing, time_wait, last_ack, passive,
}
use chitcp.Buffer.{
  Buffer, WriteOutcome, ReadOutcome, write, write_loop, write_fuel, clipped, read, read_resume,
}
use chitcp.Server.{Server, Entry}
use chitcp.Sockets.{change, put_entry}
use chitcp.Handlers.{
  Outcome, failed, done, gave, waits, out_of_bounds, out_of_fuel, Errno, ebadf, einval, enotconn,
  eopnotsupp, usable, is_state, is_type, raise,
}

abbrev pub with_send : Buffer → Entry → Entry
with_send b e = record e {
  active = record e.active { tcp_data = record e.active.tcp_data { send = b } };
}

abbrev pub with_recv : Buffer → Entry → Entry
with_recv b e = record e {
  active = record e.active { tcp_data = record e.active.tcp_data { recv = b } };
}

-- The checks of the state: `none` lets the handler go on.
pub send_refused : TcpState → Option Errno
send_refused s =
    if is_state s closed
    then some enotconn
    else if is_state s listen
    then some eopnotsupp
    else if is_state s syn_sent
        || is_state s syn_rcvd
        || is_state s established
        || is_state s close_wait
    then none
    else some enotconn

-- The socket's thread is told, unless the socket is still being synchronized.
pub notify_send : Entry → Entry
notify_send e =
    if is_state e.tcp_state established || is_state e.tcp_state close_wait
    then raise (λ f. record f { app_send = true }) e
    else e

-- What the write to the send buffer leaves, when it ends or falls asleep.
pub send_written : Server → ℕ → Entry → WriteOutcome → Outcome
unfolding notify_send
send_written si i e (WriteOutcome.failed c b) = failed einval (put_entry si i (with_send b e))
send_written si i e (WriteOutcome.waits n b) = waits n (put_entry si i (with_send b e))
send_written si i e (WriteOutcome.wrote n b) = done n (put_entry si i (notify_send (with_send b e)))
send_written si i e WriteOutcome.out_of_fuel = out_of_fuel

pub send_entry : Server → ℕ → Entry → List ℕ → Outcome
unfolding send_refused send_written
send_entry si i e bytes = elim (send_refused e.tcp_state) [
  | some c ↦ failed c si
  | none ↦ send_written si i e (write e.active.tcp_data.send bytes (length bytes) true)
]

unfoldable pub send : Server → ℤ → List ℕ → Outcome
unfolding send_entry
send si fd bytes =
    if length bytes == 0
    then failed einval si
    else elim (usable si fd) [ none ↦ failed ebadf si | some x ↦ send_entry si x.0 x.1 bytes ]

-- Waking up in the write, with so many bytes written.
pub send_resume : Server → ℕ → List ℕ → ℕ → Outcome
unfolding send_written
send_resume si i bytes written = elim (get_elem? si.sockets i) [
  | none ↦ out_of_bounds
  | some e ↦
      let b = e.active.tcp_data.send in
      send_written si i e (write_loop write_fuel b bytes (clipped b (length bytes)) written)
]

-- The checks of the state: an error, an end of the data, or nothing against a read.
pub data Check : Type 0 where
  refuses : Errno → Check
  ended reads : Check

pub recv_check : Entry → Check
recv_check e =
    if is_state e.tcp_state closed
    then refuses enotconn
    else if is_state e.tcp_state listen && is_type e.actpas_type passive
    then refuses enotconn
    else if is_state e.tcp_state last_ack
        || is_state e.tcp_state time_wait
        || is_state e.tcp_state closing
    then ended
    else reads

pub notify_recv : Entry → Entry
notify_recv e =
    if is_state e.tcp_state established
      || is_state e.tcp_state fin_wait_1
      || is_state e.tcp_state fin_wait_2
    then raise (λ f. record f { app_recv = true }) e
    else e

-- What the read leaves. A read of 0 bytes says that the buffer has been closed; the `assert` on the
-- state is left out.
unfoldable pub recv_read : Server → ℕ → Entry → ReadOutcome → Outcome
unfolding notify_recv
recv_read si i e (ReadOutcome.failed c b) = failed einval (put_entry si i (with_recv b e))
recv_read si i e (ReadOutcome.waits b) = waits 0 (put_entry si i (with_recv b e))
recv_read si i e (ReadOutcome.got n bytes b) =
    if n == 0
    then done 0 (put_entry si i (with_recv b e))
    else gave n bytes (put_entry si i (notify_recv (with_recv b e)))

unfoldable pub recv_entry : Server → ℕ → Entry → ℕ → Outcome
unfolding recv_check recv_read
recv_entry si i e len = elim (recv_check e) [
  | refuses c ↦ failed c si
  | ended ↦ done 0 si
  | reads ↦ recv_read si i e (read e.active.tcp_data.recv true len true)
]

unfoldable pub recv : Server → ℤ → ℕ → Outcome
unfolding recv_entry
recv si fd len =
    if len == 0
    then failed einval si
    else elim (usable si fd) [ none ↦ failed ebadf si | some x ↦ recv_entry si x.0 x.1 len ]

unfoldable pub recv_wake : Server → ℕ → ℕ → Outcome
unfolding recv_read
recv_wake si i len = elim (get_elem? si.sockets i) [
  | none ↦ out_of_bounds
  | some e ↦ recv_read si i e (read_resume e.active.tcp_data.recv true len 0 false)
]
