-- ===== src/Handlers/Close.antt =====
-- The handler for `chisocket_close`: its checks, the signal to the socket's thread, and its wait.

pub mod Laws
use chitcp.Base.{
  ℕ, Bool, true, false, not, ◌&&◌, ◌||◌, Option, none, some, ltb, if◌then◌else◌, get_elem?, ℤ, ◌==◌,
}
use chitcp.Types.{
  TcpState, closed, listen, syn_rcvd, syn_sent, established, fin_wait_1, fin_wait_2, close_wait,
  closing, time_wait, last_ack, active, passive,
}
use chitcp.Server.{Server, Entry}
use chitcp.Sockets.{acquire, release, free_begin, change, put_entry}
use chitcp.Handlers.{
  Outcome, done, waits, out_of_bounds, Errno, ebadf, enotconn, eopnotsupp, is_state, is_type, raise,
}

-- What the checks decide: an error, to free a passive socket, or to signal the socket's thread.
pub data Verdict : Type 0 where
  refuses : Errno → Verdict
  frees signals : Verdict

pub verdict : TcpState → Entry → Verdict
verdict s e =
    if is_state s closed
    then refuses enotconn
    else if is_state s listen && is_type e.actpas_type passive
    then frees
    else if is_state s listen && is_type e.actpas_type active
    then refuses eopnotsupp
    else if is_state s syn_sent
    then refuses eopnotsupp
    else if is_state s syn_rcvd
    then refuses eopnotsupp
    else if is_state s fin_wait_1
        || is_state s fin_wait_2
        || is_state s closing
        || is_state s last_ack
        || is_state s time_wait
    then refuses enotconn
    else signals

-- The handler is done with an error, goes on to free the socket, which waits for its references, or
-- goes on to take the socket's lock with its reference.
pub data Begun : Type 0 where
  failed : Errno → Server → Begun
  freeing : ℕ → Server → Begun
  locking : ℕ → Server → Begun

pub act : Server → ℕ → Verdict → Begun
act si i (refuses e) = failed e (release si i)
act si i frees = freeing i (free_begin (release si i) i)
act si i signals = locking i si

pub close_found : Option ℕ × Server → Begun
unfolding verdict act
close_found (none, si) = failed ebadf si
close_found (some i, si) = elim (get_elem? si.sockets i) [
  | none ↦ failed ebadf si
  | some e ↦ act si i (verdict e.tcp_state e)
]

pub close_begin : Server → ℤ → Begun
unfolding close_found
close_begin si fd = close_found (acquire si fd)

-- After a wait, in the state that the wait ended with.
pub close_end : Server → ℕ → TcpState → Outcome
close_end si i s =
    if is_state s closed
      || is_state s fin_wait_2
      || is_state s closing
      || is_state s time_wait
      || is_state s last_ack
    then done 0 (release si i)
    else Outcome.failed ebadf (release si i)

-- The two loops' tests: which states end the wait that began in `ESTABLISHED` or in `CLOSE_WAIT`.
pub ends_wait : TcpState → TcpState → Bool
ends_wait from s =
    if is_state from established
    then is_state s fin_wait_2 || is_state s closing || is_state s time_wait || is_state s closed
    else is_state s last_ack || is_state s closed

-- Waking up, with the state that the wait began in.
pub close_resume : Server → ℕ → TcpState → Outcome
unfolding ends_wait close_end
close_resume si i from = elim (get_elem? si.sockets i) [
  | none ↦ out_of_bounds
  | some e ↦
      if ends_wait from e.tcp_state || e.freeing then close_end si i e.tcp_state else waits 0 si
]

-- With the socket's lock: the signal, and the first look at the state.
pub close_signal : Server → ℕ → Outcome
unfolding close_resume
close_signal si i =
    let si' = change si i (raise (λ f. record f { app_close = true })) in
    elim (get_elem? si.sockets i) [
      | none ↦ out_of_bounds
      | some e ↦
          if is_state e.tcp_state close_wait || is_state e.tcp_state established
          then close_resume si' i e.tcp_state
          else Outcome.failed ebadf (release si' i)
    ]
