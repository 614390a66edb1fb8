-- ===== src/Debugger.antt =====
-- libchitcp/debug_api.c: the client's side of the debugging interface, and the thread that passes the
-- daemon's events on to the client's handler. What the handler is told of a socket's state is left out.
pub mod Handshake
pub mod Events
pub mod Requests
mod Tests
use chitcp.Base.{
  ℕ, zero, suc, Bool, true, false, not, List, [], ◌∷◌, ◌++◌, Option, none, some, if◌then◌else◌,
  ◌&&◌, ◌||◌, ◌==◌, ℤ, pos, negsuc, length, take,
}
use chitcp.Handlers.Wait.{SocketState}
use chitcp.Client.{
  Msg, Host, Thread, Told, said, unsaid, aborted, is_0, is_negative, tell, get_socket, call,
  chitcpd_connect, Result, conclude, enomem,
}

-- `chitcpd_wait_for_state`
pub chitcpd_wait_for_state : {W : Type 0} → Host W → Thread W → ℤ → ℕ → Result × Thread W
chitcpd_wait_for_state h t sockfd state = conclude (call h t (Msg.wait_for_state sockfd state))

-- `debug_socket_state_t`; what `malloc` left in `send_len` and `recv_len` without buffers is left out.
pub record Contents : Type 0 where
  pub send : List ℕ
  pub send_len : ℕ
  pub recv : List ℕ
  pub recv_len : ℕ

pub record DebugState : Type 0 where
  pub tcp_state : ℕ
  pub iss : ℕ
  pub irs : ℕ
  pub snd_una : ℕ
  pub rcv_nxt : ℕ
  pub snd_nxt : ℕ
  pub rcv_wnd : ℕ
  pub snd_wnd : ℕ
  pub contents : Option Contents

-- What `chitcpd_get_socket_state` returns: a state, or NULL.
pub data Known : Type 0 where
  state : DebugState → Known
  null aborts : Known

-- The copy of the state, field by field
pub copied : SocketState → DebugState
copied s = record {
  tcp_state = s.tcp_state;
  iss = s.iss;
  irs = s.irs;
  snd_una = s.snd_una;
  rcv_nxt = s.rcv_nxt;
  snd_nxt = s.snd_nxt;
  rcv_wnd = s.rcv_wnd;
  snd_wnd = s.snd_wnd;
  contents = none;
}

-- The copies of the buffers; the answer has the bytes to send first.
pub with_contents : DebugState → List ℕ × List ℕ → DebugState
with_contents ret (snd, rcv) =
    let recv_len = length rcv in
    let send_len = length snd in
    record ret {
      contents = some record {
        send = take send_len snd;
        send_len = send_len;
        recv = take recv_len rcv;
        recv_len = recv_len;
      };
    }

-- The answer about the buffers, and whether there is memory for them
pub with_buffers : {W : Type 0} → Bool → DebugState → Told × Thread W → Known × Thread W
unfolding with_contents
with_buffers room ret (said r, t) =
    if is_0 r.ret
    then elim r.socket_buffer_contents [
      | none ↦ (aborts, t)
      | some c ↦ (if room then state (with_contents ret c) else null, t)
    ]
    else (null, record t { errno = r.error_code })
with_buffers room ret (unsaid rc, t) = (null, t)
with_buffers room ret (aborted, t) = (aborts, t)

-- The answer about the state
pub with_state : {W : Type 0} → Host W → Bool → ℤ → ℤ → Bool → Told × Thread W → Known × Thread W
unfolding with_buffers copied
with_state h room fd sockfd include_buffers (said r, t) =
    if is_0 r.ret
    then elim r.socket_state [
      | none ↦ (aborts, t)
      | some s ↦
          if include_buffers
          then with_buffers room (copied s) (tell h t fd (Msg.get_socket_buffer_contents sockfd))
          else (state (copied s), t)
    ]
    else (null, record t { errno = r.error_code })
with_state h room fd sockfd include_buffers (unsaid rc, t) = (null, t)
with_state h room fd sockfd include_buffers (aborted, t) = (aborts, t)

-- The descriptor may be an error of `chitcpd_get_socket`: it is not tested.
pub state_on :
    {W : Type 0} → Host W → Bool → Bool → ℤ → Bool → Option ℤ × Thread W → Known × Thread W
unfolding with_state
state_on h memory room sockfd include_buffers (none, t) = (aborts, t)
state_on h memory room sockfd include_buffers (some fd, t) =
    if memory
    then with_state h room fd sockfd include_buffers (tell h t fd (Msg.get_socket_state sockfd))
    else (null, t)

-- `chitcpd_get_socket_state`, with whether there is memory for the state and for the buffers
pub chitcpd_get_socket_state :
    {W : Type 0} → Host W → Bool → Bool → Thread W → ℤ → Bool → Known × Thread W
unfolding state_on
chitcpd_get_socket_state h memory room t sockfd include_buffers =
    state_on h memory room sockfd include_buffers (get_socket h t)

-- What becomes of `chitcpd_debug`: a thread reads events from the daemon's connection; or it fails, after
-- it has closed a descriptor of the host or none.
pub data Debugging : Type 0 where
  watches : ℕ → Debugging
  fails : Option ℤ → Debugging
  aborts : Debugging

pub debug_told : {W : Type 0} → Bool → Option ℤ → ℤ → ℕ → Told × Thread W → Debugging × Thread W
debug_told memory thread_error sockfd fd (said r, t) =
    let t' = record t { errno = r.error_code } in
    if is_negative r.ret
    then (fails (some sockfd), t')
    else if memory
    then elim thread_error [
      | none ↦ (watches fd, t')
      | some c ↦ (fails (some sockfd), record t' { errno = c })
    ]
    else (fails (some sockfd), record t' { errno = enomem })
debug_told memory thread_error sockfd fd (unsaid rc, t) = (fails none, t)
debug_told memory thread_error sockfd fd (aborted, t) = (aborts, t)

pub debug_on :
    {W : Type 0} → Host W → Bool → Option ℤ → Thread W → ℤ → ℕ → ℤ × W → Debugging × Thread W
unfolding debug_told
debug_on h memory thread_error t sockfd flags (pos fd, w) =
    debug_told memory thread_error sockfd fd
      (tell h (record t { host = w }) (pos fd) (Msg.init_debug sockfd flags))
debug_on h memory thread_error t sockfd flags (negsuc n, w) = (fails none, record t { host = w })

-- `chitcpd_debug`, with whether there is memory for the thread's arguments, and the error of its creation
pub chitcpd_debug :
    {W : Type 0} → Host W → Bool → Option ℤ → Thread W → ℤ → ℕ → Debugging × Thread W
unfolding debug_on
chitcpd_debug h memory thread_error t sockfd flags =
    debug_on h memory thread_error t sockfd flags (chitcpd_connect h t.host)
