-- ===== src/Handlers/Wait.antt =====
-- The handlers of the debugging interface for `chitcpd_wait_for_state` and
-- `chitcpd_get_socket_buffer_contents`. That memory runs out is left out.
pub mod Laws
use chitcp.Base.{
  ℕ, Bool, true, false, not, ◌&&◌, List, [], Option, none, some, leb, ◌==◌, if◌then◌else◌,
  get_elem?, ℤ,
}
use chitcp.Types.{active}
use chitcp.Buffer.{Buffer, ReadOutcome, peek, count}
use chitcp.Server.{Server, Entry}
use chitcp.Sockets.{acquire, release, in_table}
use chitcp.Handlers.{
  Outcome, failed, done, waits, out_of_bounds, ebadf, einval, enotconn, state_code, is_type, usable,
}

-- The loop on `cv_tcp_state` and what follows it; `s` is the number of a state.
pub wait_resume : Server → ℕ → ℕ → Outcome
wait_resume si i s = elim (get_elem? si.sockets i) [
  | none ↦ out_of_bounds
  | some e ↦
      if state_code e.tcp_state == s
      then done 0 (release si i)
      else if e.freeing
      then failed enotconn (release si i)
      else waits 0 si
]

-- `here` says whether the descriptor is in the table.
pub wait_found : Option ℕ × Server → Bool → ℕ → Outcome
unfolding wait_resume
wait_found (none, si) here s = if s == 0 && here then done 0 si else failed ebadf si
wait_found (some i, si) here s = elim (get_elem? si.sockets i) [
  | none ↦ out_of_bounds
  | some e ↦
      if not (is_type e.actpas_type active) then failed ebadf (release si i) else wait_resume si i s
]

abbrev pub is_some : Option ℕ → Bool
is_some none = false
is_some (some i) = true

-- Handler for `chitcpd_wait_for_state`; `tcp_state_t` is unsigned.
pub wait_for_state : Server → ℤ → ℕ → Outcome
unfolding wait_found
wait_for_state si fd s =
    if not (leb s 10)
    then failed einval si
    else wait_found (acquire si fd) (is_some (in_table si fd)) s

-- `ChitcpdSocketState`: the state's number, then ISS, IRS, SND.UNA, RCV.NXT, SND.NXT, RCV.WND, SND.WND.
pub record SocketState : Type 0 where
  pub tcp_state : ℕ
  pub iss : ℕ
  pub irs : ℕ
  pub snd_una : ℕ
  pub rcv_nxt : ℕ
  pub snd_nxt : ℕ
  pub rcv_wnd : ℕ
  pub snd_wnd : ℕ

-- Handler for `chitcpd_get_socket_state`. `none`: EBADF.
pub get_socket_state : Server → ℤ → Option SocketState
get_socket_state si fd = elim (usable si fd) [
  | none ↦ none
  | some x ↦
      let tcp = x.1.active.tcp_data in
      if is_type x.1.actpas_type active
      then some (record {
        tcp_state = state_code x.1.tcp_state;
        iss = tcp.iss;
        irs = tcp.irs;
        snd_una = tcp.snd_una;
        rcv_nxt = tcp.rcv_nxt;
        snd_nxt = tcp.snd_nxt;
        rcv_wnd = tcp.rcv_wnd;
        snd_wnd = tcp.snd_wnd;
      })
      else none
]

-- A buffer's bytes: a peek of all of them, if there are any.
pub peeked : Buffer → ReadOutcome → List ℕ
peeked b (ReadOutcome.failed c b') = []
peeked b (ReadOutcome.waits b') = []
peeked b (ReadOutcome.got n bytes b') = bytes

pub all_bytes : Buffer → List ℕ
unfolding peeked
all_bytes b = if count b == 0 then [] else peeked b (peek b true (count b) false)

-- Handler for `chitcpd_get_socket_buffer_contents`: what is to send and what to receive. `none`: EBADF.
pub buffer_contents : Server → ℤ → Option (List ℕ × List ℕ)
unfolding all_bytes
buffer_contents si fd = elim (usable si fd) [
  | none ↦ none
  | some x ↦
      let tcp = x.1.active.tcp_data in
      if is_type x.1.actpas_type active then some (all_bytes tcp.send, all_bytes tcp.recv) else none
]
