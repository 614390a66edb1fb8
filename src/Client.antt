-- ===== src/Client.antt =====
-- The client's side: libchitcp/daemon_api.c and libchitcp/socket_api.c. The host's `socket` and `connect`,
-- and the exchange of a message for its answer, are arguments, over a state of the world.
pub mod Daemon
pub mod Exchange
pub mod Laws
mod Tests
use chitcp.Base.{
  ℕ, zero, suc, ◌-◌, ◌%◌, ◌^◌, Bool, true, false, List, [], ◌∷◌, Option, none, some, if◌then◌else◌,
  ◌&&◌, ◌==◌, ltb, leb, length, take, ℤ, pos, negsuc, min,
}
use chitcp.Packets.{Sent, Received}
use chitcp.Messages.{Receiving, received, send_and_recv_msg}
use chitcp.Handlers.Wait.{SocketState}

-- `ChitcpdResp`; the contents are those to send, then those received.
pub record Resp : Type 0 where
  pub ret : ℤ
  pub error_code : ℤ
  pub addr : Option (List ℕ)
  pub buf : Option (List ℕ)
  pub socket_state : Option SocketState
  pub socket_buffer_contents : Option (List ℕ × List ℕ)

-- `ChitcpdMsg`, with its arguments; an address is the bytes of a `struct sockaddr`.
pub data Msg : Type 0 where
  init_command : Msg
  init_debug : ℤ → ℕ → Msg
  socket : ℤ → ℤ → ℤ → Msg
  bind connect : ℤ → List ℕ → Msg
  listen : ℤ → ℤ → Msg
  accept close : ℤ → Msg
  send : ℤ → List ℕ → ℤ → Msg
  recv : ℤ → ℤ → ℤ → Msg
  get_socket_state get_socket_buffer_contents : ℤ → Msg
  wait_for_state : ℤ → ℕ → Msg
  debug_event : ℤ → ℕ → ℤ → Bool → Msg
  resp : Resp → Msg

-- What a thread of the client needs of the host and of the library's lower half: a new socket, whether
-- it can be connected to the daemon, and `chitcpd_send_command` on a descriptor.
pub record Host (W : Type 0) : Type 0 where
  pub new_socket : W → Option ℕ × W
  pub connect_to : W → ℕ → Bool × W
  pub command : W → ℤ → Msg → Receiving Msg × W

-- The generated code and the host, below `chitcpd_send_command`.
pub record Wire (W : Type 0) : Type 0 where
  pub pack : Msg → List ℕ
  pub unpack : List ℕ → Option Msg
  pub garbage : ℕ → List ℕ
  pub send : ℤ → W → List ℕ → Sent × W
  pub recv : ℤ → W → ℕ → Received × W
  pub reset : Bool

pub send_command : {W : Type 0} → Wire W → W → ℤ → Msg → Receiving Msg × W
send_command l w fd msg =
    send_and_recv_msg l.pack l.unpack l.garbage (l.send fd) (l.recv fd) l.reset w msg

-- A thread of the client: the descriptor of its connection to the daemon, under the thread's key, and
-- its `errno`.
pub record Thread (W : Type 0) : Type 0 where
  pub daemon_socket : Option ℕ
  pub errno : ℤ
  pub host : W

-- `EPROTO` and `ENOMEM` of the host
abbrev pub eproto : ℤ
eproto = pos 71

abbrev pub enomem : ℤ
enomem = pos 12

abbrev pub is_negative : ℤ → Bool
is_negative n = elim n [ pos k ↦ false | negsuc k ↦ true ]

abbrev pub is_0 : ℤ → Bool
is_0 n = elim n [ pos k ↦ k == 0 | negsuc k ↦ false ]

-- `chitcpd_connect`: the descriptor, or `CHITCP_ESOCKET`, which is -2.
pub connected : {W : Type 0} → ℕ → Bool × W → ℤ × W
connected fd (ok, w) = if ok then (pos fd, w) else (negsuc 1, w)

pub connect_new : {W : Type 0} → Host W → Option ℕ × W → ℤ × W
unfolding connected
connect_new h (none, w) = (negsuc 1, w)
connect_new h (some fd, w) = connected fd (h.connect_to w fd)

unfoldable pub chitcpd_connect : {W : Type 0} → Host W → W → ℤ × W
unfolding connect_new
chitcpd_connect h w = connect_new h (h.new_socket w)

-- The daemon's answer to a message: a response, a return code below 0, or a message that is no
-- response, which ends the client's program by an `assert`.
pub data Told : Type 0 where
  said : Resp → Told
  unsaid : ℤ → Told
  aborted : Told

unfoldable pub told : {W : Type 0} → Thread W → Receiving Msg × W → Told × Thread W
told t (received msg, w) = (elim msg [ resp r ↦ said r | _ ↦ aborted ], record t { host = w })
told t (Receiving.disconnected, w) = (unsaid (negsuc 0), record t { host = w })
told t (Receiving.failed, w) = (unsaid (negsuc 1), record t { host = w })

unfoldable pub tell : {W : Type 0} → Host W → Thread W → ℤ → Msg → Told × Thread W
unfolding told
tell h t fd msg = told t (h.command t.host fd msg)

-- The rest of `chitcpd_get_socket`, with the answer to the INIT message on a new connection. `none`: the
-- program ends.
pub initialized : {W : Type 0} → ℕ → Told × Thread W → Option ℤ × Thread W
initialized fd (said r, t) =
    if is_negative r.ret
    then (some r.ret, record t { errno = r.error_code })
    else (some (pos fd), record t { errno = r.error_code; daemon_socket = some fd })
initialized fd (unsaid rc, t) = (some rc, t)
initialized fd (aborted, t) = (none, t)

pub introduce : {W : Type 0} → Host W → Thread W → ℤ × W → Option ℤ × Thread W
unfolding initialized tell
introduce h t (pos fd, w) = initialized fd (tell h (record t { host = w }) (pos fd) init_command)
introduce h t (negsuc n, w) = (some (negsuc n), record t { host = w })

unfoldable pub get_socket_from : {W : Type 0} → Host W → Thread W → Option ℕ → Option ℤ × Thread W
unfolding introduce chitcpd_connect
get_socket_from h t (some fd) = (some (pos fd), t)
get_socket_from h t none = introduce h t (chitcpd_connect h t.host)

-- `chitcpd_get_socket`
unfoldable pub get_socket : {W : Type 0} → Host W → Thread W → Option ℤ × Thread W
unfolding get_socket_from
get_socket h t = get_socket_from h t t.daemon_socket

-- What the functions of the library have in common: the connection, the request, and its answer.
unfoldable pub with_socket : {W : Type 0} → Host W → Msg → Option ℤ × Thread W → Told × Thread W
unfolding tell
with_socket h msg (none, t) = (aborted, t)
with_socket h msg (some fd, t) = if is_negative fd then (unsaid fd, t) else tell h t fd msg

unfoldable pub call : {W : Type 0} → Host W → Thread W → Msg → Told × Thread W
unfolding with_socket get_socket
call h t msg = with_socket h msg (get_socket h t)

-- A function of the library returns, or ends the program.
pub data Result : Type 0 where
  returns : ℤ → Result
  aborts : Result

-- `CHITCPD_FAIL`, and the unpacking of a response
unfoldable pub conclude : {W : Type 0} → Told × Thread W → Result × Thread W
conclude (said r, t) =
    if is_0 r.error_code
    then (returns r.ret, t)
    else (returns (negsuc 0), record t { errno = r.error_code })
conclude (unsaid rc, t) = (returns (negsuc 0), record t { errno = eproto })
conclude (aborted, t) = (aborts, t)

pub chisocket_socket : {W : Type 0} → Host W → Thread W → ℤ → ℤ → ℤ → Result × Thread W
unfolding call conclude
chisocket_socket h t domain type protocol = conclude (call h t (socket domain type protocol))

pub chisocket_connect : {W : Type 0} → Host W → Thread W → ℤ → List ℕ → Result × Thread W
unfolding call conclude
chisocket_connect h t sockfd addr = conclude (call h t (connect sockfd addr))

pub chisocket_bind : {W : Type 0} → Host W → Thread W → ℤ → List ℕ → Result × Thread W
unfolding call conclude
chisocket_bind h t sockfd addr = conclude (call h t (bind sockfd addr))

pub chisocket_listen : {W : Type 0} → Host W → Thread W → ℤ → ℤ → Result × Thread W
unfolding call conclude
chisocket_listen h t sockfd backlog = conclude (call h t (listen sockfd backlog))

unfoldable pub chisocket_close : {W : Type 0} → Host W → Thread W → ℤ → Result × Thread W
unfolding call conclude
chisocket_close h t sockfd = conclude (call h t (close sockfd))

-- The result of `accept`, with the bytes that it writes to `addr` and what it leaves in `*addrlen`.
pub record Accepted : Type 0 where
  pub result : Result
  pub addr : List ℕ
  pub addrlen : ℕ

pub accept_told : {W : Type 0} → ℕ → Told × Thread W → Accepted × Thread W
unfolding conclude
accept_told addrlen (said r, t) =
    let other = conclude (said r, t) in
    if is_0 r.error_code
    then elim r.addr [
      | none ↦ (record { result = aborts; addr = []; addrlen = addrlen }, t)
      | some a ↦
          let n = if leb addrlen (length a) then addrlen else length a in
          (record { result = returns r.ret; addr = take n a; addrlen = length a }, t)
    ]
    else (record { result = other.0; addr = []; addrlen = addrlen }, other.1)
accept_told addrlen (unsaid rc, t) =
    let other = conclude (unsaid rc, t) in
    (record { result = other.0; addr = []; addrlen = addrlen }, other.1)
accept_told addrlen (aborted, t) = (record { result = aborts; addr = []; addrlen = addrlen }, t)

pub chisocket_accept : {W : Type 0} → Host W → Thread W → ℤ → ℕ → Accepted × Thread W
unfolding call accept_told
chisocket_accept h t sockfd addrlen = accept_told addrlen (call h t (accept sockfd))

-- The copy of the buffer comes after the connection; whether there is memory for it is an argument.
pub send_with : {W : Type 0} → Host W → Bool → Msg → Option ℤ × Thread W → Result × Thread W
unfolding tell conclude
send_with h memory msg (none, t) = (aborts, t)
send_with h memory msg (some fd, t) =
    if is_negative fd
    then conclude (unsaid fd, t)
    else if memory
    then conclude (tell h t fd msg)
    else (returns (negsuc 0), record t { errno = enomem })

pub chisocket_send : {W : Type 0} → Host W → Bool → Thread W → ℤ → List ℕ → ℤ → Result × Thread W
unfolding send_with get_socket
chisocket_send h memory t sockfd buf flags =
    send_with h memory (send sockfd buf flags) (get_socket h t)

-- The bytes that `recv` writes to `buf`. It ends the program if they are not as many as the answer says,
-- or do not fit.
pub received_bytes : ℕ → ℤ → Option (List ℕ) → Result × List ℕ
received_bytes len (negsuc n) buf = (aborts, [])
received_bytes len (pos n) none = (aborts, [])
received_bytes len (pos n) (some bs) =
    if length bs == n && leb n len then (returns (pos n), take n bs) else (aborts, [])

pub recv_told : {W : Type 0} → ℕ → Told × Thread W → (Result × List ℕ) × Thread W
unfolding received_bytes conclude
recv_told len (said r, t) =
    let other = conclude (said r, t) in
    if is_0 r.error_code
    then if is_0 r.ret then ((returns r.ret, []), t) else (received_bytes len r.ret r.buf, t)
    else ((other.0, []), other.1)
recv_told len (unsaid rc, t) = let other = conclude (unsaid rc, t) in ((other.0, []), other.1)
recv_told len (aborted, t) = ((aborts, []), t)

-- A `size_t` as `int32` keeps it
unfoldable pub int32 : ℕ → ℤ
int32 n = let k = n % 2 ^ 32 in if ltb k (2 ^ 31) then pos k else negsuc (2 ^ 32 - 1 - k)

pub chisocket_recv : {W : Type 0} → Host W → Thread W → ℤ → ℕ → ℤ → (Result × List ℕ) × Thread W
unfolding call recv_told int32
chisocket_recv h t sockfd len flags = recv_told len (call h t (recv sockfd (int32 len) flags))
