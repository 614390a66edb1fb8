-- ===== src/Debugger/Requests.antt =====
-- The requests of libchitcp/debug_api.c against the daemon's handlers of chitcpd/handlers.c and
-- chitcpd/server.c.
use chitcp.Base.{
  ℕ, ◌≡◌, refl, sym, ap, ◌∙◌, subst, true, length, take_all, arith, List, Option, none, some, ℤ,
  pos, negsuc,
}
use chitcp.Server.{Server}
use chitcp.Messages.{received}
use chitcp.Handlers.{Errno}
use chitcp.Handlers.Wait.{SocketState, get_socket_state, buffer_contents}
use chitcp.Breakpoint.{Debug, init_debug_connection}
use chitcp.Lifecycle.{
  Greeting, shuts, handles, monitors, refuses, gives_up, greet, debug, debug_answer,
}
use chitcp.Client.{Resp, Msg, Host, Thread, said, tell, chitcpd_connect, connect_new, connected}
use chitcp.Client.Laws.{tell-received, get_socket-connected}
use chitcp.Client.Daemon.{plain, errno_of}
use chitcp.Debugger.{
  Contents, DebugState, copied, with_contents, Known, state, null, with_buffers, with_state,
  state_on, chitcpd_get_socket_state, Debugging, watches, fails, debug_told, debug_on,
  chitcpd_debug,
}

-- The handlers' responses
abbrev pub state_resp : Option SocketState → Resp
state_resp none = plain (negsuc 0) (pos 9)
state_resp (some s) = record (plain (pos 0) (pos 0)) { socket_state = some s }

abbrev pub contents_resp : Option (List ℕ × List ℕ) → Resp
contents_resp none = plain (negsuc 0) (pos 9)
contents_resp (some c) = record (plain (pos 0) (pos 0)) { socket_buffer_contents = some c }

-- What the client knows, against the states and the contents (to send, and received) of the daemon's socket
abbrev pub Shows : SocketState → List ℕ × List ℕ → DebugState → Contents → Type 0
Shows s (snd, rcv) d c =
    (d.tcp_state ≡ s.tcp_state)
    × (d.iss ≡ s.iss)
    × (d.irs ≡ s.irs)
    × (d.snd_una ≡ s.snd_una)
    × (d.rcv_nxt ≡ s.rcv_nxt)
    × (d.snd_nxt ≡ s.snd_nxt)
    × (d.rcv_wnd ≡ s.rcv_wnd)
    × (d.snd_wnd ≡ s.snd_wnd)
    × (d.contents ≡ some c)
    × (c.send ≡ snd)
    × (c.send_len ≡ length snd)
    × (c.recv ≡ rcv)
    × (c.recv_len ≡ length rcv)

abbrev pub Knows : Option SocketState → Option (List ℕ × List ℕ) → Known → Type 0
Knows none c o = o ≡ null
Knows (some s) none o = o ≡ null
Knows (some s) (some x) o = (d : DebugState) × (c : Contents) × (o ≡ state d) × Shows s x d c

buffers-Knows :
    {W : Type 0} (t : Thread W) (s : SocketState) (c : Option (List ℕ × List ℕ))
    → Knows (some s) c (with_buffers true (copied s) (said (contents_resp c), t)).0
unfolding with_buffers with_contents copied
buffers-Knows t s none = refl
buffers-Knows t s (some (snd, rcv)) = (
  _,
  _,
  refl,
  (
    refl,
    refl,
    refl,
    refl,
    refl,
    refl,
    refl,
    refl,
    refl,
    take_all (length snd) snd (omega arith),
    refl,
    take_all (length rcv) rcv (omega arith),
    refl,
  ),
)

-- With both answers at hand.
with_both :
    {W : Type 0} (h : Host W) (t : Thread W) (fd sockfd : ℤ) (s : Option SocketState)
    (c : Option (List ℕ × List ℕ)) (w : W)
    → tell h t fd (Msg.get_socket_buffer_contents sockfd)
      ≡ (said (contents_resp c), record t { host = w })
    → Knows s c (with_state h true fd sockfd true (said (state_resp s), t)).0
unfolding with_state
with_both h t fd sockfd none c w q = refl
with_both h t fd sockfd (some s) c w q =
    subst (λ x. Knows (some s) c (with_buffers true (copied s) x).0) (sym q)
      (buffers-Knows (record t { host = w }) s c)

-- For a thread with a connection, when there is memory and the daemon answers both requests by its
-- handlers' responses, at two moments, `chitcpd_get_socket_state` with the buffers returns the state of the
-- first moment, field by field, with the bytes of both buffers of the second and their numbers; and NULL
-- when either handler answers EBADF.
pub get_state_agrees :
    {W : Type 0} (h : Host W) (t : Thread W) (fd : ℕ) (sockfd : ℤ) (si si' : Server) (w w' : W)
    → t.daemon_socket ≡ some fd
    → h.command t.host (pos fd) (Msg.get_socket_state sockfd)
      ≡ (received (Msg.resp (state_resp (get_socket_state si sockfd))), w)
    → h.command w (pos fd) (Msg.get_socket_buffer_contents sockfd)
      ≡ (received (Msg.resp (contents_resp (buffer_contents si' sockfd))), w')
    → Knows
        (get_socket_state si sockfd)
        (buffer_contents si' sockfd)
        (chitcpd_get_socket_state h true true t sockfd true).0
unfolding chitcpd_get_socket_state state_on
get_state_agrees h t fd sockfd si si' w w' k a b =
    let t' = record t { host = w } in
    let s = get_socket_state si sockfd in
    let asked : (chitcpd_get_socket_state h true true t sockfd true).0
        ≡ (with_state h true (pos fd) sockfd true (said (state_resp s), t')).0 =
      ap (λ x. (state_on h true true sockfd true x).0) (get_socket-connected h t fd k)
      ∙ ap (λ x. (with_state h true (pos fd) sockfd true x).0) (tell-received h t (pos fd) a) in
    subst (Knows s (buffer_contents si' sockfd)) (sym asked) (
      with_both h t' (pos fd) sockfd s (buffer_contents si' sockfd) w'
        (tell-received h t' (pos fd) b))

-- The answer to a greeting. `none`: none is sent.
unfoldable pub greeting_resp : Greeting → Option Resp
unfolding errno_of
greeting_resp shuts = none
greeting_resp handles = some (plain (pos 0) (pos 0))
greeting_resp monitors = some (plain (pos 0) (pos 0))
greeting_resp (refuses c none) = some (plain (negsuc 6) (pos 0))
greeting_resp (refuses c (some e)) = some (plain (negsuc 4) (pos (errno_of e)))
greeting_resp (gives_up c) = some (plain (negsuc 2) (pos 0))

abbrev pub debugging_of : ℕ → ℤ → Option Errno → Debugging
debugging_of fd sockfd none = watches fd
debugging_of fd sockfd (some e) = fails (some sockfd)

abbrev debug_resp : Option Errno → Resp
debug_resp none = plain (pos 0) (pos 0)
debug_resp (some e) = plain (negsuc 4) (pos (errno_of e))

debug_answer-resp :
    (x : Option Errno × Debug) → greeting_resp (debug_answer x).0 ≡ some (debug_resp x.0)
unfolding debug_answer greeting_resp
debug_answer-resp (none, d) = refl
debug_answer-resp (some e, d) = refl

same : {a b : Resp} → some a ≡ some b → a ≡ b
same q = cc

debug_told-agrees :
    {W : Type 0} (t : Thread W) (sockfd : ℤ) (fd : ℕ) (x : Option Errno)
    → (debug_told true none sockfd fd (said (debug_resp x), t)).0 ≡ debugging_of fd sockfd x
unfolding debug_told
debug_told-agrees t sockfd fd none = refl
debug_told-agrees t sockfd fd (some e) = refl

-- When a new connection can be made, there is memory, the thread can be created, and the daemon answers
-- the first message by the response of `chitcpd_server_thread_func`, `chitcpd_debug` starts a thread on the
-- new connection exactly if the daemon has attached a monitor to the socket; otherwise it fails, and closes
-- the descriptor of the client's process that has the number of the chiTCP socket.
pub debug_agrees :
    {W : Type 0} (h : Host W) (t : Thread W) (fd : ℕ) (si : Server) (d : Debug) (sockfd : ℤ)
    (flags : ℕ) (r : Resp) (w1 w2 w3 : W)
    → h.new_socket t.host ≡ (some fd, w1)
    → h.connect_to w1 fd ≡ (true, w2)
    → h.command w2 (pos fd) (Msg.init_debug sockfd flags) ≡ (received (Msg.resp r), w3)
    → greeting_resp (greet si d true 0 (debug sockfd flags)).0 ≡ some r
    → (chitcpd_debug h true none t sockfd flags).0
      ≡ debugging_of fd sockfd (init_debug_connection si d sockfd flags).0
unfolding chitcpd_debug debug_on chitcpd_connect greet
debug_agrees h t fd si d sockfd flags r w1 w2 w3 a b c q =
    let x = init_debug_connection si d sockfd flags in
    let t2 = record t { host = w2 } in
    let t3 = record t { host = w3 } in
    let is : debug_resp x.0 ≡ r = same (sym (debug_answer-resp x) ∙ q) in
    ap (λ y. (debug_on h true none t sockfd flags (connect_new h y)).0) a
    ∙ ap (λ y. (debug_on h true none t sockfd flags (connected fd y)).0) b
    ∙ ap (λ y. (debug_told true none sockfd fd y).0) (tell-received h t2 (pos fd) c)
    ∙ ap (λ y. (debug_told true none sockfd fd (said y, t3)).0) (sym is)
    ∙ debug_told-agrees t3 sockfd fd x.0
