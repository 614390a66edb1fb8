-- ===== src/Client/Daemon.antt =====
-- The client against the daemon: what the functions of chitcpd/handlers.c answer, and what the functions of
-- libchitcp/socket_api.c make of it.
use chitcp.Base.{
  ℕ, ◌%◌, ◌^◌, ◌≤◌, ◌<◌, ◌≡◌, ◌≢◌, get_elem?, refl, ◌∙◌, ap, sym, subst, ◌⊎◌, inl, inr, true, false,
  List, [], Option, none, some, length, take, length-take, take_all, ltb, arith, ℤ, pos, negsuc,
  Bool-cases, ◌==◌, leb, ◌&&◌,
}
use chitcp.Server.{Server, Entry}
use chitcp.Buffer.{Buffer, read, got}
use chitcp.Buffer.Valid.{IsValid, contents, length-contents}
use chitcp.Buffer.Read.{fewer}
use chitcp.Buffer.Reads.{read_lem, read-empty, read-resume}
use chitcp.Handlers.Transfer.{
  recv_read, recv_entry, recv_check, recv, recv_wake, Check, refuses, ended, reads,
}
use chitcp.Messages.{received}
use chitcp.Handlers.{
  Errno, usable, Outcome, failed, done, gave, waits, out_of_bounds, out_of_fuel, ebadf, einval,
  enomem, enotconn, eopnotsupp, ealready, eagain, econnaborted,
}
use chitcp.Client.Laws.{call-connected, tell-received}
use chitcp.Client.{
  Resp, Msg, Host, Thread, said, call, Result, returns, conclude, received_bytes, recv_told, int32,
  chisocket_recv,
}

-- The numbers of the errors, on the host.
unfoldable pub errno_of : Errno → ℕ
errno_of ebadf = 9
errno_of einval = 22
errno_of enomem = 12
errno_of enotconn = 107
errno_of eopnotsupp = 95
errno_of ealready = 114
errno_of eagain = 11
errno_of econnaborted = 103

abbrev pub plain : ℤ → ℤ → Resp
plain ret code = record {
  ret = ret;
  error_code = code;
  addr = none;
  buf = none;
  socket_state = none;
  socket_buffer_contents = none;
}

-- The end of a handler: its response. `none`: there is none yet, or never.
unfoldable pub respond : Outcome → Option (Resp × Server)
unfolding errno_of
respond (failed e si) = some (plain (negsuc 0) (pos (errno_of e)), si)
respond (done n si) = some (plain (pos n) (pos 0), si)
respond (gave n bs si) = some (record (plain (pos n) (pos 0)) { buf = some bs }, si)
respond (waits n si) = none
respond out_of_bounds = none
respond out_of_fuel = none

-- The daemon answers a message of the thread, whose connection is `fd`, by a response.
abbrev pub Answers : {W : Type 0} → Host W → Thread W → ℕ → Msg → Resp → W → Type 0
Answers h t fd msg r w =
    (t.daemon_socket ≡ some fd) × (h.command t.host (pos fd) msg ≡ (received (Msg.resp r), w))

-- What a client's function that returns no bytes is to return for a handler's outcome.
abbrev pub Returned : {W : Type 0} → Thread W → W → Outcome → Result × Thread W → Type 0
Returned t w o x = elim o [
  | failed e si ↦ x ≡ (returns (negsuc 0), record t { host = w; errno = pos (errno_of e) })
  | done n si ↦ x ≡ (returns (pos n), record t { host = w })
  | gave n bs si ↦ x ≡ (returns (pos n), record t { host = w })
  | _ ↦ Unit {0}
]

call-Answers :
    {W : Type 0} (h : Host W) (t : Thread W) (fd : ℕ) (msg : Msg) (r : Resp) (w : W)
    → Answers h t fd msg r w
    → call h t msg ≡ (said r, record t { host = w })
call-Answers h t fd msg r w (k, a) = call-connected h t fd msg k ∙ tell-received h t (pos fd) a

errno_of-ne : (e : Errno) → (errno_of e == 0) ≡ false
unfolding errno_of
errno_of-ne ebadf = refl
errno_of-ne einval = refl
errno_of-ne enomem = refl
errno_of-ne enotconn = refl
errno_of-ne eopnotsupp = refl
errno_of-ne ealready = refl
errno_of-ne eagain = refl
errno_of-ne econnaborted = refl

abbrev or_none : Option (Resp × Server) → Resp → Resp
or_none x other = elim x [ none ↦ other | some (r, si) ↦ r ]

-- Its response, when there is one.
response-eq :
    (o : Outcome) {r : Resp} {si : Server} → respond o ≡ some (r, si) → r ≡ or_none (respond o) r
response-eq o {r = r} q = sym (ap (λ x. or_none x r) q)

-- A thread's function that returns no bytes returns what the daemon's handler ended with: when the
-- handler for its message ended with an error, the function returns -1 and sets `errno` to it; when it
-- ended with a number, the function returns the number and `errno` stays as it was. The thread has a
-- connection, and the daemon answers by the handler's response.
pub conclude_agrees :
    {W : Type 0} (h : Host W) (t : Thread W) (fd : ℕ) (msg : Msg) (o : Outcome) (r : Resp)
    (si : Server) (w : W)
    → respond o ≡ some (r, si)
    → Answers h t fd msg r w
    → Returned t w o (conclude (call h t msg))
unfolding respond conclude
conclude_agrees h t fd msg (failed e s) r si w q a =
    ap conclude (call-Answers h t fd msg r w a)
    ∙ ap (λ x. conclude (said x, record t { host = w })) ((response-eq (failed e s) q))
    ∙ rw (errno_of-ne e) refl
conclude_agrees h t fd msg (done n s) r si w q a =
    ap conclude (call-Answers h t fd msg r w a)
    ∙ ap (λ x. conclude (said x, record t { host = w })) ((response-eq (done n s) q))
conclude_agrees h t fd msg (gave n bs s) r si w q a =
    ap conclude (call-Answers h t fd msg r w a)
    ∙ ap (λ x. conclude (said x, record t { host = w })) ((response-eq (gave n bs s) q))
conclude_agrees h t fd msg (waits n s) r si w q a = tt
conclude_agrees h t fd msg out_of_bounds r si w q a = tt
conclude_agrees h t fd msg out_of_fuel r si w q a = tt

-- The outcomes of `recv`: no more bytes than were asked for, as many as it says, and some.
abbrev pub Sized : ℕ → Outcome → Type 0
Sized len o = elim o [
  | done n si ↦ n ≡ 0
  | gave n bs si ↦ (length bs ≡ n) × (n ≤ len) × (n ≢ 0)
  | _ ↦ Unit {0}
]

length-take_fewer : (len n : ℕ) (xs : List ℕ) → length xs ≡ n → length (take len xs) ≡ fewer len n
length-take_fewer len n xs e = elim (Bool-cases (ltb len n)) [
  | inl lt ↦ rw lt (length-take len xs (ground (arith, lt)))
  | inr ge ↦ rw ge (ap length (take_all len xs (ground (arith, ge))) ∙ e)
]

ne-eq : (n : ℕ) → 0 < n → (n == 0) ≡ false
ne-eq n h = ground arith

got-Sized :
    (si : Server) (i : ℕ) (e : Entry) (len n : ℕ) (bs : List ℕ) (c : Buffer)
    → length bs ≡ n
    → n ≤ len
    → 0 < n
    → Sized len (recv_read si i e (got n bs c))
unfolding recv_read
got-Sized si i e len n bs c size fits some_in = rw ((ne-eq n some_in)) (size, fits, omega arith)

recv_read-Sized :
    (si : Server) (i : ℕ) (e : Entry) (len : ℕ)
    → IsValid e.active.tcp_data.recv
    → 0 < len
    → Sized len (recv_read si i e (read e.active.tcp_data.recv true len true))
unfolding recv_read
recv_read-Sized si i e len v p = elim (Bool-cases (e.active.tcp_data.recv.count == 0)) [
  | inl empty ↦
      rw (read-empty e.active.tcp_data.recv len true (ground (arith, empty))) (ground arith)
  | inr some_in ↦
      let b = e.active.tcp_data.recv in
      let (c, q, used) = read_lem b len true v p (ground (arith, some_in)) in
      let xs = contents b in
      subst (λ x. Sized len (recv_read si i e x)) (sym q)
        (got-Sized si i e len (fewer len b.count) (take len xs) c
          (length-take_fewer len b.count xs (length-contents b)) (ground arith) (ground arith))
]

entry-Sized :
    (si : Server) (i : ℕ) (e : Entry) (len : ℕ) (c : Check)
    → IsValid e.active.tcp_data.recv
    → 0 < len
    → Sized len (elim c [
      | refuses c ↦ failed c si
      | ended ↦ done 0 si
      | reads ↦ recv_read si i e (read e.active.tcp_data.recv true len true)
    ])
entry-Sized si i e len (refuses c) v h = tt
entry-Sized si i e len ended v h = refl
entry-Sized si i e len reads v h = recv_read-Sized si i e len v h

recv-Sized :
    (si : Server) (fd : ℤ) (len i : ℕ) (e : Entry)
    → usable si fd ≡ some (i, e)
    → IsValid e.active.tcp_data.recv
    → Sized len (recv si fd len)
unfolding recv recv_entry
recv-Sized si fd len i e good v = elim (Bool-cases (len == 0)) [
  | inl empty ↦ rw (empty, Sized) tt
  | inr more ↦
      rw (more, good, Sized) (entry-Sized si i e len (recv_check e) v (ground (arith, more)))
]

recv_wake-Sized :
    (si : Server) (i len : ℕ) (e : Entry)
    → get_elem? si.sockets i ≡ some e
    → IsValid e.active.tcp_data.recv
    → 0 < len
    → Sized len (recv_wake si i len)
unfolding recv_wake
recv_wake-Sized si i len e g v h =
    rw (g, Sized)
      (subst (λ x. Sized len (recv_read si i e x)) (read-resume e.active.tcp_data.recv len h)
        (recv_read-Sized si i e len v h))

-- The bytes that `recv` copies, and its result.
abbrev pub GotBack : {W : Type 0} → Thread W → W → Outcome → (Result × List ℕ) × Thread W → Type 0
GotBack t w o x = elim o [
  | failed e si ↦ x ≡ ((returns (negsuc 0), []), record t { host = w; errno = pos (errno_of e) })
  | done n si ↦ x ≡ ((returns (pos n), []), record t { host = w })
  | gave n bs si ↦ x ≡ ((returns (pos n), bs), record t { host = w })
  | _ ↦ Unit {0}
]

received_bytes-all :
    (len n : ℕ) (bs : List ℕ)
    → length bs ≡ n
    → n ≤ len
    → received_bytes len (pos n) (some bs) ≡ (returns (pos n), bs)
unfolding received_bytes
received_bytes-all len n bs size fits =
    let a : (length bs == n) ≡ true = ground (arith, size) in
    let b : leb n len ≡ true = ground arith in
    rw (a, b, ◌&&◌)
      (ap (λ (x : List ℕ). (returns (pos n), x)) (take_all n bs (omega (arith, size))))

recv_told-agrees :
    {W : Type 0} (t : Thread W) (w : W) (len : ℕ) (o : Outcome) (other : Resp)
    → Sized len o
    → GotBack t w o (recv_told len (said (or_none (respond o) other), record t { host = w }))
unfolding recv_told conclude respond
recv_told-agrees t w len (failed e s) other z = rw (errno_of-ne e) refl
recv_told-agrees t w len (done n s) other z = rw (z) refl
recv_told-agrees t w len (gave n bs s) other (size, fits, some_in) =
    let some_in' : (n == 0) ≡ false = ground (arith, some_in) in
    rw (some_in', received_bytes-all len n bs size fits) refl
recv_told-agrees t w len (waits n s) other z = tt
recv_told-agrees t w len out_of_bounds other z = tt
recv_told-agrees t w len out_of_fuel other z = tt

int32-pos : (n : ℕ) → n < 2 ^ 31 → int32 n ≡ pos n
unfolding int32
int32-pos n small =
    let same : n % 2 ^ 32 ≡ n = omega arith in
    let fits : ltb n (2 ^ 31) ≡ true = ground arith in rw (same, fits) refl

-- `chisocket_recv` never ends the program against this daemon: when the handler of RECV ended, at once on
-- a usable socket or after a wake-up, the function returns what the handler ended with, and the bytes that
-- it writes to the client's buffer are the handler's. On an error it returns -1 and sets `errno` to it. The
-- socket's receive buffer is valid, a handler that slept was asked for some bytes, the thread has a
-- connection, the daemon answers by the handler's response, and the client asked for fewer than 2 ^ 31 bytes,
-- which an `int32` can hold.
pub recv_agrees :
    {W : Type 0} (h : Host W) (t : Thread W) (fd : ℕ) (si si' : Server) (sockfd : ℤ) (len : ℕ)
    (flags : ℤ) (i : ℕ) (e : Entry) (o : Outcome) (r : Resp) (w : W)
    → len < 2 ^ 31
    → IsValid e.active.tcp_data.recv
    → ((usable si sockfd ≡ some (i, e)) × (o ≡ recv si sockfd len))
      ⊎ ((get_elem? si.sockets i ≡ some e) × (o ≡ recv_wake si i len) × (0 < len))
    → respond o ≡ some (r, si')
    → Answers h t fd (Msg.recv sockfd (pos len) flags) r w
    → GotBack t w o (chisocket_recv h t sockfd len flags)
unfolding chisocket_recv
recv_agrees h t fd si si' sockfd len flags i e o r w small v over q a =
    let sized : Sized len o = elim over [
      | inl (good, is) ↦ subst (Sized len) (sym is) (recv-Sized si sockfd len i e good v)
      | inr (g, is, some_in) ↦ subst (Sized len) (sym is) (recv_wake-Sized si i len e g v some_in)
    ] in
    let c = call-Answers h t fd (Msg.recv sockfd (pos len) flags) r w a in
    let told_r = ap (λ x. recv_told len (said x, record t { host = w })) (response-eq o q) in
    let asked =
      ap (λ n. recv_told len (call h t (Msg.recv sockfd n flags))) (int32-pos len small) in
    subst (GotBack t w o) (sym (asked ∙ ap (recv_told len) c ∙ told_r))
      (recv_told-agrees t w len o r sized)
