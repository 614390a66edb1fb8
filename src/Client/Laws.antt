-- ===== src/Client/Laws.antt =====
-- What a client can rely on, whatever the daemon answers: the bounds of its buffers, and one connection for
-- each thread.
use chitcp.Base.{
  ℕ, zero, suc, ◌≤◌, ◌≡◌, refl, ◌∙◌, ap, sym, subst, List, [], ◌∷◌, Option, none, some, length,
  take, length-take, arith, ℤ, pos, negsuc,
}
use chitcp.Messages.{Receiving, received}
use chitcp.Client.{
  Resp, Msg, recv, Host, Thread, Told, said, unsaid, aborted, told, tell, get_socket, with_socket,
  call, Result, returns, conclude, received_bytes, recv_told, int32, chisocket_recv,
  get_socket_from,
}

length-take_le {ℓ} : {A : Type ℓ} (n : ℕ) (xs : List A) → length (take n xs) ≤ n
length-take_le zero xs = omega arith
length-take_le (suc n) [] = omega arith
length-take_le (suc n) (x ∷ xs) = omega (arith, length-take_le n xs)

-- What was written is as long as the result says, and fits.
abbrev Fits : ℕ → Result × List ℕ → Type 0
Fits len (r, bs) = (length bs ≤ len) × ((n : ℕ) → r ≡ returns (pos n) → length bs ≡ n)

received_bytes-Fits :
    (len : ℕ) (ret : ℤ) (buf : Option (List ℕ)) → Fits len (received_bytes len ret buf)
unfolding received_bytes
received_bytes-Fits len (negsuc n) buf = (omega arith, λ k q. cc)
received_bytes-Fits len (pos n) none = (omega arith, λ k q. cc)
received_bytes-Fits len (pos n) (some bs) =
    (ground (arith, length-take_le n bs), λ k q. ground (arith, length-take n bs, q))

recv_told-Fits :
    {W : Type 0} (len : ℕ) (x : Told) (t : Thread W) → Fits len (recv_told len (x, t)).0
unfolding recv_told conclude
recv_told-Fits len (said r) t = (
  ground (arith, (received_bytes-Fits len r.ret r.buf).0),
  λ k q. ground (arith, q, (received_bytes-Fits len r.ret r.buf).1 k),
)
recv_told-Fits len (unsaid rc) t = (omega arith, λ k q. cc)
recv_told-Fits len aborted t = (omega arith, λ k q. cc)

-- Whatever the daemon answers, `chisocket_recv` writes at most `len` bytes to the client's buffer, and
-- exactly n when it returns n.
pub recv_bounds :
    {W : Type 0} (h : Host W) (t : Thread W) (fd : ℤ) (len : ℕ) (flags : ℤ)
    → let (r, bs) = (chisocket_recv h t fd len flags).0 in
      (length bs ≤ len) × ((n : ℕ) → r ≡ returns (pos n) → length bs ≡ n)
unfolding chisocket_recv
recv_bounds h t fd len flags =
    let x = call h t (recv fd (int32 len) flags) in recv_told-Fits len x.0 x.1

-- Messages of one thread, one after the other, in the library and on one descriptor.
unfoldable pub calls : {W : Type 0} → Host W → Thread W → List Msg → Thread W
calls h t [] = t
calls h t (m ∷ ms) = calls h (call h t m).1 ms

unfoldable pub commands : {W : Type 0} → Host W → W → ℤ → List Msg → W
commands h w fd [] = w
commands h w fd (m ∷ ms) = commands h (h.command w fd m).1 fd ms

told-keeps :
    {W : Type 0} (t : Thread W) (x : Receiving Msg) (w : W)
    → ((told t (x, w)).1.daemon_socket ≡ t.daemon_socket) × ((told t (x, w)).1.host ≡ w)
unfolding told
told-keeps t (received m) w = (refl, refl)
told-keeps t Receiving.disconnected w = (refl, refl)
told-keeps t Receiving.failed w = (refl, refl)

tell-keeps :
    {W : Type 0} (h : Host W) (t : Thread W) (fd : ℕ) (m : Msg)
    → ((tell h t (pos fd) m).1.daemon_socket ≡ t.daemon_socket)
      × ((tell h t (pos fd) m).1.host ≡ (h.command t.host (pos fd) m).1)
unfolding tell
tell-keeps h t fd m = let (x, w) = h.command t.host (pos fd) m in told-keeps t x w

-- An answer that is a response
pub tell-received :
    {W : Type 0} (h : Host W) (t : Thread W) (fd : ℤ) {m : Msg} {r : Resp} {w : W}
    → h.command t.host fd m ≡ (received (Msg.resp r), w)
    → tell h t fd m ≡ (said r, record t { host = w })
unfolding tell told
tell-received h t fd q = ap (told t) q

pub get_socket-connected :
    {W : Type 0} (h : Host W) (t : Thread W) (fd : ℕ)
    → t.daemon_socket ≡ some fd
    → get_socket h t ≡ (some (pos fd), t)
unfolding get_socket get_socket_from
get_socket-connected h t fd q = subst (λ o. get_socket_from h t o ≡ (some (pos fd), t)) (sym q) refl

-- A connected thread sends its message at once.
pub call-connected :
    {W : Type 0} (h : Host W) (t : Thread W) (fd : ℕ) (m : Msg)
    → t.daemon_socket ≡ some fd
    → call h t m ≡ tell h t (pos fd) m
unfolding call with_socket
call-connected h t fd m q = ap (with_socket h m) (get_socket-connected h t fd q)

call_once :
    {W : Type 0} (h : Host W) (t : Thread W) (fd : ℕ) (m : Msg)
    → t.daemon_socket ≡ some fd
    → ((call h t m).1.daemon_socket ≡ some fd)
      × ((call h t m).1.host ≡ (h.command t.host (pos fd) m).1)
call_once h t fd m q =
    let (k, s) = tell-keeps h t fd m in
    let c = call-connected h t fd m q in
    (ap (λ x. x.1.daemon_socket) c ∙ k ∙ q, ap (λ x. x.1.host) c ∙ s)

-- A thread that has a connection sends all its messages on it, in order, and does nothing else to the host:
-- it keeps the connection whatever is answered, and never opens another.
pub calls-keep :
    {W : Type 0} (h : Host W) (t : Thread W) (fd : ℕ) (ms : List Msg)
    → t.daemon_socket ≡ some fd
    → ((calls h t ms).daemon_socket ≡ some fd)
      × ((calls h t ms).host ≡ commands h t.host (pos fd) ms)
unfolding calls commands
calls-keep h t fd [] q = (q, refl)
calls-keep h t fd (m ∷ ms) q =
    let (k, s) = call_once h t fd m q in
    let (k', s') = calls-keep h (call h t m).1 fd ms k in
    (k', s' ∙ ap (λ w. commands h w (pos fd) ms) s)
