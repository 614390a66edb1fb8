-- ===== src/Handlers/Transfer/Laws.antt =====
-- What `send` and `recv` do to the buffers of a connection.
use chitcp.Base.{
  ℕ, Bool, Bool-cases, ◌||◌, zero, suc, ◌+◌, ◌-◌, ◌≤◌, ◌<◌, ◌^◌, ◌≡◌, ◌≢◌, refl, ◌⊎◌, inl, inr,
  true, false, List, [], ◌∷◌, ◌++◌, none, some, arith, length, ap, ◌∙◌, ℤ, slice, ◌==◌, take,
}
use chitcp.Types.{
  TcpState, closed, listen, syn_rcvd, syn_sent, established, fin_wait_1, fin_wait_2, close_wait,
  closing, time_wait, last_ack,
}
use chitcp.Buffer.{Buffer}
use chitcp.Buffer.Valid.{IsValid, contents}
use chitcp.Buffer.Writes.{write-fits}
use chitcp.Buffer.Read.{fewer}
use chitcp.Buffer.Reads.{Consumed, read_lem}
use chitcp.Server.{Server, Entry}
use chitcp.Sockets.{put_entry}
use chitcp.Handlers.{is_state, failed, done, gave, Errno, usable}
use chitcp.Handlers.Transfer.{
  with_send, with_recv, send_refused, notify_send, send_written, send_entry, send, recv_check,
  notify_recv, recv_read, recv_entry, recv, reads,
}

-- The states in which data can be sent.
abbrev pub Sends : TcpState → Type 0
Sends s = (s ≡ syn_sent) ⊎ (s ≡ syn_rcvd) ⊎ (s ≡ established) ⊎ (s ≡ close_wait)

slice-all : (xs : List ℕ) (n : ℕ) → n ≡ length xs → slice xs 0 n ≡ xs
slice-all [] zero h = refl
slice-all [] (suc n) h = absurd (omega arith)
slice-all (x ∷ xs) zero h = absurd (omega arith)
slice-all (x ∷ xs) (suc n) h = ap (λ ys. x ∷ ys) (slice-all xs n (omega arith))

send_allowed : (s : TcpState) → Sends s → send_refused s ≡ none
unfolding send_refused
send_allowed s h = ground arith

send_denied : (s : TcpState) → ¬ Sends s → (c : Errno) × (send_refused s ≡ some c)
unfolding send_refused
send_denied closed h = (_, refl)
send_denied listen h = (_, refl)
send_denied syn_rcvd h = absurd (h (inr (inl refl)))
send_denied syn_sent h = absurd (h (inl refl))
send_denied established h = absurd (h (inr (inr (inl refl))))
send_denied fin_wait_1 h = (_, refl)
send_denied fin_wait_2 h = (_, refl)
send_denied close_wait h = absurd (h (inr (inr (inr refl))))
send_denied closing h = (_, refl)
send_denied time_wait h = (_, refl)
send_denied last_ack h = (_, refl)

-- Once the connection is synchronized, the flag `app_send` is set; before it is not touched.
abbrev pub Told : Entry → Bool → Type 0
Told e told =
    ((e.tcp_state ≡ established) ⊎ (e.tcp_state ≡ close_wait) → told ≡ true)
    × ((e.tcp_state ≢ established) → (e.tcp_state ≢ close_wait) → told ≡ e.active.flags.app_send)

notify_send_lem :
    (e : Entry)
    → (told : Bool) × Told e told
      × (notify_send e ≡ record e {
        active = record e.active { flags = record e.active.flags { app_send = told } };
      })
unfolding notify_send
notify_send_lem e =
    elim (Bool-cases (is_state e.tcp_state established || is_state e.tcp_state close_wait)) [
      | inl synced ↦ (true, (λ _. refl, λ a b. ground arith), rw synced refl)
      | inr waiting ↦ (e.active.flags.app_send, (λ h. ground arith, λ _ _. refl), rw waiting refl)
    ]

-- A send of between 1 and 2 ^ 31 - 1 bytes, on a usable socket in a state that can send, with room
-- in its valid open send buffer, returns their number and appends them to the buffer. The flag that tells
-- the socket's thread of them is set if the connection is synchronized (ESTABLISHED or CLOSE_WAIT), and is
-- as it was if not; nothing else of the socket or of the daemon changes.
pub send-appends :
    (si : Server) (fd : ℤ) (bytes : List ℕ) (i : ℕ) (e : Entry)
    → usable si fd ≡ some (i, e)
    → Sends e.tcp_state
    → IsValid e.active.tcp_data.send
    → e.active.tcp_data.send.closed ≡ false
    → 0 < length bytes
    → length bytes < 2 ^ 31
    → e.active.tcp_data.send.count + length bytes ≤ e.active.tcp_data.send.maxsize
    → (b : Buffer) × (told : Bool) × (send si fd bytes
        ≡ done (length bytes) (
            put_entry si i (record e {
              active = record e.active {
                tcp_data = record e.active.tcp_data { send = b };
                flags = record e.active.flags { app_send = told };
              };
            })))
      × Told e told
      × IsValid b
      × (contents b ≡ contents e.active.tcp_data.send ++ bytes)
unfolding send send_entry send_written
send-appends si fd bytes i e good can v op pos small room =
    let s = e.active.tcp_data.send in
    let (b, q, app) = write-fits s bytes (length bytes) v pos (omega arith) small true op room in
    let nonempty : (length bytes == 0) ≡ false = ground arith in
    let allowed : send_refused e.tcp_state ≡ none = send_allowed e.tcp_state can in
    let (told, is_told, noted) = notify_send_lem (with_send b e) in
    (
      b,
      told,
      rw (good, send, nonempty, send_entry, allowed, q)
          (ap (λ x. done (length bytes) (put_entry si i x)) noted),
      is_told,
      app.valid,
      app.appended ∙ ap (λ x. contents s ++ x) (slice-all bytes (length bytes - 0) (omega arith)),
    )

-- A send of some bytes on a usable socket in any other state is refused, and changes nothing.
send-refused :
    (si : Server) (fd : ℤ) (bytes : List ℕ) (i : ℕ) (e : Entry)
    → usable si fd ≡ some (i, e)
    → 0 < length bytes
    → ¬ Sends e.tcp_state
    → (c : Errno) × (send si fd bytes ≡ failed c si)
unfolding send send_entry
send-refused si fd bytes i e good pos cannot =
    let (c, q) = send_denied e.tcp_state cannot in
    let nonempty : (length bytes == 0) ≡ false = ground arith in
    (c, rw (good, send, nonempty, send_entry, q) refl)

-- The states in which `recv` reads: not a closed socket, not a listener's, and none after the
-- connection's data is over.
abbrev pub Receives : Entry → Type 0
Receives e =
    (e.tcp_state ≢ closed)
    × (e.tcp_state ≢ listen)
    × (e.tcp_state ≢ last_ack)
    × (e.tcp_state ≢ time_wait)
    × (e.tcp_state ≢ closing)

recv_allowed : (e : Entry) → Receives e → recv_check e ≡ reads
unfolding recv_check
recv_allowed e h = ground arith

pub recv-takes :
    (si : Server) (fd : ℤ) (len i : ℕ) (e : Entry)
    → usable si fd ≡ some (i, e)
    → Receives e
    → IsValid e.active.tcp_data.recv
    → 0 < len
    → 0 < e.active.tcp_data.recv.count
    → (b : Buffer) × (recv si fd len
        ≡ gave
            (fewer len e.active.tcp_data.recv.count)
            (take len (contents e.active.tcp_data.recv))
            (put_entry si i (notify_recv (with_recv b e))))
      × Consumed e.active.tcp_data.recv (fewer len e.active.tcp_data.recv.count) b
unfolding recv recv_entry recv_read
recv-takes si fd len i e good can v pos some_in =
    let r = e.active.tcp_data.recv in
    let (b, q, used) = read_lem r len true v pos some_in in
    let nonempty : (len == 0) ≡ false = ground arith in
    let got_some : (fewer len r.count == 0) ≡ false = ground arith in
    let allowed = recv_allowed e can in
    (b, rw (good, recv, nonempty, recv_entry, allowed, q, recv_read, got_some) refl, used)
