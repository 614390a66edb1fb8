-- ===== src/Messages/RoundTrip.antt =====
-- A message that is sent is the message that is received.
use mathlib.Core.List.{append_assoc}
use chitcp.Base.{
  ℕ, ◌+◌, ◌-◌, ◌%◌, ◌^◌, ◌<◌, ◌≡◌, refl, sym, ap, ◌∙◌, Bool, false, List, [], ◌++◌, Option, some,
  length, take, drop, copy_at, arith, drop-copy_at, take-append, drop-append, take_all,
  length-append,
}
use chitcp.Packets.{Sent, took, Received, got}
use chitcp.Packets.Sending.{Sends}
use chitcp.Packets.Receiving.{Receives}
use chitcp.Messages.{
  size_bytes, size_of, reads_zero, reads_error, outgoing, Sending, received, conclude, send_msg,
  unpacked, with_body, with_size, recv_msg, then_recv, send_and_recv_msg,
}

size_of-bytes : (n : ℕ) → n < 2 ^ 64 → size_of (size_bytes n) ≡ n
unfolding size_of size_bytes
size_of-bytes n h = omega arith

-- A message as it stands on the socket.
abbrev pub frame : {M : Type 0} → (M → List ℕ) → M → List ℕ
frame pack msg = size_bytes (length (pack msg)) ++ pack msg

-- The counts below 2 ^ 32 - 1 are neither read as 0 nor as -1, but for 0.
not_zero : (n : ℕ) → 0 < n → n < 2 ^ 32 - 1 → reads_zero n ≡ false
unfolding reads_zero
not_zero n pos small = ground arith

not_error : (n : ℕ) → n < 2 ^ 32 - 1 → reads_error n ≡ false
unfolding reads_error
not_error n small = ground arith

length-size_bytes : (n : ℕ) → length (size_bytes n) ≡ 8
unfolding size_bytes
length-size_bytes n = refl

length-frame :
    {M : Type 0} (pack : M → List ℕ) (msg : M) → length (frame pack msg) ≡ 8 + length (pack msg)
length-frame pack msg =
    length-append (size_bytes (length (pack msg))) (pack msg)
    ∙ ap (λ k. k + length (pack msg)) (length-size_bytes (length (pack msg)))

-- A packing below 2 ^ 31 bytes goes out whole.
pub outgoing-frame :
    {M : Type 0} (pack : M → List ℕ) (msg : M)
    → length (pack msg) < 2 ^ 31
    → outgoing (pack msg) ≡ frame pack msg
unfolding outgoing
outgoing-frame pack msg small =
    take_all ((8 + length (pack msg)) % 2 ^ 64) (frame pack msg)
      (omega (arith, length-frame pack msg))

module _ {V M : Type 0} (pack : M → List ℕ) (unpack : List ℕ → Option M) (garbage : ℕ → List ℕ)
    (recv : V → ℕ → Received × V) (input : V → List ℕ) (fresh : (n : ℕ) → length (garbage n) ≡ n)
    (law : Receives recv input) where
  body-eq :
      (v : V) (msg : M) (rest : List ℕ)
      → unpack (pack msg) ≡ some msg
      → 0 < length (pack msg)
      → length (pack msg) < 2 ^ 31
      → input v ≡ pack msg ++ rest
      → (with_body unpack garbage (length (pack msg)) (recv v (length (pack msg)))
          ≡ (received msg, (recv v (length (pack msg))).1))
        × (input (recv v (length (pack msg))).1 ≡ rest)
  unfolding with_body unpacked
  body-eq v msg rest back pos small e =
      let n = length (pack msg) in
      let (g, d) = law.arrived v n (omega (arith, ap length e, length-append (pack msg) rest)) in
      let all : (recv v n).0 ≡ got (pack msg) =
        g ∙ ap (λ x. got (take n x)) e ∙ ap got (take-append (pack msg) rest) in
      let whole : copy_at (garbage n) 0 (pack msg) ≡ pack msg =
        drop-copy_at (garbage n) 0 (pack msg) (omega (arith, fresh n)) in
      (
        ap (λ r. with_body unpack garbage n (r, (recv v n).1)) all
            ∙ rw (not_zero n pos (omega arith), not_error n (omega arith))
                (ap (λ bs. (unpacked (unpack bs), (recv v n).1)) whole
                  ∙ ap (λ o. (unpacked o, (recv v n).1)) back),
        d ∙ ap (drop n) e ∙ drop-append (pack msg) rest,
      )

  -- Receiving a message that has arrived, with the bytes after it.
  pub recv_msg-frame :
      (v : V) (msg : M) (rest : List ℕ)
      → unpack (pack msg) ≡ some msg
      → 0 < length (pack msg)
      → length (pack msg) < 2 ^ 31
      → input v ≡ frame pack msg ++ rest
      → (v' : V) × (recv_msg unpack garbage recv v ≡ (received msg, v')) × (input v' ≡ rest)
  unfolding recv_msg with_size
  recv_msg-frame v msg rest back pos small e =
      let n = length (pack msg) in
      let size = size_bytes n in
      let all : input v ≡ size ++ (pack msg ++ rest) = e ∙ append_assoc size (pack msg) rest in
      let (g, d) = law.arrived v 8 (
        omega (arith, ap length all, length-append size (pack msg ++ rest), length-size_bytes n)) in
      let v1 = (recv v 8).1 in
      let eight : got (take 8 (input v)) ≡ got size =
        ap (λ x. got (take 8 x)) all
        ∙ ap (λ k. got (take k (size ++ (pack msg ++ rest)))) (sym (length-size_bytes n))
        ∙ ap got (take-append size (pack msg ++ rest)) in
      let left : input v1 ≡ pack msg ++ rest =
        d
        ∙ ap (drop 8) all
        ∙ ap (λ k. drop k (size ++ (pack msg ++ rest))) (sym (length-size_bytes n))
        ∙ drop-append size (pack msg ++ rest) in
      let whole : copy_at (garbage 8) 0 size ≡ size =
        drop-copy_at (garbage 8) 0 size (omega (arith, fresh 8, length-size_bytes n)) in
      let count : size_of (copy_at (garbage 8) 0 size) ≡ n =
        ap size_of whole ∙ size_of-bytes n (omega arith) in
      let (b, r) = body-eq v1 msg rest back pos small left in
      (
        (recv v1 n).1,
        ap (λ x. with_size unpack garbage recv (x, v1)) (g ∙ eight)
            ∙ rw (length-size_bytes n) (ap (λ k. with_body unpack garbage k (recv v1 k)) count ∙ b),
        r,
      )

-- A send that takes the whole message
sent-eq :
    {W M : Type 0} (pack : M → List ℕ) (send : W → List ℕ → Sent × W) (reset : Bool) (w : W)
    (msg : M)
    → length (pack msg) < 2 ^ 31
    → (send w (frame pack msg)).0 ≡ took (length (frame pack msg))
    → send_msg pack send reset w msg ≡ (Sending.sent, (send w (frame pack msg)).1)
unfolding send_msg conclude
sent-eq pack send reset w msg small all =
    let bs = frame pack msg in
    ap (λ x. conclude reset (send w x)) (outgoing-frame pack msg small)
    ∙ ap (λ x. conclude reset (x, (send w bs).1)) all
    ∙ rw (not_error (length bs) (omega (arith, length-frame pack msg))) refl

-- A message that a host sends whole on a socket with nothing on its way, and that unpacks to itself from a packing of 1 to 2 ^ 31 - 1 bytes: `chitcpd_send_msg` succeeds, and `chitcpd_recv_msg` at the other end returns the same message and leaves the bytes that came after it.
pub recv_msg-send_msg :
    {W V M : Type 0} (pack : M → List ℕ) (unpack : List ℕ → Option M) (garbage : ℕ → List ℕ)
    (send : W → List ℕ → Sent × W) (stream : W → List ℕ) (recv : V → ℕ → Received × V)
    (input : V → List ℕ)
    → ((n : ℕ) → length (garbage n) ≡ n)
    → Sends send stream
    → Receives recv input
    → (reset : Bool) (w : W) (v : V) (msg : M) (rest : List ℕ) → unpack (pack msg) ≡ some msg
    → 0 < length (pack msg)
    → length (pack msg) < 2 ^ 31
    → stream w ≡ []
    → (send w (frame pack msg)).0 ≡ took (length (frame pack msg))
    → input v ≡ stream (send_msg pack send reset w msg).1 ++ rest
    → ((send_msg pack send reset w msg).0 ≡ Sending.sent)
      × ((v' : V) × (recv_msg unpack garbage recv v ≡ (received msg, v')) × (input v' ≡ rest))
recv_msg-send_msg pack unpack garbage send stream recv input fresh out law reset w v msg rest back
      pos small empty all e =
    let bs = frame pack msg in
    let w' = (send w bs).1 in
    let o : send_msg pack send reset w msg ≡ (Sending.sent, w') =
      sent-eq pack send reset w msg small all in
    let (_, st) = out.some_sent w bs (length bs) w' (ap (λ x. (x, w')) all) in
    let left : stream w' ≡ bs =
      st ∙ ap (λ x. x ++ take (length bs) bs) empty ∙ take_all (length bs) bs (omega arith) in
    (
      ap (λ x. x.0) o,
      recv_msg-frame pack unpack garbage recv input fresh law v msg rest back pos small
          (e ∙ ap (λ x. stream x.1 ++ rest) o ∙ ap (λ x. x ++ rest) left),
    )

-- After a send that takes the whole message, the answer is received.
pub send_and_recv_msg-took :
    {W M : Type 0} (pack : M → List ℕ) (unpack : List ℕ → Option M) (garbage : ℕ → List ℕ)
    (send : W → List ℕ → Sent × W) (recv : W → ℕ → Received × W) (reset : Bool) (w : W) (msg : M)
    → length (pack msg) < 2 ^ 31
    → (send w (frame pack msg)).0 ≡ took (length (frame pack msg))
    → send_and_recv_msg pack unpack garbage send recv reset w msg
      ≡ recv_msg unpack garbage recv (send w (frame pack msg)).1
unfolding send_and_recv_msg then_recv
send_and_recv_msg-took pack unpack garbage send recv reset w msg small all =
    ap (then_recv (recv_msg unpack garbage recv)) (sent-eq pack send reset w msg small all)
