-- ===== src/Messages/Tests.antt =====
-- A message of one byte.
use chitcp.Base.{
  ℕ, ◌≡◌, refl, List, [], ◌∷◌, ◌++◌, Option, none, some, length, take, drop, replicate, arith, ap,
  sym, ◌∙◌, take_all, true, length-replicate,
}
use chitcp.Packets.{Sent, took, send_error, Received, got}
use chitcp.Packets.Sending.{Sends}
use chitcp.Packets.Receiving.{Receives}
use chitcp.Messages.{Sending, received, send_msg, recv_msg, conclude, size_bytes}
use chitcp.Messages.RoundTrip.{frame, recv_msg-send_msg}

abbrev pack : ℕ → List ℕ
pack n = n ∷ []

abbrev unpack : List ℕ → Option ℕ
unpack [] = none
unpack (n ∷ ns) = some n

abbrev all : List ℕ → List ℕ → Sent × List ℕ
all w bs = (took (length bs), w ++ bs)

abbrev stream : List ℕ → List ℕ
stream w = w

abbrev count : Sent → ℕ
count (took n) = n
count send_error = 0

all-Sends : Sends all stream
all-Sends = record {
  some_sent = λ w bs n w' e.
      let c : length bs ≡ n = ap (λ x. count x.0) e in
      (
        omega (arith, c),
        sym (ap (λ x. x.1) e) ∙ ap (λ x. w ++ x) (sym (take_all n bs (omega (arith, c)))),
      );
  none_sent = λ w bs w' e. cc (e);
}

abbrev waitall : List ℕ → ℕ → Received × List ℕ
waitall w n = (got (take n w), drop n w)

waitall-Receives : Receives waitall stream
waitall-Receives = record { arrived = λ w n h. (refl, refl) }

recv_msg-send_msg_example :
    ((send_msg pack all true [] 7).0 ≡ Sending.sent)
    × ((w : List ℕ) × (recv_msg unpack (λ n. replicate n 0) waitall (frame pack 7 ++ 9 ∷ [])
          ≡ (received 7, w))
        × (w ≡ 9 ∷ []))
unfolding send_msg conclude size_bytes
recv_msg-send_msg_example =
    recv_msg-send_msg pack unpack (λ n. replicate n 0) all stream waitall stream
      (λ n. length-replicate n 0) all-Sends waitall-Receives true [] (frame pack 7 ++ 9 ∷ []) 7
      (9 ∷ []) refl (omega arith) (omega arith) refl refl refl
