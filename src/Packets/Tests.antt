-- ===== src/Packets/Tests.antt =====
-- Packets at concrete inputs: a host that sends a byte at a time, and a stream that has arrived.
use chitcp.Base.{
  ℕ, ◌≤◌, ◌≡◌, refl, List, [], ◌∷◌, ◌++◌, take, drop, length, replicate, arith, ap, subst, sym, ◌∙◌,
  length-replicate,
}
use chitcp.Addr.{ntohs}
use chitcp.Server.{Segment}
use chitcp.Delivery.{Time, Response, none_resp, recv_tcp_segment}
use mathlib.Core.List.{append-nil}
use chitcp.Sockets.Tests.{server, local_addr, peer_addr}
use chitcp.Packets.{
  Sent, took, send_error, Received, got, returned, Receiver, full_packet, goes_on, overruns,
  send_tcp_segment, round,
}
use chitcp.Packets.Sending.{Sends, IsSent, send_tcp_segment-IsSent}
use chitcp.Packets.Receiving.{Receives, IsReady, round-overruns}
use chitcp.Packets.Arrival.{sent-received}

-- The world of `send`: what has been sent.
abbrev pub one : List ℕ → List ℕ → Sent × List ℕ
one w [] = (took 0, w)
one w (b ∷ bs) = (took 1, w ++ b ∷ [])

abbrev pub stream : List ℕ → List ℕ
stream w = w

abbrev count : Sent → ℕ
count (took n) = n
count send_error = 0

takes_first :
    (w : List ℕ) (bs : List ℕ) (n : ℕ) (w' : List ℕ)
    → one w bs ≡ (took n, w')
    → (n ≤ length bs) × (w' ≡ w ++ take n bs)
takes_first w [] n w' e =
    let c : 0 ≡ n = ap (λ x. count x.0) e in
    subst (λ k. (k ≤ 0) × (w' ≡ w ++ take k [])) c
      (omega arith, sym (ap (λ x. x.1) e) ∙ sym (append-nil w))
takes_first w (b ∷ bs) n w' e =
    let c : 1 ≡ n = ap (λ x. count x.0) e in
    subst (λ k. (k ≤ length (b ∷ bs)) × (w' ≡ w ++ take k (b ∷ bs))) c
      (omega arith, sym (ap (λ x. x.1) e))

never_fails : (w : List ℕ) (bs : List ℕ) (w' : List ℕ) → one w bs ≡ (send_error, w') → w' ≡ w
never_fails w [] w' e = sym (ap (λ x. x.1) e)
never_fails w (b ∷ bs) w' e = cc

pub one-Sends : Sends one stream
one-Sends = record { some_sent = takes_first; none_sent = never_fails }

-- The world of `recv`: what is still to come.
abbrev waitall : List ℕ → ℕ → Received × List ℕ
waitall w n = (got (take n w), drop n w)

waitall-Receives : Receives waitall stream
waitall-Receives = record { arrived = λ w n h. (refl, refl) }

-- A segment of three bytes, and a thread that is ready for it.
abbrev segment : Segment
segment = 1 ∷ 2 ∷ 3 ∷ []

abbrev waiting : List ℕ → Receiver (List ℕ)
waiting w = record { header = replicate 16 0; buf = replicate 1000 0; world = w }

waiting-IsReady : (w : List ℕ) → IsReady stream w (waiting w)
waiting-IsReady w = record {
  header_size = refl;
  buffer_size = length-replicate {A = ℕ} 1000 0;
  to_come = refl;
}

abbrev clock : ℕ → Time
clock k = record { sec = k; nsec = 0 }

abbrev answers : ℕ → Response
answers k = none_resp

send_tcp_segment-IsSent_example :
    IsSent one stream none_resp [] segment (send_tcp_segment one none_resp [] segment)
send_tcp_segment-IsSent_example =
    send_tcp_segment-IsSent one stream one-Sends none_resp [] segment (omega arith)

abbrev long : Segment
long = replicate 1001 7

round-overruns_example :
    (round waitall server
      (clock 0)
      none_resp
      local_addr
      peer_addr
      (waiting (full_packet long ++ []))).0
    ≡ overruns
round-overruns_example =
    round-overruns waitall stream waitall-Receives (clock 0) none_resp local_addr peer_addr server
      (waiting (full_packet long ++ [])) long [] (omega (arith, length-replicate {A = ℕ} 1001 7))
      (omega (arith, length-replicate {A = ℕ} 1001 7)) refl (waiting-IsReady _)

sent : send_tcp_segment one none_resp [] segment ≡ (returned 3, full_packet segment)
unfolding send_tcp_segment ntohs
sent = refl

sent-received_example :
    (3 ≡ length segment)
    × ((rx : Receiver (List ℕ)) × IsReady stream [] rx
        × (round waitall server
              (clock 0)
              none_resp
              local_addr
              peer_addr
              (waiting (full_packet segment))
            ≡ (
              goes_on,
              (recv_tcp_segment server (clock 0) none_resp segment local_addr peer_addr).1,
              rx,
            )))
sent-received_example =
    sent-received one stream waitall stream one-Sends waitall-Receives none_resp []
      (full_packet segment) segment 3 (cc) refl sent (omega arith) (omega arith) (clock 0) none_resp
      local_addr peer_addr server (waiting (full_packet segment)) refl (waiting-IsReady _)
