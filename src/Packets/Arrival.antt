-- ===== src/Packets/Arrival.antt =====
-- Segments from one daemon to another: the packets on the connection, and the rounds that receive them.
use chitcp.Base.{
  ℕ, arith, ◌+◌, ◌≤◌, ◌<◌, ◌≡◌, ◌≢◌, refl, sym, ap, ◌∙◌, List, [], ◌∷◌, ◌++◌, false, length, subst,
}
use mathlib.Core.List.{append-nil}
use chitcp.Addr.{Addr}
use chitcp.Server.{Segment, Server}
use chitcp.Delivery.{Time, Response, recv_tcp_segment}
use chitcp.Delivery.Running.{recv_tcp_segment-state}
use chitcp.Packets.Sending.{Sends, send_tcp_segment-returned}
use chitcp.Packets.{
  Sent, returned, send_tcp_segment, full_packet, Received, Receiver, buf_size, goes_on, next,
  is_stopping, round, rounds,
}
use chitcp.Packets.Receiving.{Receives, IsReady, round_lem}

-- The packets of some segments, one after the other, with the bytes after them.
pub packets : List Segment → List ℕ → List ℕ
packets [] rest = rest
packets (s ∷ ss) rest = full_packet s ++ packets ss rest

-- Segments that fit the thread's buffer.
abbrev pub Fit : List Segment → Type 0
Fit [] = Unit
Fit (s ∷ ss) = (0 < length s) × (length s ≤ buf_size) × Fit ss

module _ (clock : ℕ → Time) (resps : ℕ → Response) (l r : Addr) where
  -- The daemon receives the segments in order, from round `k` on.
  pub receive_all : ℕ → Server → List Segment → Server
  receive_all k si [] = si
  receive_all k si (s ∷ ss) =
      receive_all (k + 1) (recv_tcp_segment si (clock k) (resps k) s l r).1 ss

  -- However many packets follow each other on the connection of a daemon that is not stopping, each with a segment of 1 to 1,000 bytes: in as many rounds the daemon receives their segments, in order and nothing else, and the thread is ready for what comes after them.
  rounds_lem :
      {W : Type 0} (recv : W → ℕ → Received × W) (input : W → List ℕ)
      → Receives recv input
      → (ss : List Segment) (k : ℕ) (si : Server) (rx : Receiver W) (rest : List ℕ) → Fit ss
      → is_stopping si.state ≡ false
      → IsReady input (packets ss rest) rx
      → (rx' : Receiver W) × IsReady input rest rx'
        × (rounds recv clock resps l r k (length ss) si rx ≡ (goes_on, receive_all k si ss, rx'))
  unfolding packets receive_all rounds next
  rounds_lem recv input law [] k si rx rest fit live v = (rx, v, refl)
  rounds_lem recv input law (s ∷ ss) k si rx rest fit live v =
      let si' = (recv_tcp_segment si (clock k) (resps k) s l r).1 in
      let (rx1, v1, e1) =
        round_lem recv input law (clock k) (resps k) l r si rx s (packets ss rest) fit.0 fit.1 live
          v in
      let (rx', v', e') =
        rounds_lem recv input law ss (k + 1) si' rx1 rest fit.2
          (ap is_stopping (recv_tcp_segment-state si (clock k) (resps k) s l r) ∙ live) v1 in
      (rx', v', ap (next (rounds recv clock resps l r (k + 1) (length ss))) e1 ∙ e')

-- A segment of 1 to 1,000 bytes that is sent on a connection where nothing is on its way, and is not dropped by the monitor's answer: when `chitcpd_send_tcp_segment` returns a count, however the host split the bytes, it is the segment's length, and a daemon that is not stopping and is connected to the other end receives just that segment in its next round.
pub sent-received :
    {W V : Type 0} (send : W → List ℕ → Sent × W) (stream : W → List ℕ)
    (recv : V → ℕ → Received × V) (input : V → List ℕ)
    → Sends send stream
    → Receives recv input
    → (monitor : Response) (w w' : W) (s : Segment) (n : ℕ) → monitor ≢ Response.drop
    → stream w ≡ []
    → send_tcp_segment send monitor w s ≡ (returned n, w')
    → 0 < length s
    → length s ≤ buf_size
    → (now : Time) (resp : Response) (l r : Addr) (si : Server) (rx : Receiver V)
    → is_stopping si.state ≡ false
    → IsReady input (stream w') rx
    → (n ≡ length s)
      × ((rx' : Receiver V) × IsReady input [] rx'
          × (round recv si now resp l r rx
              ≡ (goes_on, (recv_tcp_segment si now resp s l r).1, rx')))
sent-received send stream recv input out inp monitor w w' s n kept empty e pos fits now resp l r si
      rx live v =
    let g = send_tcp_segment-returned send stream out monitor w w' s n (omega arith) kept e in
    let all : stream w' ≡ full_packet s ++ [] =
      g.1 ∙ ap (λ x. x ++ full_packet s) empty ∙ sym (append-nil (full_packet s)) in
    (
      g.0,
      round_lem recv input inp now resp l r si rx s [] pos fits live
          (subst (λ x. IsReady input x rx) all v),
    )
