-- ===== src/Delivery/Running.antt =====
-- The state of the daemon is none of the segments' business.
use chitcp.Base.{ℕ, ◌≡◌, refl, ◌∙◌, Bool, false, Option, none, some, arith}
use chitcp.Addr.{Addr}
use chitcp.Server.{Segment, Entry, Server, Withheld}
use chitcp.Sockets.{change, lookup, release}
use chitcp.Delivery.{
  Time, Response, none_resp, stop, accept_monitor, duplicate, withhold, draw_withheld,
  recv_tcp_segment, recv_found, recv_at, respond, receive, receive_drawn, withhold_segment, draw,
  queue, deliver, lookup_and_deliver, deliver_found, local_of, remote_of,
}

-- A segment that arrives leaves the state of the daemon as it is.
change-state : (si : Server) (i : ℕ) (f : Entry → Entry) → (change si i f).state ≡ si.state
change-state si i f = ground arith

release-state : (si : Server) (i : ℕ) → (release si i).state ≡ si.state
unfolding release
release-state si i = change-state si i _

lookup-state : (si : Server) (l r : Addr) (exact : Bool) → (lookup si l r exact).1.state ≡ si.state
unfolding lookup
lookup-state si l r exact = grind (arith, change-state)

deliver-state :
    (si : Server) (i : ℕ) (s : Segment) (l r : Addr) → (deliver si i s l r).state ≡ si.state
unfolding deliver
deliver-state si i s l r = change-state si i _

deliver_found-state :
    (o : Option ℕ × Server) (s : Segment) (l r : Addr) → (deliver_found o s l r).state ≡ o.1.state
unfolding deliver_found
deliver_found-state (none, si) s l r = refl
deliver_found-state (some i, si) s l r = release-state _ i ∙ deliver-state si i s l r

receive-state :
    (si : Server) (i : ℕ) (now : Time) (s : Segment) (l r : Addr)
    → (receive si i now s l r).state ≡ si.state
unfolding receive queue
receive-state si i now s l r = grind (arith, deliver-state)

receive_drawn-state :
    (si : Server) (now : Time) (w : Option Withheld) → (receive_drawn si now w).state ≡ si.state
unfolding receive_drawn lookup_and_deliver queue
receive_drawn-state si now none = refl
receive_drawn-state si now (some w) = grind (arith, deliver_found-state, lookup-state)

draw-state : (si : Server) (i : ℕ) → (draw si i).1.state ≡ si.state
unfolding draw
draw-state si i = ground arith

respond-state :
    (si : Server) (i : ℕ) (now : Time) (resp : Response) (s : Segment) (l r : Addr)
    → (respond si i now resp s l r).state ≡ si.state
unfolding respond withhold_segment
respond-state si i now none_resp s l r = receive-state si i now s l r
respond-state si i now stop s l r = refl
respond-state si i now accept_monitor s l r = refl
respond-state si i now Response.drop s l r = refl
respond-state si i now duplicate s l r = receive-state _ i now s l r ∙ change-state si i _
respond-state si i now withhold s l r = change-state si i _
respond-state si i now draw_withheld s l r =
    let d = draw si i in
    receive_drawn-state (receive d.1 i now s l r) now d.0
    ∙ receive-state d.1 i now s l r
    ∙ draw-state si i

recv_at-state :
    (si : Server) (i : ℕ) (now : Time) (resp : Response) (s : Segment) (l r : Addr) (e : Entry)
    → (recv_at si i now resp s l r e).1.state ≡ si.state
unfolding recv_at
recv_at-state si i now resp s l r e = grind (arith, release-state, respond-state)

recv_found-state :
    (o : Option ℕ × Server) (now : Time) (resp : Response) (s : Segment) (l r : Addr)
    → (recv_found o now resp s l r).1.state ≡ o.1.state
unfolding recv_found
recv_found-state (none, si) now resp s l r = refl
recv_found-state (some i, si) now resp s l r = grind (arith, recv_at-state)

pub recv_tcp_segment-state :
    (si : Server) (now : Time) (resp : Response) (s : Segment) (l r : Addr)
    → (recv_tcp_segment si now resp s l r).1.state ≡ si.state
unfolding recv_tcp_segment
recv_tcp_segment-state si now resp s l r =
    let a = local_of s l in
    let b = remote_of s r in
    recv_found-state (lookup si a b false) now resp s a b ∙ lookup-state si a b false
