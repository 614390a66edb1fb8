-- ===== src/Delivery/Recv.antt =====
-- No segment that arrives is lost or made up on the way to its socket.
use chitcp.Base.{
  ℕ, ◌+◌, ◌*◌, ◌≡◌, ◌≢◌, refl, ◌⊎◌, inl, inr, Bool, true, false, List, [], ◌∷◌, ◌++◌, ◌||◌, none,
  some, arith, ltb, get_elem?, get_elem?-set_self, Bool-cases, sym, ap, subst, ◌∙◌,
}
use chitcp.Types.{Retcode, active, passive, uninitialized, SocketType, ok, esocket}
use chitcp.Addr.{Addr}
use chitcp.Server.{Segment, Entry, Withheld, Server}
use chitcp.Sockets.{change, release}
use chitcp.Sockets.Lookup.{lookup_lem, Best, Matches}
use chitcp.Sockets.Refs.Cases.{get_elem?-lt}
use chitcp.Delivery.{
  Response, none_resp, stop, accept_monitor, drop, duplicate, withhold, draw_withheld, Time,
  deliver, deliver_to, lookup_and_deliver, deliver_found, recv_found, local_of, remote_of,
  has_segments, draw, withhold_segment, receive, receive_drawn, respond, recv_at, recv_tcp_segment,
}
use chitcp.Delivery.Tally.{
  sum_of-append, tally, entry_tally, tally-change, tally-change_same, tally-release, tally-queue,
  tally-deliver, withheld_tally,
}

-- Nobody takes a segment with these addresses.
abbrev pub Unclaimed : Server → Addr → Addr → Type 0
Unclaimed si l r =
    ((k n : ℕ) → ¬ Matches l r false si.sockets k n)
    ⊎ ((k : ℕ) × (n : ℕ) × (b : Best l r false si.sockets k n) × (b.matches.0.actpas_type
          ≡ uninitialized))

get-change :
    (si : Server) (i : ℕ) (f : Entry → Entry) (e : Entry)
    → get_elem? si.sockets i ≡ some e
    → get_elem? (change si i f).sockets i ≡ some (f e)
get-change si i f e g =
    rw (g, change) (get_elem?-set_self si.sockets i (f e) (get_elem?-lt si.sockets i e g))

SocketType-cases : (t : SocketType) → (t ≡ uninitialized) ⊎ (t ≢ uninitialized)
SocketType-cases active = inr cc
SocketType-cases passive = inr cc
SocketType-cases uninitialized = inl refl

List-cases :
    (ws : List Withheld) → (ws ≡ []) ⊎ ((x : Withheld) × (xs : List Withheld) × (ws ≡ x ∷ xs))
List-cases [] = inl refl
List-cases (x ∷ xs) = inr (x, xs, refl)

recv_at_cases :
    (si : Server) (i : ℕ) (now : Time) (resp : Response) (s : Segment) (l r : Addr) (e : Entry)
    → ((recv_at si i now resp s l r e ≡ (esocket, release si i)) × (e.actpas_type ≡ uninitialized))
      ⊎ ((recv_at si i now resp s l r e ≡ (ok, release (respond si i now resp s l r) i))
          × (e.actpas_type ≢ uninitialized))
unfolding recv_at
recv_at_cases si i now resp s l r e = ground arith

module _ (weight : Segment → ℕ) where
  tally-deliver_uninitialized :
      (si : Server) (i : ℕ) (s : Segment) (l r : Addr) (e : Entry)
      → get_elem? si.sockets i ≡ some e
      → e.actpas_type ≡ uninitialized
      → tally weight (deliver si i s l r) ≡ tally weight si
  unfolding deliver deliver_to
  tally-deliver_uninitialized si i s l r e g u =
      omega (arith, tally-change weight si i (deliver_to s l r) e g, same)
    where
      same : entry_tally weight (deliver_to s l r e) ≡ entry_tally weight e
      same = ground (arith, u)

  -- A segment that is looked up again is added to those held, unless no socket matches or the best
  -- match is not set up yet.
  pub lookup_and_deliver-tally :
      (si : Server) (s : Segment) (l r : Addr)
      → ((tally weight (lookup_and_deliver si s l r) ≡ tally weight si) × Unclaimed si l r)
        ⊎ (tally weight (lookup_and_deliver si s l r) ≡ tally weight si + weight s)
  unfolding lookup_and_deliver deliver_found
  lookup_and_deliver-tally si s l r = elim (lookup_lem si l r false) [
    | inl (q, out) ↦
        let p : lookup_and_deliver si s l r ≡ si = ap (λ x. deliver_found x s l r) q in
        inl (ap (tally weight) p, inl out)
    | inr (k, n, q, b) ↦
        let inc : Entry → Entry = λ e. record e { refcount = e.refcount + 1 } in
        let p : lookup_and_deliver si s l r ≡ release (deliver (change si k inc) k s l r) k =
          ap (λ x. deliver_found x s l r) q in
        let t = ap (tally weight) p ∙ tally-release weight (deliver (change si k inc) k s l r) k in
        let g = get-change si k inc b.matches.0 b.matches.1 in
        let same = tally-change_same weight si k inc (λ e. refl) in
        elim (SocketType-cases b.matches.0.actpas_type) [
          | inl u ↦ inl (
            t ∙ tally-deliver_uninitialized (change si k inc) k s l r (inc b.matches.0) g u ∙ same,
            inr (k, n, b, u),
          )
          | inr ready ↦ inr (
              omega (
                arith,
                t,
                same,
                tally-deliver weight (change si k inc) k s l r (inc b.matches.0) g ready,
              ))
        ]
  ]

  tally-receive :
      (si : Server) (i : ℕ) (now : Time) (s : Segment) (l r : Addr) (e : Entry)
      → get_elem? si.sockets i ≡ some e
      → e.actpas_type ≢ uninitialized
      → tally weight (receive si i now s l r) ≡ tally weight si + weight s
  unfolding receive
  tally-receive si i now s l r e g ready =
      elim (Bool-cases (ltb 0 si.latency_ns || has_segments si.delivery_queue l r)) [
        | inl later ↦ rw (later, receive) (tally-queue weight si now s l r)
        | inr at_once ↦ rw (at_once, receive) (tally-deliver weight si i s l r e g ready)
      ]

  tally-withhold :
      (si : Server) (i : ℕ) (s : Segment) (l r : Addr) (copied : Bool) (e : Entry)
      → get_elem? si.sockets i ≡ some e
      → tally weight (withhold_segment si i s l r copied) ≡ tally weight si + weight s
  unfolding withhold_segment
  tally-withhold si i s l r copied e g =
      let w : Withheld = record {
        segment = s;
        duplicate = copied;
        local_addr = l;
        remote_addr = r;
      } in
      let f : Entry → Entry = λ x. record x { withheld_segments = x.withheld_segments ++ w ∷ [] } in
      omega (
        arith,
        tally-change weight si i f e g,
        sum_of-append (λ x. weight x.segment) e.withheld_segments (w ∷ []),
      )

  pub draw-tally :
      (si : Server) (i : ℕ) (e : Entry)
      → get_elem? si.sockets i ≡ some e
      → ((draw si i ≡ (none, si)) × (e.withheld_segments ≡ []))
        ⊎ ((w : Withheld) × (ws : List Withheld) × (e.withheld_segments ≡ w ∷ ws)
            × ((draw si i).0 ≡ some w)
            × (tally weight (draw si i).1 + weight w.segment ≡ tally weight si)
            × (get_elem? (draw si i).1.sockets i ≡ some (record e { withheld_segments = ws })))
  unfolding draw
  draw-tally si i e g = elim (List-cases e.withheld_segments) [
    | inl none_left ↦ inl (rw (g, draw, none_left) refl, none_left)
    | inr (w, ws, some_left) ↦
        let f : Entry → Entry = λ x. record x { withheld_segments = ws } in
        let q : draw si i ≡ (some w, change si i f) = rw (g, draw, some_left) refl in
        inr (
          w,
          ws,
          some_left,
          ap (λ x. x.0) q,
          omega (
            arith,
            ap (λ x. tally weight x.1) q,
            tally-change weight si i f e g,
            ap (withheld_tally weight) some_left,
          ),
          ap (λ x. get_elem? x.1.sockets i) q ∙ get-change si i f e g,
        )
  ]

  receive_drawn-tally :
      (si : Server) (now : Time) (w : Withheld)
      → (tally weight (receive_drawn si now (some w)) ≡ tally weight si)
        ⊎ (tally weight (receive_drawn si now (some w)) ≡ tally weight si + weight w.segment)
  unfolding receive_drawn
  receive_drawn-tally si now w = elim (Bool-cases (ltb 0 si.latency_ns)) [
    | inl later ↦
        inr (
          rw (later, receive_drawn)
            (tally-queue weight si now w.segment w.local_addr w.remote_addr))
    | inr at_once ↦ elim (lookup_and_deliver-tally si w.segment w.local_addr w.remote_addr) [
      | inl (q, _) ↦ inl (rw (at_once, receive_drawn) q)
      | inr q ↦ inr (rw (at_once, receive_drawn) q)
    ]
  ]

  -- How many copies of the segment there are afterwards.
  abbrev pub copies : Response → ℕ
  copies none_resp = 1
  copies draw_withheld = 1
  copies withhold = 1
  copies duplicate = 2
  copies drop = 0
  copies stop = 0
  copies accept_monitor = 0

  -- A drawn segment that no socket takes is the only loss.
  abbrev pub DrawnLost : List Withheld → Server → Server → Response → Segment → Type 0
  DrawnLost waiting si after resp s =
      (w : Withheld) × (ws : List Withheld) × (resp ≡ draw_withheld)
      × (waiting ≡ w ∷ ws)
      × (tally weight after + weight w.segment ≡ tally weight si + weight s)

  abbrev pub Kept : List Withheld → Server → Server → Response → Segment → Type 0
  Kept waiting si after resp s =
      (tally weight after ≡ tally weight si + copies resp * weight s)
      ⊎ DrawnLost waiting si after resp s

  respond-Kept :
      (si : Server) (i : ℕ) (now : Time) (resp : Response) (s : Segment) (l r : Addr) (e : Entry)
      → get_elem? si.sockets i ≡ some e
      → e.actpas_type ≢ uninitialized
      → Kept e.withheld_segments si (respond si i now resp s l r) resp s
  unfolding respond withhold_segment receive_drawn
  respond-Kept si i now none_resp s l r e g ready =
      inl (omega (arith, tally-receive si i now s l r e g ready))
  respond-Kept si i now stop s l r e g ready = inl (omega arith)
  respond-Kept si i now accept_monitor s l r e g ready = inl (omega arith)
  respond-Kept si i now drop s l r e g ready = inl (omega arith)
  respond-Kept si i now withhold s l r e g ready =
      inl (omega (arith, tally-withhold si i s l r false e g))
  respond-Kept si i now duplicate s l r e g ready =
      let w : Withheld = record {
        segment = s;
        duplicate = true;
        local_addr = l;
        remote_addr = r;
      } in
      let f : Entry → Entry = λ x. record x { withheld_segments = x.withheld_segments ++ w ∷ [] } in
      inl (
        omega (
          arith,
          tally-withhold si i s l r true e g,
          tally-receive (withhold_segment si i s l r true) i now s l r (f e) (get-change si i f e g)
              ready,
        ))
  respond-Kept si i now draw_withheld s l r e g ready = elim (draw-tally si i e g) [
    | inl (q, _) ↦
        let p : respond si i now draw_withheld s l r ≡ receive si i now s l r =
          ap (λ d. receive_drawn (receive d.1 i now s l r) now d.0) q in
        inl (omega (arith, ap (tally weight) p, tally-receive si i now s l r e g ready))
    | inr (w, ws, has, first, rest, g') ↦
        let si' = receive (draw si i).1 i now s l r in
        let p : respond si i now draw_withheld s l r ≡ receive_drawn si' now (some w) =
          ap (receive_drawn si' now) first in
        let t =
          tally-receive (draw si i).1 i now s l r (record e { withheld_segments = ws }) g' ready in
        elim (receive_drawn-tally si' now w) [
          | inl lost ↦ inr (w, ws, refl, has, omega (arith, ap (tally weight) p, t, rest, lost))
          | inr put ↦ inl (omega (arith, ap (tally weight) p, t, rest, put))
        ]
  ]

  abbrev pub Received : Server → Retcode × Server → Response → Segment → Addr → Addr → Type 0
  Received si res resp s l r =
      ((res.0 ≡ esocket) × (tally weight res.1 ≡ tally weight si) × Unclaimed si l r)
      ⊎ ((k : ℕ) × (n : ℕ) × (b : Best l r false si.sockets k n) × (res.0 ≡ ok)
          × Kept b.matches.0.withheld_segments si res.1 resp s)

  recv_found-Received :
      (si : Server) (k n : ℕ) (now : Time) (resp : Response) (s : Segment) (l r : Addr)
      (b : Best l r false si.sockets k n)
      → Received si
          (recv_found
            (some k, change si k (λ e. record e { refcount = e.refcount + 1 }))
            now
            resp
            s
            l
            r)
          resp
          s
          l
          r
  unfolding recv_found
  recv_found-Received si k n now resp s l r b =
      let inc : Entry → Entry = λ e. record e { refcount = e.refcount + 1 } in
      let si' = change si k inc in
      let g = get-change si k inc b.matches.0 b.matches.1 in
      let same = tally-change_same weight si k inc (λ e. refl) in
      let q : recv_found (some k, si') now resp s l r
          ≡ recv_at si' k now resp s l r (inc b.matches.0) =
        rw (g, recv_found) refl in
      subst (λ res. Received si res resp s l r) (sym q)
        (elim (recv_at_cases si' k now resp s l r (inc b.matches.0)) [
          | inl (p, u) ↦ inl (
            ap (λ x. x.0) p,
            omega (arith, ap (λ x. tally weight x.1) p, tally-release weight si' k, same),
            inr (k, n, b, u),
          )
          | inr (p, ready) ↦
              let si2 = respond si' k now resp s l r in
              let t = ap (λ x. tally weight x.1) p ∙ tally-release weight si2 k in
              inr (
                k,
                n,
                b,
                ap (λ x. x.0) p,
                elim (respond-Kept si' k now resp s l r (inc b.matches.0) g ready) [
                  | inl kept ↦ inl (omega (arith, t, same, kept))
                  | inr (w, ws, d, has, lost) ↦ inr (w, ws, d, has, omega (arith, t, same, lost))
                ],
              )
        ])

  -- A segment that arrives is refused with `CHITCP_ESOCKET`, and the daemon holds the same
  -- segments as before, only when no socket matches or the best match is not set up yet. Otherwise
  -- every segment held before is held afterwards, and the new one as often as the debug monitor
  -- asked for (twice for a duplicate, never for a drop); the one loss possible is of the segment
  -- that was drawn.
  pub recv_tcp_segment-Received :
      (si : Server) (now : Time) (resp : Response) (s : Segment) (local_real peer_real : Addr)
      → Received si
          (recv_tcp_segment si now resp s local_real peer_real)
          resp
          s
          (local_of s local_real)
          (remote_of s peer_real)
  unfolding recv_tcp_segment recv_found
  recv_tcp_segment-Received si now resp s a p =
      let l = local_of s a in
      let r = remote_of s p in
      elim (lookup_lem si l r false) [
        | inl (q, out) ↦
            let e : recv_tcp_segment si now resp s a p ≡ (esocket, si) =
              ap (λ x. recv_found x now resp s l r) q in
            inl (ap (λ x. x.0) e, ap (λ x. tally weight x.1) e, inl out)
        | inr (k, n, q, b) ↦
            let e = ap (λ x. recv_found x now resp s l r) q in
            subst (λ res. Received si res resp s l r) (sym e)
              (recv_found-Received si k n now resp s l r b)
      ]
