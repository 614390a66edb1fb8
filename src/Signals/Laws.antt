-- ===== src/Signals/Laws.antt =====
-- What a change of state leaves.
use chitcp.Base.{
  ℕ, ◌≡◌, refl, inl, inr, true, List, some, arith, get_elem?, get_elem?-set_self, ap, ◌∙◌,
}
use chitcp.Types.{TcpState, closed, active}
use chitcp.Server.{Server, Entry, Segment, Withheld}
use chitcp.Sockets.{change}
use chitcp.Sockets.Refs.Cases.{get_elem?-lt}
use chitcp.Delivery.{
  Response, none_resp, stop, accept_monitor, drop, duplicate, withhold, draw_withheld, Time,
  draw_withheld_segment, queue, queue_drawn, draw,
}
use chitcp.Delivery.Tally.{tally, entry_tally, tally-change_same, tally-queue}
use chitcp.Delivery.Recv.{draw-tally}
use chitcp.Signals.{set_state, drawn, ask_cleanup, update_tcp_state}

pub get-change :
    (si : Server) (i : ℕ) (f : Entry → Entry) (e : Entry)
    → get_elem? si.sockets i ≡ some e
    → get_elem? (change si i f).sockets i ≡ some (f e)
get-change si i f e g =
    rw (g, change) (get_elem?-set_self si.sockets i (f e) (get_elem?-lt si.sockets i e g))

module _ (weight : Segment → ℕ) where
  -- The same segments in the daemon, and entry `i` the same but for its withheld segments.
  abbrev Kept : Server → Server → ℕ → Entry → Type 0
  Kept si after i e =
      (ws : List Withheld) × (tally weight after ≡ tally weight si)
      × (get_elem? after.sockets i ≡ some (record e { withheld_segments = ws }))

  draw_withheld-Kept :
      (si : Server) (i : ℕ) (now : Time) (e : Entry)
      → get_elem? si.sockets i ≡ some e
      → Kept si (draw_withheld_segment si i now) i e
  unfolding draw_withheld_segment queue_drawn queue
  draw_withheld-Kept si i now e g = elim (draw-tally weight si i e g) [
    | inl (q, _) ↦
        let p : draw_withheld_segment si i now ≡ si = ap (λ x. queue_drawn x now) q in
        (e.withheld_segments, ap (tally weight) p, ap (λ x. get_elem? x.sockets i) p ∙ g)
    | inr (w, ws, _, first, t, g') ↦
        let si' = (draw si i).1 in
        let p : draw_withheld_segment si i now
            ≡ queue si' now w.segment w.local_addr w.remote_addr =
          ap (λ x. queue_drawn (x, si') now) first in
        (
          ws,
          omega (
            arith,
            ap (tally weight) p,
            tally-queue weight si' now w.segment w.local_addr w.remote_addr,
            t,
          ),
          ap (λ x. get_elem? x.sockets i) p ∙ g',
        )
  ]

  drawn-Kept :
      (resp : Response) (si : Server) (i : ℕ) (now : Time) (e : Entry)
      → get_elem? si.sockets i ≡ some e
      → Kept si (drawn resp si i now) i e
  unfolding drawn
  drawn-Kept none_resp si i now e g = (e.withheld_segments, refl, g)
  drawn-Kept stop si i now e g = (e.withheld_segments, refl, g)
  drawn-Kept accept_monitor si i now e g = (e.withheld_segments, refl, g)
  drawn-Kept drop si i now e g = (e.withheld_segments, refl, g)
  drawn-Kept duplicate si i now e g = (e.withheld_segments, refl, g)
  drawn-Kept withhold si i now e g = (e.withheld_segments, refl, g)
  drawn-Kept draw_withheld si i now e g = draw_withheld-Kept si i now e g

  -- A change of state of a socket in the table puts it in the new state, whatever the debug
  -- monitor answers, and the daemon holds the same segments and references; an active socket that is closed has
  -- its cleanup asked for.
  pub update_tcp_state_lem :
      (si : Server) (i : ℕ) (s : TcpState) (resp : Response) (now : Time) (e : Entry)
      → get_elem? si.sockets i ≡ some e
      → (e' : Entry) × (get_elem? (update_tcp_state si i s resp now).sockets i ≡ some e')
        × (e'.tcp_state ≡ s)
        × (e'.refcount ≡ e.refcount)
        × (s ≡ closed → e.actpas_type ≡ active → e'.active.flags.cleanup ≡ true)
        × (tally weight (update_tcp_state si i s resp now) ≡ tally weight si)
  unfolding update_tcp_state set_state ask_cleanup
  update_tcp_state_lem si i s resp now e g =
      let f : Entry → Entry = λ x. record x { tcp_state = s } in
      let g1 = get-change si i f e g in
      let (ws, t, g2) = drawn-Kept resp (set_state si i s) i now (f e) g1 in
      let x : Entry = record (f e) { withheld_segments = ws } in
      let si2 = drawn resp (set_state si i s) i now in
      (
        ask_cleanup s x,
        get-change si2 i (ask_cleanup s) x g2,
        ground arith,
        ground arith,
        λ c a. ground (arith, c, a),
        omega (
          arith,
          t,
          tally-change_same weight si i f (λ y. refl),
          tally-change_same weight si2 i (ask_cleanup s) (cleanup_same s),
        ),
      )
    where
      cleanup_same :
          (s : TcpState) (y : Entry) → entry_tally weight (ask_cleanup s y) ≡ entry_tally weight y
      cleanup_same s y = ground arith
