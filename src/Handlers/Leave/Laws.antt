-- ===== src/Handlers/Leave/Laws.antt =====
-- What a client leaves behind.
use chitcp.Base.{
  ℕ, ◌+◌, ◌-◌, ◌<◌, true, ◌≡◌, ◌≢◌, refl, ◌⊎◌, inl, inr, ◌↔◌, false, none, some, arith, get_elem?,
  ◌==◌, get_elem?-set_self, Bool-cases, ap, ◌∙◌, subst, ℤ,
}
use chitcp.Types.{closed, SocketType, active, passive, uninitialized}
use chitcp.Server.{Server, Entry, Segment}
use chitcp.Delivery.Tally.{tally, tally-release, tally-change_same}
use chitcp.Signals.Laws.{get-change, update_tcp_state_lem}
use chitcp.Sockets.{acquire, release, put_entry, change, free_begin}
use chitcp.Sockets.Refs.Cases.{acquire_cases, get_elem?-lt}
use chitcp.Sockets.Restore.{release-put}
use chitcp.Delivery.{Response, Time}
use chitcp.Signals.{update_tcp_state}
use chitcp.Handlers.Leave.{
  Leaving, skips, leaves, joins, frees, leave_own, leave_found, leave, null_call, call_of,
}

type-cases : (t : SocketType) → (t ≡ active) ⊎ (t ≡ passive) ⊎ (t ≡ uninitialized)
type-cases active = inl refl
type-cases passive = inr (inl refl)
type-cases uninitialized = inr (inr refl)

-- The socket `e` at place `i`, when its owner waits for its thread: it is CLOSED, its thread is to clean up,
-- nobody has a new reference, and the daemon has the same segments.
pub record Closing (si si' : Server) (i : ℕ) (e : Entry) : Type 0 where
  pub entry : Entry
  pub there : get_elem? si'.sockets i ≡ some entry
  pub closes : entry.tcp_state ≡ closed
  pub cleans : entry.active.flags.cleanup ≡ true
  pub references : entry.refcount ≡ e.refcount
  pub segments : (weight : Segment → ℕ) → tally weight si' ≡ tally weight si

abbrev pub Left : Server → ℕ → ℕ → Response → Time → Entry → Leaving → Type 0
Left si thread i resp now e o =
    ((e.creator_thread ≢ thread) × (o ≡ skips si))
    ⊎ ((e.creator_thread ≡ thread)
        × (e.actpas_type ≡ active)
        × (si' : Server) × (o ≡ joins i si')
        × Closing si si' i e)
    ⊎ ((e.creator_thread ≡ thread) × (e.actpas_type ≡ passive) × (o ≡ frees i (free_begin si i)))
    ⊎ ((e.creator_thread ≡ thread) × (e.actpas_type ≡ uninitialized) × (o ≡ leaves si))

own-active :
    (s : Server) (i : ℕ) (resp : Response) (now : Time) (e : Entry)
    → e.actpas_type ≡ active
    → leave_own s i resp now e ≡ joins i (release (update_tcp_state s i closed resp now) i)
unfolding leave_own
own-active s i resp now e t = rw t refl

active-Closing :
    (si : Server) (i : ℕ) (resp : Response) (now : Time) (e : Entry)
    → get_elem? si.sockets i ≡ some e
    → e.actpas_type ≡ active
    → Closing si
        (release
          (update_tcp_state
            (put_entry si i (record e { refcount = e.refcount + 1 }))
            i
            closed
            resp
            now)
          i)
        i
        e
unfolding release
active-Closing si i resp now e g t =
    let e' : Entry = record e { refcount = e.refcount + 1 } in
    let si' = put_entry si i e' in
    let g' = get_elem?-set_self si.sockets i e' (get_elem?-lt si.sockets i e g) in
    let (x, gx, is_closed, refs, clean, _) =
      update_tcp_state_lem (λ _. 0) si' i closed resp now e' g' in
    let after = update_tcp_state si' i closed resp now in
    record {
      entry = record x { refcount = x.refcount - 1 };
      there = get-change after i (λ y. record y { refcount = y.refcount - 1 }) x gx;
      closes = is_closed;
      cleans = clean refl t;
      references = omega (arith, refs);
      segments = λ weight.
          let (_, _, _, _, _, kept) = update_tcp_state_lem weight si' i closed resp now e' g' in
          let same : put_entry si i e' ≡ change si i (λ y. record y { refcount = y.refcount + 1 }) =
            rw (g, change) refl in
          omega (
            arith,
            tally-release weight after i,
            kept,
            ap (tally weight) same,
            tally-change_same weight si i (λ y. record y { refcount = y.refcount + 1 }) (λ y. refl),
          );
    }

leave_held :
    (si : Server) (thread i : ℕ) (resp : Response) (now : Time) (e : Entry)
    → get_elem? si.sockets i ≡ some e
    → acquire si (ℤ.pos i) ≡ (some i, put_entry si i (record e { refcount = e.refcount + 1 }))
    → Left si thread i resp now e (leave si thread i resp now)
unfolding leave leave_found leave_own
leave_held si thread i resp now e g q =
    let e' : Entry = record e { refcount = e.refcount + 1 } in
    let si' = put_entry si i e' in
    let g' = get_elem?-set_self si.sockets i e' (get_elem?-lt si.sockets i e g) in
    let r : leave si thread i resp now ≡ leave_found (some i, si') thread resp now =
      ap (λ x. leave_found x thread resp now) q in
    let back = release-put si i e g in
    elim (Bool-cases (e.creator_thread == thread)) [
      | inr other ↦ inl (ground (arith, other), r ∙ rw (g', leave_found, other) (ap skips back))
      | inl own ↦ elim (type-cases e.actpas_type) [
        | inl t ↦ inr (
            inl (
              ground (arith, own),
              t,
              _,
              r ∙ rw (g', leave_found, own) (own-active si' i resp now e' t),
              active-Closing si i resp now e g t,
            ))
        | inr (inl t) ↦ inr (
            inr (
              inl (
                ground (arith, own),
                t,
                r ∙ rw (g', leave_found, own, t) (ap (λ x. frees i (free_begin x i)) back),
              )))
        | inr (inr t) ↦
            inr (
              inr (inr (ground (arith, own), t, r ∙ rw (g', leave_found, own, t) (ap leaves back))))
      ]
    ]

-- What the thread of a client that has left does with each place of the table. It changes nothing at a socket that cannot be acquired or that another thread created. Its own active socket goes to CLOSED with its cleanup asked for, with the references that it had and all segments kept, whatever the debug monitor answers, and the thread waits for the socket's; its own passive socket it frees, without a reference of its own; and its own socket that was never connected and never listened stays in the table as it is.
pub leave_lem :
    (si : Server) (thread i : ℕ) (resp : Response) (now : Time)
    → ((acquire si (ℤ.pos i) ≡ (none, si)) × (leave si thread i resp now ≡ skips si))
      ⊎ ((e : Entry) × (get_elem? si.sockets i ≡ some e)
          × (e.available ≡ false)
          × (e.freeing ≡ false)
          × Left si thread i resp now e (leave si thread i resp now))
unfolding leave leave_found leave_own
leave_lem si thread i resp now = elim (acquire_cases si (ℤ.pos i)) [
  | inl q ↦ inl (q, ap (λ x. leave_found x thread resp now) q)
  | inr (j, e, inside, g, av, fr, q) ↦
      let same : j ≡ i = ground (arith, inside) in
      let g' = subst (λ k. get_elem? si.sockets k ≡ some e) same g in
      inr (
        e,
        g',
        av,
        fr,
        leave_held si thread i resp now e g' (
            subst
              (λ k.
                acquire si (ℤ.pos i)
                ≡ (some k, put_entry si k (record e { refcount = e.refcount + 1 })))
              same q),
      )
]

-- The dispatch calls a null pointer just for the codes 0 and 11 to 13, which are codes of messages but not of requests.
pub null_call_iff :
    (code : ℕ) → (call_of code ≡ null_call) ↔ ((code ≡ 0) ⊎ ((10 < code) × (code < 14)))
unfolding call_of
null_call_iff code = ground arith
